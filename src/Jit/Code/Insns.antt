-- ===== src/Jit/Code/Insns.antt =====
-- src/jit.c, put_insn: the code for one instruction, one definition per case.
use rashid.Base.{
  ℕ, ◌*◌, bit_and, Bool, true, false, not, ◌&&◌, Option, none, some, List, [], ◌∷◌, ◌==◌, sub64,
  if◌then◌else◌,
}
use rashid.Cpu.{has}
use rashid.Emit.{ThreeRegs, three_regs, Transfer, transfer, cbz_w}
use rashid.Emit.Others
use rashid.Emit.Others.{mov, mov_w, ubfx, cset, csel}
use rashid.Jit.Constant.{Buf, put, put_imm}
use rashid.Jit.Words.{
  Layout, cpu_reg, off_r, Routine, put_set_rip, put_leave, put_cond_even, put_rd_reg, put_wr_reg,
  put_ea, put_op, put_call,
}
use rashid.Jit.Liveness.{Kind}
use rashid.Jit.Decode.Common.{Decoded, Sse}
use rashid.Jit.Code.{Helpers, eq, ne, off_tmp, puts, here, patch, put_flags, put_load, put_store}
use rashid.Jit.Code.Sse.{put_address, in_memory, no_operand, put_sse}

abbrev ldr : Layout → ℕ → ℕ → ℕ
ldr l d off = transfer Transfer.ldr d cpu_reg off

abbrev str : Layout → ℕ → ℕ → ℕ
str l d off = transfer Transfer.str d cpu_reg off

-- The operation on x1 and x2, and the register that it writes.
unfoldable pub put_result : Layout → Helpers → Buf → Decoded → ℕ → Buf
unfolding put_op put_wr_reg put_flags
put_result l h b o need =
    let (b1, fl) = put_op b o.op o.size in
    let b2 = if o.no_write then b1 else put_wr_reg l b1 3 o.has_rex o.reg o.size in
    put_flags l h b2 need fl o.size

-- K_RR and K_RI
unfoldable pub put_reg_op : Layout → Helpers → Buf → Decoded → ℕ → Bool → Buf
unfolding put_imm put_rd_reg put_result
put_reg_op l h b o need is_imm =
    let b1 = put_rd_reg l b 1 o.has_rex o.reg o.size in
    let b2 = if is_imm then put_imm b1 2 o.imm else put_rd_reg l b1 2 o.has_rex o.src o.size in
    put_result l h b2 o need

-- K_RM
unfoldable pub put_reg_mem : Layout → Helpers → Buf → Decoded → ℕ → ℕ → Buf
unfolding put put_address put_load put_rd_reg put_result
put_reg_mem l h b o rip need =
    let b1 = put (put_load l h (put_address l b o rip) o.size) (mov 2 0) in
    put_result l h (put_rd_reg l b1 1 o.has_rex o.reg o.size) o need

-- The value that a shift works on, into x1.
unfoldable pub put_shifted : Layout → Helpers → Buf → Decoded → ℕ → Buf
unfolding put puts put_address put_load put_rd_reg
put_shifted l h b o rip =
    let b1 = puts b (if o.by_cl then str l 5 (off_tmp l 1) ∷ [] else []) in
    let b2 = put (put_address l b1 o rip) (str l 1 (off_tmp l 0)) in
    let b3 = put (put_load l h b2 o.size) (mov 1 0) in
    if in_memory o
    then puts b3 (if o.by_cl then ldr l 5 (off_tmp l 1) ∷ [] else [])
    else put_rd_reg l b 1 o.has_rex o.reg o.size

-- K_SHIFT
unfoldable pub put_shift : Layout → Helpers → Buf → Decoded → ℕ → Buf
unfolding put puts patch put_imm put_call put_shifted put_store put_wr_reg
put_shift l h b o rip =
    let mask = if o.size == 8 then 63 else 31 in
    let b1 = puts b (
      if o.by_cl
      then ldr l 5 (off_r l 1) ∷ ubfx 5 5 0 (if mask == 63 then 6 else 5) ∷ []
      else []) in
    let skip = here b1 in
    let b2 = puts b1 (if o.by_cl then cbz_w 5 0 ∷ [] else []) in
    let b3 = put_shifted l h b2 o rip in
    let b4 = if o.by_cl then put b3 (mov 2 5) else put_imm b3 2 (bit_and o.imm mask) in
    let b5 = put_imm (put_imm (put b4 (mov 0 cpu_reg)) 3 o.size) 4 o.ext in
    let b6 = put_call b5 h.shift in
    let b7 =
      if in_memory o
      then put_store l h (puts b6 (mov 2 0 ∷ ldr l 1 (off_tmp l 0) ∷ [])) o.size
      else put_wr_reg l b6 0 o.has_rex o.reg o.size in
    if not o.by_cl && not (has (bit_and o.imm mask))
    then b
    else if o.by_cl
    then patch b7 skip (cbz_w 5 (sub64 (here b7) skip))
    else b7

-- K_IMUL
unfoldable pub put_imul : Layout → Helpers → Buf → Decoded → ℕ → ℕ → Buf
unfolding put puts put_address put_load put_imm put_flags
put_imul l h b o rip need =
    let b1 =
      if in_memory o
      then put (put_load l h (put_address l b o rip) o.size) (mov 1 0)
      else put b (ldr l 1 (off_r l o.src)) in
    let b2 = if o.imm_src then put_imm b1 2 o.imm else put b1 (ldr l 2 (off_r l o.reg)) in
    let b3 = puts b2 (
      three_regs (if o.size == 8 then ThreeRegs.mul else ThreeRegs.mul_w) 3 1 2
      ∷ str l 3 (off_r l o.reg)
      ∷ []) in
    put_flags l h b3 need (some Routine.logic) o.size

-- Which of the two conditions a code stands for, once its even one is known.
abbrev pub odd_cond : ℕ → ℕ
odd_cond cc = if has (bit_and cc 1) then eq else ne

-- K_SETCC
unfoldable pub put_setcc : Layout → Helpers → Buf → Decoded → ℕ → Buf
unfolding put put_cond_even put_address put_store put_wr_reg
put_setcc l h b o rip =
    let b1 = put (put_cond_even l b o.cc) (cset 0 (odd_cond o.cc)) in
    if in_memory o
    then put_store l h
        (put (put_address l (put b1 (str l 0 (off_tmp l 0))) o rip) (ldr l 2 (off_tmp l 0))) 1
    else put_wr_reg l b1 0 o.has_rex o.reg 1

-- K_MOVX
unfoldable pub put_movx : Layout → Helpers → Buf → Decoded → ℕ → Buf
unfolding puts put_address put_load put_rd_reg
put_movx l h b o rip =
    let bits = o.ssize * 8 in
    let b1 =
      if in_memory o
      then put_load l h (put_address l b o rip) o.ssize
      else put_rd_reg l b 0 o.has_rex o.src o.ssize in
    puts b1 (
      (if not o.sign
        then ubfx 0 0 0 bits
        else if o.size == 8
        then Others.sxt 0 0 bits
        else Others.sxt_w 0 0 bits)
      ∷ str l 0 (off_r l o.reg)
      ∷ [])

-- The value that K_MR and K_MI combine with memory, into x2.
unfoldable pub put_source : Layout → Buf → Decoded → Bool → Buf
unfolding put_imm put_rd_reg
put_source l b o is_imm =
    if is_imm then put_imm b 2 o.imm else put_rd_reg l b 2 o.has_rex o.reg o.size

-- x3 into memory, with the operands kept for the flags.
unfoldable pub put_back : Layout → Helpers → Buf → ℕ → Buf
unfolding puts put_store
put_back l h b size =
    let b1 = puts b (
      str l 1 (off_tmp l 1)
      ∷ str l 2 (off_tmp l 2)
      ∷ str l 3 (off_tmp l 3)
      ∷ mov 2 3
      ∷ ldr l 1 (off_tmp l 0)
      ∷ []) in
    puts (put_store l h b1 size)
      (ldr l 1 (off_tmp l 1) ∷ ldr l 2 (off_tmp l 2) ∷ ldr l 3 (off_tmp l 3) ∷ [])

-- K_MR and K_MI
unfoldable pub put_mem_op : Layout → Helpers → Buf → Decoded → ℕ → ℕ → Bool → Buf
unfolding put put_address put_load put_source put_store put_op put_back put_flags
put_mem_op l h b o rip need is_imm =
    let b1 = put_address l b o rip in
    let b2 = put_load l h (put b1 (str l 1 (off_tmp l 0))) o.size in
    let (b3, fl) = put_op (put_source l (put b2 (mov 1 0)) o is_imm) o.op o.size in
    let b4 = if o.no_write then b3 else put_back l h b3 o.size in
    if o.op == 0x88
    then put_store l h (put_source l b1 o is_imm) o.size
    else put_flags l h b4 need fl o.size

-- K_LEA
unfoldable pub put_lea : Layout → Buf → Decoded → Buf
unfolding puts put_ea
put_lea l b o =
    let b1 = put_ea l b o.next (elim o.operand [ none ↦ no_operand | some a ↦ a ]) in
    puts b1 (
      if o.size == 4
      then mov_w 3 1 ∷ str l 3 (off_r l o.reg) ∷ []
      else str l 1 (off_r l o.reg) ∷ [])

-- rsp - 8, into the register and x1.
abbrev push_words : Layout → List ℕ
push_words l = ldr l 1 (off_r l 4) ∷ Others.sub_imm 1 1 8 ∷ str l 1 (off_r l 4) ∷ []

-- rsp + 8, into the register.
abbrev pop_words : Layout → List ℕ
pop_words l = ldr l 1 (off_r l 4) ∷ Others.add_imm 1 1 8 ∷ str l 1 (off_r l 4) ∷ []

-- K_PUSH
unfoldable pub put_push : Layout → Helpers → Buf → Decoded → ℕ → Buf
unfolding put puts put_set_rip put_store
put_push l h b o rip =
    put_store l h (put (puts (put_set_rip l b rip) (push_words l)) (ldr l 2 (off_r l o.reg))) 8

-- K_POP
unfoldable pub put_pop : Layout → Helpers → Buf → Decoded → ℕ → Buf
unfolding put puts put_set_rip put_load
put_pop l h b o rip =
    let b1 = put_load l h (put (put_set_rip l b rip) (ldr l 1 (off_r l 4))) 8 in
    puts (put b1 (str l 0 (off_r l o.reg))) (pop_words l)

-- K_JMP
unfoldable pub put_jmp : Buf → Decoded → Buf
unfolding put_imm put_leave
put_jmp b o = put_leave (put_imm b 0 o.target)

-- K_JCC
unfoldable pub put_jcc : Layout → Buf → Decoded → Buf
unfolding put put_cond_even put_imm put_leave
put_jcc l b o =
    let b1 = put_imm (put_imm (put_cond_even l b o.cc) 2 o.target) 3 o.next in
    put_leave (put b1 (csel 0 2 3 (odd_cond o.cc)))

-- The return address onto the stack.
unfoldable pub put_push_next : Layout → Helpers → Buf → Decoded → Buf
unfolding puts put_imm put_store
put_push_next l h b o = put_store l h (put_imm (puts b (push_words l)) 2 o.next) 8

-- K_CALL
unfoldable pub put_call_rel : Layout → Helpers → Buf → Decoded → ℕ → Buf
unfolding put_set_rip put_push_next put_imm put_leave
put_call_rel l h b o rip =
    put_leave (put_imm (put_push_next l h (put_set_rip l b rip) o) 0 o.target)

-- K_RET
unfoldable pub put_ret : Layout → Helpers → Buf → Decoded → ℕ → Buf
unfolding put puts put_set_rip put_load put_leave
put_ret l h b o rip =
    let b1 = put_load l h (put (put_set_rip l b rip) (ldr l 1 (off_r l 4))) 8 in
    let b2 = puts (put b1 (str l 0 (off_tmp l 0))) (pop_words l) in
    put_leave (put b2 (ldr l 0 (off_tmp l 0)))

-- K_CALLM
unfoldable pub put_call_mem : Layout → Helpers → Buf → Decoded → ℕ → Buf
unfolding put put_address put_set_rip put_push_next put_load put_leave
put_call_mem l h b o rip =
    let start =
      if in_memory o
      then put (put_address l b o rip) (str l 1 (off_tmp l 0))
      else put_set_rip l b rip in
    let b1 = put_push_next l h start o in
    put_leave (
      if in_memory o
      then put_load l h (put b1 (ldr l 1 (off_tmp l 0))) 8
      else put b1 (ldr l 0 (off_r l o.reg)))

-- K_JMPM
unfoldable pub put_jmp_mem : Layout → Helpers → Buf → Decoded → ℕ → Buf
unfolding put put_address put_load put_leave
put_jmp_mem l h b o rip = put_leave (
    if in_memory o then put_load l h (put_address l b o rip) 8 else put b (ldr l 0 (off_r l o.reg)))

-- K_SSE; the decoder fills in the fields of every SSE instruction.
unfoldable pub put_fields : Layout → Helpers → Buf → Decoded → ℕ → Option Sse → Buf
unfolding put_sse
put_fields l h b o rip none = record b { full = true }
put_fields l h b o rip (some x) = put_sse l h b o x rip

-- `put_insn`, by the kind; `need` is the instruction's `fneed`.
unfoldable pub put_kind : Kind → Layout → Helpers → Buf → Decoded → ℕ → ℕ → Buf
unfolding put_fields put_reg_op put_reg_mem put_shift put_imul put_setcc put_movx put_mem_op put_lea
    put_push put_pop put_jmp put_jcc put_call_rel put_ret put_call_mem put_jmp_mem
put_kind Kind.nop l h b o rip need = b
put_kind Kind.sse l h b o rip need = put_fields l h b o rip o.sse
put_kind Kind.rr l h b o rip need = put_reg_op l h b o need false
put_kind Kind.ri l h b o rip need = put_reg_op l h b o need true
put_kind Kind.rm l h b o rip need = put_reg_mem l h b o rip need
put_kind Kind.shift l h b o rip need = put_shift l h b o rip
put_kind Kind.imul l h b o rip need = put_imul l h b o rip need
put_kind Kind.setcc l h b o rip need = put_setcc l h b o rip
put_kind Kind.movx l h b o rip need = put_movx l h b o rip
put_kind Kind.mr l h b o rip need = put_mem_op l h b o rip need false
put_kind Kind.mi l h b o rip need = put_mem_op l h b o rip need true
put_kind Kind.lea l h b o rip need = put_lea l b o
put_kind Kind.push l h b o rip need = put_push l h b o rip
put_kind Kind.pop l h b o rip need = put_pop l h b o rip
put_kind Kind.jmp l h b o rip need = put_jmp b o
put_kind Kind.jcc l h b o rip need = put_jcc l b o
put_kind Kind.call l h b o rip need = put_call_rel l h b o rip
put_kind Kind.ret l h b o rip need = put_ret l h b o rip
put_kind Kind.callm l h b o rip need = put_call_mem l h b o rip
put_kind Kind.jmpm l h b o rip need = put_jmp_mem l h b o rip

unfoldable pub put_insn : Layout → Helpers → Buf → Decoded → ℕ → ℕ → Buf
unfolding put_kind
put_insn l h b o rip need = put_kind o.kind l h b o rip need
