-- ===== src/Jit/Code/Sse.antt =====
-- src/jit.c, put_sse: the code for SSE instructions.
use rashid.Base.{
  ℕ, ◌+◌, bit_and, Bool, true, false, not, ◌||◌, none, some, List, [], ◌∷◌, ◌==◌, if◌then◌else◌,
}
use rashid.Emit.{ThreeRegs, three_regs, Transfer, transfer, bcond}
use rashid.Emit.Others
use rashid.Emit.Others.{
  Float, float, mov, fcmp_d, fcmp_s, fcsel_d, fcsel_s, fop_d, fop_s, csetm, csetm_w,
}
use rashid.Jit.Address
use rashid.Jit.Constant.{Buf, put, put_imm}
use rashid.Jit.Words.{Layout, cpu_reg, off_r, put_call, put_set_rip, put_ea}
use rashid.Jit.Decode.Common.{Decoded, Sse}
use rashid.Jit.Code.{
  Helpers, eq, ne, mi, pl, vs, vc, hi, ls, gt, off_tmp, off_xmm, puts, here, patch, put_patch_bcond,
  put_fault_check, put_load, put_store,
}

-- The fields of an operand that is not in memory, as the memset leaves them.
abbrev pub no_operand : Address.Insn
no_operand = record { base = none; index = none; scale = 0; riprel = false; disp = 0 }

-- put_set_rip and put_ea, as they follow one another for an operand in memory.
unfoldable pub put_address : Layout → Buf → Decoded → ℕ → Buf
unfolding put_set_rip put_ea
put_address l b o rip =
    put_ea l (put_set_rip l b rip) o.next (elim o.operand [ none ↦ no_operand | some a ↦ a ])

abbrev pub in_memory : Decoded → Bool
in_memory o = elim o.operand [ none ↦ false | some _ ↦ true ]

-- cmp_cond
abbrev pub cmp_cond : ℕ → ℕ
cmp_cond p =
    if p == 0
    then eq
    else if p == 1
    then mi
    else if p == 2
    then ls
    else if p == 3
    then vs
    else if p == 4
    then ne
    else if p == 5
    then pl
    else if p == 6
    then hi
    else vc

abbrev ldr_x : Layout → Bool → ℕ → ℕ → ℕ
ldr_x l dbl d off = transfer (if dbl then Transfer.ldr_d else Transfer.ldr_s) d cpu_reg off

abbrev str_x : Layout → Bool → ℕ → ℕ → ℕ
str_x l dbl d off = transfer (if dbl then Transfer.str_d else Transfer.str_s) d cpu_reg off

-- A general register to d1 or d0.
abbrev fmov_in : Bool → ℕ → ℕ
fmov_in dbl d = float (if dbl then Float.fmov_dx else Float.fmov_sw) d 0

abbrev fmov_out : Bool → ℕ → ℕ → ℕ
fmov_out dbl x d = float (if dbl then Float.fmov_xd else Float.fmov_ws) x d

abbrev fcmp : Bool → ℕ → ℕ → ℕ
fcmp dbl n m = if dbl then fcmp_d n m else fcmp_s n m

abbrev fcsel : Bool → ℕ → ℕ
fcsel dbl cond = if dbl then fcsel_d 0 0 1 cond else fcsel_s 0 0 1 cond

abbrev fop : Bool → ℕ → ℕ
fop dbl op = if dbl then fop_d op 0 0 1 else fop_s op 0 0 1

unfoldable pub put_fsrc : Layout → Helpers → Buf → Decoded → Sse → ℕ → Bool → Buf
unfolding put put_address put_load
put_fsrc l h b o x rip dbl =
    if in_memory o
    then put (put_load l h (put_address l b o rip) (if dbl then 8 else 4)) (fmov_in dbl 1)
    else put b (ldr_x l dbl 1 (off_xmm l x.xsrc))

-- movsd and movss, 0x10 and 0x11
unfoldable pub put_scalar_move : Layout → Helpers → Buf → Decoded → Sse → ℕ → Buf
unfolding put puts put_address put_load put_store
put_scalar_move l h b o x rip =
    let dbl = x.mand == 0xF2 in
    let dst = off_xmm l x.xreg in
    let is_store = x.op2 == 0x11 in
    let from = if is_store then dst else off_xmm l x.xsrc in
    let to = if is_store then off_xmm l x.xsrc else dst in
    let size = if dbl then 8 else 4 in
    let at = put_address l b o rip in
    if not (in_memory o)
    then puts b (
        transfer (if dbl then Transfer.ldr else Transfer.ldr_w) 1 cpu_reg from
        ∷ transfer (if dbl then Transfer.str else Transfer.str_w) 1 cpu_reg to
        ∷ [])
    else if is_store
    then put_store l h (put at (transfer Transfer.ldr 2 cpu_reg dst)) size
    else puts (put_load l h at size)
        (transfer Transfer.str 0 cpu_reg dst ∷ transfer Transfer.str 31 cpu_reg (dst + 8) ∷ [])

-- The copies of 128 bits
unfoldable pub put_copy : Layout → Helpers → Buf → Decoded → Sse → ℕ → Buf
unfolding puts put_address put_call put_fault_check
put_copy l h b o x rip =
    let dst = off_xmm l x.xreg in
    let is_store = bit_and x.op2 1 == 1 in
    let from = if is_store then dst else off_xmm l x.xsrc in
    let to = if is_store then off_xmm l x.xsrc else dst in
    if not (in_memory o)
    then puts b (
        transfer Transfer.ldr 1 cpu_reg from
        ∷ transfer Transfer.ldr 2 cpu_reg (from + 8)
        ∷ transfer Transfer.str 1 cpu_reg to
        ∷ transfer Transfer.str 2 cpu_reg (to + 8)
        ∷ [])
    else put_fault_check l (
        put_call (puts (put_address l b o rip) (Others.add_imm 2 cpu_reg dst ∷ mov 0 cpu_reg ∷ []))
          (if is_store then h.st128 else h.ld128))

-- The operation on the two halves
abbrev bitwise_words : ℕ → List ℕ
bitwise_words op2 =
    if (op2 == 0x54) || (op2 == 0xDB)
    then three_regs ThreeRegs.and 1 1 4 ∷ three_regs ThreeRegs.and 2 2 5 ∷ []
    else if op2 == 0x55
    then three_regs ThreeRegs.bic 1 4 1 ∷ three_regs ThreeRegs.bic 2 5 2 ∷ []
    else if (op2 == 0x56) || (op2 == 0xEB)
    then three_regs ThreeRegs.orr 1 1 4 ∷ three_regs ThreeRegs.orr 2 2 5 ∷ []
    else three_regs ThreeRegs.eor 1 1 4 ∷ three_regs ThreeRegs.eor 2 2 5 ∷ []

unfoldable pub put_bitwise : Layout → Helpers → Buf → Decoded → Sse → ℕ → Buf
unfolding puts put_address put_call put_fault_check
put_bitwise l h b o x rip =
    let dst = off_xmm l x.xreg in
    let src = if in_memory o then off_tmp l 0 else off_xmm l x.xsrc in
    let loaded = put_fault_check l (
      put_call
        (puts (put_address l b o rip) (Others.add_imm 2 cpu_reg (off_tmp l 0) ∷ mov 0 cpu_reg ∷ []))
        h.ld128) in
    let b1 = puts (if in_memory o then loaded else b) (
      transfer Transfer.ldr 4 cpu_reg src
      ∷ transfer Transfer.ldr 5 cpu_reg (src + 8)
      ∷ transfer Transfer.ldr 1 cpu_reg dst
      ∷ transfer Transfer.ldr 2 cpu_reg (dst + 8)
      ∷ []) in
    puts (puts b1 (bitwise_words x.op2))
      (transfer Transfer.str 1 cpu_reg dst ∷ transfer Transfer.str 2 cpu_reg (dst + 8) ∷ [])

-- The operation of scalar arithmetic on d0 and d1
abbrev arith_words : Bool → ℕ → List ℕ
arith_words dbl op2 =
    if op2 == 0x58
    then fop dbl 0x2800 ∷ []
    else if op2 == 0x59
    then fop dbl 0x0800 ∷ []
    else if op2 == 0x5C
    then fop dbl 0x3800 ∷ []
    else if op2 == 0x5E
    then fop dbl 0x1800 ∷ []
    else if op2 == 0x51
    then float (if dbl then Float.fsqrt_d else Float.fsqrt_s) 0 1 ∷ []
    else if op2 == 0x5D
    then fcmp dbl 0 1 ∷ fcsel dbl mi ∷ []
    else fcmp dbl 0 1 ∷ fcsel dbl gt ∷ []

-- The NaN of x86, where the result is one.
unfoldable pub put_nan : Helpers → Buf → Bool → Bool → Buf
unfolding put puts patch put_imm put_call
put_nan h b dbl unary =
    let b1 = put b (fcmp dbl 0 0) in
    let skip = here b1 in
    let b2 = puts b1 (
      bcond vc 0
      ∷ fmov_out dbl 0 0
      ∷ fmov_out dbl 1 (if unary then 1 else 2)
      ∷ fmov_out dbl 2 1
      ∷ []) in
    let b3 = put_call (put_imm b2 3 (if unary then 1 else 0)) (if dbl then h.nan_d else h.nan_s) in
    put_patch_bcond (put b3 (fmov_in dbl 0)) skip vc

unfoldable pub put_scalar : Layout → Helpers → Buf → Decoded → Sse → ℕ → Buf
unfolding put puts put_fsrc put_nan
put_scalar l h b o x rip =
    let dbl = x.mand == 0xF2 in
    let dst = off_xmm l x.xreg in
    let unary = x.op2 == 0x51 in
    let b1 =
      puts (put_fsrc l h b o x rip dbl)
        (if unary then [] else ldr_x l dbl 0 dst ∷ ldr_x l dbl 2 dst ∷ []) in
    let b2 = puts b1 (arith_words dbl x.op2) in
    put (if (x.op2 == 0x5D) || (x.op2 == 0x5F) then b2 else put_nan h b2 dbl unary)
      (str_x l dbl 0 dst)

unfoldable pub put_compare : Layout → Helpers → Buf → Decoded → Sse → ℕ → Buf
unfolding puts put_fsrc
put_compare l h b o x rip =
    let dbl = x.mand == 0xF2 in
    let dst = off_xmm l x.xreg in
    puts (put_fsrc l h b o x rip dbl) (
      ldr_x l dbl 0 dst
      ∷ fcmp dbl 0 1
      ∷ (if dbl then csetm 3 (cmp_cond x.pred) else csetm_w 3 (cmp_cond x.pred))
      ∷ transfer (if dbl then Transfer.str else Transfer.str_w) 3 cpu_reg dst
      ∷ [])

-- An operand of a helper: the value in memory moved from x0, or the load of a register.
unfoldable pub put_value : Layout → Helpers → Buf → Decoded → ℕ → ℕ → ℕ → ℕ → Buf
unfolding put put_address put_load
put_value l h b o rip size d load =
    if in_memory o then put (put_load l h (put_address l b o rip) size) (mov d 0) else put b load

unfoldable pub put_comis : Layout → Helpers → Buf → Decoded → Sse → ℕ → Buf
unfolding puts put_value put_call
put_comis l h b o x rip =
    let d64 = x.mand == 0x66 in
    let form = if d64 then Transfer.ldr else Transfer.ldr_w in
    let b1 =
      put_value l h b o rip (if d64 then 8 else 4) 2 (transfer form 2 cpu_reg (off_xmm l x.xsrc)) in
    put_call (puts b1 (transfer form 1 cpu_reg (off_xmm l x.xreg) ∷ mov 0 cpu_reg ∷ []))
      (if d64 then h.comisd else h.comiss)

-- cvtsi2sd and cvtsi2ss
unfoldable pub put_from_int : Layout → Helpers → Buf → Decoded → Sse → ℕ → Buf
unfolding puts put_value
put_from_int l h b o x rip =
    let dbl = x.mand == 0xF2 in
    let wide = x.isize == 8 in
    let form =
      if dbl
      then (if wide then Float.scvtf_dx else Float.scvtf_dw)
      else if wide
      then Float.scvtf_sx
      else Float.scvtf_sw in
    puts (put_value l h b o rip x.isize 1 (transfer Transfer.ldr 1 cpu_reg (off_r l x.xsrc)))
      (float form 0 1 ∷ str_x l dbl 0 (off_xmm l x.xreg) ∷ [])

-- cvtsd2si, cvttsd2si and the same of ss
unfoldable pub put_to_int : Layout → Helpers → Buf → Decoded → Sse → ℕ → Buf
unfolding put put_value put_imm put_call
put_to_int l h b o x rip =
    let size = if x.mand == 0xF2 then 8 else 4 in
    let b1 = put_value l h b o rip size 1 (transfer Transfer.ldr 1 cpu_reg (off_xmm l x.xsrc)) in
    let b2 = put_imm (put b1 (mov 0 cpu_reg)) 2 size in
    let b3 = put_imm (put_imm b2 3 (if x.op2 == 0x2D then 1 else 0)) 4 x.isize in
    put (put_call b3 h.cvt2si) (transfer Transfer.str 0 cpu_reg (off_r l x.xreg))

-- cvtsd2ss and cvtss2sd
unfoldable pub put_convert : Layout → Helpers → Buf → Decoded → Sse → ℕ → Buf
unfolding puts put_fsrc
put_convert l h b o x rip =
    let dbl = x.mand == 0xF2 in
    puts (put_fsrc l h b o x rip dbl) (
      float (if dbl then Float.fcvt_sd else Float.fcvt_ds) 0 1
      ∷ str_x l (not dbl) 0 (off_xmm l x.xreg)
      ∷ [])

-- `put_sse`
unfoldable pub put_sse : Layout → Helpers → Buf → Decoded → Sse → ℕ → Buf
unfolding put_scalar_move put_copy put_bitwise put_scalar put_compare put_comis put_from_int
    put_to_int put_convert
put_sse l h b o x rip =
    let n = x.op2 in
    if (n == 0x10) || (n == 0x11)
    then (if (x.mand == 0xF2) || (x.mand == 0xF3)
        then put_scalar_move l h b o x rip
        else put_copy l h b o x rip)
    else if (n == 0x28) || (n == 0x29)
    then put_copy l h b o x rip
    else if (n == 0x54)
        || (n == 0x55)
        || (n == 0x56)
        || (n == 0x57)
        || (n == 0xDB)
        || (n == 0xEB)
        || (n == 0xEF)
    then put_bitwise l h b o x rip
    else if (n == 0x51)
        || (n == 0x58)
        || (n == 0x59)
        || (n == 0x5C)
        || (n == 0x5D)
        || (n == 0x5E)
        || (n == 0x5F)
    then put_scalar l h b o x rip
    else if n == 0xC2
    then put_compare l h b o x rip
    else if (n == 0x2E) || (n == 0x2F)
    then put_comis l h b o x rip
    else if n == 0x2A
    then put_from_int l h b o x rip
    else if (n == 0x2C) || (n == 0x2D)
    then put_to_int l h b o x rip
    else if n == 0x5A
    then put_convert l h b o x rip
    else record b { full = true }
