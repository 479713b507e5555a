-- ===== src/Jit/Words.antt =====
-- src/jit.c: the words for calls, registers, addresses, conditions and operations.
use rashid.Base.{
  ℕ, ◌+◌, ◌-◌, ◌*◌, ◌/◌, ◌^◌, bit_and, Bool, true, not, ◌&&◌, ◌||◌, Option, none, some, ltb, leb,
  ◌==◌, if◌then◌else◌, add64, sub64,
}
use rashid.Cpu.{has}
use rashid.Emit.{ThreeRegs, three_regs, Transfer, transfer, movz}
use rashid.Emit.Others
use rashid.Emit.Others.{ubfx, bfi, add_shift, add_imm, sub_imm, cmp0, blr, return_word}
use rashid.Jit.Address.{Insn}
use rashid.Jit.Constant.{Buf, put, put_imm}
use rashid.Jit.Liveness.{op_inc, op_dec}

-- Where the fields of `rsd_cpu` that compiled code uses lie: offsetof.
pub record Layout : Type 0 where
  pub off_r0 : ℕ
  pub off_tmp0 : ℕ
  pub off_xmm0 : ℕ
  pub off_currip : ℕ
  pub off_running : ℕ
  pub off_flags : ℕ
  pub off_as : ℕ

abbrev pub cpu_reg : ℕ
cpu_reg = 19

abbrev pub off_r : Layout → ℕ → ℕ
off_r l i = l.off_r0 + i * 8

unfoldable pub put_call : Buf → ℕ → Buf
unfolding put put_imm
put_call b fn = put (put_imm b 9 fn) (blr 9)

unfoldable pub put_set_rip : Layout → Buf → ℕ → Buf
unfolding put put_imm
put_set_rip l b rip = put (put_imm b 9 rip) (transfer Transfer.str 9 cpu_reg l.off_currip)

unfoldable pub put_leave : Buf → Buf
unfolding put
put_leave b = put (put b (Others.pop 30)) return_word

-- One flag, from its position in the flags word in x9.
unfoldable pub flag_to : Buf → ℕ → ℕ → Buf
unfolding put
flag_to b d lsb = put b (ubfx d 9 lsb 1)

-- x0 and x10 into x0
unfoldable pub join : Buf → ThreeRegs → Buf
unfolding put
join b o = put b (three_regs o 0 0 10)

-- The switch of `put_cond_even`, behind the load of the flags.
unfoldable pub put_even : Buf → ℕ → Buf
unfolding put flag_to join
put_even b kind =
    let differ = join (flag_to (flag_to b 0 7) 10 11) ThreeRegs.eor in
    if kind == 0
    then flag_to b 0 11
    else if kind == 1
    then flag_to b 0 0
    else if kind == 2
    then flag_to b 0 6
    else if kind == 3
    then join (flag_to (flag_to b 0 0) 10 6) ThreeRegs.orr
    else if kind == 4
    then flag_to b 0 7
    else if kind == 5
    then flag_to b 0 2
    else if kind == 6
    then differ
    else join (flag_to differ 10 6) ThreeRegs.orr

-- `put_cond_even`: the condition, without its lowest digit, as 0 or 1 in x0.
unfoldable pub put_cond_even : Layout → Buf → ℕ → Buf
unfolding put put_even
put_cond_even l b cc =
    let b0 = put b (transfer Transfer.ldr_w 9 cpu_reg l.off_flags) in
    put (put_even b0 (bit_and (cc / 2) 7)) (cmp0 0)

-- `is_high_byte`, for an instruction with or without a REX prefix.
abbrev pub is_high_byte : Bool → ℕ → ℕ → Bool
is_high_byte has_rex i size = (size == 1) && not has_rex && leb 4 i && ltb i 8

unfoldable pub put_rd_reg : Layout → Buf → ℕ → Bool → ℕ → ℕ → Buf
unfolding put
put_rd_reg l b dst has_rex i size =
    if is_high_byte has_rex i size
    then put (put b (transfer Transfer.ldr dst cpu_reg (off_r l (i - 4)))) (ubfx dst dst 8 8)
    else put b (transfer Transfer.ldr dst cpu_reg (off_r l i))

unfoldable pub put_wr_reg : Layout → Buf → ℕ → Bool → ℕ → ℕ → Buf
unfolding put
put_wr_reg l b src has_rex i size =
    if not (size == 1)
    then put b (transfer Transfer.str src cpu_reg (off_r l i))
    else if is_high_byte has_rex i size
    then (let b1 = put b (transfer Transfer.ldr 9 cpu_reg (off_r l (i - 4))) in
        let b2 = put b1 (bfi 9 src 8 8) in
        put b2 (transfer Transfer.str 9 cpu_reg (off_r l (i - 4))))
    else put b (transfer Transfer.strb src cpu_reg (off_r l i))

-- The displacement, added to x1; it is an int64_t by its pattern.
unfoldable pub put_disp : Buf → ℕ → Buf
unfolding put put_imm
put_disp b disp =
    if has disp && ltb disp 4096
    then put b (add_imm 1 1 disp)
    else if ltb (2 ^ 64 - 4096) disp
    then put b (sub_imm 1 1 (sub64 0 disp))
    else if has disp
    then put (put_imm b 6 disp) (three_regs ThreeRegs.add 1 1 6)
    else b

-- The index times its scale, added to x1.
unfoldable pub put_index : Layout → Buf → ℕ → ℕ → Buf
unfolding put
put_index l b i scale =
    put (put b (transfer Transfer.ldr 6 cpu_reg (off_r l i))) (add_shift 1 1 6 scale)

-- A base and an index, each of them present or not.
unfoldable pub put_based : Layout → Buf → Option ℕ → Option ℕ → ℕ → ℕ → Buf
unfolding put put_imm put_disp put_index
put_based l b none none scale disp = put_imm b 1 disp
put_based l b none (some i) scale disp = put_disp (put_index l (put b (movz 1 0 0)) i scale) disp
put_based l b (some r) none scale disp =
    put_disp (put b (transfer Transfer.ldr 1 cpu_reg (off_r l r))) disp
put_based l b (some r) (some i) scale disp =
    put_disp (put_index l (put b (transfer Transfer.ldr 1 cpu_reg (off_r l r))) i scale) disp

-- `put_ea`, for the instruction that ends at `next`.
unfoldable pub put_ea : Layout → Buf → ℕ → Insn → Buf
unfolding put_imm put_based
put_ea l b next o =
    if o.riprel
    then put_imm b 1 (add64 next o.disp)
    else put_based l b o.base o.index o.scale o.disp

-- The flag routine that an operation asks for.
pub data Routine : Type 0 where
  add sub logic inc dec : Routine

-- The three-register form of an operation, narrow or not, on x1 and x2.
unfoldable pub put_three : Buf → Bool → ThreeRegs → ThreeRegs → Buf
unfolding put
put_three b w narrow whole = put b (three_regs (if w then narrow else whole) 3 1 2)

-- `put_op`: x1 and x2 into x3.
unfoldable pub put_op : Buf → ℕ → ℕ → Buf × Option Routine
unfolding put put_three
put_op b op size =
    let w = not (size == 8) in
    if op == 0x88
    then (put b (if w then Others.mov_w 3 2 else Others.mov 3 2), none)
    else if op == 0x00
    then (put_three b w ThreeRegs.add_w ThreeRegs.add, some Routine.add)
    else if (op == 0x28) || (op == 0x38)
    then (put_three b w ThreeRegs.sub_w ThreeRegs.sub, some Routine.sub)
    else if (op == 0x20) || (op == 0x85)
    then (put_three b w ThreeRegs.and_w ThreeRegs.and, some Routine.logic)
    else if op == 0x08
    then (put_three b w ThreeRegs.orr_w ThreeRegs.orr, some Routine.logic)
    else if op == op_inc
    then (put_three b w ThreeRegs.add_w ThreeRegs.add, some Routine.inc)
    else if op == op_dec
    then (put_three b w ThreeRegs.sub_w ThreeRegs.sub, some Routine.dec)
    else if op == 0x30
    then (put_three b w ThreeRegs.eor_w ThreeRegs.eor, some Routine.logic)
    else (record b { full = true }, none)
