-- ===== src/Cpu/Sse/Forms.antt =====
-- src/cpu.c, `sse_exec`: its cases. Each advances rip behind the instruction first.
use rashid.Base.{
  ℕ, zero, suc, ◌+◌, ◌-◌, ◌*◌, ◌/◌, ◌%◌, ◌^◌, bit_and, bit_or, bit_xor, Bool, true, false, ◌&&◌,
  ◌||◌, leb, ◌==◌, if◌then◌else◌, add64,
}
use rashid.Cpu.{has, sext}
use rashid.Cpu.State.{Cpu, Xmm}
use rashid.Cpu.Memory.{ld, st}
use rashid.Cpu.Registers.{getreg, setreg, not64}
use rashid.Cpu.Decode.{Operand, reg, memory, pending, Decoder, fetch, modrm, fixup_rip}
use rashid.Cpu.Exec.Common.{advance, set_flags, operand}
use rashid.Cpu.Sse.Lanes.{
  zero_xmm, lane64, lane32, lane8, set_low32, of_lanes32, of_lanes64, pack8, set_xmm, xrd, xwr,
  xrd_lo,
}
use rashid.Cpu.Sse.Values.{Floats, cvt2si, comis, fcmp}

-- Is the operand a register?
abbrev pub is_reg : Operand → Bool
is_reg (reg _) = true
is_reg (memory _ _) = false
is_reg (pending _ _) = false

-- What movd and the conversions read: a general register or memory.
unfoldable pub rd_int : Cpu → Operand → ℕ → ℕ × Cpu
unfolding getreg ld
rd_int c (reg i) n = (getreg c i n, c)
rd_int c (memory a seg) n = ld c (add64 a seg) n
rd_int c (pending a seg) n = ld c (add64 a seg) n

unfoldable pub wr_int : Cpu → Operand → ℕ → ℕ → Cpu
unfolding setreg st
wr_int c (reg i) v n = setreg c i v n
wr_int c (memory a seg) v n = st c (add64 a seg) v n
wr_int c (pending a seg) v n = st c (add64 a seg) v n

-- The scalar moves, to a register or to memory.
unfoldable pub put_scalar : Cpu → Operand → Bool → ℕ → ℕ → Cpu
unfolding st
put_scalar c (reg i) from_reg v n =
    let old = if from_reg then c.xmm i else zero_xmm in
    set_xmm c i (if n == 4 then set_low32 old v else record old { q0 = v })
put_scalar c (memory a seg) from_reg v n = st c (add64 a seg) v n
put_scalar c (pending a seg) from_reg v n = st c (add64 a seg) v n

abbrev pub is_scalar : Decoder → Bool
is_scalar d = (d.mand == 0xF3) || (d.mand == 0xF2)

-- movups, movaps, movss, movsd and their kin
unfoldable pub moves : Cpu → Decoder → ℕ → Cpu
unfolding operand xrd xwr xrd_lo put_scalar
moves c d op =
    let (i, rm, d') = operand c d in
    let c1 = advance c d' in
    let dst = if has (bit_and op 1) then rm else reg i in
    let src = if has (bit_and op 1) then reg i else rm in
    let n = if d.mand == 0xF3 then 4 else 8 in
    let (v, c2) = xrd_lo c1 src n in
    let (a, c3) = xrd c1 src in
    if leb op 0x11 && is_scalar d then put_scalar c2 dst (is_reg src) v n else xwr c3 dst a

-- movdqa and movdqu
unfoldable pub moves_int : Cpu → Decoder → ℕ → Cpu
unfolding operand xrd xwr
moves_int c d op =
    let (i, rm, d') = operand c d in
    let (a, c1) = xrd (advance c d') (if op == 0x7F then reg i else rm) in
    xwr c1 (if op == 0x7F then rm else reg i) a

abbrev pub int_size : Decoder → ℕ
int_size d = if has (bit_and d.rex 8) then 8 else 4

-- movd and movq to a register, from one, and movq between registers
unfoldable pub movd_to : Cpu → Decoder → Cpu
unfolding operand rd_int
movd_to c d =
    let (i, rm, d') = operand c d in
    let (v, c1) = rd_int (advance c d') rm (int_size d) in set_xmm c1 i (record zero_xmm { q0 = v })

unfoldable pub movq_load : Cpu → Decoder → Cpu
unfolding operand xrd_lo
movq_load c d =
    let (i, rm, d') = operand c d in
    let (v, c1) = xrd_lo (advance c d') rm 8 in set_xmm c1 i (record zero_xmm { q0 = v })

unfoldable pub movd_from : Cpu → Decoder → Cpu
unfolding operand wr_int
movd_from c d = let (i, rm, d') = operand c d in wr_int (advance c d') rm (c.xmm i).q0 (int_size d)

unfoldable pub movq_store : Cpu → Decoder → Cpu
unfolding operand put_scalar
movq_store c d = let (i, rm, d') = operand c d in put_scalar (advance c d') rm false (c.xmm i).q0 8

-- and, andn, or and xor of one lane
abbrev pub bitwise : ℕ → ℕ → ℕ → ℕ
bitwise op a b =
    if (op == 0x54) || (op == 0xDB)
    then bit_and a b
    else if op == 0x55
    then bit_and (not64 a) b
    else if (op == 0x56) || (op == 0xEB)
    then bit_or a b
    else bit_xor a b

-- A form that takes a register and a whole operand to a register.
unfoldable pub packed : (Xmm → Xmm → Xmm) → Cpu → Decoder → Cpu
unfolding operand xrd
packed f c d =
    let (i, rm, d') = operand c d in
    let (b, c1) = xrd (advance c d') rm in set_xmm c1 i (f (c1.xmm i) b)

-- A form that takes a register and a scalar of n bytes to a register.
unfoldable pub scalar : ℕ → (Xmm → ℕ → Xmm) → Cpu → Decoder → Cpu
unfolding operand xrd_lo
scalar n f c d =
    let (i, rm, d') = operand c d in
    let (v, c1) = xrd_lo (advance c d') rm n in set_xmm c1 i (f (c1.xmm i) v)

abbrev pub lanes64 : (ℕ → ℕ → ℕ) → Xmm → Xmm → Xmm
lanes64 g a b = of_lanes64 (λ k. g (lane64 a k) (lane64 b k))

abbrev pub lanes32 : (ℕ → ℕ → ℕ) → Xmm → Xmm → Xmm
lanes32 g a b = of_lanes32 (λ k. g (lane32 a k) (lane32 b k))

-- The four variants of an operation, by the mandatory prefix.
unfoldable pub by_prefix : (ℕ → ℕ → ℕ) → (ℕ → ℕ → ℕ) → Cpu → Decoder → Cpu
unfolding packed scalar
by_prefix g_d g_s c d =
    if d.mand == 0xF2
    then scalar 8 (λ a v. record a { q0 = g_d a.q0 v }) c d
    else if d.mand == 0xF3
    then scalar 4 (λ a v. set_low32 a (g_s (lane32 a 0) v)) c d
    else if d.mand == 0x66
    then packed (lanes64 g_d) c d
    else packed (lanes32 g_s) c d

-- ucomis and comis
unfoldable pub compares : Floats → Cpu → Decoder → Cpu
unfolding operand xrd_lo comis
compares f c d =
    let (i, rm, d') = operand c d in
    let double = d.mand == 0x66 in
    let (v, c1) = xrd_lo (advance c d') rm (if double then 8 else 4) in
    set_flags c1 (
      if double
      then comis f c1.flags (c1.xmm i).q0 v
      else comis f c1.flags (f.widen (lane32 (c1.xmm i) 0)) (f.widen v))

-- cvtsi2ss and cvtsi2sd
unfoldable pub from_int : Floats → Cpu → Decoder → Cpu
unfolding operand rd_int sext
from_int f c d =
    let (i, rm, d') = operand c d in
    let n = int_size d in
    let (raw, c1) = rd_int (advance c d') rm n in
    let v = sext raw n in
    let a = c1.xmm i in
    set_xmm c1 i
      (if d.mand == 0xF2 then record a { q0 = f.of_int v } else set_low32 a (f.of_int_s v))

-- cvt(t)ss2si and cvt(t)sd2si
unfoldable pub to_int : Floats → Cpu → Decoder → ℕ → Cpu
unfolding operand xrd_lo setreg cvt2si
to_int f c d op =
    let (i, rm, d') = operand c d in
    let fsize = if d.mand == 0xF2 then 8 else 4 in
    let (bits, c1) = xrd_lo (advance c d') rm fsize in
    setreg c1 i (cvt2si f bits fsize (op == 0x2D) (int_size d)) (int_size d)

-- cvtss2sd and cvtsd2ss
unfoldable pub convert : Floats → Cpu → Decoder → Cpu
unfolding scalar
convert f c d =
    if d.mand == 0xF3
    then scalar 4 (λ a v. record a { q0 = f.widen v }) c d
    else scalar 8 (λ a v. set_low32 a (f.narrow v)) c d

-- pcmpeqb and pcmpeqd
abbrev pub equal8 : Xmm → Xmm → Xmm
equal8 a b =
    let same : ℕ → ℕ = λ i. if lane8 a i == lane8 b i then 0xFF else 0 in
    record { q0 = pack8 same 0 8; q1 = pack8 same 8 8 }

abbrev pub equal32 : ℕ → ℕ → ℕ
equal32 x y = if x == y then 0xFFFF_FFFF else 0

-- The sign digits of n bytes from the byte i on.
abbrev pub sign_mask : Xmm → ℕ → ℕ → ℕ
sign_mask x i zero = 0
sign_mask x i (suc n) = lane8 x i / 2 ^ 7 + 2 * sign_mask x (i + 1) n

-- pshufd; its immediate comes behind the operand.
unfoldable pub pshufd : Cpu → Decoder → Cpu
unfolding modrm fetch fixup_rip xrd
pshufd c d =
    let (i, o, d1) = modrm c d in
    let (imm, d2) = fetch 1 c d1 in
    let (b, c1) = xrd (advance c d2) (fixup_rip d2 o) in
    set_xmm c1 i (of_lanes32 (λ k. lane32 b (imm / 2 ^ (2 * k) % 4)))

-- unpckl, unpckh, punpcklqdq and punpckhqdq
abbrev pub interleave : Bool → Bool → Xmm → Xmm → Xmm
interleave wide high a b =
    if wide
    then (if high then record { q0 = a.q1; q1 = b.q1 } else record { q0 = a.q0; q1 = b.q0 })
    else (let k = if high then 2 else 0 in
        of_lanes32 (λ j. lane32 (if has (j % 2) then b else a) (k + j / 2)))

-- cmpps, cmppd, cmpss and cmpsd; their immediate comes behind the operand.
unfoldable pub compare_mask : Floats → Cpu → Decoder → Cpu
unfolding modrm fetch fixup_rip xrd xrd_lo fcmp
compare_mask f c d =
    let (i, o, d1) = modrm c d in
    let (imm, d2) = fetch 1 c d1 in
    let rm = fixup_rip d2 o in
    let c1 = advance c d2 in
    let a = c.xmm i in
    let ones_d : ℕ → ℕ → ℕ = λ x y. if fcmp f imm x y then 2 ^ 64 - 1 else 0 in
    let ones_s : ℕ → ℕ → ℕ = λ x y. if fcmp f imm (f.widen x) (f.widen y) then 0xFFFF_FFFF else 0 in
    let (v, c2) = xrd_lo c1 rm (if d.mand == 0xF2 then 8 else 4) in
    let (b, c3) = xrd c1 rm in
    if d.mand == 0xF2
    then set_xmm c2 i (record a { q0 = ones_d a.q0 v })
    else if d.mand == 0xF3
    then set_xmm c2 i (set_low32 a (ones_s (lane32 a 0) v))
    else set_xmm c3 i (if d.mand == 0x66 then lanes64 ones_d a b else lanes32 ones_s a b)
