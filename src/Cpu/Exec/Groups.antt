-- ===== src/Cpu/Exec/Groups.antt =====
-- src/cpu.c, `step`: shifts, and the opcode groups 3 and 5.
use rashid.Base.{
  ℕ, ◌+◌, ◌-◌, ◌*◌, ◌/◌, ◌%◌, ◌^◌, bit_and, bit_or, Bool, true, not, ◌||◌, ltb, ◌==◌, if◌then◌else◌,
  add64, sub64,
}
use rashid.Cpu.{has, trunc_sz, sext}
use rashid.Cpu.State.{Cpu, Fault, rax, rcx, rdx}
use rashid.Cpu.Flags.{flags_sub, flags_logic, flags_inc, flags_dec}
use rashid.Cpu.Registers.{not64, setreg, push}
use rashid.Cpu.Alu.{shift}
use rashid.Cpu.Decode.{Decoder, fetch, modrm, fixup_rip, rd, wr}
use rashid.Cpu.Exec.Common.{advance, stop, set_flags, fetch_signed, operand}

-- Shifts: the count is an immediate, 1 or cl.
unfoldable pub shift_rm : Cpu → Decoder → ℕ → Cpu
unfolding modrm fetch fixup_rip rd shift wr
shift_rm c d op =
    let size = if has (bit_and op 1) then d.opsize else 1 in
    let (i, o, d1) = modrm c d in
    let ext = bit_and i 7 in
    let (raw, d2) =
      if (op == 0xC0) || (op == 0xC1)
      then fetch 1 c d1
      else if (op == 0xD0) || (op == 0xD1)
      then (1, d1)
      else (bit_and (c.r rcx) 0xff, d1) in
    let rm = fixup_rip d2 o in
    let c1 = advance c d2 in
    let cnt = bit_and raw (if size == 8 then 63 else 31) in
    let (a, c2) = rd c1 rm size d.has_rex in
    let (v, flags) = shift c2.flags a cnt size ext in
    if cnt == 0
    then c1
    else if ltb ext 4
    then stop c1 Fault.rotate d.rip0
    else wr (set_flags c2 flags) rm v size d.has_rex

-- The conversion of an int64_t to a 128-bit pattern, and the magnitude and sign of such a pattern.
abbrev pub wide : ℕ → ℕ
wide v = if ltb v (2 ^ 63) then v else v + (2 ^ 128 - 2 ^ 64)

abbrev pub is_negative : ℕ → Bool
is_negative p = not (ltb p (2 ^ 127))

abbrev pub magnitude : ℕ → ℕ
magnitude p = if is_negative p then 2 ^ 128 - p else p

-- The 64-bit pattern of a magnitude with a sign.
abbrev pub with_sign : Bool → ℕ → ℕ
with_sign negative m = if negative then sub64 0 (m % 2 ^ 64) else m % 2 ^ 64

-- rdx:rax, as `div` and `idiv` put it together.
abbrev pub dividend : ℕ → ℕ → ℕ → ℕ
dividend hi lo size = bit_or (hi * 2 ^ (size * 8) % 2 ^ 128) (trunc_sz lo size)

-- The results of `mul`, `imul`, `div` and `idiv`: what goes to rax and what goes to rdx.
unfoldable pub mul_pair : ℕ → ℕ → ℕ → ℕ × ℕ
unfolding trunc_sz
mul_pair x a size =
    let p = trunc_sz x size * trunc_sz a size in (p % 2 ^ 64, p / 2 ^ (size * 8) % 2 ^ 64)

unfoldable pub imul_pair : ℕ → ℕ → ℕ → ℕ × ℕ
unfolding sext
imul_pair x a size =
    let p = wide (sext x size) * wide (sext a size) % 2 ^ 128 in
    (p % 2 ^ 64, p / 2 ^ (size * 8) % 2 ^ 64)

unfoldable pub div_pair : ℕ → ℕ → ℕ → ℕ → ℕ × ℕ
unfolding trunc_sz
div_pair hi lo a size =
    let num = dividend (trunc_sz hi size) lo size in
    (num / trunc_sz a size % 2 ^ 64, num % trunc_sz a size % 2 ^ 64)

unfoldable pub idiv_pair : ℕ → ℕ → ℕ → ℕ → ℕ × ℕ
unfolding trunc_sz sext
idiv_pair hi lo a size =
    let num = dividend (wide (sext hi size)) lo size in
    let by = wide (sext a size) in
    let neg = is_negative num in
    let quotient = magnitude num / magnitude by in
    let remainder = magnitude num % magnitude by in
    (
      with_sign (if neg then not (is_negative by) else is_negative by) quotient,
      with_sign neg remainder,
    )

-- Group 3: test, not, neg, mul, imul, div, idiv.
unfoldable pub group3 : Cpu → Decoder → ℕ → Cpu
unfolding modrm fetch fetch_signed fixup_rip rd wr flags_logic flags_sub setreg mul_pair imul_pair
    div_pair idiv_pair
group3 c d op =
    let size = if op == 0xF6 then 1 else d.opsize in
    let (i, o, d1) = modrm c d in
    let ext = bit_and i 7 in
    let (imm, d2) =
      if ltb ext 2 then (if op == 0xF6 then fetch 1 c d1 else fetch_signed 4 c d1) else (0, d1) in
    let rm = fixup_rip d2 o in
    let (a, c') = rd (advance c d2) rm size d.has_rex in
    if ltb ext 2
    then set_flags c' (flags_logic c'.flags (bit_and a imm) size)
    else if ext == 2
    then wr c' rm (not64 a) size d.has_rex
    else if ext == 3
    then (let r = sub64 0 a in
        wr (set_flags c' (flags_sub c'.flags 0 a r size)) rm r size d.has_rex)
    else if ext == 4
    then pair_if (ltb 1 size) c' (mul_pair (c'.r rax) a size) size
    else if ext == 5
    then pair_if (ltb 1 size) c' (imul_pair (c'.r rax) a size) size
    else if a == 0
    then stop c' Fault.divide_by_zero d.rip0
    else if ext == 6
    then pair_if true c' (div_pair (c'.r rdx) (c'.r rax) a size) size
    else pair_if true c' (idiv_pair (c'.r rdx) (c'.r rax) a size) size
  where
    pair_if : Bool → Cpu → ℕ × ℕ → ℕ → Cpu
    pair_if high c (lo, hi) size =
        let c1 = setreg c rax lo size in if high then setreg c1 rdx hi size else c1

-- Group 5: inc, dec, call, jmp and push.
unfoldable pub group5 : Cpu → Decoder → ℕ → Cpu
unfolding operand rd wr flags_inc flags_dec push
group5 c d op =
    let size = if op == 0xFE then 1 else d.opsize in
    let (i, rm, d') = operand c d in
    let ext = bit_and i 7 in
    let (a, c1) = rd (advance c d') rm size d.has_rex in
    if ext == 0
    then (let r = add64 a 1 in wr (set_flags c1 (flags_inc c1.flags a r size)) rm r size d.has_rex)
    else if ext == 1
    then (let r = sub64 a 1 in wr (set_flags c1 (flags_dec c1.flags a r size)) rm r size d.has_rex)
    else if ext == 2
    then (let (target, c2) = rd (push c1 c1.rip) rm 8 d.has_rex in record c2 { rip = target })
    else if ext == 4
    then (let (target, c2) = rd c1 rm 8 d.has_rex in record c2 { rip = target })
    else if ext == 6
    then (let (v, c2) = rd c1 rm 8 d.has_rex in push c2 v)
    else stop c1 Fault.far_call d.rip0
