-- ===== src/Cpu/Alu.antt =====
-- src/cpu.c, step: the integer operations of the ALU rows, on an operand, and the shifts.
use rashid.Base.{
  ℕ, ◌+◌, ◌-◌, ◌*◌, ◌/◌, ◌%◌, ◌^◌, bit_and, bit_or, bit_xor, Bool, true, false, ◌||◌, ltb, leb,
  ◌==◌, if◌then◌else◌, add64, sub64,
}
use rashid.Cpu.{has, trunc_sz, sext}
use rashid.Cpu.Flags.{
  f_cf, f_of, clear, raise_if, set_pzs, flags_add, flags_sub, flags_adc, flags_sbb, flags_logic,
}

-- The operations of an ALU row; `cmp` and `test` write no result.
pub data Operation : Type 0 where
  add or adc sbb and sub xor cmp test mov : Operation

-- The result and the flags of one operation on a and b.
unfoldable pub compute : Operation → ℕ → ℕ → ℕ → ℕ → ℕ × ℕ
compute Operation.add flags a b size = let r = add64 a b in (r, flags_add flags a b r size)
compute Operation.or flags a b size = let r = bit_or a b in (r, flags_logic flags r size)
compute Operation.adc flags a b size =
    let cf = bit_and flags f_cf in
    let r = add64 (add64 a b) cf in (r, flags_adc flags a b cf r size)
compute Operation.sbb flags a b size =
    let cf = bit_and flags f_cf in
    let r = sub64 (sub64 a b) cf in (r, flags_sbb flags a b cf r size)
compute Operation.and flags a b size = let r = bit_and a b in (r, flags_logic flags r size)
compute Operation.sub flags a b size = let r = sub64 a b in (r, flags_sub flags a b r size)
compute Operation.xor flags a b size = let r = bit_xor a b in (r, flags_logic flags r size)
compute Operation.cmp flags a b size = let r = sub64 a b in (r, flags_sub flags a b r size)
compute Operation.test flags a b size = let r = bit_and a b in (r, flags_logic flags r size)
compute Operation.mov flags a b size = (b, flags)

abbrev pub writes : Operation → Bool
writes Operation.cmp = false
writes Operation.test = false
writes _ = true

-- `switch (op & ~3)` of the rows with ModRM.
unfoldable pub row_of : ℕ → Operation
row_of op =
    let row = op - op % 4 in
    if row == 0x00
    then Operation.add
    else if row == 0x10
    then Operation.adc
    else if row == 0x18
    then Operation.sbb
    else if row == 0x08
    then Operation.or
    else if row == 0x20
    then Operation.and
    else if row == 0x28
    then Operation.sub
    else if row == 0x30
    then Operation.xor
    else if row == 0x38
    then Operation.cmp
    else if (op == 0x84) || (op == 0x85)
    then Operation.test
    else Operation.mov

-- `switch (op & ~7)` of the rows on eAX.
unfoldable pub acc_row_of : ℕ → Operation
acc_row_of op =
    let row = op - op % 8 in
    if row == 0x00
    then Operation.add
    else if row == 0x10
    then Operation.adc
    else if row == 0x18
    then Operation.sbb
    else if row == 0x08
    then Operation.or
    else if row == 0x20
    then Operation.and
    else if row == 0x28
    then Operation.sub
    else if row == 0x30
    then Operation.xor
    else Operation.cmp

-- `switch (ext)` of group 1.
unfoldable pub group1_of : ℕ → Operation
group1_of ext =
    if ext == 0
    then Operation.add
    else if ext == 1
    then Operation.or
    else if ext == 4
    then Operation.and
    else if ext == 5
    then Operation.sub
    else if ext == 6
    then Operation.xor
    else if ext == 7
    then Operation.cmp
    else if ext == 2
    then Operation.adc
    else Operation.sbb

-- Floor division of a 64-bit pattern, read as signed, by 2 ^ k: the >> of int64_t.
abbrev pub sar64 : ℕ → ℕ → ℕ
sar64 v k = if ltb v (2 ^ 63) then v / 2 ^ k else 2 ^ 64 - 1 - (2 ^ 64 - 1 - v) / 2 ^ k

-- `rsd_i_shift`: the result and the flags. The count is at least 1 and below 64.
unfoldable pub shift : ℕ → ℕ → ℕ → ℕ → ℕ → ℕ × ℕ
unfolding set_pzs
shift flags a cnt size ext =
    let w = size * 8 in
    let ta = trunc_sz a size in
    let sa = sext a size in
    let sh = if leb w cnt then w - 1 else cnt in
    let cb = if leb w (cnt - 1) then w - 1 else cnt - 1 in
    let left = (ext == 4) || (ext == 6) in
    let r =
      if left then ta * 2 ^ cnt % 2 ^ 64 else if ext == 5 then ta / 2 ^ cnt else sar64 sa sh in
    let cf =
      if left
      then (if leb cnt w then bit_and (ta / 2 ^ (w - cnt)) 1 else 0)
      else if ext == 5
      then (if leb cnt w then bit_and (ta / 2 ^ (cnt - 1)) 1 else 0)
      else bit_and (sar64 sa cb) 1 in
    let of =
      if left
      then bit_xor (bit_and (trunc_sz r size / 2 ^ (w - 1)) 1) cf
      else if ext == 5
      then bit_and (ta / 2 ^ (w - 1)) 1
      else 0 in
    let res = trunc_sz r size in
    (
      res,
      set_pzs (raise_if (has of) f_of (raise_if (has cf) f_cf (clear flags (f_cf + f_of)))) res
          size,
    )
