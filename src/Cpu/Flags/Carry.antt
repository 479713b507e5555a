-- ===== src/Cpu/Flags/Carry.antt =====
-- ADC and SBB as the links of a multi-word chain (src/cpu.c, flags_adc and flags_sbb).
use rashid.Base.{
  ℕ, ◌+◌, ◌*◌, ◌%◌, ◌^◌, ◌<◌, ◌≡◌, ◌&&◌, ◌||◌, ltb, ◌==◌, inl, inr, add64, sub64, arith,
}
use rashid.Bits.{bit}
use rashid.Cpu.{has, trunc_sz, IsSize}
use rashid.Cpu.Flags.{flags_adc, flags_sbb, add_overflow, sub_overflow, nibble_carry}
use rashid.Cpu.Flags.Bits.{digit, arith_cf}
use rashid.Cpu.Flags.Arith.{trunc_sz-size}

-- For w-bit operands and a carry in, the carry out of ADC is the digit that the w-bit result
-- lacks: result + 2^w * carry out = a + b + carry in.
pub flags_adc-carry :
    (flags a b cf size : ℕ)
    → IsSize size
    → a < 2 ^ 64
    → b < 2 ^ 64
    → cf < 2
    → let res = add64 (add64 a b) cf in
      trunc_sz res size + 2 ^ (size * 8) * bit (flags_adc flags a b cf res size) 0
      ≡ trunc_sz a size + trunc_sz b size + cf
unfolding flags_adc
flags_adc-carry flags a b cf size i ha hb hc =
    let res = add64 (add64 a b) cf in
    let x = trunc_sz a size in
    let y = trunc_sz b size in
    let r = trunc_sz res size in
    let carry = ltb r x || (has cf && (r == x)) in
    rw (arith_cf flags carry (add_overflow x y r size) (nibble_carry x y r) r size) (
      rw
        (
          trunc_sz-size a size i ha,
          trunc_sz-size b size i hb,
          trunc_sz-size res size i (omega arith),
        )
        (cases i))
  where
    cases :
        IsSize size
        → let m = 2 ^ (size * 8) in
          let r = add64 (add64 a b) cf % m in
          r + m * digit (ltb r (a % m) || (has cf && (r == a % m))) ≡ a % m + b % m + cf
    cases (inl e) = rw e (ground arith)
    cases (inr (inl e)) = rw e (ground arith)
    cases (inr (inr (inl e))) = rw e (ground arith)
    cases (inr (inr (inr e))) = rw e (ground arith)

-- The borrow out of SBB likewise: a + 2^w * borrow out = result + b + borrow in.
pub flags_sbb-borrow :
    (flags a b cf size : ℕ)
    → IsSize size
    → a < 2 ^ 64
    → b < 2 ^ 64
    → cf < 2
    → let res = sub64 (sub64 a b) cf in
      trunc_sz a size + 2 ^ (size * 8) * bit (flags_sbb flags a b cf res size) 0
      ≡ trunc_sz res size + trunc_sz b size + cf
unfolding flags_sbb
flags_sbb-borrow flags a b cf size i ha hb hc =
    let res = sub64 (sub64 a b) cf in
    let x = trunc_sz a size in
    let y = trunc_sz b size in
    let r = trunc_sz res size in
    let carry = ltb x y || (has cf && (x == y)) in
    rw (arith_cf flags carry (sub_overflow x y r size) (nibble_carry x y r) r size) (
      rw
        (
          trunc_sz-size a size i ha,
          trunc_sz-size b size i hb,
          trunc_sz-size res size i (omega arith),
        )
        (cases i))
  where
    cases :
        IsSize size
        → let m = 2 ^ (size * 8) in
          let r = sub64 (sub64 a b) cf % m in
          a % m + m * digit (ltb (a % m) (b % m) || (has cf && (a % m == b % m))) ≡ r + b % m + cf
    cases (inl e) = rw e (ground arith)
    cases (inr (inl e)) = rw e (ground arith)
    cases (inr (inr (inl e))) = rw e (ground arith)
    cases (inr (inr (inr e))) = rw e (ground arith)
