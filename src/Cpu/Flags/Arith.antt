-- ===== src/Cpu/Flags/Arith.antt =====
-- What the tests behind the flags say of the numbers.
use Prim.Native.Nat.{min}
use native.Mathlib.Nat.{one-le-pow, div-lt_iff_lt-mul, le-div_iff_mul-le}
use rashid.Base.{
  ℕ, ◌+◌, ◌-◌, ◌*◌, ◌/◌, ◌%◌, ◌^◌, ◌≤◌, ◌<◌, bit_and, bit_xor, Bool, true, false, not, ◌≡◌, refl,
  inl, inr, ◌&&◌, ltb, leb, if◌then◌else◌, sub64, arith, Bool-cases, ℤ, pos, negsuc, ltb_ℤ,
}
use rashid.Bits.{bit, bit-bit_and, bit-bit_xor, bit_div, bit_and-ones}
use rashid.Cpu.{has, trunc_sz, sext, IsSize, signed}
use rashid.Cpu.Flags.Bits.{digit, flag_test}

abbrev pub differs : Bool → Bool → Bool
differs true b = not b
differs false b = b

-- The top digit of a number of k + 1 digits.
pub top_digit : (k a : ℕ) → a < 2 * 2 ^ k → bit a k ≡ digit (leb (2 ^ k) a)
top_digit k a h =
    let p = one-le-pow k 2 (omega arith) in
    elim (Bool-cases (leb (2 ^ k) a)) [
      | inl e ↦
          let below = (div-lt_iff_lt-mul {k = 2 ^ k} {x = a} {y = 2} p).1 h in
          let above = (le-div_iff_mul-le {k = 2 ^ k} {x = 1} {y = a} p).1 (ground arith) in
          rw e (omega (arith, bit_div k a, below, above))
      | inr e ↦
          let below = (div-lt_iff_lt-mul {k = 2 ^ k} {x = a} {y = 1} p).1 (ground arith) in
          rw e (omega (arith, bit_div k a, below))
    ]

digit-differs : (s t : Bool) → (digit s + digit t) % 2 ≡ digit (differs s t)
digit-differs true true = refl
digit-differs true false = refl
digit-differs false true = refl
digit-differs false false = refl

digit-and : (s t : Bool) → min (digit s) (digit t) ≡ digit (s && t)
digit-and true true = refl
digit-and true false = refl
digit-and false true = refl
digit-and false false = refl

-- (a ^ b) & (a ^ r) & sign, over numbers of k + 1 digits.
pub sub_overflow_lem :
    (k a b r : ℕ)
    → a < 2 * 2 ^ k
    → b < 2 * 2 ^ k
    → r < 2 * 2 ^ k
    → has (bit_and (bit_and (bit_xor a b) (bit_xor a r)) (2 ^ k))
      ≡ (differs (leb (2 ^ k) a) (leb (2 ^ k) b) && differs (leb (2 ^ k) a) (leb (2 ^ k) r))
sub_overflow_lem k a b r ha hb hr =
    let sa = leb (2 ^ k) a in
    let sb = leb (2 ^ k) b in
    let sr = leb (2 ^ k) r in
    flag_test k (bit_and (bit_xor a b) (bit_xor a r)) (differs sa sb && differs sa sr) (
      rw
        (
          bit-bit_and k (bit_xor a b) (bit_xor a r),
          bit-bit_xor k a b,
          bit-bit_xor k a r,
          top_digit k a ha,
          top_digit k b hb,
          top_digit k r hr,
          digit-differs sa sb,
          digit-differs sa sr,
        )
        (digit-and (differs sa sb) (differs sa sr)))

-- A number of w digits as a signed one; h is 2 ^ (w - 1).
abbrev pub signed_at : ℕ → ℕ → ℤ
signed_at h a = if ltb a h then pos a else negsuc (2 * h - a - 1)

-- SF = OF after a subtraction says that the first operand is not below the second.
pub same_sign :
    (h a b r : ℕ)
    → 0 < h
    → a < 2 * h
    → b < 2 * h
    → r ≡ (if leb b a then a - b else a + 2 * h - b)
    → (if leb h r
        then differs (leb h a) (leb h b) && differs (leb h a) (leb h r)
        else not (differs (leb h a) (leb h b) && differs (leb h a) (leb h r)))
      ≡ not (ltb_ℤ (signed_at h a) (signed_at h b))
same_sign h a b r p q s e = ground arith

pub trunc_sz-size : (v size : ℕ) → IsSize size → v < 2 ^ 64 → trunc_sz v size ≡ v % 2 ^ (size * 8)
unfolding trunc_sz
trunc_sz-size v size (inl e) h = rw e (bit_and-ones 8 v)
trunc_sz-size v size (inr (inl e)) h = rw e (bit_and-ones 16 v)
trunc_sz-size v size (inr (inr (inl e))) h = rw e (bit_and-ones 32 v)
trunc_sz-size v size (inr (inr (inr e))) h = rw e (omega arith)

pub signed-sext :
    (v size : ℕ)
    → IsSize size
    → v < 2 ^ 64
    → signed (sext v size) ≡ signed_at (2 ^ (size * 8 - 1)) (trunc_sz v size)
unfolding sext
signed-sext v size i h = rw (trunc_sz-size v size i h) (cases i)
  where
    cases : IsSize size → signed (sext v size) ≡ signed_at (2 ^ (size * 8 - 1)) (v % 2 ^ (size * 8))
    cases (inl e) = rw e (ground arith)
    cases (inr (inl e)) = rw e (ground arith)
    cases (inr (inr (inl e))) = rw e (ground arith)
    cases (inr (inr (inr e))) = rw e (ground arith)

-- The result of a subtraction, truncated.
pub trunc_sz-sub64 :
    (a b size : ℕ)
    → IsSize size
    → a < 2 ^ 64
    → b < 2 ^ 64
    → trunc_sz (sub64 a b) size ≡ (
        if leb (trunc_sz b size) (trunc_sz a size)
        then trunc_sz a size - trunc_sz b size
        else trunc_sz a size + 2 * 2 ^ (size * 8 - 1) - trunc_sz b size)
trunc_sz-sub64 a b size i ha hb =
    rw
      (
        trunc_sz-size (sub64 a b) size i (omega arith),
        trunc_sz-size a size i ha,
        trunc_sz-size b size i hb,
      )
      (cases i)
  where
    cases :
        IsSize size
        → sub64 a b % 2 ^ (size * 8) ≡ (
            if leb (b % 2 ^ (size * 8)) (a % 2 ^ (size * 8))
            then a % 2 ^ (size * 8) - b % 2 ^ (size * 8)
            else a % 2 ^ (size * 8) + 2 * 2 ^ (size * 8 - 1) - b % 2 ^ (size * 8))
    cases (inl e) = rw e (ground arith)
    cases (inr (inl e)) = rw e (ground arith)
    cases (inr (inr (inl e))) = rw e (ground arith)
    cases (inr (inr (inr e))) = rw e (ground arith)

pub trunc_sz-lt : (v size : ℕ) → IsSize size → v < 2 ^ 64 → trunc_sz v size < 2 * 2 ^ (size * 8 - 1)
trunc_sz-lt v size i h = rw (trunc_sz-size v size i h) (cases i)
  where
    cases : IsSize size → v % 2 ^ (size * 8) < 2 * 2 ^ (size * 8 - 1)
    cases (inl e) = rw e (omega arith)
    cases (inr (inl e)) = rw e (omega arith)
    cases (inr (inr (inl e))) = rw e (omega arith)
    cases (inr (inr (inr e))) = rw e (omega arith)

pub trunc_sz-le : (v size : ℕ) → IsSize size → v < 2 ^ 64 → trunc_sz v size ≤ v
trunc_sz-le v size i h = rw (trunc_sz-size v size i h) (omega arith)

pub trunc_sz-trunc_sz :
    (v size : ℕ) → IsSize size → v < 2 ^ 64 → trunc_sz (trunc_sz v size) size ≡ trunc_sz v size
trunc_sz-trunc_sz v size i h =
    let small : trunc_sz v size < 2 ^ 64 = omega (arith, trunc_sz-le v size i h) in
    rw (trunc_sz-size (trunc_sz v size) size i small, trunc_sz-size v size i h) (cases i)
  where
    cases : IsSize size → v % 2 ^ (size * 8) % 2 ^ (size * 8) ≡ v % 2 ^ (size * 8)
    cases (inl e) = rw e (omega arith)
    cases (inr (inl e)) = rw e (omega arith)
    cases (inr (inr (inl e))) = rw e (omega arith)
    cases (inr (inr (inr e))) = rw e (omega arith)

-- Shifting out all digits but the top one tests it.
pub has_top : (k r : ℕ) → r < 2 * 2 ^ k → has (r / 2 ^ k) ≡ leb (2 ^ k) r
has_top k r h =
    let p = one-le-pow k 2 (omega arith) in
    elim (Bool-cases (leb (2 ^ k) r)) [
      | inl e ↦
          let above = (le-div_iff_mul-le {k = 2 ^ k} {x = 1} {y = r} p).1 (ground arith) in
          rw e (ground arith)
      | inr e ↦
          let below = (div-lt_iff_lt-mul {k = 2 ^ k} {x = r} {y = 1} p).1 (ground arith) in
          rw e (ground arith)
    ]
