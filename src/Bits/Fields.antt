-- ===== src/Bits/Fields.antt =====
-- `&` and `|` of words that are made of a high and a low field work on each field by itself.
use Prim.Native.Nat.{bit_or-bitwise}
use mathlib.Core.Path.{ap₂}
use native.Mathlib.Nat.{pow-suc, one-le-pow}
use rashid.Base.{
  ℕ, zero, suc, ◌+◌, ◌*◌, ◌/◌, ◌%◌, ◌^◌, ◌≤◌, ◌<◌, bit_and, bit_or, ◌≡◌, refl, ap, ◌∙◌, arith,
}
use rashid.Bits.Digits.{bit_and-halves, bit_or-halves}
pub use rashid.Bits.Digits.{bit_and-zero}

pub zero-bit_or : (a : ℕ) → bit_or 0 a ≡ a
zero-bit_or a = bit_or-bitwise 0 a

bit_or-zero_bounded : (n a : ℕ) → a ≤ n → bit_or a 0 ≡ a
bit_or-zero_bounded n zero h = refl
bit_or-zero_bounded zero (suc a) h = elim h [ ]
bit_or-zero_bounded (suc n) (suc a) h =
    omega (arith, bit_or-halves (suc a) 0, bit_or-zero_bounded n (suc a / 2) (omega arith))

pub bit_or-zero : (a : ℕ) → bit_or a 0 ≡ a
bit_or-zero a = bit_or-zero_bounded a a (omega arith)

-- Halving a number with a field of k + 1 digits.
halve : (k a b : ℕ) → (a * 2 ^ suc k + b) / 2 ≡ a * 2 ^ k + b / 2
halve k a b = omega (arith, ap (λ (t : ℕ). a * t) (pow-suc 2 k))

parity : (k a b : ℕ) → (a * 2 ^ suc k + b) % 2 ≡ b % 2
parity k a b = omega (arith, ap (λ (t : ℕ). a * t) (pow-suc 2 k))

pub bit_and-fields :
    (k a b c d : ℕ)
    → b < 2 ^ k
    → d < 2 ^ k
    → bit_and (a * 2 ^ k + b) (c * 2 ^ k + d) ≡ bit_and a c * 2 ^ k + bit_and b d
bit_and-fields zero a b c d p q =
    let e : b ≡ 0 = omega arith in
    let f : d ≡ 0 = omega arith in
    rw (e, f) (omega (arith, ap₂ bit_and (one_field a) (one_field c), bit_and-zero 0))
  where
    one_field : (x : ℕ) → x * 2 ^ 0 + 0 ≡ x
    one_field x = omega arith
bit_and-fields (suc k) a b c d p q =
    let double = pow-suc 2 k in
    let ih = bit_and-fields k a (b / 2) c (d / 2) (omega arith) (omega arith) in
    let high = ap₂ bit_and (halve k a b) (halve k c d) ∙ ih in
    omega (
      arith,
      bit_and-halves (a * 2 ^ suc k + b) (c * 2 ^ suc k + d),
      high,
      parity k a b,
      parity k c d,
      bit_and-halves b d,
      ap (λ (t : ℕ). bit_and a c * t) double,
    )

pub bit_or-fields :
    (k a b c d : ℕ)
    → b < 2 ^ k
    → d < 2 ^ k
    → bit_or (a * 2 ^ k + b) (c * 2 ^ k + d) ≡ bit_or a c * 2 ^ k + bit_or b d
bit_or-fields zero a b c d p q =
    let e : b ≡ 0 = omega arith in
    let f : d ≡ 0 = omega arith in
    rw (e, f) (omega (arith, ap₂ bit_or (one_field a) (one_field c), zero-bit_or 0))
  where
    one_field : (x : ℕ) → x * 2 ^ 0 + 0 ≡ x
    one_field x = omega arith
bit_or-fields (suc k) a b c d p q =
    let double = pow-suc 2 k in
    let ih = bit_or-fields k a (b / 2) c (d / 2) (omega arith) (omega arith) in
    let high = ap₂ bit_or (halve k a b) (halve k c d) ∙ ih in
    omega (
      arith,
      bit_or-halves (a * 2 ^ suc k + b) (c * 2 ^ suc k + d),
      high,
      parity k a b,
      parity k c d,
      bit_or-halves b d,
      ap (λ (t : ℕ). bit_or a c * t) double,
    )

-- A field below a number that leaves room for it.
pub bit_or-below : (k a d : ℕ) → d < 2 ^ k → bit_or (a * 2 ^ k) d ≡ a * 2 ^ k + d
bit_or-below k a d h =
    let p = one-le-pow k 2 (omega arith) in
    let high : a * 2 ^ k ≡ a * 2 ^ k + 0 = omega arith in
    let low : d ≡ 0 * 2 ^ k + d = omega arith in
    ap₂ bit_or high low
    ∙ bit_or-fields k a 0 0 d (omega arith) h
    ∙ omega (arith, ap (λ (t : ℕ). t * 2 ^ k) (bit_or-zero a), zero-bit_or d)
