-- ===== src/Bits/Digits.antt =====
-- The native operations in terms of halves. They are defined by a recursion on digits that counts
-- down from the first number; the count does not matter once it is large enough.
use Prim.Native.Nat.{min, max, differ, digits, bit_and-bitwise, bit_or-bitwise, bit_xor-bitwise}
use rashid.Base.{
  ℕ, zero, suc, ◌+◌, ◌*◌, ◌/◌, ◌%◌, ◌≤◌, ◌<◌, bit_and, bit_or, bit_xor, ◌≡◌, refl, arith,
}

module _ (z : ℕ → ℕ) (f : ℕ → ℕ → ℕ) where
  count_irrelevant : (c d a b : ℕ) → a ≤ c → a ≤ d → digits z f c a b ≡ digits z f d a b
  count_irrelevant zero zero zero b p q = refl
  count_irrelevant zero (suc d) zero b p q = refl
  count_irrelevant (suc c) zero zero b p q = refl
  count_irrelevant (suc c) (suc d) zero b p q = refl
  count_irrelevant zero d (suc a) b p q = elim p [ ]
  count_irrelevant (suc c) zero (suc a) b p q = elim q [ ]
  count_irrelevant (suc c) (suc d) (suc a) b p q =
      rw (count_irrelevant c d (suc a / 2) (b / 2) (omega arith) (omega arith))

  halves :
      (a b : ℕ)
      → digits z f (suc a) (suc a) b
        ≡ digits z f (suc a / 2) (suc a / 2) (b / 2) * 2 + f (suc a % 2) (b % 2)
  halves a b = rw (count_irrelevant a (suc a / 2) (suc a / 2) (b / 2) (omega arith) (omega arith))

no_digits : (c a : ℕ) → digits (λ _. 0) min c a 0 ≡ 0
no_digits zero a = refl
no_digits (suc c) zero = refl
no_digits (suc c) (suc a) = omega (arith, no_digits c (suc a / 2))

pub bit_and-zero : (a : ℕ) → bit_and a 0 ≡ 0
bit_and-zero a = omega (arith, bit_and-bitwise a 0, no_digits a a)

differ_bits : (x y : ℕ) → x < 2 → y < 2 → differ x y ≡ (x + y) % 2
differ_bits zero y p q = omega arith
differ_bits (suc zero) zero p q = refl
differ_bits (suc zero) (suc zero) p q = refl
differ_bits (suc zero) (suc (suc y)) p q = absurd (omega arith)
differ_bits (suc (suc x)) y p q = absurd (omega arith)

pub bit_and-halves : (a b : ℕ) → bit_and a b ≡ bit_and (a / 2) (b / 2) * 2 + min (a % 2) (b % 2)
bit_and-halves zero b = omega (arith, bit_and-bitwise 0 b, bit_and-bitwise 0 (b / 2))
bit_and-halves (suc a) b =
    omega (
      arith,
      bit_and-bitwise (suc a) b,
      bit_and-bitwise (suc a / 2) (b / 2),
      halves (λ _. 0) min a b,
    )

pub bit_or-halves : (a b : ℕ) → bit_or a b ≡ bit_or (a / 2) (b / 2) * 2 + max (a % 2) (b % 2)
bit_or-halves zero b = omega (arith, bit_or-bitwise 0 b, bit_or-bitwise 0 (b / 2))
bit_or-halves (suc a) b =
    omega
      (arith, bit_or-bitwise (suc a) b, bit_or-bitwise (suc a / 2) (b / 2), halves (λ x. x) max a b)

pub bit_xor-halves : (a b : ℕ) → bit_xor a b ≡ bit_xor (a / 2) (b / 2) * 2 + (a % 2 + b % 2) % 2
bit_xor-halves zero b = omega (arith, bit_xor-bitwise 0 b, bit_xor-bitwise 0 (b / 2))
bit_xor-halves (suc a) b = omega (
  arith,
  bit_xor-bitwise (suc a) b,
  bit_xor-bitwise (suc a / 2) (b / 2),
  halves (λ x. x) differ a b,
  differ_bits (suc a % 2) (b % 2) (omega arith) (omega arith),
)
