-- ===== src/Bits.antt =====
-- The binary digits of a word: what `&`, `|` and `^` do to each of them.
mod Digits
pub mod Fields
use Prim.Native.Nat.{min, max, differ, bit_and-bitwise}
use native.Mathlib.Nat.{pow-suc, div-div-eq-div-mul, one-le-pow, mod_def}
use Digits.{bit_and-zero, bit_and-halves, bit_or-halves, bit_xor-halves}
use rashid.Base.{
  ℕ, zero, suc, ◌+◌, ◌-◌, ◌*◌, ◌/◌, ◌%◌, ◌^◌, ◌≤◌, ◌<◌, bit_and, bit_or, bit_xor, ◌≡◌, refl, sym,
  ap, ◌∙◌, arith,
}

-- Digit k of n, as 0 or 1.
abbrev pub bit : ℕ → ℕ → ℕ
bit n zero = n % 2
bit n (suc k) = bit (n / 2) k

pub bit-lt : (k n : ℕ) → bit n k < 2
bit-lt zero n = omega arith
bit-lt (suc k) n = bit-lt k (n / 2)

pub bit-bit_and : (k a b : ℕ) → bit (bit_and a b) k ≡ min (bit a k) (bit b k)
bit-bit_and zero a b = omega (arith, bit_and-halves a b)
bit-bit_and (suc k) a b =
    let half : bit_and a b / 2 ≡ bit_and (a / 2) (b / 2) = omega (arith, bit_and-halves a b) in
    rw half (bit-bit_and k (a / 2) (b / 2))

pub bit-bit_or : (k a b : ℕ) → bit (bit_or a b) k ≡ max (bit a k) (bit b k)
bit-bit_or zero a b = omega (arith, bit_or-halves a b)
bit-bit_or (suc k) a b =
    let half : bit_or a b / 2 ≡ bit_or (a / 2) (b / 2) = omega (arith, bit_or-halves a b) in
    rw half (bit-bit_or k (a / 2) (b / 2))

pub bit-bit_xor : (k a b : ℕ) → bit (bit_xor a b) k ≡ (bit a k + bit b k) % 2
bit-bit_xor zero a b = omega (arith, bit_xor-halves a b)
bit-bit_xor (suc k) a b =
    let half : bit_xor a b / 2 ≡ bit_xor (a / 2) (b / 2) = omega (arith, bit_xor-halves a b) in
    rw half (bit-bit_xor k (a / 2) (b / 2))

-- The same digit, by division.
pub bit_div : (k n : ℕ) → bit n k ≡ n / 2 ^ k % 2
bit_div zero n = omega arith
bit_div (suc k) n =
    let double : 2 * 2 ^ k ≡ 2 ^ suc k = omega (arith, pow-suc 2 k) in
    bit_div k (n / 2) ∙ ap (λ t. t % 2) (div-div-eq-div-mul n 2 (2 ^ k) ∙ ap (λ t. n / t) double)

-- Masking by one digit tells whether it is set.
pub bit_and-pow : (k a : ℕ) → bit_and a (2 ^ k) ≡ bit a k * 2 ^ k
bit_and-pow zero a = omega (arith, bit_and-halves a 1, bit_and-zero (a / 2))
bit_and-pow (suc k) a =
    let double = pow-suc 2 k in
    let half : 2 ^ suc k / 2 ≡ 2 ^ k = omega arith in
    omega (
      arith,
      bit_and-halves a (2 ^ suc k),
      ap (bit_and (a / 2)) half,
      bit_and-pow k (a / 2),
      ap (λ (t : ℕ). bit (a / 2) k * t) double,
    )

-- A bitwise "and" is as short as its first number.
pub bit_and-lt : (n a b : ℕ) → a < 2 ^ n → bit_and a b < 2 ^ n
bit_and-lt zero zero b h = omega (arith, bit_and-bitwise 0 b)
bit_and-lt zero (suc a) b h = absurd (omega arith)
bit_and-lt (suc n) a b h =
    let double = pow-suc 2 n in
    omega (arith, double, bit_and-halves a b, bit_and-lt n (a / 2) (b / 2) (omega (arith, double)))

-- A bitwise "or" is as short as the longer of its numbers.
pub bit_or-lt : (n a b : ℕ) → a < 2 ^ n → b < 2 ^ n → bit_or a b < 2 ^ n
bit_or-lt zero zero zero p q = omega arith
bit_or-lt zero zero (suc b) p q = absurd (omega arith)
bit_or-lt zero (suc a) b p q = absurd (omega arith)
bit_or-lt (suc n) a b p q =
    let double = pow-suc 2 n in
    let halves = bit_or-lt n (a / 2) (b / 2) (omega (arith, double)) (omega (arith, double)) in
    omega (arith, double, bit_or-halves a b, halves)

-- A mask of k ones is the remainder by 2 ^ k.
pub bit_and-ones : (k a : ℕ) → bit_and a (2 ^ k - 1) ≡ a % 2 ^ k
bit_and-ones zero a = omega (arith, bit_and-zero a)
bit_and-ones (suc k) a =
    let double = pow-suc 2 k in
    let pos = one-le-pow k 2 (omega arith) in
    let half : (2 ^ suc k - 1) / 2 ≡ 2 ^ k - 1 = omega arith in
    let next : bit_and (a / 2) ((2 ^ suc k - 1) / 2) ≡ a / 2 % 2 ^ k =
      rw half (bit_and-ones k (a / 2)) in
    let double' : 2 * 2 ^ k ≡ 2 ^ suc k = omega (arith, double) in
    let split = div-div-eq-div-mul a 2 (2 ^ k) in
    let mod' : a % 2 ^ suc k ≡ a % (2 * 2 ^ k) = ap (λ t. a % t) (sym double') in
    omega (
      arith,
      mod',
      bit_and-halves a (2 ^ suc k - 1),
      next,
      ap (λ (t : ℕ). 2 ^ k * t) split,
      mod_def a (2 * 2 ^ k),
      mod_def (a / 2) (2 ^ k),
    )

-- The complement of an n-digit number, digit by digit.
pub bit-complement : (n k x : ℕ) → x < 2 ^ n → k < n → bit (2 ^ n - 1 - x) k ≡ 1 - bit x k
bit-complement zero k x h p = absurd (omega arith)
bit-complement (suc n) zero x h p = omega (arith, pow-suc 2 n, one-le-pow n 2 (omega arith))
bit-complement (suc n) (suc k) x h p =
    let double = pow-suc 2 n in
    let pos = one-le-pow n 2 (omega arith) in
    let half : (2 ^ suc n - 1 - x) / 2 ≡ 2 ^ n - 1 - x / 2 = omega arith in
    rw half (bit-complement n k (x / 2) (omega arith) (omega arith))
