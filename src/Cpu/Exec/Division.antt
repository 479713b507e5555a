-- ===== src/Cpu/Exec/Division.antt =====
-- src/cpu.c, `step`: what `div` leaves in rax and rdx.
use native.Mathlib.Nat.{div-add-mod', mod-lt, div-lt_iff_lt-mul, mul-le-mul_right, one-le-pow}
use rashid.Base.{ℕ, ◌+◌, ◌*◌, ◌/◌, ◌%◌, ◌^◌, ◌≤◌, ◌<◌, bit_or, ◌≡◌, ap, ◌∙◌, arith, inl, inr}
use rashid.Bits.Fields.{bit_or-below}
use rashid.Cpu.{trunc_sz, IsSize}
use rashid.Cpu.Flags.Arith.{trunc_sz-size}
use rashid.Cpu.Exec.Groups.{div_pair}

-- The quotient fits when the upper half is below the divisor.
quotient_lt : (p x y a : ℕ) → x < a → y < p → (x * p + y) / a < p
quotient_lt p x y a h l =
    let above : (x + 1) * p ≤ a * p = mul-le-mul_right p (omega arith) in
    let spread : (x + 1) * p ≡ x * p + p = omega arith in
    let swap : a * p ≡ p * a = omega arith in
    let pos : 0 < a = omega arith in
    (div-lt_iff_lt-mul {k = a} {x = x * p + y} {y = p} pos).1 (omega arith)

-- The two answers, cut to 64 bits, for halves of k digits.
divided :
    (k x y a : ℕ)
    → x < a
    → y < 2 ^ k
    → a ≤ 2 ^ k
    → 2 ^ k ≤ 2 ^ 64
    → x * 2 ^ k < 2 ^ 128
    → let n = bit_or (x * 2 ^ k % 2 ^ 128) y in
      (n / a % 2 ^ 64 * a + n % a % 2 ^ 64 ≡ x * 2 ^ k + y)
      × (n % a % 2 ^ 64 < a)
      × (n / a % 2 ^ 64 < 2 ^ k)
divided k x y a h l m w fit =
    let whole : bit_or (x * 2 ^ k % 2 ^ 128) y ≡ x * 2 ^ k + y =
      ap (λ t. bit_or t y) (omega arith) ∙ bit_or-below k x y l in
    let n = x * 2 ^ k + y in
    let q = quotient_lt (2 ^ k) x y a h l in
    let r : n % a < a = mod-lt n (omega arith) in
    let q' : n / a % 2 ^ 64 ≡ n / a = omega arith in
    let r' : n % a % 2 ^ 64 ≡ n % a = omega arith in
    rw whole (
      ap (λ t. t * a + n % a % 2 ^ 64) q' ∙ ap (λ t. n / a * a + t) r' ∙ div-add-mod' n a,
      omega arith,
      omega arith,
    )

-- The bounds that the operand size gives.
size_fits :
    (size x : ℕ)
    → IsSize size
    → x < 2 ^ (size * 8)
    → (2 ^ (size * 8) ≤ 2 ^ 64) × (x * 2 ^ (size * 8) < 2 ^ 128)
size_fits size x (inl e) h = rw e (omega arith, omega (arith, ap (λ t. 2 ^ (t * 8)) e))
size_fits size x (inr (inl e)) h = rw e (omega arith, omega (arith, ap (λ t. 2 ^ (t * 8)) e))
size_fits size x (inr (inr (inl e))) h = rw e (omega arith, omega (arith, ap (λ t. 2 ^ (t * 8)) e))
size_fits size x (inr (inr (inr e))) h = rw e (omega arith, omega (arith, ap (λ t. 2 ^ (t * 8)) e))

trunc_sz-lt-pow : (v size : ℕ) → IsSize size → v < 2 ^ 64 → trunc_sz v size < 2 ^ (size * 8)
trunc_sz-lt-pow v size i h =
    rw (trunc_sz-size v size i h) (mod-lt v (one-le-pow (size * 8) 2 (omega arith)))

-- DIV of rdx:rax at any operand size, where the upper half is below the divisor, so that the
-- quotient fits: quotient times divisor plus remainder is the dividend, the remainder is below the
-- divisor, and the quotient fits the operand.
pub div_pair_lem :
    (hi lo a size : ℕ)
    → IsSize size
    → hi < 2 ^ 64
    → lo < 2 ^ 64
    → a < 2 ^ 64
    → trunc_sz hi size < trunc_sz a size
    → let (q, r) = div_pair hi lo a size in
      (q * trunc_sz a size + r ≡ trunc_sz hi size * 2 ^ (size * 8) + trunc_sz lo size)
      × (r < trunc_sz a size)
      × (q < 2 ^ (size * 8))
unfolding div_pair
div_pair_lem hi lo a size i p q r h =
    let (w, fit) = size_fits size (trunc_sz hi size) i (trunc_sz-lt-pow hi size i p) in
    divided (size * 8) (trunc_sz hi size) (trunc_sz lo size) (trunc_sz a size) h
      (trunc_sz-lt-pow lo size i q) (omega (arith, trunc_sz-lt-pow a size i r)) w fit
