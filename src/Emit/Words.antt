-- ===== src/Emit/Words.antt =====
-- How the fields of an encoding (src/emit.h) stand beside each other in the word.
use rashid.Base.{ℕ, ◌+◌, ◌*◌, ◌^◌, ◌<◌, bit_or, ◌≡◌, ap, ◌∙◌, arith}
use rashid.Bits.Fields.{bit_or-below, bit_or-fields, bit_or-zero}

-- A base with a middle field, and three fields of registers.
pub word_of_regs :
    (hi md m n d : ℕ)
    → md < 2 ^ 6
    → m < 2 ^ 5
    → n < 2 ^ 5
    → d < 2 ^ 5
    → bit_or (bit_or (bit_or (hi * 2 ^ 21 + md * 2 ^ 10) (m * 2 ^ 16)) (n * 2 ^ 5)) d
      ≡ hi * 2 ^ 21 + m * 2 ^ 16 + md * 2 ^ 10 + n * 2 ^ 5 + d
word_of_regs hi md m n d p q r s =
    let x = hi * 2 ^ 21 + md * 2 ^ 10 in
    let y = (hi * 2 ^ 11 + m * 2 ^ 6 + md) in
    let z = y * 2 ^ 5 + n in
    let split : x ≡ hi * 2 ^ 5 * 2 ^ 16 + md * 2 ^ 10 = omega arith in
    let field : m * 2 ^ 16 ≡ m * 2 ^ 16 + 0 = omega arith in
    let first : bit_or x (m * 2 ^ 16) ≡ y * 2 ^ 10 =
      ap (λ t. bit_or t (m * 2 ^ 16)) split
      ∙ ap (bit_or (hi * 2 ^ 5 * 2 ^ 16 + md * 2 ^ 10)) field
      ∙ bit_or-fields 16 (hi * 2 ^ 5) (md * 2 ^ 10) m 0 (omega arith) (omega arith)
      ∙ omega (arith, bit_or-below 5 hi m q, bit_or-zero (md * 2 ^ 10)) in
    let second : bit_or (y * 2 ^ 10) (n * 2 ^ 5) ≡ z * 2 ^ 5 =
      bit_or-below 10 y (n * 2 ^ 5) (omega arith) ∙ omega arith in
    ap (λ t. bit_or (bit_or t (n * 2 ^ 5)) d) first
    ∙ ap (λ t. bit_or t d) second
    ∙ bit_or-below 5 z d s
    ∙ omega arith

-- A base, a field of k digits above two registers.
pub word_of_offset :
    (hi f n t : ℕ)
    → f < 2 ^ 12
    → n < 2 ^ 5
    → t < 2 ^ 5
    → bit_or (bit_or (bit_or (hi * 2 ^ 22) (f * 2 ^ 10)) (n * 2 ^ 5)) t
      ≡ hi * 2 ^ 22 + f * 2 ^ 10 + n * 2 ^ 5 + t
word_of_offset hi f n t p q r =
    let y = hi * 2 ^ 12 + f in
    let first : bit_or (hi * 2 ^ 22) (f * 2 ^ 10) ≡ y * 2 ^ 10 =
      bit_or-below 22 hi (f * 2 ^ 10) (omega arith) ∙ omega arith in
    let second : bit_or (y * 2 ^ 10) (n * 2 ^ 5) ≡ (y * 2 ^ 5 + n) * 2 ^ 5 =
      bit_or-below 10 y (n * 2 ^ 5) (omega arith) ∙ omega arith in
    ap (λ x. bit_or (bit_or x (n * 2 ^ 5)) t) first
    ∙ ap (λ x. bit_or x t) second
    ∙ bit_or-below 5 (y * 2 ^ 5 + n) t r
    ∙ omega arith

-- A base, a half-word number, an immediate of 16 digits and a register.
pub word_of_wide :
    (hi hw imm d : ℕ)
    → hw < 2 ^ 2
    → imm < 2 ^ 16
    → d < 2 ^ 5
    → bit_or (bit_or (bit_or (hi * 2 ^ 23) (hw * 2 ^ 21)) (imm * 2 ^ 5)) d
      ≡ hi * 2 ^ 23 + hw * 2 ^ 21 + imm * 2 ^ 5 + d
word_of_wide hi hw imm d p q r =
    let y = hi * 2 ^ 2 + hw in
    let first : bit_or (hi * 2 ^ 23) (hw * 2 ^ 21) ≡ y * 2 ^ 21 =
      bit_or-below 23 hi (hw * 2 ^ 21) (omega arith) ∙ omega arith in
    let second : bit_or (y * 2 ^ 21) (imm * 2 ^ 5) ≡ (y * 2 ^ 16 + imm) * 2 ^ 5 =
      bit_or-below 21 y (imm * 2 ^ 5) (omega arith) ∙ omega arith in
    ap (λ x. bit_or (bit_or x (imm * 2 ^ 5)) d) first
    ∙ ap (λ x. bit_or x d) second
    ∙ bit_or-below 5 (y * 2 ^ 16 + imm) d r
    ∙ omega arith
