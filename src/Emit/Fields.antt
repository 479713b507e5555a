-- ===== src/Emit/Fields.antt =====
-- src/emit.h: what an encoded word says.
use rashid.Base.{
  ℕ, ◌+◌, ◌-◌, ◌*◌, ◌/◌, ◌%◌, ◌^◌, ◌≤◌, ◌<◌, bit_or, ◌≡◌, refl, ap, ◌∙◌, arith, ltb, if◌then◌else◌,
  ◌⊎◌, inl, inr,
}
use rashid.Bits.{bit_and-ones}
use rashid.Bits.Fields.{bit_or-below}
use rashid.Emit.Words.{word_of_regs, word_of_offset, word_of_wide}
use rashid.Emit.{
  ThreeRegs, three_base, three_regs, Transfer, transfer_base, unit, transfer, movz, movk, b,
}

-- A base has digits above the registers and in the middle, between two of them.
base_shape :
    (o : ThreeRegs)
    → three_base o ≡ three_base o / 2 ^ 21 * 2 ^ 21 + three_base o / 2 ^ 10 % 2 ^ 6 * 2 ^ 10
base_shape ThreeRegs.add = refl
base_shape ThreeRegs.sub = refl
base_shape ThreeRegs.and = refl
base_shape ThreeRegs.orr = refl
base_shape ThreeRegs.eor = refl
base_shape ThreeRegs.add_w = refl
base_shape ThreeRegs.sub_w = refl
base_shape ThreeRegs.and_w = refl
base_shape ThreeRegs.orr_w = refl
base_shape ThreeRegs.eor_w = refl
base_shape ThreeRegs.mul = refl
base_shape ThreeRegs.mul_w = refl
base_shape ThreeRegs.bic = refl

-- The word of a three-register instruction is its base with the three register numbers, each in
-- its own field of five digits, and nothing else.
pub three_regs_lem :
    (o : ThreeRegs) (d n m : ℕ)
    → d < 32
    → n < 32
    → m < 32
    → let w = three_regs o d n m in
      (w % 32 ≡ d)
      × (w / 2 ^ 5 % 32 ≡ n)
      × (w / 2 ^ 16 % 32 ≡ m)
      × (w ≡ three_base o + m * 2 ^ 16 + n * 2 ^ 5 + d)
unfolding three_regs
three_regs_lem o d n m p q r =
    let hi = three_base o / 2 ^ 21 in
    let md = three_base o / 2 ^ 10 % 2 ^ 6 in
    let m' : m * 2 ^ 16 % 2 ^ 32 ≡ m * 2 ^ 16 = omega arith in
    let n' : n * 2 ^ 5 % 2 ^ 32 ≡ n * 2 ^ 5 = omega arith in
    let shape = base_shape o in
    let word : three_regs o d n m ≡ hi * 2 ^ 21 + m * 2 ^ 16 + md * 2 ^ 10 + n * 2 ^ 5 + d =
      ap (λ x. bit_or (bit_or (bit_or (three_base o) x) (n * 2 ^ 5 % 2 ^ 32)) d) m'
      ∙ ap (λ x. bit_or (bit_or (bit_or (three_base o) (m * 2 ^ 16)) x) d) n'
      ∙ ap (λ x. bit_or (bit_or (bit_or x (m * 2 ^ 16)) (n * 2 ^ 5)) d) shape
      ∙ word_of_regs hi md m n d (omega arith) r q p in
    (omega (arith, word), omega (arith, word), omega (arith, word), omega (arith, word, shape))

transfer_shape : (o : Transfer) → transfer_base o ≡ transfer_base o / 2 ^ 22 * 2 ^ 22
transfer_shape Transfer.ldr = refl
transfer_shape Transfer.str = refl
transfer_shape Transfer.ldrh = refl
transfer_shape Transfer.strh = refl
transfer_shape Transfer.ldrb = refl
transfer_shape Transfer.strb = refl
transfer_shape Transfer.ldr_d = refl
transfer_shape Transfer.str_d = refl
transfer_shape Transfer.ldr_s = refl
transfer_shape Transfer.str_s = refl
transfer_shape Transfer.ldr_w = refl
transfer_shape Transfer.str_w = refl

in_units : (o : Transfer) (k : ℕ) → k * unit o / unit o ≡ k
in_units Transfer.ldr k = omega arith
in_units Transfer.str k = omega arith
in_units Transfer.ldrh k = omega arith
in_units Transfer.strh k = omega arith
in_units Transfer.ldrb k = omega arith
in_units Transfer.strb k = omega arith
in_units Transfer.ldr_d k = omega arith
in_units Transfer.str_d k = omega arith
in_units Transfer.ldr_s k = omega arith
in_units Transfer.str_s k = omega arith
in_units Transfer.ldr_w k = omega arith
in_units Transfer.str_w k = omega arith

-- A load or store whose offset is a multiple k of the access's unit, with k below 4096, has k in
-- its offset field, so that the unit times the field is the offset that was asked for.
pub transfer_lem :
    (o : Transfer) (t n k : ℕ)
    → t < 32
    → n < 32
    → k < 4096
    → let w = transfer o t n (k * unit o) in
      (w % 32 ≡ t)
      × (w / 2 ^ 5 % 32 ≡ n)
      × (w / 2 ^ 10 % 2 ^ 12 * unit o ≡ k * unit o)
      × (w / 2 ^ 22 ≡ transfer_base o / 2 ^ 22)
unfolding transfer
transfer_lem o t n k p q r =
    let off = k * unit o in
    let e = in_units o k in
    let hi = transfer_base o / 2 ^ 22 in
    let f' : off / unit o * 2 ^ 10 % 2 ^ 32 ≡ k * 2 ^ 10 = omega (arith, e) in
    let n' : n * 2 ^ 5 % 2 ^ 32 ≡ n * 2 ^ 5 = omega arith in
    let word : transfer o t n off ≡ hi * 2 ^ 22 + k * 2 ^ 10 + n * 2 ^ 5 + t =
      ap (λ x. bit_or (bit_or (bit_or (transfer_base o) x) (n * 2 ^ 5 % 2 ^ 32)) t) f'
      ∙ ap (λ x. bit_or (bit_or (bit_or (transfer_base o) (k * 2 ^ 10)) x) t) n'
      ∙ ap (λ x. bit_or (bit_or (bit_or x (k * 2 ^ 10)) (n * 2 ^ 5)) t) (transfer_shape o)
      ∙ word_of_offset hi k n t r q p in
    let field : transfer o t n off / 2 ^ 10 % 2 ^ 12 ≡ k = omega (arith, word) in
    (omega (arith, word), omega (arith, word), ap (λ x. x * unit o) field, omega (arith, word))

-- The words of movz and movk.
pub movz_lem :
    (d imm hw : ℕ)
    → d < 32
    → imm < 2 ^ 16
    → hw < 4
    → movz d imm hw ≡ 0x1A5 * 2 ^ 23 + hw * 2 ^ 21 + imm * 2 ^ 5 + d
unfolding movz
movz_lem d imm hw p q r =
    let h' : hw * 2 ^ 21 % 2 ^ 32 ≡ hw * 2 ^ 21 = omega arith in
    let i' : imm * 2 ^ 5 % 2 ^ 32 ≡ imm * 2 ^ 5 = omega arith in
    ap (λ x. bit_or (bit_or (bit_or 0xD280_0000 x) (imm * 2 ^ 5 % 2 ^ 32)) d) h'
    ∙ ap (λ x. bit_or (bit_or (bit_or 0xD280_0000 (hw * 2 ^ 21)) x) d) i'
    ∙ word_of_wide 0x1A5 hw imm d r q p

pub movk_lem :
    (d imm hw : ℕ)
    → d < 32
    → imm < 2 ^ 16
    → hw < 4
    → movk d imm hw ≡ 0x1E5 * 2 ^ 23 + hw * 2 ^ 21 + imm * 2 ^ 5 + d
unfolding movk
movk_lem d imm hw p q r =
    let h' : hw * 2 ^ 21 % 2 ^ 32 ≡ hw * 2 ^ 21 = omega arith in
    let i' : imm * 2 ^ 5 % 2 ^ 32 ≡ imm * 2 ^ 5 = omega arith in
    ap (λ x. bit_or (bit_or (bit_or 0xF280_0000 x) (imm * 2 ^ 5 % 2 ^ 32)) d) h'
    ∙ ap (λ x. bit_or (bit_or (bit_or 0xF280_0000 (hw * 2 ^ 21)) x) d) i'
    ∙ word_of_wide 0x1E5 hw imm d r q p

-- The displacement that a branch word holds, as a 32-bit pattern.
abbrev pub displacement : ℕ → ℕ
displacement w = let low = w % 2 ^ 26 in if ltb low (2 ^ 25) then low else low + (2 ^ 32 - 2 ^ 26)

-- The branch keeps any displacement, forwards or backwards, of less than 2 ^ 25 words.
pub b_lem :
    (imm : ℕ)
    → imm < 2 ^ 32
    → (imm < 2 ^ 25) ⊎ (2 ^ 32 - 2 ^ 25 ≤ imm)
    → (displacement (b imm) ≡ imm) × (b imm / 2 ^ 26 ≡ 5)
unfolding b
b_lem imm p range =
    let word : b imm ≡ 5 * 2 ^ 26 + imm % 2 ^ 26 =
      ap (bit_or 0x1400_0000) (bit_and-ones 26 imm)
      ∙ bit_or-below 26 5 (imm % 2 ^ 26) (omega arith) in
    let low : b imm % 2 ^ 26 ≡ imm % 2 ^ 26 = omega (arith, word) in
    (
      ap (λ x. if ltb x (2 ^ 25) then x else x + (2 ^ 32 - 2 ^ 26)) low
          ∙ elim range [ inl f ↦ ground arith | inr f ↦ ground arith ],
      omega (arith, word),
    )
