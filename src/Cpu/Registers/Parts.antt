-- ===== src/Cpu/Registers/Parts.antt =====
-- What a write to a part of a register does to the whole (src/cpu.c, setreg and setreg8).
use mathlib.Core.Path.{ap₂}
use rashid.Base.{
  ℕ, ◌+◌, ◌-◌, ◌*◌, ◌/◌, ◌%◌, ◌^◌, ◌<◌, bit_and, bit_or, Bool, ◌≡◌, ◌≢◌, refl, ltb, if◌then◌else◌,
  update_self, update_ne, arith, Bool-cases, inl, inr, ap, ◌∙◌,
}
use rashid.Bits.{bit_and-ones}
use rashid.Bits.Fields.{
  bit_or-zero, zero-bit_or, bit_and-zero, bit_and-fields, bit_or-fields, bit_or-below,
}
use rashid.Cpu.{trunc_sz, IsSize}
use rashid.Cpu.State.{Cpu}
use rashid.Cpu.Registers.{not64, setreg, getreg, setreg8, getreg8, is_high, merge}
use rashid.Cpu.Flags.Arith.{trunc_sz-size}

-- Clearing the low four digits.
pub aligned : (x : ℕ) → x < 2 ^ 64 → bit_and x (not64 15) ≡ x / 16 * 16
aligned x h =
    let mask : not64 15 ≡ (2 ^ 60 - 1) * 2 ^ 4 + 0 = refl in
    let whole : x ≡ x / 2 ^ 4 * 2 ^ 4 + x % 2 ^ 4 = omega arith in
    ap₂ bit_and whole mask
    ∙ bit_and-fields 4 (x / 2 ^ 4) (x % 2 ^ 4) (2 ^ 60 - 1) 0 (omega arith) (omega arith)
    ∙ omega (arith, bit_and-ones 60 (x / 2 ^ 4), bit_and-zero (x % 2 ^ 4))

merge8 :
    (x v : ℕ)
    → x < 2 ^ 64
    → bit_or (bit_and x (not64 0xff)) (bit_and v 0xff) ≡ x - x % 2 ^ 8 + v % 2 ^ 8
merge8 x v h =
    let mask : not64 0xff ≡ (2 ^ 56 - 1) * 2 ^ 8 + 0 = refl in
    let whole : x ≡ x / 2 ^ 8 * 2 ^ 8 + x % 2 ^ 8 = omega arith in
    let high : bit_and x (not64 0xff) ≡ x / 2 ^ 8 * 2 ^ 8 =
      ap₂ bit_and whole mask
      ∙ bit_and-fields 8 (x / 2 ^ 8) (x % 2 ^ 8) (2 ^ 56 - 1) 0 (omega arith) (omega arith)
      ∙ omega (arith, bit_and-ones 56 (x / 2 ^ 8), bit_and-zero (x % 2 ^ 8)) in
    ap₂ bit_or high (bit_and-ones 8 v)
    ∙ bit_or-below 8 (x / 2 ^ 8) (v % 2 ^ 8) (omega arith)
    ∙ omega arith

merge16 :
    (x v : ℕ)
    → x < 2 ^ 64
    → bit_or (bit_and x (not64 0xffff)) (bit_and v 0xffff) ≡ x - x % 2 ^ 16 + v % 2 ^ 16
merge16 x v h =
    let mask : not64 0xffff ≡ (2 ^ 48 - 1) * 2 ^ 16 + 0 = refl in
    let whole : x ≡ x / 2 ^ 16 * 2 ^ 16 + x % 2 ^ 16 = omega arith in
    let high : bit_and x (not64 0xffff) ≡ x / 2 ^ 16 * 2 ^ 16 =
      ap₂ bit_and whole mask
      ∙ bit_and-fields 16 (x / 2 ^ 16) (x % 2 ^ 16) (2 ^ 48 - 1) 0 (omega arith) (omega arith)
      ∙ omega (arith, bit_and-ones 48 (x / 2 ^ 16), bit_and-zero (x % 2 ^ 16)) in
    ap₂ bit_or high (bit_and-ones 16 v)
    ∙ bit_or-below 16 (x / 2 ^ 16) (v % 2 ^ 16) (omega arith)
    ∙ omega arith

-- The bytes 1 of a register.
merge_high :
    (x v : ℕ)
    → x < 2 ^ 64
    → bit_or (bit_and x (not64 0xff00)) (bit_and v 0xff * 2 ^ 8)
      ≡ x / 2 ^ 16 * 2 ^ 16 + v % 2 ^ 8 * 2 ^ 8 + x % 2 ^ 8
merge_high x v h =
    let w = v % 2 ^ 8 in
    let mask : not64 0xff00 ≡ (2 ^ 48 - 1) * 2 ^ 16 + 0xff = refl in
    let whole : x ≡ x / 2 ^ 16 * 2 ^ 16 + x % 2 ^ 16 = omega arith in
    let outer : bit_and x (not64 0xff00) ≡ x / 2 ^ 16 * 2 ^ 16 + x % 2 ^ 8 =
      ap₂ bit_and whole mask
      ∙ bit_and-fields 16 (x / 2 ^ 16) (x % 2 ^ 16) (2 ^ 48 - 1) 0xff (omega arith) (omega arith)
      ∙ omega (arith, bit_and-ones 48 (x / 2 ^ 16), bit_and-ones 8 (x % 2 ^ 16)) in
    let inner : bit_and v 0xff * 2 ^ 8 ≡ 0 * 2 ^ 16 + (w * 2 ^ 8 + 0) =
      omega (arith, bit_and-ones 8 v) in
    let low : x / 2 ^ 16 * 2 ^ 16 + x % 2 ^ 8 ≡ x / 2 ^ 16 * 2 ^ 16 + (0 * 2 ^ 8 + x % 2 ^ 8) =
      omega arith in
    ap₂ bit_or (outer ∙ low) inner
    ∙ bit_or-fields 16 (x / 2 ^ 16) (0 * 2 ^ 8 + x % 2 ^ 8) 0 (w * 2 ^ 8 + 0) (omega arith)
        (omega arith)
    ∙ omega (
      arith,
      bit_or-zero (x / 2 ^ 16),
      bit_or-fields 8 0 (x % 2 ^ 8) w 0 (omega arith) (omega arith),
      zero-bit_or w,
      bit_or-zero (x % 2 ^ 8),
    )

merge_parts :
    (x v size : ℕ)
    → IsSize size
    → x < 2 ^ 64
    → v < 2 ^ 64
    → merge x v size
      ≡ (if ltb size 4 then x - x % 2 ^ (size * 8) + v % 2 ^ (size * 8) else v % 2 ^ (size * 8))
unfolding merge
merge_parts x v size (inl e) h p = rw e (merge8 x v h)
merge_parts x v size (inr (inl e)) h p = rw e (merge16 x v h)
merge_parts x v size (inr (inr (inl e))) h p = rw e (bit_and-ones 32 v)
merge_parts x v size (inr (inr (inr e))) h p = rw e (omega arith)

trunc_sz-merge :
    (x v size : ℕ)
    → IsSize size
    → x < 2 ^ 64
    → v < 2 ^ 64
    → (trunc_sz (merge x v size) size ≡ trunc_sz v size) × (merge x v size < 2 ^ 64)
trunc_sz-merge x v size s h p =
    rw (merge_parts x v size s h p, trunc_sz-size v size s p) (fit (bounds s).0 (bounds s).1)
  where
    new : ℕ
    new = if ltb size 4 then x - x % 2 ^ (size * 8) + v % 2 ^ (size * 8) else v % 2 ^ (size * 8)

    bounds : IsSize size → (new < 2 ^ 64) × (new % 2 ^ (size * 8) ≡ v % 2 ^ (size * 8))
    bounds (inl e) = rw e (ground arith)
    bounds (inr (inl e)) = rw e (ground arith)
    bounds (inr (inr (inl e))) = rw e (ground arith)
    bounds (inr (inr (inr e))) = rw e (ground arith)

    fit :
        new < 2 ^ 64
        → new % 2 ^ (size * 8) ≡ v % 2 ^ (size * 8)
        → (trunc_sz new size ≡ v % 2 ^ (size * 8)) × (new < 2 ^ 64)
    fit a b = (trunc_sz-size new size s a ∙ b, a)

-- A write of 1, 2, 4 or 8 bytes to a register is read back at that size. A narrow write leaves
-- the upper bytes as they were, a 4-byte one clears them; no other register changes.
pub setreg_lem :
    (c : Cpu) (i v size : ℕ)
    → IsSize size
    → c.r i < 2 ^ 64
    → v < 2 ^ 64
    → (getreg (setreg c i v size) i size ≡ trunc_sz v size)
      × ((setreg c i v size).r i ≡ (
          if ltb size 4
          then c.r i - c.r i % 2 ^ (size * 8) + v % 2 ^ (size * 8)
          else v % 2 ^ (size * 8)))
      × ((j : ℕ) → i ≢ j → (setreg c i v size).r j ≡ c.r j)
unfolding setreg getreg
setreg_lem c i v size s h p =
    let here = update_self c.r i (merge (c.r i) v size) in
    (
      ap (λ t. trunc_sz t size) here ∙ (trunc_sz-merge (c.r i) v size s h p).0,
      here ∙ merge_parts (c.r i) v size s h p,
      λ j ne. update_ne c.r i j (merge (c.r i) v size) ne,
    )

-- The word that holds a byte register.
abbrev pub word_of : ℕ → Bool → ℕ
word_of i rex = if is_high i rex then i - 4 else i

low_byte : (y : ℕ) → bit_and y 0xff ≡ y % 2 ^ 8
low_byte y = bit_and-ones 8 y

-- A write to a byte register is read back, the other low byte and the upper 48 bits of its word
-- stay as they were, and so does every other register.
pub setreg8_lem :
    (c : Cpu) (i v : ℕ) (rex : Bool)
    → c.r (word_of i rex) < 2 ^ 64
    → let word = word_of i rex in
      let c' = setreg8 c i v rex in
      (getreg8 c' i rex ≡ v % 2 ^ 8)
      × (c'.r word / 2 ^ 16 ≡ c.r word / 2 ^ 16)
      × ((if is_high i rex then c'.r word % 2 ^ 8 else c'.r word / 2 ^ 8 % 2 ^ 8)
          ≡ (if is_high i rex then c.r word % 2 ^ 8 else c.r word / 2 ^ 8 % 2 ^ 8))
      × ((j : ℕ) → word ≢ j → c'.r j ≡ c.r j)
unfolding setreg8 getreg8
setreg8_lem c i v rex h = elim (Bool-cases (is_high i rex)) [
  | inl e ↦
      let x = c.r (i - 4) in
      let bound : x < 2 ^ 64 = rw e at h in
      let new = bit_or (bit_and x (not64 0xff00)) (bit_and v 0xff * 2 ^ 8) in
      let sum = merge_high x v bound in
      let here = update_self c.r (i - 4) new in
      rw (e, here, low_byte (new / 2 ^ 8), sum)
        (omega arith, omega arith, omega arith, λ j ne. update_ne c.r (i - 4) j _ ne)
  | inr e ↦
      let x = c.r i in
      let bound : x < 2 ^ 64 = rw e at h in
      let new = bit_or (bit_and x (not64 0xff)) (bit_and v 0xff) in
      let sum = merge8 x v bound in
      let here = update_self c.r i new in
      rw (e, here, low_byte new, sum)
        (omega arith, omega arith, omega arith, λ j ne. update_ne c.r i j _ ne)
]
