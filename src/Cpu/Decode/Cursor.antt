-- ===== src/Cpu/Decode/Cursor.antt =====
-- src/cpu.c, `modrm`: what it leaves of the decoder's state.
use rashid.Base.{
  ℕ, ◌+◌, ◌*◌, ◌/◌, ◌%◌, ◌^◌, bit_and, Bool, ◌&&◌, ◌==◌, if◌then◌else◌, ◌≡◌, refl, ap, ◌∙◌, arith,
  if_both, bit_or,
}
use rashid.Bits.{bit_and-ones}
use rashid.Bits.Fields.{bit_or-zero, bit_or-fields}
use rashid.Cpu.State.{Cpu}
use rashid.Cpu.Memory.{read}
use rashid.Cpu.Decode.{Operand, Decoder, fetch, displace, sib_address, modrm, rex_bit, field}

displace-rip0 : (c : Cpu) (d : Decoder) (md addr : ℕ) → (displace c d md addr).1.rip0 ≡ d.rip0
unfolding displace fetch
displace-rip0 c d md addr =
    if_both (λ (a : ℕ × Decoder). a.1.rip0 ≡ d.rip0) (md == 1) refl
      (if_both (λ (a : ℕ × Decoder). a.1.rip0 ≡ d.rip0) (md == 2) refl refl)

sib_address-rip0 : (c : Cpu) (d : Decoder) (md : ℕ) → (sib_address c d md).1.rip0 ≡ d.rip0
unfolding sib_address fetch
sib_address-rip0 c d md =
    let sib = read c.mem d.p 1 in
    if_both (λ (a : ℕ × Decoder). a.1.rip0 ≡ d.rip0) ((bit_and sib 7 == 5) && (md == 0)) refl refl

-- The start of the instruction is kept.
pub modrm-rip0 : (c : Cpu) (d : Decoder) → (modrm c d).2.rip0 ≡ d.rip0
unfolding modrm fetch
modrm-rip0 c d =
    let m = read c.mem d.p 1 in
    let md = m / 2 ^ 6 in
    let d1 : Decoder = record d { p = d.p + 1 } in
    let (a, d2) = sib_address c d1 md in
    let keeps : ℕ × Operand × Decoder → Type 0 = λ r. r.2.rip0 ≡ d.rip0 in
    if_both keeps (md == 3) refl (
      if_both keeps (bit_and m 7 == 4) (displace-rip0 c d2 md a ∙ sib_address-rip0 c d1 md) (
        if_both keeps ((bit_and m 7 == 5) && (md == 0)) refl
          (displace-rip0 c d1 md (c.r (bit_or (bit_and m 7) (rex_bit d.rex 1))))))

-- The digit that REX adds to a field stands above the field's three.
pub field-low :
    (m k : ℕ) (wide : Bool) → bit_and (field m k (if wide then 8 else 0)) 7 ≡ bit_and (m / 2 ^ k) 7
field-low m k wide =
    let y = bit_and (m / 2 ^ k) 7 in
    let small : y ≡ m / 2 ^ k % 8 = bit_and-ones 3 (m / 2 ^ k) in
    let narrow : bit_and (bit_or y 0) 7 ≡ y =
      ap (λ v. bit_and v 7) (bit_or-zero y) ∙ bit_and-ones 3 y ∙ omega arith in
    let both : y ≡ 0 * 2 ^ 3 + y = omega arith in
    let lifted : bit_or y 8 ≡ 8 + y =
      ap (λ v. bit_or v 8) both
      ∙ bit_or-fields 3 0 y 1 0 (omega arith) (omega arith)
      ∙ ap (λ (v : ℕ). 8 + v) (bit_or-zero y) in
    let high : bit_and (bit_or y 8) 7 ≡ y =
      ap (λ v. bit_and v 7) lifted ∙ bit_and-ones 3 (8 + y) ∙ omega arith in
    if_both (λ d. bit_and (bit_or y d) 7 ≡ y) wide high narrow

-- The register field of ModRM.
pub modrm-field :
    (c : Cpu) (d : Decoder) → (modrm c d).0 ≡ field (read c.mem d.p 1) 3 (rex_bit d.rex 4)
unfolding modrm fetch
modrm-field c d =
    let m = read c.mem d.p 1 in
    let md = m / 2 ^ 6 in
    let here : ℕ × Operand × Decoder → Type 0 = λ r. r.0 ≡ field m 3 (rex_bit d.rex 4) in
    if_both here (md == 3) refl (
      if_both here (bit_and m 7 == 4) refl
        (if_both here ((bit_and m 7 == 5) && (md == 0)) refl refl))
