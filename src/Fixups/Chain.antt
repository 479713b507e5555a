-- ===== src/Fixups/Chain.antt =====
-- The walk of a chain ends, and what it binds is recognised again (src/fixups.c).
use rashid.Base.{
  ℕ, zero, suc, ◌+◌, ◌-◌, ◌*◌, ◌/◌, ◌^◌, ◌≤◌, ◌<◌, ◌≡◌, ◌⊎◌, refl, true, none, some, List, [], ◌∷◌,
  ltb, ◌==◌, add64, arith, Bool-cases, Option-cases, inl, inr,
}
use rashid.AddressSpace
use rashid.AddressSpace.{AddressSpace, Region, find}
use rashid.AddressSpace.Sorted.{IsSorted, find-contains}
use rashid.AddressSpace.Access.{mapped_iff, byte_ok}
use rashid.Cpu.Memory.{read}
use rashid.Stubs.{Stubs, stub_index, stub_stride, stub_index_lem}
use rashid.Fixups.{ChainFormat, Image, Walk, bound, fixup, walk_chain}

-- Every region ends at or below `top`.
abbrev pub EndsBelow : ℕ → List Region → Type 0
EndsBelow top [] = Unit {0}
EndsBelow top (r ∷ rs) = (r.end ≤ top) × EndsBelow top rs

find_end :
    (top a : ℕ) (rs : List Region) {r : Region}
    → EndsBelow top rs
    → find rs a ≡ some r
    → r.end ≤ top
unfolding find
find_end top a [] e h = ground arith
find_end top a (q ∷ rs) {r} e h = ground (arith, find_end top a rs {r = r} e.1)

found_below :
    (top a : ℕ) (rs : List Region) → EndsBelow top rs → byte_ok (λ _. true) rs a ≡ true → a < top
found_below top a rs e h = elim (Option-cases (find rs a)) [
  | inl m ↦ absurd (ground arith)
  | inr (r, m) ↦ omega (arith, find-contains a rs m, find_end top a rs e m)
]

mapped_below :
    (s : AddressSpace) (top addr : ℕ)
    → IsSorted 0 s.reg
    → EndsBelow top s.reg
    → addr < 2 ^ 64
    → AddressSpace.mapped s addr 8 ≡ true
    → addr < top
mapped_below s top addr w e h m =
    found_below top addr s.reg e (
      ((mapped_iff s addr 8 w h (omega arith) (omega arith)).0 m).1 addr (omega arith)
        (omega arith))

-- The width of `next`: 12 digits in both structures.
abbrev pub NextFits : ChainFormat → Type 0
NextFits f = (raw : ℕ) → (f.bind_next raw < 2 ^ 12) × (f.rebase_next raw < 2 ^ 12)

next-lt :
    (f : ChainFormat) (img : Image) (w : Walk) (addr : ℕ)
    → NextFits f
    → (fixup f img w addr).1 < 2 ^ 12
unfolding fixup
next-lt f img w addr h = elim (Bool-cases (ltb 0 (read w.mem addr 8 / 2 ^ 63))) [
  | inl e ↦ rw e ((h (read w.mem addr 8)).0)
  | inr e ↦ rw e ((h (read w.mem addr 8)).1)
]

-- In an ordered address space whose regions end at or below `top`, far enough from 2 ^ 64, the
-- walk of a chain from any 64-bit address ends, whatever the chain holds: it needs no more rounds
-- than there are addresses between its start and `top`, and one more.
pub walk_chain-ends :
    (f : ChainFormat) (img : Image) (s : AddressSpace) (top fuel addr : ℕ) (w : Walk)
    → NextFits f
    → IsSorted 0 s.reg
    → EndsBelow top s.reg
    → top + 2 ^ 14 ≤ 2 ^ 64
    → addr < 2 ^ 64
    → top - addr < fuel
    → (w' : Walk) × (walk_chain f img s fuel addr w ≡ some w')
unfolding walk_chain
walk_chain-ends f img s top zero addr w n o e t h g = absurd (omega arith)
walk_chain-ends f img s top (suc fuel) addr w n o e t h g =
    let step = fixup f img w addr in
    elim (Bool-cases (AddressSpace.mapped s addr 8)) [
      | inr m ↦ (w, rw m refl)
      | inl m ↦
          let low = mapped_below s top addr o e h m in
          let short = next-lt f img w addr n in
          elim (Bool-cases (step.1 == 0)) [
            | inl z ↦ (step.0, rw (m, z) refl)
            | inr z ↦
                let positive : 0 < step.1 = ground arith in
                let (w', ends) =
                  walk_chain-ends f img s top fuel (add64 addr (step.1 * 4)) step.0 n o e t
                    (omega arith) (omega arith) in
                (w', rw (m, z) ends)
          ]
    ]

-- An import that has no native data to point at is bound to an address inside its own stub, which
-- the interpreter recognises as that import.
pub stub_index-bound :
    (f : ChainFormat) (img : Image) (raw : ℕ)
    → f.ordinal raw < img.nimports
    → f.addend raw < stub_stride
    → ((img.imports (f.ordinal raw)).native ≡ none) ⊎ ((img.imports (f.ordinal raw)).is_code ≡ true)
    → 0 < img.stub_base
    → img.stub_base + img.nimports * stub_stride < 2 ^ 64
    → stub_index (record { base = img.stub_base; n = img.nimports }) (bound f img raw)
      ≡ some (f.ordinal raw)
unfolding bound
stub_index-bound f img raw o a code pos fit =
    let stubs : Stubs = record { base = img.stub_base; n = img.nimports } in
    let i = f.ordinal raw in
    let stub = add64 (add64 img.stub_base (i * stub_stride)) (f.addend raw) in
    let here : stub ≡ img.stub_base + i * stub_stride + f.addend raw = omega arith in
    let own : stub_index stubs stub ≡ some i =
      (stub_index_lem stubs stub pos fit (omega arith)).0 i o (omega arith) (omega arith) in
    let known : ltb i img.nimports ≡ true = ground arith in
    elim code [
      | inl none_native ↦ rw (known, none_native) own
      | inr is_code ↦ elim (Option-cases (img.imports i).native) [
        | inl e ↦ rw (known, e) own
        | inr (native, e) ↦ rw (known, e, is_code) own
      ]
    ]
