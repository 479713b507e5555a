-- ===== src/Macho/Span.antt =====
-- src/macho.c, rsd_load: the bounds of the segments.
use rashid.Base.{ℕ, ◌+◌, ◌≤◌, ◌<◌, ◌^◌, List, [], ◌∷◌, ◌++◌, ltb, arith, add64, if◌then◌else◌}
use rashid.Macho.{Segment}
use rashid.Macho.Load.{span}

-- The segments do not wrap around the end of the addresses.
abbrev pub DoNotWrap : List Segment → Type 0
DoNotWrap [] = Unit {0}
DoNotWrap (s ∷ ss) = (s.vmaddr + s.vmsize < 2 ^ 64) × DoNotWrap ss

-- The bounds only grow, and take in each segment.
span-grows : (ss : List Segment) (lo hi : ℕ) → ((span ss lo hi).0 ≤ lo) × (hi ≤ (span ss lo hi).1)
unfolding span
span-grows [] lo hi = (omega arith, omega arith)
span-grows (s ∷ ss) lo hi =
    let end = add64 s.vmaddr s.vmsize in
    ground (
      arith,
      span-grows ss (if ltb s.vmaddr lo then s.vmaddr else lo) (if ltb hi end then end else hi),
    )

-- The segments lie between two bounds.
abbrev pub LieIn : ℕ → ℕ → List Segment → Type 0
LieIn lo hi [] = Unit {0}
LieIn lo hi (s ∷ ss) =
    (lo ≤ s.vmaddr) × (s.vmaddr + s.vmsize ≤ hi) × (s.vmaddr + s.vmsize < 2 ^ 64) × LieIn lo hi ss

-- The bounds that `rsd_load` computes hold every segment, and end below 2 ^ 64.
pub span-LieIn :
    (ss : List Segment) (lo hi : ℕ)
    → hi < 2 ^ 64
    → DoNotWrap ss
    → LieIn (span ss lo hi).0 (span ss lo hi).1 ss × ((span ss lo hi).1 < 2 ^ 64)
unfolding span
span-LieIn [] lo hi h fits = (tt, h)
span-LieIn (s ∷ ss) lo hi h fits =
    let end = add64 s.vmaddr s.vmsize in
    let lo' = if ltb s.vmaddr lo then s.vmaddr else lo in
    let hi' = if ltb hi end then end else hi in
    let (rest, small) = span-LieIn ss lo' hi' (ground arith) fits.1 in
    let (low, high) = span-grows ss lo' hi' in ((ground arith, ground arith, fits.0, rest), small)

pub LieIn-at :
    (lo hi : ℕ) (before : List Segment) (s : Segment) (after : List Segment)
    → LieIn lo hi (before ++ (s ∷ after))
    → (lo ≤ s.vmaddr) × (s.vmaddr + s.vmsize ≤ hi)
LieIn-at lo hi [] s after h = (h.0, h.1)
LieIn-at lo hi (b ∷ bs) s after h = LieIn-at lo hi bs s after h.3
