-- ===== src/AddressSpace/Sorted.antt =====
-- The order of the regions: each is non-empty and ends before the next starts, so that `find`
-- has one answer.
use mathlib.Core.Option
use rashid.Base.{
  Bool-cases, inl, inr, ◌&&◌, refl, ℕ, ◌≤◌, ◌<◌, ◌≡◌, ◌⊎◌, Option, none, some, List, [], ◌∷◌, arith,
  leb,
}
use rashid.AddressSpace.{Region, find, place, unmap_regions}

-- From `lo` on the regions are non-empty, apart from one another and in order.
abbrev pub IsSorted : ℕ → List Region → Type 0
IsSorted lo [] = Unit {0}
IsSorted lo (r ∷ rs) = (lo ≤ r.start) × (r.start < r.end) × IsSorted r.end rs

-- A new region keeps off those that are there.
abbrev pub IsApart : Region → List Region → Type 0
IsApart new [] = Unit {0}
IsApart new (r ∷ rs) = ((new.end ≤ r.start) ⊎ (r.end ≤ new.start)) × IsApart new rs

pub IsSorted-weaken : (lo lo' : ℕ) (rs : List Region) → lo' ≤ lo → IsSorted lo rs → IsSorted lo' rs
IsSorted-weaken lo lo' [] h w = tt
IsSorted-weaken lo lo' (r ∷ rs) h w = (omega arith, w.1, w.2)

-- Nothing is found below the first region.
pub find_below : (lo a : ℕ) (rs : List Region) → IsSorted lo rs → a < lo → find rs a ≡ none
unfolding find
find_below lo a [] w h = refl
find_below lo a (r ∷ rs) w h = ground (arith, find_below r.end a rs w.2)

-- What `find` answers holds the address.
pub find-contains :
    (a : ℕ) (rs : List Region) {r : Region} → find rs a ≡ some r → (r.start ≤ a) × (a < r.end)
unfolding find
find-contains a [] h = ground arith
find-contains a (q ∷ rs) {r} h = ground (arith, find-contains a rs {r = r})

-- `find` has the same answer over the rest of the region that holds a.
pub find_stays :
    (lo a x : ℕ) (rs : List Region) {r : Region}
    → IsSorted lo rs
    → find rs a ≡ some r
    → a ≤ x
    → x < r.end
    → find rs x ≡ some r
unfolding find
find_stays lo a x [] w h p q = ground arith
find_stays lo a x (s ∷ rs) {r} w h p q =
    ground (arith, find_stays s.end a x rs {r = r} w.2, find_below s.end a rs w.2)

pub place-IsSorted :
    (lo : ℕ) (new : Region) (rs : List Region)
    → lo ≤ new.start
    → new.start < new.end
    → IsApart new rs
    → IsSorted lo rs
    → IsSorted lo (place new rs)
unfolding place
place-IsSorted lo new [] p q d w = (p, q, tt)
place-IsSorted lo new (r ∷ rs) p q d w =
    ground (arith, place-IsSorted r.end new rs, d.0, d.1, w.0, w.1, w.2)

-- What the guest may do at an address: the protection of the region that holds it.
abbrev pub prot_at : List Region → ℕ → Option ℕ
prot_at rs a = Option.map (λ r. r.prot) (find rs a)

-- `rsd_as_unmap` keeps the order, ...
pub unmap_regions-IsSorted :
    (lo hi from : ℕ) (rs : List Region) → IsSorted from rs → IsSorted from (unmap_regions lo hi rs)
unfolding unmap_regions
unmap_regions-IsSorted lo hi from [] w = tt
unmap_regions-IsSorted lo hi from (r ∷ rs) w =
    let ih = unmap_regions-IsSorted lo hi r.end rs w.2 in
    let weak = IsSorted-weaken r.end from (unmap_regions lo hi rs) (omega arith) ih in
    elim (Bool-cases (leb lo r.start && leb r.end hi)) [
      | inl e ↦ rw e weak
      | inr e ↦ rw e (w.0, w.1, ih)
    ]

-- A region of the list: `find` answers it at its own start.
pub find_start :
    (r : Region) (rs : List Region) (lo : ℕ) → IsSorted lo (r ∷ rs) → find (r ∷ rs) r.start ≡ some r
unfolding find
find_start r rs lo w = ground arith

-- The region that holds an address is also the answer at its own start.
pub find-find_start :
    (lo a : ℕ) (rs : List Region) {r : Region}
    → IsSorted lo rs
    → find rs a ≡ some r
    → find rs r.start ≡ some r
unfolding find
find-find_start lo a [] w h = ground arith
find-find_start lo a (s ∷ rs) {r} w h =
    ground (arith, find-find_start s.end a rs {r = r} w.2, find_below s.end r.start rs w.2)
