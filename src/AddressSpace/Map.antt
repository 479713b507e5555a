-- ===== src/AddressSpace/Map.antt =====
-- `insert` and `rsd_as_map` (src/as.c), at each address.
use rashid.Base.{ℕ, ◌≤◌, ◌<◌, ◌≡◌, refl, false, some, List, [], ◌∷◌, arith, if◌then◌else◌}
use rashid.AddressSpace.{Region, contains, find, place}
use rashid.AddressSpace.Sorted.{IsSorted, IsApart, find_below, find-contains}

-- Where the new region keeps off the others, the array answers with it in its own range and as
-- before everywhere else.
pub find-place :
    (lo : ℕ) (new : Region) (rs : List Region) (x : ℕ)
    → IsSorted lo rs
    → IsApart new rs
    → new.start < new.end
    → find (place new rs) x ≡ (if contains new x then some new else find rs x)
unfolding find place
find-place lo new [] x w d p = refl
find-place lo new (r ∷ rs) x w d p = ground (arith, find-place r.end new rs x w.2 d.1 p, d.0)

find-place_outside :
    (new : Region) (rs : List Region) (x : ℕ)
    → contains new x ≡ false
    → find (place new rs) x ≡ find rs x
unfolding find place
find-place_outside new [] x e = rw e
find-place_outside new (r ∷ rs) x e = ground (arith, find-place_outside new rs x)

-- A region that is put inside one that starts below it changes nothing: the old region is still
-- the answer at every address.
pub find-place_inside :
    (lo : ℕ) (new : Region) (rs : List Region) {old : Region} (x : ℕ)
    → IsSorted lo rs
    → find rs new.start ≡ some old
    → old.start < new.start
    → new.end ≤ old.end
    → find (place new rs) x ≡ find rs x
unfolding find place
find-place_inside lo new [] x w f p q = ground arith
find-place_inside lo new (r ∷ rs) {old} x w f p q = ground (
  arith,
  find-place_inside r.end new rs {old = old} x w.2,
  find-contains new.start rs {r = old},
  find_below r.end new.start rs w.2,
  find-place_outside new rs x,
)
