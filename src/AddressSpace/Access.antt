-- ===== src/AddressSpace/Access.antt =====
-- `rsd_as_ok` and `rsd_as_mapped` (src/as.c) against the bytes that they speak of.
use rashid.Base.{
  ℕ, zero, suc, ◌+◌, ◌-◌, ◌≤◌, ◌<◌, ◌^◌, ◌≡◌, ◌↔◌, inl, inr, Bool, true, false, Option, none, some,
  List, arith, Option-cases,
}
use rashid.AddressSpace.{Region, AddressSpace, find, allows, walk, ok, mapped}
use rashid.AddressSpace.Sorted.{IsSorted, find-contains, find_stays}

-- Does the region that holds one address satisfy a test?
abbrev pub accepts : (Region → Bool) → Option Region → Bool
accepts t none = false
accepts t (some r) = t r

abbrev pub byte_ok : (Region → Bool) → List Region → ℕ → Bool
byte_ok t rs x = accepts t (find rs x)

module _ (t : Region → Bool) (rs : List Region) (lo : ℕ) (w : IsSorted lo rs) where
  byte_ok_stays :
      (a x : ℕ) {r : Region} → find rs a ≡ some r → a ≤ x → x < r.end → byte_ok t rs x ≡ t r
  byte_ok_stays a x e p q = rw (find_stays lo a x rs w e p q)

  walk_sound :
      (fuel a n x : ℕ)
      → n ≤ fuel
      → walk t rs fuel a n ≡ true
      → a ≤ x
      → x < a + n
      → byte_ok t rs x ≡ true
  unfolding walk
  walk_sound zero a n x h e p q = absurd (omega arith)
  walk_sound (suc f) a n x h e p q = elim (Option-cases (find rs a)) [
    | inl m ↦ ground arith
    | inr (r, m) ↦ ground (
      arith,
      byte_ok_stays a x m,
      find-contains a rs m,
      walk_sound f (a + (r.end - a)) (n - (r.end - a)) x,
    )
  ]

  walk_complete :
      (fuel a n : ℕ)
      → n ≤ fuel
      → ((x : ℕ) → a ≤ x → x < a + n → byte_ok t rs x ≡ true)
      → walk t rs fuel a n ≡ true
  unfolding walk
  walk_complete zero a n h all = ground arith
  walk_complete (suc f) a zero h all = ground arith
  walk_complete (suc f) a (suc n) h all = elim (Option-cases (find rs a)) [
    | inl m ↦ ground (arith, all a)
    | inr (r, m) ↦
        let in_r = find-contains a rs m in
        let ih =
          walk_complete f (a + (r.end - a)) (suc n - (r.end - a)) (omega arith)
            (λ x p q. all x (omega arith) (omega arith)) in
        rw m (
          ground (
            arith,
            byte_ok_stays a a m (omega arith) (omega arith),
            all a (omega arith) (omega arith),
          ))
  ]

-- For an ordered space and n bytes from a 64-bit address: `rsd_as_ok` answers true exactly when
-- the range does not wrap and every byte of it lies in a region that allows the access.
pub ok_iff :
    (s : AddressSpace) (a n prot : ℕ)
    → IsSorted 0 s.reg
    → a < 2 ^ 64
    → 0 < n
    → n < 2 ^ 64
    → (ok s a n prot ≡ true) ↔ (
        (a + n < 2 ^ 64)
        × ((x : ℕ) → a ≤ x → x < a + n → byte_ok (λ r. allows r prot) s.reg x ≡ true))
unfolding ok
ok_iff s a n prot w ha pos hn =
    let t : Region → Bool = λ r. allows r prot in
    (
      λ h. (ground arith, λ x p q. walk_sound t s.reg 0 w n a n x (omega arith) (ground arith) p q),
      λ h. let full = walk_complete t s.reg 0 w n a n (omega arith) h.1 in ground arith,
    )

-- The same for `rsd_as_mapped`: every byte lies in some region.
pub mapped_iff :
    (s : AddressSpace) (a n : ℕ)
    → IsSorted 0 s.reg
    → a < 2 ^ 64
    → 0 < n
    → n < 2 ^ 64
    → (mapped s a n ≡ true)
      ↔ ((a + n < 2 ^ 64) × ((x : ℕ) → a ≤ x → x < a + n → byte_ok (λ _. true) s.reg x ≡ true))
unfolding mapped
mapped_iff s a n w ha pos hn =
    let t : Region → Bool = λ _. true in
    (
      λ h. (ground arith, λ x p q. walk_sound t s.reg 0 w n a n x (omega arith) (ground arith) p q),
      λ h. let full = walk_complete t s.reg 0 w n a n (omega arith) h.1 in ground arith,
    )
