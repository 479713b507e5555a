-- ===== src/AddressSpace/Protect.antt =====
-- What `rsd_as_protect` and `rsd_as_unmap` (src/as.c) do at each address.
use mathlib.Core.Option
use rashid.Base.{
  Bool-cases, inl, inr, ◌&&◌, ◌||◌, ◌==◌, refl, sub64, ℕ, ◌+◌, ◌*◌, ◌≤◌, ◌<◌, ◌^◌, ◌≡◌, Bool, true,
  Option, none, some, List, [], ◌∷◌, arith, ltb, leb, add64, length, if◌then◌else◌,
}
use rashid.AddressSpace.{
  Region, AddressSpace, Host, contains, find, protect, protect_regions, split, unmap, unmap_regions,
  page_up, page_down,
}
use rashid.AddressSpace.Sorted.{
  IsSorted, IsSorted-weaken, find_below, prot_at, unmap_regions-IsSorted,
}

abbrev pub within : ℕ → ℕ → ℕ → Bool
within at end x = leb at x && ltb x end

module _ (at end prot : ℕ) (full : at < end) where
  split-IsSorted :
      (from : ℕ) (r : Region) (rest : List Region)
      → from ≤ r.start
      → r.start < r.end
      → at < r.end
      → r.start < end
      → IsSorted r.end rest
      → IsSorted from (split at end prot r rest)
  split-IsSorted from r rest p q m n w = ground (arith, IsSorted-weaken r.end end rest)

  pub protect_regions-IsSorted :
      (from : ℕ) (rs : List Region)
      → IsSorted from rs
      → IsSorted from (protect_regions at end prot rs)
  unfolding protect_regions
  protect_regions-IsSorted from [] w = tt
  protect_regions-IsSorted from (r ∷ rs) w =
      let ih = protect_regions-IsSorted r.end rs w.2 in
      elim (Bool-cases (leb r.end at || leb end r.start)) [
        | inl e ↦ rw e (w.0, w.1, ih)
        | inr e ↦ rw e (
            split-IsSorted from r (protect_regions at end prot rs) w.0 w.1 (ground arith)
              (ground arith) ih)
      ]

  prot_at-split :
      (r : Region) (rest : List Region) (x : ℕ)
      → r.start < r.end
      → at < r.end
      → r.start < end
      → IsSorted r.end rest
      → prot_at (split at end prot r rest) x ≡ (
          if contains r x
          then (if within at end x then some prot else some r.prot)
          else prot_at rest x)
  unfolding find
  prot_at-split r rest x q m n w = ground (arith, find_below r.end x rest w)

  -- One region and what the loop makes of it, over any rest that has done its part.
  prot_at-step :
      (r : Region) (rs rest : List Region) (x : ℕ)
      → r.start < r.end
      → IsSorted r.end rest
      → prot_at rest x
        ≡ (if within at end x then Option.map (λ _. prot) (prot_at rs x) else prot_at rs x)
      → prot_at (if leb r.end at || leb end r.start then r ∷ rest else split at end prot r rest) x
        ≡ (if within at end x
            then Option.map (λ _. prot) (prot_at (r ∷ rs) x)
            else prot_at (r ∷ rs) x)
  unfolding find
  prot_at-step r rs rest x q w ih = elim (Bool-cases (leb r.end at || leb end r.start)) [
    | inl e ↦ rw e (ground arith)
    | inr e ↦ rw (e, prot_at-split r rest x q (ground arith) (ground arith) w) (ground arith)
  ]

  pub prot_at-protect_regions :
      (from : ℕ) (rs : List Region) (x : ℕ)
      → IsSorted from rs
      → prot_at (protect_regions at end prot rs) x
        ≡ (if within at end x then Option.map (λ _. prot) (prot_at rs x) else prot_at rs x)
  unfolding protect_regions
  prot_at-protect_regions from [] x w = unfold find in (ground arith)
  prot_at-protect_regions from (r ∷ rs) x w =
      prot_at-step r rs (protect_regions at end prot rs) x w.1
        (protect_regions-IsSorted r.end rs w.2) (prot_at-protect_regions r.end rs x w.2)

  -- The buffer of 3 n + 1 regions that the loop writes to is long enough.
  pub length-protect_regions :
      (rs : List Region) → length (protect_regions at end prot rs) ≤ length rs * 3
  unfolding protect_regions
  length-protect_regions [] = omega arith
  length-protect_regions (r ∷ rs) = ground (arith, length-protect_regions rs)

-- What is left of an answer once the regions inside [lo, hi) are gone.
abbrev pub kept : ℕ → ℕ → Option Region → Option Region
kept lo hi none = none
kept lo hi (some q) = if leb lo q.start && leb q.end hi then none else some q

-- One region of the loop of `rsd_as_unmap`, at each address.
unmap_at-step :
    (lo hi from x : ℕ) (r : Region) (rs rest : List Region)
    → r.start < r.end
    → IsSorted r.end rs
    → find rest x ≡ kept lo hi (find rs x)
    → find (if leb lo r.start && leb r.end hi then rest else r ∷ rest) x
      ≡ kept lo hi (find (r ∷ rs) x)
unfolding find
unmap_at-step lo hi from x r rs rest q w ih = ground (arith, find_below r.end x rs w)

pub find-unmap_regions :
    (lo hi from : ℕ) (rs : List Region) (x : ℕ)
    → IsSorted from rs
    → find (unmap_regions lo hi rs) x ≡ kept lo hi (find rs x)
unfolding unmap_regions
find-unmap_regions lo hi from [] x w = unfold find in refl
find-unmap_regions lo hi from (r ∷ rs) x w =
    unmap_at-step lo hi from x r rs (unmap_regions lo hi rs) w.1 w.2
      (find-unmap_regions lo hi r.end rs x w.2)

-- Where `rsd_as_protect` returns 0 and [at, at + len) does not wrap, every mapped address in that
-- range has the new protection, every other address has the one that it had, and the regions are
-- in order again.
pub prot_at-protect :
    (h : Host) (s : AddressSpace) (at len prot x : ℕ)
    → IsSorted 0 s.reg
    → at + len < 2 ^ 64
    → (protect h s at len prot).0 ≡ true
    → (prot_at (protect h s at len prot).1.reg x ≡ (
        if within at (at + len) x
        then Option.map (λ _. prot) (prot_at s.reg x)
        else prot_at s.reg x))
      × IsSorted 0 (protect h s at len prot).1.reg
unfolding protect
prot_at-protect h s at len prot x w fits done =
    let e : add64 at len ≡ at + len = omega arith in
    elim (Bool-cases (len == 0)) [
      | inl z ↦ rw z (ground arith, w)
      | inr z ↦ elim (Bool-cases (h.alloc (length s.reg * 3 + 1))) [
        | inl a ↦
            rw (z, a, e)
              (
                prot_at-protect_regions at (at + len) prot (ground arith) 0 s.reg x w,
                protect_regions-IsSorted at (at + len) prot (ground arith) 0 s.reg w,
              )
        | inr a ↦ absurd (ground arith)
      ]
    ]

-- `rsd_as_unmap` with the pages that it rounds to takes out exactly the regions that lie inside
-- those pages, and leaves every other address and the order as they were. Where it returns -1
-- nothing changes.
pub find-unmap :
    (h : Host) (s : AddressSpace) (at len x : ℕ)
    → IsSorted 0 s.reg
    → (find (unmap h s at len).1.reg x ≡ (
        if (unmap h s at len).0
        then kept (page_down h.page at) (page_up h.page (add64 at len)) (find s.reg x)
        else find s.reg x))
      × IsSorted 0 (unmap h s at len).1.reg
unfolding unmap
find-unmap h s at len x w =
    let lo = page_down h.page at in
    let hi = page_up h.page (add64 at len) in
    elim (Bool-cases (h.munmap lo (sub64 hi lo))) [
      | inl e ↦ rw e (find-unmap_regions lo hi 0 s.reg x w, unmap_regions-IsSorted lo hi 0 s.reg w)
      | inr e ↦ rw e (refl, w)
    ]
