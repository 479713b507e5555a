-- ===== src/AddressSpace/Hits.antt =====
-- The hits that compiled code uses in line (src/as.c, src/as.h) stand for accesses that
-- `rsd_as_ok` allows, and every operation keeps them so.
use rashid.Base.{
  ℕ, ◌+◌, ◌-◌, ◌*◌, ◌≤◌, ◌<◌, ◌^◌, ◌≡◌, refl, ◌⊎◌, inl, inr, Bool, true, false, not, ◌&&◌, ◌||◌,
  some, List, [], ◌∷◌, arith, ltb, ◌==◌, add64, sub64, length, if◌then◌else◌, Bool-cases,
  Option-cases, ==_iff,
}
use rashid.AddressSpace.{
  Region, Hit, AddressSpace, Host, find, allows, ok, forget, place, insert, protect,
  protect_regions, unmap, unmap_regions, note, note_region, init, prot_r, prot_w, page_down,
  page_up, grown,
}
use rashid.AddressSpace.Sorted.{
  IsSorted, IsApart, find-contains, find_stays, find-find_start, place-IsSorted,
  unmap_regions-IsSorted,
}
use rashid.AddressSpace.Protect.{protect_regions-IsSorted}
use rashid.AddressSpace.Access.{ok_iff}

-- An entry is empty, or it is a region that is at least 8 bytes long and allows the access.
abbrev pub Fits : List Region → ℕ → Hit → Type 0
Fits rs prot h =
    (h.lim ≡ 0)
    ⊎ ((r : Region) × (find rs h.lo ≡ some r)
        × (r.start ≡ h.lo)
        × (h.lim + 7 ≡ r.end - r.start)
        × (allows r prot ≡ true))

-- Regions end at addresses that 64 bits hold.
abbrev pub EndsFit : List Region → Type 0
EndsFit [] = Unit {0}
EndsFit (r ∷ rs) = (r.end < 2 ^ 64) × EndsFit rs

pub record IsValid (s : AddressSpace) : Type 0 where
  pub sorted : IsSorted 0 s.reg
  pub ends : EndsFit s.reg
  pub fits_rd0 : Fits s.reg prot_r s.rd0
  pub fits_rd1 : Fits s.reg prot_r s.rd1
  pub fits_wr0 : Fits s.reg prot_w s.wr0
  pub fits_wr1 : Fits s.reg prot_w s.wr1

find-end :
    (a : ℕ) (rs : List Region) {r : Region} → EndsFit rs → find rs a ≡ some r → r.end < 2 ^ 64
unfolding find
find-end a [] e h = ground arith
find-end a (q ∷ rs) {r} e h = ground (arith, find-end a rs {r = r} e.1)

-- An address below 2 ^ 64 that passes the test of an entry lies in the region of that entry.
hit-inside :
    (rs : List Region) (prot a : ℕ) (h : Hit)
    → EndsFit rs
    → Fits rs prot h
    → a < 2 ^ 64
    → ltb (sub64 a h.lo) h.lim ≡ true
    → (r : Region) × (find rs h.lo ≡ some r)
      × (r.start ≡ h.lo)
      × (allows r prot ≡ true)
      × (h.lo ≤ a)
      × (a + 8 ≤ r.end)
hit-inside rs prot a h e (inl z) la t = absurd (ground arith)
hit-inside rs prot a h e (inr (r, f, st, len, al)) la t =
    let in_r = find-contains h.lo rs f in
    let en = find-end h.lo rs e f in (r, f, st, al, ground arith, ground arith)

-- The test that compiled code makes in line for one entry.
unfoldable pub in_line : Hit → ℕ → Bool
in_line h a = ltb (sub64 a h.lo) h.lim

-- Both entries, in the order in which compiled code tries them.
unfoldable pub region_check : AddressSpace → Bool → ℕ → Bool
unfolding in_line
region_check s write a =
    if write then in_line s.wr0 a || in_line s.wr1 a else in_line s.rd0 a || in_line s.rd1 a

hit-ok :
    (s : AddressSpace) (h : Hit) (prot a size : ℕ)
    → IsValid s
    → Fits s.reg prot h
    → a < 2 ^ 64
    → 0 < size
    → size ≤ 8
    → in_line h a ≡ true
    → ok s a size prot ≡ true
unfolding in_line
hit-ok s h prot a size v f la p q t =
    let (r, found, st, al, lo, end) = hit-inside s.reg prot a h v.ends f la t in
    let e = find-end h.lo s.reg v.ends found in
    (ok_iff s a size prot v.sorted la p (omega arith)).1 (
      omega arith,
      λ x m n. rw (find_stays 0 h.lo x s.reg v.sorted found (omega arith) (omega arith)) al,
    )

-- In a valid space, an access of 1 to 8 bytes that compiled code makes in line, because one of
-- its two entries for loads or for stores covers the address, is one that `rsd_as_ok` allows.
pub region_check-ok :
    (s : AddressSpace) (write : Bool) (a size : ℕ)
    → IsValid s
    → a < 2 ^ 64
    → 0 < size
    → size ≤ 8
    → region_check s write a ≡ true
    → ok s a size (if write then prot_w else prot_r) ≡ true
unfolding region_check
region_check-ok s true a size v la p q t = elim (Bool-cases (in_line s.wr0 a)) [
  | inl e ↦ hit-ok s s.wr0 prot_w a size v v.fits_wr0 la p q e
  | inr e ↦ hit-ok s s.wr1 prot_w a size v v.fits_wr1 la p q (ground arith)
]
region_check-ok s false a size v la p q t = elim (Bool-cases (in_line s.rd0 a)) [
  | inl e ↦ hit-ok s s.rd0 prot_r a size v v.fits_rd0 la p q e
  | inr e ↦ hit-ok s s.rd1 prot_r a size v v.fits_rd1 la p q (ground arith)
]

-- A space whose hits have just been forgotten is valid if its regions are in order.
fresh-IsValid :
    (s : AddressSpace)
    → IsSorted 0 s.reg
    → EndsFit s.reg
    → s.rd0.lim ≡ 0
    → s.rd1.lim ≡ 0
    → s.wr0.lim ≡ 0
    → s.wr1.lim ≡ 0
    → IsValid s
fresh-IsValid s w e a b c d = record {
  sorted = w;
  ends = e;
  fits_rd0 = inl a;
  fits_rd1 = inl b;
  fits_wr0 = inl c;
  fits_wr1 = inl d;
}

pub init-IsValid : IsValid init
unfolding init
init-IsValid = fresh-IsValid init tt tt refl refl refl refl

place-EndsFit :
    (new : Region) (rs : List Region) → new.end < 2 ^ 64 → EndsFit rs → EndsFit (place new rs)
unfolding place
place-EndsFit new [] p e = (p, tt)
place-EndsFit new (r ∷ rs) p e = ground (arith, place-EndsFit new rs p e.1)

-- `insert` keeps a space valid, if the new region is not empty, ends below 2 ^ 64 and keeps off
-- the regions that are there. It does so where it runs out of memory too.
pub insert-IsValid :
    (h : Host) (s : AddressSpace) (new : Region)
    → IsValid s
    → new.start < new.end
    → new.end < 2 ^ 64
    → IsApart new s.reg
    → IsValid (insert h s new).1
unfolding insert forget
insert-IsValid h s new v p q d =
    elim (Bool-cases ((length s.reg == s.cap) && not (h.alloc (grown s.cap)))) [
      | inl e ↦ rw e (fresh-IsValid (forget s) v.sorted v.ends refl refl refl refl)
      | inr e ↦ rw e (
          fresh-IsValid _ (place-IsSorted 0 new s.reg (omega arith) p d v.sorted)
            (place-EndsFit new s.reg q v.ends) refl refl refl refl)
    ]

protect_regions-EndsFit :
    (at end prot : ℕ) (rs : List Region)
    → end < 2 ^ 64
    → at < 2 ^ 64
    → EndsFit rs
    → EndsFit (protect_regions at end prot rs)
unfolding protect_regions
protect_regions-EndsFit at end prot [] p q e = tt
protect_regions-EndsFit at end prot (r ∷ rs) p q e =
    ground (arith, protect_regions-EndsFit at end prot rs p q e.1)

-- `rsd_as_protect` keeps a space valid, if the range does not wrap.
pub protect-IsValid :
    (h : Host) (s : AddressSpace) (at len prot : ℕ)
    → IsValid s
    → at + len < 2 ^ 64
    → IsValid (protect h s at len prot).1
unfolding protect forget
protect-IsValid h s at len prot v p =
    let e : add64 at len ≡ at + len = omega arith in
    elim (Bool-cases (len == 0)) [
      | inl z ↦ rw z v
      | inr z ↦ elim (Bool-cases (h.alloc (length s.reg * 3 + 1))) [
        | inl a ↦
            rw (z, a, e)
              (fresh-IsValid _
                (protect_regions-IsSorted at (at + len) prot (ground arith) 0 s.reg v.sorted)
                (protect_regions-EndsFit at (at + len) prot s.reg (omega arith) (omega arith)
                  v.ends)
                refl refl refl refl)
        | inr a ↦ rw (z, a) v
      ]
    ]

unmap_regions-EndsFit :
    (lo hi : ℕ) (rs : List Region) → EndsFit rs → EndsFit (unmap_regions lo hi rs)
unfolding unmap_regions
unmap_regions-EndsFit lo hi [] e = tt
unmap_regions-EndsFit lo hi (r ∷ rs) e = ground (arith, unmap_regions-EndsFit lo hi rs e.1)

-- `rsd_as_unmap` keeps a space valid, whatever the range.
pub unmap-IsValid :
    (h : Host) (s : AddressSpace) (at len : ℕ) → IsValid s → IsValid (unmap h s at len).1
unfolding unmap forget
unmap-IsValid h s at len v =
    let lo = page_down h.page at in
    let hi = page_up h.page (add64 at len) in
    elim (Bool-cases (h.munmap lo (sub64 hi lo))) [
      | inl e ↦ rw e (
          fresh-IsValid _ (unmap_regions-IsSorted lo hi 0 s.reg v.sorted)
            (unmap_regions-EndsFit lo hi s.reg v.ends) refl refl refl refl)
      | inr e ↦ rw e v
    ]

new-Fits :
    (rs : List Region) (r : Region) (prot : ℕ)
    → find rs r.start ≡ some r
    → allows r prot ≡ true
    → 8 ≤ r.end - r.start
    → Fits rs prot (record { lo = r.start; lim = r.end - r.start - 7 })
new-Fits rs r prot m al big = inr (r, m, refl, omega arith, al)

note_rd :
    (s : AddressSpace) (new : Hit) (test : Bool)
    → IsValid s
    → Fits s.reg prot_r new
    → IsValid (if test then s else record s { rd0 = new; rd1 = s.rd0 })
note_rd s new true v f = v
note_rd s new false v f = record {
  sorted = v.sorted;
  ends = v.ends;
  fits_rd0 = f;
  fits_rd1 = v.fits_rd0;
  fits_wr0 = v.fits_wr0;
  fits_wr1 = v.fits_wr1;
}

note_wr :
    (s : AddressSpace) (new : Hit) (test : Bool)
    → IsValid s
    → Fits s.reg prot_w new
    → IsValid (if test then s else record s { wr0 = new; wr1 = s.wr0 })
note_wr s new true v f = v
note_wr s new false v f = record {
  sorted = v.sorted;
  ends = v.ends;
  fits_rd0 = v.fits_rd0;
  fits_rd1 = v.fits_rd1;
  fits_wr0 = f;
  fits_wr1 = v.fits_wr0;
}

note_region-IsValid :
    (s : AddressSpace) (r : Region) (prot : ℕ)
    → IsValid s
    → find s.reg r.start ≡ some r
    → IsValid (note_region s r prot)
unfolding note_region
note_region-IsValid s r prot v m =
    elim (Bool-cases (not (allows r prot) || ltb (r.end - r.start) 8)) [
      | inl e ↦ rw e v
      | inr e ↦
          let al : allows r prot ≡ true = ground arith in
          let big : 8 ≤ r.end - r.start = ground arith in
          elim (Bool-cases (prot == prot_r)) [
            | inl p ↦
                let is_r : prot ≡ prot_r = (==_iff prot prot_r).0 p in
                rw (e, p) (note_rd s _ _ v (rw is_r at (new-Fits s.reg r prot m al big)))
            | inr p ↦ elim (Bool-cases (prot == prot_w)) [
              | inl q ↦
                  let is_w : prot ≡ prot_w = (==_iff prot prot_w).0 q in
                  rw (e, p, q) (note_wr s _ _ v (rw is_w at (new-Fits s.reg r prot m al big)))
              | inr q ↦ rw (e, p, q) v
            ]
          ]
    ]

-- `rsd_as_note` keeps a space valid: what it remembers is a region that allows the access.
pub note-IsValid : (s : AddressSpace) (a prot : ℕ) → IsValid s → IsValid (note s a prot)
unfolding note
note-IsValid s a prot v = elim (Option-cases (find s.reg a)) [
  | inl m ↦ rw (m, note) v
  | inr (r, m) ↦
      rw (m, note) (note_region-IsValid s r prot v (find-find_start 0 a s.reg v.sorted m))
]
