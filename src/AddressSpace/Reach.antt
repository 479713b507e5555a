-- ===== src/AddressSpace/Reach.antt =====
-- src/as.c: the states that the operations of the address space reach, one after another.
use rashid.Base.{
  ℕ, ◌+◌, ◌≤◌, ◌<◌, ◌^◌, ◌≡◌, inl, inr, Bool, true, some, ◌==◌, add64, sub64, if◌then◌else◌,
  Option-cases, if_both,
}
use rashid.AddressSpace.{
  Region, AddressSpace, Host, init, insert, reserve, map, protect, unmap, note, ok, prot_r, prot_w,
  page_down, page_up,
}
use rashid.AddressSpace.Sorted.{IsApart}
use rashid.AddressSpace.Hits.{
  IsValid, region_check, region_check-ok, init-IsValid, insert-IsValid, protect-IsValid,
  unmap-IsValid, note-IsValid,
}

-- The region that `rsd_as_map` records at base.
abbrev pub new_region : Host → ℕ → ℕ → ℕ → ℕ → Region
new_region h at len prot base =
    let lo = page_down h.page at in
    let size = if at == 0 then page_up h.page len else sub64 (page_up h.page (add64 at len)) lo in
    record { start = base; end = add64 base size; prot = prot }

-- What a mapping may assume of the host: its pages are not in use, and do not wrap. A fixed mapping
-- inside of a region is not such a one.
abbrev pub IsFresh : AddressSpace → Region → Type 0
IsFresh s new = (new.start < new.end) × (new.end < 2 ^ 64) × IsApart new s.reg

-- One operation of the interface. Each has a host of its own, as the answer of the system to the
-- same request is another one each time.
pub data Step : AddressSpace → AddressSpace → Type 0 where
  maps :
      (h : Host) (s : AddressSpace) (at len prot : ℕ) (fixed : Bool)
      → ((base : ℕ)
          → reserve h at len fixed ≡ some base
          → IsFresh s (new_region h at len prot base))
      → Step s (map h s at len prot fixed).1
  protects :
      (h : Host) (s : AddressSpace) (at len prot : ℕ)
      → at + len < 2 ^ 64
      → Step s (protect h s at len prot).1
  unmaps : (h : Host) (s : AddressSpace) (at len : ℕ) → Step s (unmap h s at len).1
  notes : (s : AddressSpace) (a prot : ℕ) → Step s (note s a prot)

-- The states behind a start, in any order of operations.
pub data Reach (s : AddressSpace) : AddressSpace → Type 0 where
  here : Reach s s
  next : {t u : AddressSpace} → Reach s t → Step t u → Reach s u

map-IsValid :
    (h : Host) (s : AddressSpace) (at len prot : ℕ) (fixed : Bool)
    → IsValid s
    → ((base : ℕ) → reserve h at len fixed ≡ some base → IsFresh s (new_region h at len prot base))
    → IsValid (map h s at len prot fixed).1
unfolding map
map-IsValid h s at len prot fixed v fresh =
    if_both (λ (r : ℕ × AddressSpace). IsValid r.1) (len == 0) v
      (elim (Option-cases (reserve h at len fixed)) [
        | inl e ↦ rw e v
        | inr (base, e) ↦
            let new = new_region h at len prot base in
            let (full, room, apart) = fresh base e in
            let valid = insert-IsValid h s new v full room apart in
            rw e (if_both (λ (r : ℕ × AddressSpace). IsValid r.1) (insert h s new).0 valid valid)
      ])

Step-IsValid : {s t : AddressSpace} → Step s t → IsValid s → IsValid t
Step-IsValid (maps h s at len prot fixed f) v = map-IsValid h s at len prot fixed v f
Step-IsValid (protects h s at len prot w) v = protect-IsValid h s at len prot v w
Step-IsValid (unmaps h s at len) v = unmap-IsValid h s at len v
Step-IsValid (notes s a prot) v = note-IsValid s a prot v

-- Every state that mappings, changes of protection, unmappings and remembered regions reach from a
-- valid one is valid: its regions are in order and apart, and the entries for in-line accesses
-- stand for regions that allow them. The host may answer each operation differently. Mappings get
-- pages that are not in use, and ranges to protect do not wrap.
pub Reach-IsValid : {s t : AddressSpace} → IsValid s → Reach s t → IsValid t
Reach-IsValid v here = v
Reach-IsValid v (next r step) = Step-IsValid step (Reach-IsValid v r)

-- Whatever the order of the operations since the start of the program, and whatever the host
-- answers each of them, an access of 1 to 8 bytes that compiled code makes in line is one that
-- `rsd_as_ok` allows: the 64-bit offset of the address from the start of one of the two entries for
-- loads, or for stores, is below the length of that entry. Mappings get pages that are not in use,
-- and ranges to protect do not wrap.
pub Reach-region_check :
    {s : AddressSpace} (write : Bool) (a size : ℕ)
    → Reach init s
    → a < 2 ^ 64
    → 0 < size
    → size ≤ 8
    → region_check s write a ≡ true
    → ok s a size (if write then prot_w else prot_r) ≡ true
Reach-region_check {s = s} write a size r =
    region_check-ok s write a size (Reach-IsValid init-IsValid r)
