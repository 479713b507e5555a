-- ===== src/AddressSpace/Mapped.antt =====
-- src/as.c, rsd_as_map: what the guest may do at the addresses that it hands out.
use native.Mathlib.Nat.{mod-lt}
use rashid.Base.{
  ℕ, ◌+◌, ◌-◌, ◌^◌, ◌≤◌, ◌<◌, ◌≡◌, ◌≢◌, refl, inl, inr, Bool, true, false, ◌&&◌, not, some, ◌==◌,
  if◌then◌else◌, arith, add64, sub64, Bool-cases, Option-cases, length, by_test, clash,
}
use rashid.AddressSpace.{
  Region, AddressSpace, Host, contains, grown, forget, insert, page_down, page_up, reserve, map,
}
use rashid.AddressSpace.Sorted.{IsSorted, prot_at, place-IsSorted}
use rashid.AddressSpace.Map.{find-place}
use rashid.AddressSpace.Reach.{new_region, IsFresh}

page_up-ge : (hp x : ℕ) → 0 < hp → x + hp ≤ 2 ^ 64 → x ≤ page_up hp x
unfolding page_up page_down
page_up-ge hp x p q = omega (arith, mod-lt (x + hp - 1) p)

page_up-lt : (hp x : ℕ) → page_up hp x < 2 ^ 64
unfolding page_up page_down
page_up-lt hp x = omega arith

page_down-le : (hp x : ℕ) → page_down hp x ≤ x
unfolding page_down
page_down-le hp x = omega arith

-- The bytes behind an answer of `rsd_as_map` have the protection that was asked for.
abbrev pub IsMapped : ℕ → ℕ → ℕ × AddressSpace → Type 0
IsMapped len prot (at, s) =
    (at ≢ 0
      → (at + len < 2 ^ 64)
        × IsSorted 0 s.reg
        × ((d : ℕ) → d < len → prot_at s.reg (at + d) ≡ some prot))

-- A region that is inserted, at its own addresses.
insert-prot :
    (h : Host) (s : AddressSpace) (new : Region) (x : ℕ)
    → IsSorted 0 s.reg
    → IsFresh s new
    → (insert h s new).0 ≡ true
    → new.start ≤ x
    → x < new.end
    → IsSorted 0 (insert h s new).1.reg × (prot_at (insert h s new).1.reg x ≡ some new.prot)
unfolding insert forget
insert-prot h s new x w (full, room, apart) done p q =
    let at_x = find-place 0 new s.reg x w apart full in
    let inside : contains new x ≡ true = ground arith in
    elim (Bool-cases ((length s.reg == s.cap) && not (h.alloc (grown s.cap)))) [
      | inl e ↦ absurd (clash false (rw e at done) refl)
      | inr e ↦ rw e (place-IsSorted 0 new s.reg (omega arith) full apart w, rw (at_x, inside) refl)
    ]

-- The size that `rsd_as_map` asks for covers the bytes, from the page of a wanted address on.
size_covers :
    (hp at len : ℕ)
    → 0 < hp
    → at + len + hp ≤ 2 ^ 64
    → let size =
        if at == 0 then page_up hp len else sub64 (page_up hp (add64 at len)) (page_down hp at) in
      (len ≤ size) × (size < 2 ^ 64) × (at ≢ 0 → at + len ≤ page_down hp at + size)
size_covers hp at len p fits =
    let sum : add64 at len ≡ at + len = omega arith in
    rw sum (
      ground (
        arith,
        page_up-ge hp len p (omega arith),
        page_up-ge hp (at + len) p fits,
        page_up-lt hp len,
        page_up-lt hp (at + len),
        page_down-le hp at,
      ))

-- The bytes from a place of the new region on, where they end inside of it.
insert-IsMapped :
    (h : Host) (s : AddressSpace) (new : Region) (len a : ℕ)
    → IsSorted 0 s.reg
    → IsFresh s new
    → new.start ≤ a
    → a + len ≤ new.end
    → (insert h s new).0 ≡ true
    → IsMapped len new.prot (a, (insert h s new).1)
insert-IsMapped h s new len a w fresh p q done nz = (
  omega (arith, fresh.1),
  (insert-prot h s new new.start w fresh done (omega arith) fresh.0).0,
  λ d less. (insert-prot h s new (a + d) w fresh done (omega arith) (omega arith)).1,
)

-- An end that lies behind the start has not wrapped around.
unwrapped : (base size : ℕ) → base < add64 base size → size < 2 ^ 64 → add64 base size ≡ base + size
unwrapped base size p q = omega arith

at_wanted :
    (at base wanted : ℕ) → not (at == 0) && (base == wanted) ≡ true → (at ≢ 0) × (base ≡ wanted)
at_wanted at base wanted h = ground arith

pub map-IsMapped :
    (h : Host) (s : AddressSpace) (at len prot : ℕ) (fixed : Bool)
    → 0 < h.page
    → at + len + h.page ≤ 2 ^ 64
    → IsSorted 0 s.reg
    → ((base : ℕ) → reserve h at len fixed ≡ some base → IsFresh s (new_region h at len prot base))
    → IsMapped len prot (map h s at len prot fixed)
unfolding map
map-IsMapped h s at len prot fixed p fits w fresh =
    by_test (λ (r : ℕ × AddressSpace). IsMapped len prot r) (len == 0) (λ _ nz. absurd (nz refl))
      λ _. elim (Option-cases (reserve h at len fixed)) [
        | inl e ↦ rw e λ nz. absurd (nz refl)
        | inr (base, e) ↦
            let new = new_region h at len prot base in
            let free = fresh base e in
            let (long, small, whole) = size_covers h.page at len p fits in
            let end : new.end ≡ _ = unwrapped base _ free.0 small in
            rw e (
              by_test (λ (r : ℕ × AddressSpace). IsMapped len prot r) (insert h s new).0
                (λ done.
                  by_test (λ (a : ℕ). IsMapped len prot (a, (insert h s new).1))
                    (not (at == 0) && (base == page_down h.page at))
                    (λ kept.
                      let (nz, same) = at_wanted at base (page_down h.page at) kept in
                      insert-IsMapped h s new len at w free
                        (omega (arith, page_down-le h.page at, same))
                        (omega (arith, whole nz, same, end)) done)
                    (λ _.
                      insert-IsMapped h s new len base w free (omega arith)
                        (omega (arith, end, long)) done))
                (λ _ nz. absurd (nz refl)))
      ]

-- Where `rsd_as_map` does not answer 0, each of the `len` bytes from its answer on is mapped with
-- the protection asked for, they end below 2 ^ 64, and the regions are in order again: whether the
-- answer is the wanted address or another one. The regions are in order before, the pages of the host are fresh ones,
-- and the wanted range ends at least a page below 2 ^ 64.
pub prot_at-map :
    (h : Host) (s : AddressSpace) (at len prot : ℕ) (fixed : Bool) (d : ℕ)
    → 0 < h.page
    → at + len + h.page ≤ 2 ^ 64
    → IsSorted 0 s.reg
    → ((base : ℕ) → reserve h at len fixed ≡ some base → IsFresh s (new_region h at len prot base))
    → (map h s at len prot fixed).0 ≢ 0
    → d < len
    → (prot_at (map h s at len prot fixed).1.reg ((map h s at len prot fixed).0 + d) ≡ some prot)
      × ((map h s at len prot fixed).0 + len < 2 ^ 64)
      × IsSorted 0 (map h s at len prot fixed).1.reg
prot_at-map h s at len prot fixed d p fits w fresh nz less =
    let (below, sorted, all) = map-IsMapped h s at len prot fixed p fits w fresh nz in
    (all d less, below, sorted)
