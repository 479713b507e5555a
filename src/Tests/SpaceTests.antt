-- ===== src/Tests/SpaceTests.antt =====
-- The theorems on the address space (src/as.c) at concrete inputs.
use rashid.Base.{
  ℕ, ◌+◌, ◌^◌, ◌≤◌, ◌<◌, true, false, some, none, Option, ◌≡◌, ◌↔◌, refl, inl, inr, if◌then◌else◌,
  add64, arith,
}
use mathlib.Core.Option
use rashid.AddressSpace.{
  Region, AddressSpace, Host, prot_r, prot_w, allows, find, place, init, insert, map, reserve,
  protect, unmap, note, note_region, ok, page_down, page_up,
}
use rashid.AddressSpace.Sorted.{IsSorted, prot_at}
use rashid.AddressSpace.Access.{byte_ok, ok_iff}
use rashid.AddressSpace.Protect.{within, kept, prot_at-protect, find-unmap}
use rashid.AddressSpace.Hits.{IsValid, region_check, init-IsValid}
use rashid.AddressSpace.Reach.{
  Step, Reach, maps, notes, here, next, IsFresh, new_region, Reach-IsValid, Reach-region_check,
}
use mathlib.Core.Path.{subst}
use rashid.AddressSpace.Map.{find-place_inside}
use rashid.Tests.Samples.{space, stack, host, space-IsSorted}

space-IsValid : IsValid space
space-IsValid = record {
  sorted = space-IsSorted;
  ends = (omega arith, (omega arith, tt));
  fits_rd0 = inl refl;
  fits_rd1 = inl refl;
  fits_wr0 = inl refl;
  fits_wr1 = inl refl;
}

-- 16 bytes across the stack and the code, to be read.
ok_iff_example : (ok space 0x1FF8 16 prot_r ≡ true) ↔ (
    (0x1FF8 + 16 < 2 ^ 64)
    × ((x : ℕ) → 0x1FF8 ≤ x → x < 0x1FF8 + 16 → byte_ok (λ r. allows r prot_r) space.reg x ≡ true))
ok_iff_example =
    ok_iff space 0x1FF8 16 prot_r space-IsSorted (omega arith) (omega arith) (omega arith)

protected : (protect host space 0x1800 0x1000 1).0 ≡ true
unfolding protect
protected = refl

-- The last half of the stack and the first half of the code become read-only.
prot_at-protect_example :
    (prot_at (protect host space 0x1800 0x1000 1).1.reg 0x2000 ≡ (
      if within 0x1800 (0x1800 + 0x1000) 0x2000
      then Option.map (λ _. 1) (prot_at space.reg 0x2000)
      else prot_at space.reg 0x2000))
    × IsSorted 0 (protect host space 0x1800 0x1000 1).1.reg
prot_at-protect_example =
    prot_at-protect host space 0x1800 0x1000 1 0x2000 space-IsSorted (omega arith) protected

find-unmap_example :
    (find (unmap host space 0x1000 0x10).1.reg 0x1800 ≡ (
      if (unmap host space 0x1000 0x10).0
      then kept
          (page_down 0x1000 0x1000)
          (page_up 0x1000 (add64 0x1000 0x10))
          (find space.reg 0x1800)
      else find space.reg 0x1800))
    × IsSorted 0 (unmap host space 0x1000 0x10).1.reg
find-unmap_example = find-unmap host space 0x1000 0x10 0x1800 space-IsSorted

abbrev heap : Region
heap = record { start = 0x4000; end = 0x5000; prot = 3 }

-- A program that maps a page and writes to it.
mapped_page : Step init (map host init 0 0x1000 3 false).1
unfolding reserve page_up init
mapped_page =
    maps host init 0 0x1000 3 false (λ base e. subst is_fresh e (omega arith, omega arith, tt))
  where
    is_fresh : Option ℕ → Type 0
    is_fresh none = Unit {0}
    is_fresh (some base) = IsFresh init (new_region host 0 0x1000 3 base)

abbrev first_page : AddressSpace
first_page = (map host init 0 0x1000 3 false).1

-- The same request once more, which the system answers with another page.
abbrev later_host : Host
later_host = record host { mmap = λ at len fixed. some 0x20000 }

abbrev two_pages : AddressSpace
two_pages = (map later_host first_page 0 0x1000 3 false).1

abbrev written : AddressSpace
written = note two_pages 0x8123 prot_w

second_page : Step first_page two_pages
unfolding reserve page_up init map insert place
second_page =
    maps later_host first_page 0 0x1000 3 false
      (λ base e. subst is_fresh e (omega arith, omega arith, (inr (omega arith), tt)))
  where
    is_fresh : Option ℕ → Type 0
    is_fresh none = Unit {0}
    is_fresh (some base) = IsFresh first_page (new_region later_host 0 0x1000 3 base)

written-Reach : Reach init written
written-Reach = next (next (next here mapped_page) second_page) (notes two_pages 0x8123 prot_w)

Reach-IsValid_example : IsValid written
Reach-IsValid_example = Reach-IsValid init-IsValid written-Reach

checked : region_check written true 0x8FF8 ≡ true
unfolding map insert reserve note note_region find place region_check init page_up
checked = refl

Reach-region_check_example : ok written 0x8FF8 8 prot_w ≡ true
Reach-region_check_example =
    Reach-region_check true 0x8FF8 8 written-Reach (omega arith) (omega arith) (omega arith) checked

-- A region inside the stack.
abbrev inner : Region
inner = record { start = 0x1400; end = 0x1800; prot = 1 }

holds_stack : find space.reg 0x1400 ≡ some stack
unfolding find
holds_stack = refl

find-place_inside_example : find (place inner space.reg) 0x1500 ≡ find space.reg 0x1500
find-place_inside_example =
    find-place_inside 0 inner space.reg {old = stack} 0x1500 space-IsSorted holds_stack
      (omega arith) (omega arith)
