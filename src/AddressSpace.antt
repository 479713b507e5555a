-- ===== src/AddressSpace.antt =====
-- src/as.c and src/as.h: the regions that the guest has been handed, with their permissions, and
-- the regions that compiled code may use in line.
pub mod Sorted
pub mod Protect
pub mod Access
pub mod Hits
pub mod Map
pub mod Reach
pub mod Mapped
use rashid.Base.{
  ℕ, zero, suc, ◌+◌, ◌-◌, ◌*◌, ◌%◌, bit_and, Bool, true, false, ◌&&◌, ◌||◌, not, Option, none, some,
  List, [], ◌∷◌, ltb, leb, ◌==◌, if◌then◌else◌, length, add64, sub64,
}

-- `rsd_region`: [start, end) with its protection bits.
pub record Region : Type 0 where
  pub start : ℕ
  pub end : ℕ
  pub prot : ℕ

-- `struct rsd_as_hit`: an access of up to 8 bytes at a is inside when a - lo < lim.
pub record Hit : Type 0 where
  pub lo : ℕ
  pub lim : ℕ

-- `rsd_as`: the array `reg` (its length is `n`), its capacity, and the two hits for loads and
-- for stores, the newest first.
pub record AddressSpace : Type 0 where
  pub reg : List Region
  pub cap : ℕ
  pub rd0 : Hit
  pub rd1 : Hit
  pub wr0 : Hit
  pub wr1 : Hit

abbrev pub prot_r : ℕ
prot_r = 1

abbrev pub prot_w : ℕ
prot_w = 2

abbrev pub prot_x : ℕ
prot_x = 4

abbrev pub no_hit : Hit
no_hit = record { lo = 0; lim = 0 }

-- The host, as one call of the operations below meets it: its page size, what `mmap` answers
-- for a wanted address and a size (`none` is MAP_FAILED), whether `munmap` and the allocator
-- succeed.
pub record Host : Type 0 where
  pub page : ℕ
  pub mmap : Option ℕ → ℕ → Bool → Option ℕ
  pub munmap : ℕ → ℕ → Bool
  pub alloc : ℕ → Bool

unfoldable pub init : AddressSpace
init = record { reg = []; cap = 0; rd0 = no_hit; rd1 = no_hit; wr0 = no_hit; wr1 = no_hit }

abbrev pub contains : Region → ℕ → Bool
contains r a = leb r.start a && ltb a r.end

-- `find`: the first region that holds a. The region stands for its index.
unfoldable pub find : List Region → ℕ → Option Region
find [] a = none
find (r ∷ rs) a = if contains r a then some r else find rs a

abbrev pub allows : Region → ℕ → Bool
allows r p = bit_and r.prot p == p

unfoldable pub forget : AddressSpace → AddressSpace
forget s = record s { rd0 = no_hit; rd1 = no_hit; wr0 = no_hit; wr1 = no_hit }

-- The shift by one place from the first region that does not start below `start`.
unfoldable pub place : Region → List Region → List Region
place new [] = new ∷ []
place new (r ∷ rs) = if ltb r.start new.start then r ∷ place new rs else new ∷ r ∷ rs

abbrev grown : ℕ → ℕ
grown cap = if cap == 0 then 16 else cap * 2

-- `insert`: false where it returns -1. The hits are forgotten either way.
unfoldable pub insert : Host → AddressSpace → Region → Bool × AddressSpace
unfolding forget place
insert h s new =
    if (length s.reg == s.cap) && not (h.alloc (grown s.cap)) then (false, forget s) else (
      true,
      record (forget s) {
        reg = place new s.reg;
        cap = if length s.reg == s.cap then grown s.cap else s.cap;
      },
    )

-- x & ~(hp - 1), for a page size that is a power of two.
unfoldable pub page_down : ℕ → ℕ → ℕ
page_down hp x = x - x % hp

unfoldable pub page_up : ℕ → ℕ → ℕ
unfolding page_down
page_up hp x = page_down hp (sub64 (add64 x hp) 1)

-- The first `mmap`, and the second one for a wanted address that is only preferred.
unfoldable pub reserve : Host → ℕ → ℕ → Bool → Option ℕ
reserve h at len fixed =
    let lo = page_down h.page at in
    let hi = page_up h.page (add64 at len) in
    let want : Option ℕ = if at == 0 then none else some lo in
    let size = if at == 0 then page_up h.page len else sub64 hi lo in
    elim (h.mmap want size (not (at == 0) && fixed)) [
      | some p ↦ some p
      | none ↦ if not (at == 0) && not fixed then h.mmap none hi false else none
    ]

-- `rsd_as_map`: the address, 0 on failure. `munmap` after a failed insertion changes no region.
unfoldable pub map : Host → AddressSpace → ℕ → ℕ → ℕ → Bool → ℕ × AddressSpace
unfolding insert reserve
map h s at len prot fixed =
    let lo = page_down h.page at in
    let size = if at == 0 then page_up h.page len else sub64 (page_up h.page (add64 at len)) lo in
    if len == 0 then (0, s) else elim (reserve h at len fixed) [
      | none ↦ (0, s)
      | some base ↦
          let (done, s') =
            insert h s (record { start = base; end = add64 base size; prot = prot }) in
          if done then (if not (at == 0) && (base == lo) then at else base, s') else (0, s')
    ]

-- The up to three pieces that `rsd_as_protect` makes of one region that meets [at, end).
abbrev pub split : ℕ → ℕ → ℕ → Region → List Region → List Region
split at end prot r rest =
    let tail =
      record {
        start = if ltb at r.start then r.start else at;
        end = if ltb r.end end then r.end else end;
        prot = prot;
      }
      ∷ (if ltb end r.end
          then record { start = end; end = r.end; prot = r.prot } ∷ rest
          else rest) in
    if ltb r.start at then record { start = r.start; end = at; prot = r.prot } ∷ tail else tail

-- The loop of `rsd_as_protect` over the regions.
unfoldable pub protect_regions : ℕ → ℕ → ℕ → List Region → List Region
protect_regions at end prot [] = []
protect_regions at end prot (r ∷ rs) =
    let rest = protect_regions at end prot rs in
    if leb r.end at || leb end r.start then r ∷ rest else split at end prot r rest

-- `rsd_as_protect`: false where it returns -1.
unfoldable pub protect : Host → AddressSpace → ℕ → ℕ → ℕ → Bool × AddressSpace
unfolding protect_regions forget
protect h s at len prot =
    if len == 0 then (true, s) else if not (h.alloc (length s.reg * 3 + 1)) then (false, s) else (
      true,
      record (forget s) {
        reg = protect_regions at (add64 at len) prot s.reg;
        cap = length s.reg * 3 + 1;
      },
    )

-- The loop of `rsd_as_unmap`: regions that lie inside [lo, hi) are taken out.
unfoldable pub unmap_regions : ℕ → ℕ → List Region → List Region
unmap_regions lo hi [] = []
unmap_regions lo hi (r ∷ rs) =
    let rest = unmap_regions lo hi rs in if leb lo r.start && leb r.end hi then rest else r ∷ rest

-- `rsd_as_unmap`: false where it returns -1.
unfoldable pub unmap : Host → AddressSpace → ℕ → ℕ → Bool × AddressSpace
unfolding unmap_regions forget
unmap h s at len =
    let lo = page_down h.page at in
    let hi = page_up h.page (add64 at len) in
    if h.munmap lo (sub64 hi lo)
    then (true, record (forget s) { reg = unmap_regions lo hi s.reg })
    else (false, s)

-- `rsd_as_note`, once the region is found: the newest hit goes first, unless it is there already.
unfoldable pub note_region : AddressSpace → Region → ℕ → AddressSpace
note_region s r prot =
    let len = r.end - r.start in
    let new : Hit = record { lo = r.start; lim = len - 7 } in
    if not (allows r prot) || ltb len 8
    then s
    else if prot == prot_r
    then (if s.rd0.lo == r.start then s else record s { rd0 = new; rd1 = s.rd0 })
    else if prot == prot_w
    then (if s.wr0.lo == r.start then s else record s { wr0 = new; wr1 = s.wr0 })
    else s

unfoldable pub note : AddressSpace → ℕ → ℕ → AddressSpace
unfolding find note_region
note s a prot = elim (find s.reg a) [ none ↦ s | some r ↦ note_region s r prot ]

-- The loop of `rsd_as_mapped` and `rsd_as_ok`, which differ in what they ask of a region. Each
-- round goes to the end of the region that holds a, so that n rounds are enough.
unfoldable pub walk : (Region → Bool) → List Region → ℕ → ℕ → ℕ → Bool
unfolding find
walk accept rs zero a n = n == 0
walk accept rs (suc fuel) a n = if n == 0 then true else elim (find rs a) [
  | none ↦ false
  | some r ↦
      let avail = r.end - a in
      let next = walk accept rs fuel (a + avail) (n - avail) in
      if not (accept r) then false else if leb n avail then true else next
]

unfoldable pub mapped : AddressSpace → ℕ → ℕ → Bool
unfolding walk
mapped s a n =
    if n == 0 then true else if ltb (add64 a n) a then false else walk (λ _. true) s.reg n a n

unfoldable pub ok : AddressSpace → ℕ → ℕ → ℕ → Bool
unfolding walk
ok s a n prot =
    if n == 0
    then true
    else if ltb (add64 a n) a
    then false
    else walk (λ r. allows r prot) s.reg n a n
