-- ===== src/Macho/Segments.antt =====
-- src/macho.c, rsd_load: the segments of an image that was loaded.
use mathlib.Core.Path.{subst}
use rashid.Base.{
  ℕ, ◌+◌, ◌-◌, ◌≤◌, ◌<◌, ◌^◌, ◌≡◌, ◌≢◌, ◌∙◌, ap, inl, inr, refl, sym, Bool, true, not, Option, none,
  some, List, [], ◌∷◌, ◌++◌, ◌==◌, bit_and, arith, add64, sub64, length, Option-cases, by_test,
}
use rashid.AddressSpace.{AddressSpace, Host, map, reserve, prot_r, prot_w}
use rashid.AddressSpace.Sorted.{IsSorted, prot_at}
use rashid.AddressSpace.Reach.{IsFresh, new_region}
use rashid.AddressSpace.Mapped.{prot_at-map}
use rashid.Macho.{File, Segment, Commands}
use rashid.Macho.Load.{Image, span, copy_segments, protect_segments, place_image}
use rashid.Macho.Span.{DoNotWrap, LieIn, span-LieIn, LieIn-at}
use rashid.Macho.Place.{SlidFit, Avoids, protect_segments-prot, copy_segments-byte}

abbrev pub lowest : Commands → ℕ
lowest c = (span c.segs (2 ^ 64 - 1) 0).0

abbrev pub highest : Commands → ℕ
highest c = (span c.segs (2 ^ 64 - 1) 0).1

-- The reservation of the span.
abbrev pub reserved : Host → Bool → Commands → AddressSpace → ℕ × AddressSpace
reserved h pie c s = map h s (lowest c) (sub64 (highest c) (lowest c)) (prot_r + prot_w) (not pie)

-- What an image that is not refused says of the result.
abbrev IsPlaced :
    Host
    → File
    → ℕ
    → Bool
    → Commands
    → AddressSpace
    → (ℕ → ℕ)
    → Option Image × AddressSpace × (ℕ → ℕ)
    → Type 0
IsPlaced h f slice pie c s mem (none, s', mem') = Unit {0}
IsPlaced h f slice pie c s mem (some img, s', mem') =
    ((reserved h pie c s).0 ≢ 0)
    × (img.slide ≡ sub64 (reserved h pie c s).0 (lowest c))
    × (s' ≡ protect_segments h img.slide c.segs (reserved h pie c s).1)
    × (mem' ≡ copy_segments f slice img.slide c.segs mem)

place_image-IsPlaced :
    (h : Host) (f : File) (slice : ℕ) (pie : Bool) (c : Commands) (s : AddressSpace) (mem : ℕ → ℕ)
    → IsPlaced h f slice pie c s mem (place_image h f slice pie c s mem)
unfolding place_image
place_image-IsPlaced h f slice pie c s mem = elim (Option-cases c.entry) [
  | inl e ↦ rw e tt
  | inr (entry_off, e) ↦ rw e (
      by_test (IsPlaced h f slice pie c s mem) (length c.segs == 0) (λ _. tt)
        λ _.
          by_test (IsPlaced h f slice pie c s mem) ((reserved h pie c s).0 == 0) (λ _. tt)
            λ nz. (ground arith, refl, refl, refl))
]

-- An address between the bounds, slid to where the lowest one was placed.
slid :
    (base lo hi v : ℕ)
    → lo ≤ v
    → v ≤ hi
    → hi < 2 ^ 64
    → base + sub64 hi lo < 2 ^ 64
    → add64 v (sub64 base lo) ≡ base + (v - lo)
slid base lo hi v p q r t = omega arith

LieIn-SlidFit :
    (base lo hi : ℕ) (ss : List Segment)
    → hi < 2 ^ 64
    → base + sub64 hi lo < 2 ^ 64
    → LieIn lo hi ss
    → SlidFit (sub64 base lo) ss
LieIn-SlidFit base lo hi [] r t h = tt
LieIn-SlidFit base lo hi (s ∷ ss) r t h = (
  omega (arith, slid base lo hi s.vmaddr h.0 (omega (arith, h.1)) r t, h.0, h.1),
  LieIn-SlidFit base lo hi ss r t h.3,
)

-- The same with a list that stands for the segments of the image.
placed-prot :
    (h : Host) (pie : Bool) (c : Commands) (s : AddressSpace) (before : List Segment) (g : Segment)
    (after : List Segment) (i : ℕ)
    → c.segs ≡ before ++ (g ∷ after)
    → DoNotWrap c.segs
    → ((n : ℕ) → h.alloc n ≡ true)
    → 0 < h.page
    → highest c + h.page ≤ 2 ^ 64
    → IsSorted 0 s.reg
    → ((base : ℕ)
        → reserve h (lowest c) (sub64 (highest c) (lowest c)) (not pie) ≡ some base
        → IsFresh s (new_region h (lowest c) (sub64 (highest c) (lowest c)) (prot_r + prot_w) base))
    → (reserved h pie c s).0 ≢ 0
    → i < g.vmsize
    → let slide = sub64 (reserved h pie c s).0 (lowest c) in
      Avoids (λ g. g.vmsize) slide (add64 g.vmaddr slide + i) after
      → prot_at
          (protect_segments h slide c.segs (reserved h pie c s).1).reg
          (add64 g.vmaddr slide + i)
        ≡ some (bit_and g.initprot 7)
placed-prot h pie c s before g after i e whole room page top w fresh nz less off =
    let lo = lowest c in
    let hi = highest c in
    let base = (reserved h pie c s).0 in
    let slide = sub64 base lo in
    let (within, small) = span-LieIn c.segs (2 ^ 64 - 1) 0 (omega arith) whole in
    let (low, high) = LieIn-at lo hi before g after (subst (LieIn lo hi) e within) in
    let all =
      prot_at-map h s lo (sub64 hi lo) (prot_r + prot_w) (not pie) (g.vmaddr - lo + i) page
        (omega (arith, low, high, small, top)) w fresh nz (omega (arith, low, high, small)) in
    let at = slid base lo hi g.vmaddr low (omega (arith, high)) small all.1 in
    let here : prot_at (reserved h pie c s).1.reg (add64 g.vmaddr slide + i) ≡ some 3 =
      ap (prot_at (reserved h pie c s).1.reg) (omega (arith, at)) ∙ all.0 in
    let fits = LieIn-SlidFit base lo hi c.segs small all.1 within in
    subst
      (λ ss.
        SlidFit slide ss
        → prot_at (protect_segments h slide ss (reserved h pie c s).1).reg
            (add64 g.vmaddr slide + i)
          ≡ some (bit_and g.initprot 7))
      (sym e)
      (λ fits'.
        protect_segments-prot h slide before g after (reserved h pie c s).1
          (add64 g.vmaddr slide + i) {old = 3} room all.2 fits' here (omega arith) (omega arith)
          off)
      fits

-- For an image that `rsd_load` places, whose segments do not wrap around the end of the addresses:
-- every byte of a segment that no later segment takes is mapped, slid by `slide`, with just the
-- read, write and execute bits of the segment's initprot. The allocator succeeds, the host reserves
-- fresh pages, and the segments end at least a page below 2 ^ 64.
pub place_image-prot :
    (h : Host) (f : File) (slice : ℕ) (pie : Bool) (c : Commands) (s : AddressSpace) (mem : ℕ → ℕ)
    (before : List Segment) (g : Segment) (after : List Segment) (i : ℕ) {img : Image}
    → (place_image h f slice pie c s mem).0 ≡ some img
    → c.segs ≡ before ++ (g ∷ after)
    → DoNotWrap c.segs
    → ((n : ℕ) → h.alloc n ≡ true)
    → 0 < h.page
    → highest c + h.page ≤ 2 ^ 64
    → IsSorted 0 s.reg
    → ((base : ℕ)
        → reserve h (lowest c) (sub64 (highest c) (lowest c)) (not pie) ≡ some base
        → IsFresh s (new_region h (lowest c) (sub64 (highest c) (lowest c)) (prot_r + prot_w) base))
    → i < g.vmsize
    → Avoids (λ g. g.vmsize) img.slide (add64 g.vmaddr img.slide + i) after
    → prot_at (place_image h f slice pie c s mem).1.reg (add64 g.vmaddr img.slide + i)
      ≡ some (bit_and g.initprot 7)
place_image-prot h f slice pie c s mem before g after i {img} e list whole room page top w fresh
      less off =
    let r = place_image h f slice pie c s mem in
    let (nz, slide, space, _) =
      subst (λ o. IsPlaced h f slice pie c s mem (o, r.1, r.2)) e
        (place_image-IsPlaced h f slice pie c s mem) in
    ap (λ t. prot_at t.reg (add64 g.vmaddr img.slide + i)) space
    ∙ subst
        (λ t.
          Avoids (λ g. g.vmsize) t (add64 g.vmaddr t + i) after
          → prot_at (protect_segments h t c.segs (reserved h pie c s).1).reg (add64 g.vmaddr t + i)
            ≡ some (bit_and g.initprot 7))
        (sym slide)
        (placed-prot h pie c s before g after i list whole room page top w fresh nz less) off

-- For an image that `rsd_load` places: each of the `filesize` first bytes of a segment, slid by
-- `slide`, is the byte of the file that lies as far behind the segment's file offset in the slice,
-- unless the bytes of a later segment are copied over it.
pub place_image-byte :
    (h : Host) (f : File) (slice : ℕ) (pie : Bool) (c : Commands) (s : AddressSpace) (mem : ℕ → ℕ)
    (before : List Segment) (g : Segment) (after : List Segment) (i : ℕ) {img : Image}
    → (place_image h f slice pie c s mem).0 ≡ some img
    → c.segs ≡ before ++ (g ∷ after)
    → i < g.filesize
    → Avoids (λ g. g.filesize) img.slide (add64 g.vmaddr img.slide + i) after
    → (place_image h f slice pie c s mem).2 (add64 g.vmaddr img.slide + i)
      ≡ f.byte (slice + g.fileoff + i)
place_image-byte h f slice pie c s mem before g after i {img} e list less off =
    let r = place_image h f slice pie c s mem in
    let (_, _, _, bytes) =
      subst (λ o. IsPlaced h f slice pie c s mem (o, r.1, r.2)) e
        (place_image-IsPlaced h f slice pie c s mem) in
    let a = add64 g.vmaddr img.slide + i in
    ap (λ m. m a) bytes
    ∙ ap (λ ss. copy_segments f slice img.slide ss mem a) list
    ∙ copy_segments-byte f slice img.slide before g after mem i less off
