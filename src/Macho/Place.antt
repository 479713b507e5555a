-- ===== src/Macho/Place.antt =====
-- src/macho.c, rsd_load: what the guest finds where a segment was placed.
use mathlib.Core.Option
use rashid.Base.{
  ℕ, ◌+◌, ◌*◌, ◌≤◌, ◌<◌, ◌^◌, ◌≡◌, ◌⊎◌, ◌∙◌, ap, inl, inr, refl, true, false, ◌&&◌, some, List, [],
  ◌∷◌, ◌++◌, leb, ltb, ◌==◌, if◌then◌else◌, bit_and, arith, add64, length, Bool-cases,
}
use rashid.AddressSpace.{AddressSpace, Host, protect}
use rashid.AddressSpace.Sorted.{IsSorted, prot_at}
use rashid.AddressSpace.Protect.{within, prot_at-protect}
use rashid.Macho.{File, Segment}
use rashid.Macho.Load.{memcpy, copy_segments, protect_segments}

-- Every segment ends below 2 ^ 64 once it is slid.
abbrev pub SlidFit : ℕ → List Segment → Type 0
SlidFit slide [] = Unit {0}
SlidFit slide (s ∷ ss) = (add64 s.vmaddr slide + s.vmsize < 2 ^ 64) × SlidFit slide ss

-- No segment of the list has x among its first bytes, as many as `size` says, once it is slid.
abbrev pub Avoids : (Segment → ℕ) → ℕ → ℕ → List Segment → Type 0
Avoids size slide x [] = Unit {0}
Avoids size slide x (s ∷ ss) =
    ((x < add64 s.vmaddr slide) ⊎ (add64 s.vmaddr slide + size s ≤ x)) × Avoids size slide x ss

protect-done :
    (h : Host) (s : AddressSpace) (at len prot : ℕ)
    → ((n : ℕ) → h.alloc n ≡ true)
    → (protect h s at len prot).0 ≡ true
unfolding protect
protect-done h s at len prot room = elim (Bool-cases (len == 0)) [
  | inl e ↦ rw e refl
  | inr e ↦ rw (e, room (length s.reg * 3 + 1)) refl
]

-- One call of `rsd_as_protect` by the loader.
protect-prot :
    (h : Host) (slide : ℕ) (g : Segment) (s : AddressSpace) (x : ℕ)
    → ((n : ℕ) → h.alloc n ≡ true)
    → IsSorted 0 s.reg
    → add64 g.vmaddr slide + g.vmsize < 2 ^ 64
    → let s' = (protect h s (add64 g.vmaddr slide) g.vmsize (bit_and g.initprot 7)).1 in
      (prot_at s'.reg x ≡ (
        if within (add64 g.vmaddr slide) (add64 g.vmaddr slide + g.vmsize) x
        then Option.map (λ _. bit_and g.initprot 7) (prot_at s.reg x)
        else prot_at s.reg x))
      × IsSorted 0 s'.reg
protect-prot h slide g s x room w fits =
    prot_at-protect h s (add64 g.vmaddr slide) g.vmsize (bit_and g.initprot 7) x w fits
      (protect-done h s _ _ _ room)

-- The segments behind leave an address that they avoid as it is, ...
protect_segments-Avoids :
    (h : Host) (slide : ℕ) (gs : List Segment) (s : AddressSpace) (x : ℕ)
    → ((n : ℕ) → h.alloc n ≡ true)
    → IsSorted 0 s.reg
    → SlidFit slide gs
    → Avoids (λ g. g.vmsize) slide x gs
    → prot_at (protect_segments h slide gs s).reg x ≡ prot_at s.reg x
unfolding protect_segments
protect_segments-Avoids h slide [] s x room w fits off = refl
protect_segments-Avoids h slide (g ∷ gs) s x room w fits off =
    let (here, w') = protect-prot h slide g s x room w fits.0 in
    let outside : within (add64 g.vmaddr slide) (add64 g.vmaddr slide + g.vmsize) x ≡ false =
      ground (arith, off.0) in
    protect_segments-Avoids h slide gs _ x room w' fits.1 off.1 ∙ here ∙ rw outside refl

-- ... and the segments in front leave it mapped.
pub protect_segments-prot :
    (h : Host) (slide : ℕ) (before : List Segment) (g : Segment) (after : List Segment)
    (s : AddressSpace) (x : ℕ) {old : ℕ}
    → ((n : ℕ) → h.alloc n ≡ true)
    → IsSorted 0 s.reg
    → SlidFit slide (before ++ (g ∷ after))
    → prot_at s.reg x ≡ some old
    → add64 g.vmaddr slide ≤ x
    → x < add64 g.vmaddr slide + g.vmsize
    → Avoids (λ g. g.vmsize) slide x after
    → prot_at (protect_segments h slide (before ++ (g ∷ after)) s).reg x
      ≡ some (bit_and g.initprot 7)
unfolding protect_segments
protect_segments-prot h slide [] g after s x room w fits at lo hi off =
    let (here, w') = protect-prot h slide g s x room w fits.0 in
    let inside : within (add64 g.vmaddr slide) (add64 g.vmaddr slide + g.vmsize) x ≡ true =
      ground arith in
    protect_segments-Avoids h slide after _ x room w' fits.1 off ∙ here ∙ rw (inside, at) refl
protect_segments-prot h slide (b ∷ bs) g after s x {old} room w fits at lo hi off =
    let (here, w') = protect-prot h slide b s x room w fits.0 in
    elim (Bool-cases (within (add64 b.vmaddr slide) (add64 b.vmaddr slide + b.vmsize) x)) [
      | inl e ↦
          protect_segments-prot h slide bs g after _ x {old = bit_and b.initprot 7} room w' fits.1
            (here ∙ rw (e, at) refl) lo hi off
      | inr e ↦
          protect_segments-prot h slide bs g after _ x {old = old} room w' fits.1
            (here ∙ rw (e, at) refl) lo hi off
    ]

memcpy-copied :
    (from : ℕ → ℕ) (src : ℕ) (mem : ℕ → ℕ) (at n i : ℕ)
    → i < n
    → (if n == 0 then mem else memcpy from src mem at n) (at + i) ≡ from (src + i)
memcpy-copied from src mem at n i less =
    let some_bytes : (n == 0) ≡ false = ground arith in
    let inside : leb at (at + i) && ltb (at + i) (at + n) ≡ true = ground arith in
    rw some_bytes (rw inside (ap (λ t. from (src + t)) (omega arith)))

-- The copies behind leave an address that they avoid as it is, ...
copy_segments-Avoids :
    (f : File) (slice slide : ℕ) (gs : List Segment) (mem : ℕ → ℕ) (x : ℕ)
    → Avoids (λ g. g.filesize) slide x gs
    → copy_segments f slice slide gs mem x ≡ mem x
unfolding copy_segments
copy_segments-Avoids f slice slide [] mem x off = refl
copy_segments-Avoids f slice slide (g ∷ gs) mem x off =
    copy_segments-Avoids f slice slide gs _ x off.1 ∙ ground (arith, off.0)

-- ... so that byte i of a segment is the byte of the file, whatever was copied in front.
pub copy_segments-byte :
    (f : File) (slice slide : ℕ) (before : List Segment) (g : Segment) (after : List Segment)
    (mem : ℕ → ℕ) (i : ℕ)
    → i < g.filesize
    → Avoids (λ g. g.filesize) slide (add64 g.vmaddr slide + i) after
    → copy_segments f slice slide (before ++ (g ∷ after)) mem (add64 g.vmaddr slide + i)
      ≡ f.byte (slice + g.fileoff + i)
unfolding copy_segments
copy_segments-byte f slice slide [] g after mem i less off =
    copy_segments-Avoids f slice slide after _ (add64 g.vmaddr slide + i) off
    ∙ memcpy-copied f.byte (slice + g.fileoff) mem (add64 g.vmaddr slide) g.filesize i less
copy_segments-byte f slice slide (b ∷ bs) g after mem i less off =
    copy_segments-byte f slice slide bs g after _ i less off
