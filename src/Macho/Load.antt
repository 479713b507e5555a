-- ===== src/Macho/Load.antt =====
-- src/macho.c, rsd_load after the walk over the commands: the place, the contents and the
-- permissions of the segments.
use rashid.Base.{
  ℕ, ◌+◌, ◌-◌, ◌^◌, bit_and, Bool, true, false, ◌&&◌, not, Option, none, some, List, [], ◌∷◌, ltb,
  leb, ◌==◌, if◌then◌else◌, length, add64, sub64,
}
use rashid.AddressSpace
use rashid.AddressSpace.{AddressSpace, Host, prot_r, prot_w}
use rashid.Cpu.Memory.{read}
use rashid.Macho.{
  Constants, Layout, File, Segment, Section, Commands, no_commands, find_slice, commands,
}

-- The rest of `rsd_image` that loading fills in.
pub record Image : Type 0 where
  pub file : File
  pub slice_off : ℕ
  pub commands : Commands
  pub pie : Bool
  pub slide : ℕ
  pub entry : ℕ

-- The bounds of the segments: the lowest start and the highest end.
unfoldable pub span : List Segment → ℕ → ℕ → ℕ × ℕ
span [] lo hi = (lo, hi)
span (s ∷ ss) lo hi =
    let end = add64 s.vmaddr s.vmsize in
    span ss (if ltb s.vmaddr lo then s.vmaddr else lo) (if ltb hi end then end else hi)

-- memcpy of n bytes of the file to `at`.
abbrev pub memcpy : (ℕ → ℕ) → ℕ → (ℕ → ℕ) → ℕ → ℕ → ℕ → ℕ
memcpy from src mem at n a = if leb at a && ltb a (at + n) then from (src + (a - at)) else mem a

unfoldable pub copy_segments : File → ℕ → ℕ → List Segment → (ℕ → ℕ) → ℕ → ℕ
copy_segments f slice slide [] mem = mem
copy_segments f slice slide (s ∷ ss) mem = copy_segments f slice slide ss (
    if s.filesize == 0
    then mem
    else memcpy f.byte (slice + s.fileoff) mem (add64 s.vmaddr slide) s.filesize)

unfoldable pub protect_segments : Host → ℕ → List Segment → AddressSpace → AddressSpace
protect_segments h slide [] s = s
protect_segments h slide (g ∷ gs) s =
    protect_segments h slide gs
      (AddressSpace.protect h s (add64 g.vmaddr slide) g.vmsize (bit_and g.initprot 7)).1

-- Pass 2 of `rsd_load`. The memory is what the guest finds there once the span is reserved; the
-- image is none where -1 is returned.
unfoldable pub place_image :
    Host
    → File
    → ℕ
    → Bool
    → Commands
    → AddressSpace
    → (ℕ → ℕ)
    → Option Image × AddressSpace × (ℕ → ℕ)
unfolding span copy_segments protect_segments
place_image h f slice pie c s mem =
    let (lo, hi) = span c.segs (2 ^ 64 - 1) 0 in
    let (base, s') = AddressSpace.map h s lo (sub64 hi lo) (prot_r + prot_w) (not pie) in
    let slide = sub64 base lo in
    elim c.entry [
      | none ↦ (none, s, mem)
      | some entry_off ↦
          if length c.segs == 0 then (none, s, mem) else if base == 0 then (none, s', mem) else (
            some (record {
              file = f;
              slice_off = slice;
              commands = c;
              pie = pie;
              slide = slide;
              entry = add64 (if c.has_main then add64 c.pref_base entry_off else entry_off) slide;
            }),
            protect_segments h slide c.segs s',
            copy_segments f slice slide c.segs mem,
          )
    ]

-- `rsd_load`; no file where it cannot be opened, measured or mapped.
unfoldable pub load :
    Constants
    → Layout
    → Host
    → Option File
    → AddressSpace
    → (ℕ → ℕ)
    → Option Image × AddressSpace × (ℕ → ℕ)
unfolding find_slice commands place_image
load k l h none s mem = (none, s, mem)
load k l h (some f) s mem = elim (find_slice k l f) [
  | none ↦ (none, s, mem)
  | some slice ↦
      let pie = not (bit_and (read f.byte (slice + l.mh_flags) 4) k.mh_pie == 0) in
      let n = read f.byte (slice + l.mh_ncmds) 4 in
      elim (commands k l f n (slice + l.mh_size) no_commands) [
        | none ↦ (none, s, mem)
        | some c ↦ place_image h f slice pie c s mem
      ]
]

-- strcmp of a name's 16 bytes and the 0 behind them.
unfoldable pub name_is : List ℕ → List ℕ → Bool
name_is [] [] = true
name_is [] (c ∷ cs) = false
name_is (b ∷ bs) [] = b == 0
name_is (b ∷ bs) (c ∷ cs) = (b == c) && name_is bs cs

-- `rsd_find_sect`, by the characters of a name.
unfoldable pub find_sect : List Section → List ℕ → Option Section
unfolding name_is
find_sect [] name = none
find_sect (s ∷ ss) name =
    let rest = find_sect ss name in if name_is s.name name then some s else rest
