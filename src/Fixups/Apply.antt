-- ===== src/Fixups/Apply.antt =====
-- src/fixups.c, rsd_fixups: all chains of an image.
use rashid.Base.{
  ℕ, zero, suc, ◌+◌, ◌*◌, Bool, true, false, ◌&&◌, ◌||◌, not, Option, none, some, List, [], ◌==◌,
  if◌then◌else◌, length, add64,
}
use rashid.AddressSpace
use rashid.AddressSpace.{AddressSpace, Host, prot_r, prot_x}
use rashid.Cpu.Memory.{read}
use rashid.Stubs.{stub_stride}
use rashid.Fixups.{ChainFormat, Image, Walk, walk_chain}
use rashid.Fixups.Imports.{ImportLayout, Linker, Entry, parse_imports, resolve_imports, import_of}

-- <mach-o/fixup-chains.h>: the fields that say where the chains start, and the constants.
pub record StartsLayout : Type 0 where
  pub seg_count : ℕ
  pub seg_info_offset : ℕ
  pub page_size : ℕ
  pub pointer_format : ℕ
  pub segment_offset : ℕ
  pub page_count : ℕ
  pub page_start : ℕ
  pub ptr_64 : ℕ
  pub ptr_64_offset : ℕ
  pub start_none : ℕ

-- What `rsd_fixups` reads of the image that was loaded.
pub record Source : Type 0 where
  pub byte : ℕ → ℕ
  pub dylibs : List ℕ
  pub slice_off : ℕ
  pub fixups_off : ℕ
  pub fixups_size : ℕ
  pub pref_base : ℕ
  pub slide : ℕ

-- The image as the walk of a chain of one segment reads it.
abbrev pub image_of : Source → List Entry → ℕ → Bool → Image
image_of src es stub_base offsets = record {
  nimports = length es;
  imports = import_of es;
  pref_base = src.pref_base;
  slide = src.slide;
  stub_base = stub_base;
  offsets = offsets;
}

-- The loop over the pages of one segment, n of them from page p on; none where the fuel of a chain
-- runs out.
unfoldable pub pages :
    StartsLayout
    → ChainFormat
    → Image
    → AddressSpace
    → (ℕ → ℕ)
    → ℕ
    → ℕ
    → ℕ
    → ℕ
    → ℕ
    → Walk
    → Option Walk
unfolding walk_chain
pages l f img s byte fuel sis seg zero p w = some w
pages l f img s byte fuel sis seg (suc n) p w =
    let start = read byte (sis + l.page_start + p * 2) 2 in
    let addr = add64 seg (p * read byte (sis + l.page_size) 2 + start) in
    let done = if start == l.start_none then some w else walk_chain f img s fuel addr w in
    elim done [ none ↦ none | some w' ↦ pages l f img s byte fuel sis seg n (suc p) w' ]

-- How a loop ended: false for a pointer format that is not supported.
abbrev pub Ended : Type 0
Ended = Option (Bool × Walk)

-- The loop over the segments, n of them from segment i on.
unfoldable pub segments :
    StartsLayout
    → ChainFormat
    → Source
    → List Entry
    → ℕ
    → AddressSpace
    → ℕ
    → ℕ
    → ℕ
    → ℕ
    → Walk
    → Ended
unfolding pages
segments l f src es stub_base s fuel sii zero i w = some (true, w)
segments l f src es stub_base s fuel sii (suc n) i w =
    let offset = read src.byte (sii + l.seg_info_offset + i * 4) 4 in
    let sis = sii + offset in
    let format = read src.byte (sis + l.pointer_format) 2 in
    let img = image_of src es stub_base (format == l.ptr_64_offset) in
    let seg = add64 (add64 src.pref_base src.slide) (read src.byte (sis + l.segment_offset) 8) in
    let count = read src.byte (sis + l.page_count) 2 in
    let walked = if offset == 0 then some w else pages l f img s src.byte fuel sis seg count 0 w in
    if not (offset == 0) && not (format == l.ptr_64 || (format == l.ptr_64_offset))
    then some (false, w)
    else elim walked [
      | none ↦ none
      | some w' ↦ segments l f src es stub_base s fuel sii n (suc i) w'
    ]

-- What `rsd_fixups` leaves behind: whether it returns 0, the imports and the stubs of the image,
-- the address space and the memory.
pub record Linked : Type 0 where
  pub good : Bool
  pub imports : List Entry
  pub stub_base : ℕ
  pub space : AddressSpace
  pub walk : Walk

-- The stubs: their address, 0 where there is no room, and the address space.
unfoldable pub map_stubs : Host → List Entry → AddressSpace → ℕ × AddressSpace
map_stubs h es s = AddressSpace.map h s 0 (length es * stub_stride) (prot_r + prot_x) false

abbrev pub linked : List Entry → ℕ → AddressSpace → Ended → Option Linked
linked es stub_base s none = none
linked es stub_base s (some (good, w)) =
    some (record { good = good; imports = es; stub_base = stub_base; space = s; walk = w })

-- The segments behind the header's `starts_offset`.
abbrev pub all_segments :
    ImportLayout
    → StartsLayout
    → ChainFormat
    → Source
    → ℕ
    → List Entry
    → ℕ
    → AddressSpace
    → ℕ
    → Walk
    → Ended
all_segments k l f src chain es stub_base s fuel w =
    let sii = chain + read src.byte (chain + k.starts_offset) 4 in
    segments l f src es stub_base s fuel sii (read src.byte (sii + l.seg_count) 4) 0 w

-- `rsd_fixups` on fuel for each chain; none where it runs out.
unfoldable pub fixups :
    ImportLayout
    → StartsLayout
    → ChainFormat
    → Linker
    → Host
    → Source
    → ℕ
    → AddressSpace
    → Walk
    → Option Linked
unfolding parse_imports resolve_imports segments map_stubs
fixups k l f o h src fuel s w =
    let chain = src.slice_off + src.fixups_off in
    let stop = λ (es : List Entry) (s' : AddressSpace). linked es 0 s' (some (false, w)) in
    if src.fixups_size == 0
    then linked [] 0 s (some (true, w))
    else if not (read src.byte (chain + k.version) 4 == 0)
    then stop [] s
    else elim (parse_imports k o src.byte src.dylibs chain) [
      | none ↦ stop [] s
      | some parsed ↦
          let es = resolve_imports o src.byte parsed in
          let (stub_base, s') = map_stubs h es s in
          if length es == 0
          then linked es 0 s (all_segments k l f src chain es 0 s fuel w)
          else if stub_base == 0
          then stop es s'
          else linked es stub_base s' (all_segments k l f src chain es stub_base s' fuel w)
    ]
