-- ===== src/Tests/ImportTests.antt =====
-- Thunks and imports (src/thunk.c, src/fixups.c) at concrete inputs, with the values of the
-- platform's headers.
use rashid.Base.{
  ℕ, ◌+◌, ◌/◌, ◌%◌, ◌^◌, ◌≡◌, refl, true, false, List, [], ◌∷◌, Option, none, some, sub64,
  get_elem?, arith,
}
use mathlib.Core.Path.{subst}
use rashid.AddressSpace.{map, insert, reserve, place, page_up, mapped, walk, find}
use rashid.Cpu.Memory.{read, write, put_bytes}
use rashid.Stubs.{stub_index}
use rashid.Fixups.{Walk, bound, fixup, walk_chain}
use rashid.Fixups.Imports.{
  ImportLayout, Linker, Entry, Stub, stubs_of, parse_imports, resolve_imports, entries,
}
use rashid.Fixups.Apply.{StartsLayout, Source, Linked, image_of, map_stubs, segments, pages, fixups}
use rashid.Fixups.Ends.{IsFine, fixups-ends}
use rashid.Fixups.Reaches.{stubs_of-bound}
use rashid.Thunk.{
  CodeFlags, chars, row, callback_arg, text_vmaddr, section_is_code, find_code, addr_is_code,
}
use rashid.Thunk.Section.{IsData, IsSection, addr_is_code-IsData}
use rashid.Tests.Samples.{host, space}
use rashid.Tests.Samples.{space-IsSorted}
use rashid.Tests.LinkTests.{format, format-NextFits}
use rashid.Tests.LoadTests.{constants, layout}

-- "_bsearch" at 16.
abbrev names : ℕ → ℕ
names = put_bytes (λ _. 0) 16 (95 ∷ chars "bsearch")

callback_arg-bsearch : callback_arg names 16 ≡ some 4
unfolding callback_arg row
callback_arg-bsearch = refl

abbrev code_flags : CodeFlags
code_flags = record { pure_instructions = 0x8000_0000; some_instructions = 0x400; flags = 64 }

-- An image at 0x10000, linked at 0, with one segment of one section without instructions, that
-- holds 0x100 bytes from 0x800 on.
abbrev native_image : ℕ → ℕ
native_image =
    let head = write (write (λ _. 0) 0x10000 0xFEEDFACF 4) 0x10010 1 4 in
    let segment = write (write head 0x10020 0x19 4) 0x10024 152 4 in
    let name = write (write segment 0x10028 0x545845545F5F 8) 0x10060 1 4 in
    write (write name 0x10088 0x800 8) 0x10090 0x100 8

in_data : addr_is_code constants code_flags layout native_image (λ _. some 0x10000) 0x10810 ≡ false
unfolding addr_is_code text_vmaddr find_code section_is_code
in_data = refl

addr_is_code-IsData_example :
    (mh : ℕ) × (some 0x10000 ≡ some mh)
    × (sec : ℕ) × IsSection constants layout native_image
        (read native_image (mh + 16) 4)
        (mh + 32)
        sec
    × IsData code_flags layout native_image 0x10810
        (sub64 mh
          (text_vmaddr constants layout native_image (read native_image (mh + 16) 4) (mh + 32)))
        sec
addr_is_code-IsData_example =
    addr_is_code-IsData constants code_flags layout native_image (λ _. some 0x10000) 0x10810 in_data

abbrev import_layout : ImportLayout
import_layout = record {
  version = 0;
  starts_offset = 4;
  imports_offset = 8;
  symbols_offset = 12;
  imports_count = 16;
  imports_format = 20;
  import_size = 4;
  name_offset = λ word. word / 2 ^ 9;
  lib_ordinal = λ word. word % 2 ^ 8;
  weak_import = λ word. word / 2 ^ 8 % 2;
  dyld_chained_import = 1;
}

abbrev starts_layout : StartsLayout
starts_layout = record {
  seg_count = 0;
  seg_info_offset = 4;
  page_size = 4;
  pointer_format = 6;
  segment_offset = 8;
  page_count = 20;
  page_start = 22;
  ptr_64 = 2;
  ptr_64_offset = 6;
  start_none = 0xFFFF;
}

-- A host that has every function, at 0x7777.
abbrev linker : Linker
linker = record {
  calloc = λ _. true;
  last_slash = λ _. none;
  dlsym = λ _. some 0x7777;
  is_code = λ _. true;
}

-- Fixups at 0x100: one import, "_bsearch" at 0x140, and one chain of one page, which starts at
-- 0x1000 of the guest.
abbrev chains : ℕ → ℕ
chains =
    let head = write (write (λ _. 0) 0x104 0x80 4) 0x108 0x30 4 in
    let head' = write (write (write head 0x10C 0x40 4) 0x110 1 4) 0x114 1 4 in
    let name = put_bytes head' 0x140 (95 ∷ chars "bsearch") in
    let starts = write (write name 0x180 1 4) 0x184 8 4 in
    let page = write (write starts 0x18C 0x1000 2) 0x18E 6 2 in write page 0x19C 1 2

abbrev source : Source
source = record {
  byte = chains;
  dylibs = [];
  slice_off = 0;
  fixups_off = 0x100;
  fixups_size = 0x100;
  pref_base = 0x1000;
  slide = 0;
}

abbrev import : Entry
import = record { name = 0x140; lib = none; weak = false; native = some 0x7777; is_code = true }

parsed_once :
    parse_imports import_layout linker chains [] 0x100
    ≡ some (record import { native = none; is_code = false } ∷ [])
unfolding parse_imports entries
parsed_once = refl

-- A bind of import 0.
stubs_of-bound_example :
    let (stubs, table) = stubs_of chains 0x8000 (import ∷ []) in
    (stub_index stubs (bound format (image_of source (import ∷ []) 0x8000 true) (2 ^ 63)) ≡ some 0)
    × (stub : Stub) × (get_elem? table 0 ≡ some stub)
    × (stub.fn ≡ some 0x7777)
    × (stub.name ≡ 0x140)
stubs_of-bound_example =
    stubs_of-bound format source (import ∷ []) 0x8000 (2 ^ 63) true {e = import} refl refl
      (omega arith) (omega arith) (omega arith)

-- The place in the guest's memory binds import 0.
abbrev before : Walk
before = record { mem = write (λ _. 0) 0x1000 (2 ^ 63) 8; used = λ _. false }

-- The stub is at 0x8000, where the host of the tests has room, and the bind points at it.
abbrev bound_memory : Option Linked → ℕ
bound_memory none = 0
bound_memory (some r) = read r.walk.mem 0x1000 8

fixups-chains :
    bound_memory (fixups import_layout starts_layout format linker host source 0x9001 space before)
    ≡ 0x8000
unfolding fixups parse_imports entries resolve_imports segments pages map_stubs map insert reserve
    place page_up walk_chain mapped walk find fixup bound
fixups-chains = refl

stubs-IsFine :
    (parsed : List Entry)
    → parse_imports import_layout linker chains [] 0x100 ≡ some parsed
    → IsFine 0x9000 (map_stubs host (resolve_imports linker chains parsed) space).1
unfolding parse_imports entries resolve_imports map_stubs map insert reserve page_up place
stubs-IsFine parsed e = subst fine e (
  (omega arith, omega arith, (omega arith, omega arith, (omega arith, omega arith, tt))),
  (omega arith, (omega arith, (omega arith, tt))),
)
  where
    fine : Option (List Entry) → Type 0
    fine none = Unit {0}
    fine (some parsed) =
        IsFine 0x9000 (map_stubs host (resolve_imports linker chains parsed) space).1

fixups-ends_example :
    (r : Linked) × (fixups import_layout starts_layout format linker host source 0x9001 space before
      ≡ some r)
fixups-ends_example =
    fixups-ends import_layout starts_layout format linker host source 0x9000 0x9001 space before
      format-NextFits (omega arith) (omega arith) (space-IsSorted, (omega arith, (omega arith, tt)))
      stubs-IsFine
