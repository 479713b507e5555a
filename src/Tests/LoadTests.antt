-- ===== src/Tests/LoadTests.antt =====
-- The loader (src/macho.c) at concrete inputs, with the values of the platform's headers.
use mathlib.Core.Path.{subst}
use rashid.Base.{
  Option, ℕ, ◌+◌, ◌^◌, ◌≤◌, ◌<◌, ◌≡◌, refl, inr, true, false, [], ◌∷◌, none, some, length, arith,
  sub64,
}
use rashid.Cpu.Memory.{read, write}
use rashid.AddressSpace.{init, insert, place, map, reserve, page_up, prot_r, prot_w}
use rashid.AddressSpace.Reach.{IsFresh, new_region}
use rashid.AddressSpace.Sorted.{IsSorted, prot_at}
use rashid.AddressSpace.Mapped.{prot_at-map}
use rashid.Macho.{
  Constants, Layout, File, Segment, Commands, no_commands, bswap32, find_arch, find_slice,
  add_sects, add_segment, command, commands, max_segs, max_sects, max_dylibs,
}
use rashid.Macho.Load.{Image, span, place_image, load}
use rashid.Macho.Slice.{IsFirst, find_slice-IsFirst}
use rashid.Macho.Bounds.{commands-FitsArrays}
use rashid.Macho.Segments.{place_image-prot, place_image-byte, lowest, highest}
use rashid.Tests.Samples.{host}

abbrev pub constants : Constants
constants = record {
  mh_magic_64 = 0xFEEDFACF;
  mh_cigam_64 = 0xCFFAEDFE;
  fat_magic = 0xCAFEBABE;
  fat_cigam = 0xBEBAFECA;
  cpu_type_x86_64 = 0x0100_0007;
  mh_pie = 0x200000;
  lc_segment_64 = 0x19;
  lc_main = 0x8000_0028;
  lc_unixthread = 5;
  lc_dyld_chained_fixups = 0x8000_0034;
  lc_load_dylib = 0xC;
  lc_load_weak_dylib = 0x8000_0018;
  lc_reexport_dylib = 0x8000_001F;
  seg_pagezero = 95 ∷ 95 ∷ 80 ∷ 65 ∷ 71 ∷ 69 ∷ 90 ∷ 69 ∷ 82 ∷ 79 ∷ [];
  seg_text = 95 ∷ 95 ∷ 84 ∷ 69 ∷ 88 ∷ 84 ∷ [];
}

abbrev pub layout : Layout
layout = record {
  mh_cputype = 4;
  mh_ncmds = 16;
  mh_flags = 24;
  mh_size = 32;
  fat_nfat_arch = 4;
  fat_size = 8;
  arch_cputype = 0;
  arch_offset = 8;
  arch_size = 20;
  lc_cmd = 0;
  lc_cmdsize = 4;
  lc_size = 8;
  sc_segname = 8;
  sc_vmaddr = 24;
  sc_vmsize = 32;
  sc_fileoff = 40;
  sc_filesize = 48;
  sc_maxprot = 56;
  sc_initprot = 60;
  sc_nsects = 64;
  sc_size = 72;
  sec_sectname = 0;
  sec_segname = 16;
  sec_addr = 32;
  sec_size = 40;
  section_size = 80;
  ep_entryoff = 8;
  ld_dataoff = 8;
  ld_datasize = 12;
  dylib_name = 8;
}

-- A fat file: an arm64 slice, and an x86_64 slice at 0x4000. The words are big-endian.
abbrev fat_file : File
fat_file =
    let head = write (write (λ _. 0) 0 0xBEBAFECA 4) 4 0x0200_0000 4 in
    let first = write head 8 0x0C00_0001 4 in
    record { size = 0x8000; byte = write (write first 28 0x0700_0001 4) 36 0x0040_0000 4 }

find_slice-fat_file : find_slice constants layout fat_file ≡ some 0x4000
unfolding find_slice find_arch bswap32
find_slice-fat_file = refl

find_slice-IsFirst_example :
    IsFirst constants layout fat_file 0
      (bswap32 (read fat_file.byte 4 4))
      (find_slice constants layout fat_file)
find_slice-IsFirst_example =
    find_slice-IsFirst constants layout fat_file (omega arith) (inr refl) (omega arith)
      (omega arith)

-- A position-independent file: __TEXT at 0x1000 with the first two bytes of the file, and LC_MAIN.
abbrev thin_file : File
thin_file =
    let head = write (write (write (λ _. 0) 0 0xFEEDFACF 4) 4 0x0100_0007 4) 16 2 4 in
    let pie = write head 24 0x200000 4 in
    let segment = write (write (write pie 32 0x19 4) 36 72 4) 40 0x545845545F5F 8 in
    let memory = write (write segment 56 0x1000 8) 64 0x800 8 in
    let prot = write (write memory 80 2 8) 92 5 4 in
    let main = write (write (write prot 104 0x8000_0028 4) 108 24 4) 112 0x20 8 in
    record { size = 0x1000; byte = main }

abbrev text : Segment
text = record {
  name = 95 ∷ 95 ∷ 84 ∷ 69 ∷ 88 ∷ 84 ∷ 0 ∷ 0 ∷ 0 ∷ 0 ∷ 0 ∷ 0 ∷ 0 ∷ 0 ∷ 0 ∷ 0 ∷ [];
  vmaddr = 0x1000;
  vmsize = 0x800;
  fileoff = 0;
  filesize = 2;
  initprot = 5;
  maxprot = 0;
}

abbrev thin_commands : Commands
thin_commands = record no_commands {
  segs = text ∷ [];
  pref_base = 0x1000;
  has_main = true;
  entry = some 0x20;
}

commands-thin_file : commands constants layout thin_file 2 32 no_commands ≡ some thin_commands
unfolding commands command add_segment add_sects
commands-thin_file = refl

commands-FitsArrays_example :
    (length thin_commands.segs ≤ max_segs)
    × (length thin_commands.sects ≤ max_sects)
    × (length thin_commands.dylibs ≤ max_dylibs)
commands-FitsArrays_example = commands-FitsArrays constants layout thin_file 2 32 commands-thin_file

-- It is placed at 0x8000, where the host of the tests has room.
abbrev image : Image
image = record {
  file = thin_file;
  slice_off = 0;
  commands = thin_commands;
  pie = true;
  slide = 0x7000;
  entry = 0x8020;
}

load-thin_file : (load constants layout host (some thin_file) init (λ _. 0)).0 ≡ some image
unfolding load find_slice commands command add_segment add_sects place_image span map reserve insert
    page_up init
load-thin_file = refl

placed : (place_image host thin_file 0 true thin_commands init (λ _. 0)).0 ≡ some image
unfolding place_image span map reserve insert page_up init
placed = refl

-- The pages that the host reserves are not in use: the address space is empty.
IsFresh-span :
    (base : ℕ)
    → reserve host
        (lowest thin_commands)
        (sub64 (highest thin_commands) (lowest thin_commands))
        false
      ≡ some base
    → IsFresh init (
        new_region host
          (lowest thin_commands)
          (sub64 (highest thin_commands) (lowest thin_commands))
          (prot_r + prot_w)
          base)
unfolding reserve span page_up init
IsFresh-span base e = subst is_fresh e (omega arith, omega arith, tt)
  where
    is_fresh : Option ℕ → Type 0
    is_fresh none = Unit {0}
    is_fresh (some base) = IsFresh init (new_region host 0x1000 0x800 3 base)

place_image-prot_example :
    prot_at (place_image host thin_file 0 true thin_commands init (λ _. 0)).1.reg 0x8007 ≡ some 5
unfolding span init
place_image-prot_example =
    place_image-prot host thin_file 0 true thin_commands init (λ _. 0) [] text [] 7 placed refl
      (omega arith, tt) (λ _. refl) (omega arith) (omega arith) tt IsFresh-span (omega arith) tt

place_image-byte_example :
    (place_image host thin_file 0 true thin_commands init (λ _. 0)).2 0x8001 ≡ 0xFA
place_image-byte_example =
    place_image-byte host thin_file 0 true thin_commands init (λ _. 0) [] text [] 1 placed refl
      (omega arith) tt

IsFresh-page :
    (base : ℕ)
    → reserve host 0 0x1000 false ≡ some base
    → IsFresh init (new_region host 0 0x1000 3 base)
unfolding reserve page_up init
IsFresh-page base e = subst is_fresh e (omega arith, omega arith, tt)
  where
    is_fresh : Option ℕ → Type 0
    is_fresh none = Unit {0}
    is_fresh (some base) = IsFresh init (new_region host 0 0x1000 3 base)

-- A page at an address that the host chooses.
prot_at-map_example :
    (prot_at (map host init 0 0x1000 3 false).1.reg ((map host init 0 0x1000 3 false).0 + 9)
      ≡ some 3)
    × ((map host init 0 0x1000 3 false).0 + 0x1000 < 2 ^ 64)
    × IsSorted 0 (map host init 0 0x1000 3 false).1.reg
unfolding map insert reserve page_up place init
prot_at-map_example =
    prot_at-map host init 0 0x1000 3 false 9 (omega arith) (omega arith) tt IsFresh-page
      (omega arith) (omega arith)
