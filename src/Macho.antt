-- ===== src/Macho.antt =====
-- src/macho.c and src/macho.h: reading the load commands of an executable. What <mach-o/loader.h>,
-- <mach-o/fat.h> and <mach/machine.h> declare is a parameter: the constants, and where the fields
-- of the structures lie.
pub mod Load
pub mod Slice
pub mod Bounds
pub mod Span
pub mod Place
pub mod Segments
use rashid.Base.{
  ℕ, zero, suc, ◌+◌, ◌*◌, ◌/◌, ◌%◌, ◌^◌, bit_and, Bool, true, false, ◌&&◌, ◌||◌, not, Option, none,
  some, List, [], ◌∷◌, ◌++◌, ltb, leb, ◌==◌, if◌then◌else◌, length,
}
use rashid.Cpu.Memory.{read, bytes}

pub record Constants : Type 0 where
  pub mh_magic_64 : ℕ
  pub mh_cigam_64 : ℕ
  pub fat_magic : ℕ
  pub fat_cigam : ℕ
  pub cpu_type_x86_64 : ℕ
  pub mh_pie : ℕ
  pub lc_segment_64 : ℕ
  pub lc_main : ℕ
  pub lc_unixthread : ℕ
  pub lc_dyld_chained_fixups : ℕ
  pub lc_load_dylib : ℕ
  pub lc_load_weak_dylib : ℕ
  pub lc_reexport_dylib : ℕ
  pub seg_pagezero : List ℕ
  pub seg_text : List ℕ

-- The offset of each field that the loader reads, and the sizes of the structures.
pub record Layout : Type 0 where
  pub mh_cputype : ℕ
  pub mh_ncmds : ℕ
  pub mh_flags : ℕ
  pub mh_size : ℕ
  pub fat_nfat_arch : ℕ
  pub fat_size : ℕ
  pub arch_cputype : ℕ
  pub arch_offset : ℕ
  pub arch_size : ℕ
  pub lc_cmd : ℕ
  pub lc_cmdsize : ℕ
  pub lc_size : ℕ
  pub sc_segname : ℕ
  pub sc_vmaddr : ℕ
  pub sc_vmsize : ℕ
  pub sc_fileoff : ℕ
  pub sc_filesize : ℕ
  pub sc_maxprot : ℕ
  pub sc_initprot : ℕ
  pub sc_nsects : ℕ
  pub sc_size : ℕ
  pub sec_sectname : ℕ
  pub sec_segname : ℕ
  pub sec_addr : ℕ
  pub sec_size : ℕ
  pub section_size : ℕ
  pub ep_entryoff : ℕ
  pub ld_dataoff : ℕ
  pub ld_datasize : ℕ
  pub dylib_name : ℕ

-- The file as it is mapped into memory.
pub record File : Type 0 where
  pub size : ℕ
  pub byte : ℕ → ℕ

-- `bswap32`, `__builtin_bswap32`: the four bytes of a word in the other order.
unfoldable pub bswap32 : ℕ → ℕ
bswap32 v =
    v % 256 * 2 ^ 24 + v / 2 ^ 8 % 256 * 2 ^ 16 + v / 2 ^ 16 % 256 * 2 ^ 8 + v / 2 ^ 24 % 256

-- A field of entry i of a fat file's table.
abbrev pub arch_field : Layout → File → ℕ → ℕ → ℕ
arch_field l f i field = bswap32 (read f.byte (l.fat_size + i * l.arch_size + field) 4)

-- The loop of `find_slice`, with n entries left from entry i on.
unfoldable pub find_arch : Constants → Layout → File → ℕ → ℕ → Option ℕ
find_arch k l f zero i = none
find_arch k l f (suc n) i =
    let rest = find_arch k l f n (suc i) in
    if arch_field l f i l.arch_cputype == k.cpu_type_x86_64
    then some (arch_field l f i l.arch_offset)
    else rest

-- `find_slice`; `none` where it returns -1.
unfoldable pub find_slice : Constants → Layout → File → Option ℕ
unfolding find_arch
find_slice k l f =
    let magic = read f.byte 0 4 in
    if ltb f.size 4
    then none
    else if (magic == k.mh_magic_64) || (magic == k.mh_cigam_64)
    then (if read f.byte l.mh_cputype 4 == k.cpu_type_x86_64 then some 0 else none)
    else if (magic == k.fat_magic) || (magic == k.fat_cigam)
    then find_arch k l f (bswap32 (read f.byte l.fat_nfat_arch 4)) 0
    else none

abbrev pub max_segs : ℕ
max_segs = 16

abbrev pub max_sects : ℕ
max_sects = 64

abbrev pub max_dylibs : ℕ
max_dylibs = 128

-- `rsd_seg`; the name is the 16 bytes of the file.
pub record Segment : Type 0 where
  pub name : List ℕ
  pub vmaddr : ℕ
  pub vmsize : ℕ
  pub fileoff : ℕ
  pub filesize : ℕ
  pub initprot : ℕ
  pub maxprot : ℕ

-- `rsd_sect`.
pub record Section : Type 0 where
  pub seg : List ℕ
  pub name : List ℕ
  pub addr : ℕ
  pub size : ℕ

-- What the walk over the load commands fills in of `rsd_image`. The arrays have the lengths
-- `nsegs`, `nsects` and `ndylibs`; a library's name is given by its place in the file; `entry` is
-- `entry_off`, none before `got_entry`.
pub record Commands : Type 0 where
  pub segs : List Segment
  pub sects : List Section
  pub dylibs : List ℕ
  pub pref_base : ℕ
  pub fixups_off : ℕ
  pub fixups_size : ℕ
  pub has_main : Bool
  pub entry : Option ℕ

abbrev pub no_commands : Commands
no_commands = record {
  segs = [];
  sects = [];
  dylibs = [];
  pref_base = 0;
  fixups_off = 0;
  fixups_size = 0;
  has_main = false;
  entry = none;
}

-- strcmp(p, name) == 0, for a name without its final 0.
abbrev pub str_is : (ℕ → ℕ) → ℕ → List ℕ → Bool
str_is byte p [] = byte p == 0
str_is byte p (c ∷ cs) = (byte p == c) && str_is byte (p + 1) cs

abbrev pub section_at : Layout → File → ℕ → Section
section_at l f a = record {
  seg = bytes f.byte (a + l.sec_segname) 16;
  name = bytes f.byte (a + l.sec_sectname) 16;
  addr = read f.byte (a + l.sec_addr) 8;
  size = read f.byte (a + l.sec_size) 8;
}

-- The loop over the sections of a segment, n of them from a on.
unfoldable pub add_sects : Layout → File → ℕ → ℕ → List Section → List Section
add_sects l f zero a sects = sects
add_sects l f (suc n) a sects =
    let rest = add_sects l f n (a + l.section_size) (sects ++ (section_at l f a ∷ [])) in
    if leb max_sects (length sects) then sects else rest

abbrev pub segment_at : Layout → File → ℕ → Segment
segment_at l f a = record {
  name = bytes f.byte (a + l.sc_segname) 16;
  vmaddr = read f.byte (a + l.sc_vmaddr) 8;
  vmsize = read f.byte (a + l.sc_vmsize) 8;
  fileoff = read f.byte (a + l.sc_fileoff) 8;
  filesize = read f.byte (a + l.sc_filesize) 8;
  initprot = read f.byte (a + l.sc_initprot) 4;
  maxprot = read f.byte (a + l.sc_maxprot) 4;
}

-- LC_SEGMENT_64; `none` where there are too many segments.
unfoldable pub add_segment : Constants → Layout → File → ℕ → Commands → Option Commands
unfolding add_sects
add_segment k l f a c =
    let seg = segment_at l f a in
    if str_is f.byte (a + l.sc_segname) k.seg_pagezero
    then some c
    else if leb max_segs (length c.segs)
    then none
    else some (record c {
      segs = c.segs ++ (seg ∷ []);
      sects = add_sects l f (read f.byte (a + l.sc_nsects) 4) (a + l.sc_size) c.sects;
      pref_base = if str_is f.byte (a + l.sc_segname) k.seg_text then seg.vmaddr else c.pref_base;
    })

-- rip is the seventeenth register behind the command, the flavor and the count.
abbrev pub thread_rip : Layout → File → ℕ → ℕ
thread_rip l f a = read f.byte (a + l.lc_size + 8 + 16 * 8) 8

abbrev pub add_dylib : Layout → File → ℕ → Commands → Commands
add_dylib l f a c =
    if ltb (length c.dylibs) max_dylibs
    then record c { dylibs = c.dylibs ++ ((a + read f.byte (a + l.dylib_name) 4) ∷ []) }
    else c

-- The switch on one load command.
unfoldable pub command : Constants → Layout → File → ℕ → Commands → Option Commands
unfolding add_segment
command k l f a c =
    let cmd = read f.byte (a + l.lc_cmd) 4 in
    if cmd == k.lc_segment_64
    then add_segment k l f a c
    else if cmd == k.lc_main
    then some (record c { entry = some (read f.byte (a + l.ep_entryoff) 8); has_main = true })
    else if cmd == k.lc_unixthread
    then some (record c { entry = some (thread_rip l f a); has_main = false })
    else if cmd == k.lc_dyld_chained_fixups
    then some (record c {
      fixups_off = read f.byte (a + l.ld_dataoff) 4;
      fixups_size = read f.byte (a + l.ld_datasize) 4;
    })
    else if (cmd == k.lc_load_dylib)
        || (cmd == k.lc_load_weak_dylib)
        || (cmd == k.lc_reexport_dylib)
    then some (add_dylib l f a c)
    else some c

-- Pass 1 of `rsd_load`, with n commands left from a on; `none` where it fails.
unfoldable pub commands : Constants → Layout → File → ℕ → ℕ → Commands → Option Commands
unfolding command
commands k l f zero a c = some c
commands k l f (suc n) a c = elim (command k l f a c) [
  | none ↦ none
  | some c' ↦ commands k l f n (a + read f.byte (a + l.lc_cmdsize) 4) c'
]
