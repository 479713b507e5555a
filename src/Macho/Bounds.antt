-- ===== src/Macho/Bounds.antt =====
-- src/macho.c: the arrays of `rsd_image` are never written past their ends.
use rashid.Base.{
  ℕ, zero, suc, ◌+◌, ◌≤◌, ◌≡◌, Option, none, some, List, [], ◌∷◌, ◌++◌, ◌==◌, ◌||◌, ltb, leb, arith,
  by_test, length, length-append,
}
use mathlib.Core.Path.{subst}
use rashid.Cpu.Memory.{read}
use rashid.Macho.{
  Constants, Layout, File, Section, Commands, no_commands, section_at, add_sects, segment_at,
  str_is, add_segment, add_dylib, command, commands, max_segs, max_sects, max_dylibs,
}

abbrev pub FitsArrays : Commands → Type 0
FitsArrays c =
    (length c.segs ≤ max_segs) × (length c.sects ≤ max_sects) × (length c.dylibs ≤ max_dylibs)

-- A result, where there is one, fits.
abbrev AllFit : Option Commands → Type 0
AllFit none = Unit {0}
AllFit (some c) = FitsArrays c

length-add_sects :
    (l : Layout) (f : File) (n a : ℕ) (sects : List Section)
    → length sects ≤ max_sects
    → length (add_sects l f n a sects) ≤ max_sects
unfolding add_sects
length-add_sects l f zero a sects h = h
length-add_sects l f (suc n) a sects h =
    by_test (λ (r : List Section). length r ≤ max_sects) (leb max_sects (length sects)) (λ _. h)
      λ room.
        length-add_sects l f n (a + l.section_size) (sects ++ (section_at l f a ∷ []))
          (ground (arith, length-append sects (section_at l f a ∷ [])))

add_segment-AllFit :
    (k : Constants) (l : Layout) (f : File) (a : ℕ) (c : Commands)
    → FitsArrays c
    → AllFit (add_segment k l f a c)
unfolding add_segment
add_segment-AllFit k l f a c h =
    by_test AllFit (str_is f.byte (a + l.sc_segname) k.seg_pagezero) (λ _. h)
      λ _.
        by_test AllFit (leb max_segs (length c.segs)) (λ _. tt)
          λ room. (
            ground (arith, length-append c.segs (segment_at l f a ∷ [])),
            length-add_sects l f _ (a + l.sc_size) c.sects h.1,
            h.2,
          )

add_dylib-FitsArrays :
    (l : Layout) (f : File) (a : ℕ) (c : Commands) → FitsArrays c → FitsArrays (add_dylib l f a c)
add_dylib-FitsArrays l f a c h =
    by_test FitsArrays (ltb (length c.dylibs) max_dylibs)
      (λ room. (
        h.0,
        h.1,
        ground (arith, length-append c.dylibs ((a + read f.byte (a + l.dylib_name) 4) ∷ [])),
      ))
      (λ _. h)

command-AllFit :
    (k : Constants) (l : Layout) (f : File) (a : ℕ) (c : Commands)
    → FitsArrays c
    → AllFit (command k l f a c)
unfolding command
command-AllFit k l f a c h =
    let cmd = read f.byte (a + l.lc_cmd) 4 in
    by_test AllFit (cmd == k.lc_segment_64) (λ _. add_segment-AllFit k l f a c h)
      λ _.
        by_test AllFit (cmd == k.lc_main) (λ _. h)
          λ _.
            by_test AllFit (cmd == k.lc_unixthread) (λ _. h)
              λ _.
                by_test AllFit (cmd == k.lc_dyld_chained_fixups) (λ _. h)
                  λ _.
                    by_test AllFit
                      ((cmd == k.lc_load_dylib)
                        || (cmd == k.lc_load_weak_dylib)
                        || (cmd == k.lc_reexport_dylib))
                      (λ _. add_dylib-FitsArrays l f a c h) (λ _. h)

-- One command and what follows it.
then-AllFit :
    (r : Option Commands) (rest : Commands → Option Commands)
    → AllFit r
    → ((c : Commands) → FitsArrays c → AllFit (rest c))
    → AllFit (elim r [ none ↦ none | some c ↦ rest c ])
then-AllFit none rest h ok = tt
then-AllFit (some c) rest h ok = ok c h

commands-AllFit :
    (k : Constants) (l : Layout) (f : File) (n a : ℕ) (c : Commands)
    → FitsArrays c
    → AllFit (commands k l f n a c)
unfolding commands
commands-AllFit k l f zero a c h = h
commands-AllFit k l f (suc n) a c h =
    let next = a + read f.byte (a + l.lc_cmdsize) 4 in
    then-AllFit (command k l f a c) (commands k l f n next) (command-AllFit k l f a c h)
      (commands-AllFit k l f n next)

-- Whatever the file holds, and however many commands, sections and libraries it claims to have: a
-- walk over the load commands that succeeds leaves at most 16 segments, 64 sections and 128
-- libraries in the arrays of the image.
pub commands-FitsArrays :
    (k : Constants) (l : Layout) (f : File) (n a : ℕ) {c : Commands}
    → commands k l f n a no_commands ≡ some c
    → (length c.segs ≤ max_segs) × (length c.sects ≤ max_sects) × (length c.dylibs ≤ max_dylibs)
commands-FitsArrays k l f n a e =
    subst AllFit e (commands-AllFit k l f n a no_commands (omega arith, omega arith, omega arith))
