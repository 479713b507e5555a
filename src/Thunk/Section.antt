-- ===== src/Thunk/Section.antt =====
-- src/thunk.c, addr_is_code: what it means that an address is found to be data.
use rashid.Base.{
  ℕ, zero, suc, ◌+◌, ◌*◌, ◌≡◌, ◌∙◌, ◌≤◌, ◌<◌, refl, Bool, true, false, ◌&&◌, Option, none, some,
  ◌==◌, ltb, leb, bit_and, bit_or, add64, sub64, if◌then◌else◌, arith, Bool-cases, inl, inr,
  by_test, ==_iff,
}
use mathlib.Core.Path.{subst}
use rashid.Cpu.Memory.{read}
use rashid.Macho.{Constants, Layout}
use rashid.Thunk.{CodeFlags, section_is_code, find_code, text_vmaddr, addr_is_code}

-- The section at `sec` holds the target, and its flags say nothing of instructions.
abbrev pub IsData : CodeFlags → Layout → (ℕ → ℕ) → ℕ → ℕ → ℕ → Type 0
IsData w l mem target slide sec =
    (add64 (read mem (sec + l.sec_addr) 8) slide ≤ target)
    × (target < add64 (add64 (read mem (sec + l.sec_addr) 8) slide) (read mem (sec + l.sec_size) 8))
    × (bit_and (read mem (sec + w.flags) 4) (bit_or w.pure_instructions w.some_instructions) ≡ 0)

-- One of the n section headers from `first` on.
abbrev pub IsHeader : Layout → ℕ → ℕ → ℕ → Type 0
IsHeader l n first sec = (j : ℕ) × (j < n) × (sec ≡ first + j * l.section_size)

-- The load command i behind lc, and the headers of one of n commands that is a segment.
abbrev pub command_at : Layout → (ℕ → ℕ) → ℕ → ℕ → ℕ
command_at l mem lc zero = lc
command_at l mem lc (suc i) = command_at l mem (lc + read mem (lc + l.lc_cmdsize) 4) i

abbrev pub IsSection : Constants → Layout → (ℕ → ℕ) → ℕ → ℕ → ℕ → Type 0
IsSection k l mem n lc sec =
    (i : ℕ) × (i < n)
    × (read mem (command_at l mem lc i + l.lc_cmd) 4 ≡ k.lc_segment_64)
    × IsHeader l (read mem (command_at l mem lc i + l.sc_nsects) 4)
        (command_at l mem lc i + l.sc_size) sec

-- An answer that says data has such a section behind it, at a place At allows.
abbrev Supported : CodeFlags → Layout → (ℕ → ℕ) → ℕ → ℕ → (ℕ → Type 0) → Option Bool → Type 0
Supported w l mem target slide At none = Unit {0}
Supported w l mem target slide At (some true) = Unit {0}
Supported w l mem target slide At (some false) =
    (sec : ℕ) × At sec × IsData w l mem target slide sec

widened :
    (w : CodeFlags) (l : Layout) (mem : ℕ → ℕ) (target slide : ℕ) (At Wide : ℕ → Type 0)
    (o : Option Bool)
    → ((sec : ℕ) → At sec → Wide sec)
    → Supported w l mem target slide At o
    → Supported w l mem target slide Wide o
widened w l mem target slide At Wide none f h = tt
widened w l mem target slide At Wide (some true) f h = tt
widened w l mem target slide At Wide (some false) f (sec, at, is) = (sec, f sec at, is)

section_is_code-Supported :
    (w : CodeFlags) (l : Layout) (mem : ℕ → ℕ) (target slide n sec : ℕ)
    → Supported w l mem target slide (IsHeader l n sec) (section_is_code w l mem target slide n sec)
unfolding section_is_code
section_is_code-Supported w l mem target slide zero sec = tt
section_is_code-Supported w l mem target slide (suc n) sec =
    let s = add64 (read mem (sec + l.sec_addr) 8) slide in
    let inside = leb s target && ltb target (add64 s (read mem (sec + l.sec_size) 8)) in
    let bits =
      bit_and (read mem (sec + w.flags) 4) (bit_or w.pure_instructions w.some_instructions) in
    let rest = section_is_code w l mem target slide n (sec + l.section_size) in
    by_test (Supported w l mem target slide (IsHeader l (suc n) sec)) inside
      (λ here. elim (Bool-cases (bits == 0)) [
        | inl e ↦
            rw e (
              sec,
              (0, omega arith, omega arith),
              (ground arith, ground arith, (==_iff bits 0).0 e),
            )
        | inr e ↦ rw e tt
      ])
      (λ _.
        widened w l mem target slide (IsHeader l n (sec + l.section_size)) (IsHeader l (suc n) sec)
          rest (λ at (j, p, e). (suc j, omega arith, e ∙ omega arith))
          (section_is_code-Supported w l mem target slide n (sec + l.section_size)))

-- What a Boolean answer of the whole walk has behind it.
abbrev SaysData : CodeFlags → Layout → (ℕ → ℕ) → ℕ → ℕ → (ℕ → Type 0) → Bool → Type 0
SaysData w l mem target slide At b = Supported w l mem target slide At (some b)

find_code-SaysData :
    (k : Constants) (w : CodeFlags) (l : Layout) (mem : ℕ → ℕ) (target slide n lc : ℕ)
    → SaysData w l mem target slide (IsSection k l mem n lc) (find_code k w l mem target slide n lc)
unfolding find_code
find_code-SaysData k w l mem target slide zero lc = tt
find_code-SaysData k w l mem target slide (suc n) lc =
    let rest = find_code k w l mem target slide n (lc + read mem (lc + l.lc_cmdsize) 4) in
    let step = lc + read mem (lc + l.lc_cmdsize) 4 in
    let later =
      widened w l mem target slide (IsSection k l mem n step) (IsSection k l mem (suc n) lc)
        (some rest) (λ sec (i, p, is, at). (suc i, omega arith, is, at))
        (find_code-SaysData k w l mem target slide n step) in
    let nsects = read mem (lc + l.sc_nsects) 4 in
    by_test (SaysData w l mem target slide (IsSection k l mem (suc n) lc))
      (read mem (lc + l.lc_cmd) 4 == k.lc_segment_64)
      (λ is.
        let found = section_is_code w l mem target slide nsects (lc + l.sc_size) in
        let segment = (==_iff (read mem (lc + l.lc_cmd) 4) k.lc_segment_64).0 is in
        in_segment found rest
          (widened w l mem target slide (IsHeader l nsects (lc + l.sc_size))
            (IsSection k l mem (suc n) lc) found (λ sec at. (0, omega arith, segment, at))
            (section_is_code-Supported w l mem target slide nsects (lc + l.sc_size)))
          later)
      (λ _. later)
  where
    in_segment :
        (o : Option Bool) (rest : Bool)
        → Supported w l mem target slide (IsSection k l mem (suc n) lc) o
        → SaysData w l mem target slide (IsSection k l mem (suc n) lc) rest
        → SaysData w l mem target slide
            (IsSection k l mem (suc n) lc)
            (elim o [ none ↦ rest | some b ↦ b ])
    in_segment none rest h later = later
    in_segment (some b) rest h later = h

tested : (t b : Bool) → (if t then b else true) ≡ false → b ≡ false
tested true b e = e
tested false b e = absurd (ground arith)

-- The answer for the image that `dladdr` names.
in_image :
    (k : Constants) (w : CodeFlags) (l : Layout) (mem : ℕ → ℕ) (o : Option ℕ) (p : ℕ)
    → addr_is_code k w l mem (λ _. o) p ≡ false
    → (mh : ℕ) × (o ≡ some mh)
      × (sec : ℕ) × IsSection k l mem (read mem (mh + l.mh_ncmds) 4) (mh + l.mh_size) sec
      × IsData w l mem p
          (sub64 mh (text_vmaddr k l mem (read mem (mh + l.mh_ncmds) 4) (mh + l.mh_size)))
          sec
unfolding addr_is_code
in_image k w l mem none p e = absurd (ground arith)
in_image k w l mem (some mh) p e =
    let n = read mem (mh + l.mh_ncmds) 4 in
    let slide = sub64 mh (text_vmaddr k l mem n (mh + l.mh_size)) in
    let found = find_code k w l mem p slide n (mh + l.mh_size) in
    let (sec, at, here) =
      subst (SaysData w l mem p slide (IsSection k l mem n (mh + l.mh_size)))
        (tested (read mem mh 4 == k.mh_magic_64) found e)
        (find_code-SaysData k w l mem p slide n (mh + l.mh_size)) in
    (mh, refl, sec, at, here)

-- Where `addr_is_code` says that an imported symbol is data, so that the guest is given its native
-- address: the symbol lies in a loaded image, inside of the section of one of the segments that its
-- load commands list, slid as that image is, and the flags in the header of that section have
-- neither of the two bits that stand for instructions.
pub addr_is_code-IsData :
    (k : Constants) (w : CodeFlags) (l : Layout) (mem : ℕ → ℕ) (dladdr : ℕ → Option ℕ) (p : ℕ)
    → addr_is_code k w l mem dladdr p ≡ false
    → (mh : ℕ) × (dladdr p ≡ some mh)
      × (sec : ℕ) × IsSection k l mem (read mem (mh + l.mh_ncmds) 4) (mh + l.mh_size) sec
      × IsData w l mem p
          (sub64 mh (text_vmaddr k l mem (read mem (mh + l.mh_ncmds) 4) (mh + l.mh_size)))
          sec
unfolding addr_is_code
addr_is_code-IsData k w l mem dladdr p e = in_image k w l mem (dladdr p) p e
