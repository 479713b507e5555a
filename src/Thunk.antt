-- ===== src/Thunk.antt =====
-- src/thunk.c: what rashid knows of the functions that an image imports, and where it finds them.
-- The names are C strings in the host's memory, given by their places; `dladdr`, `dlsym` and the
-- structures of <mach-o/loader.h> are parameters.
pub mod Tables
pub mod Section
use Prim.Native.Char.{code}
use Prim.Native.String.{String}
use rashid.Base.{
  ℕ, zero, suc, ◌+◌, ◌*◌, Bool, true, false, ◌&&◌, ◌||◌, not, Option, none, some, List, [], ◌∷◌,
  ltb, leb, ◌==◌, bit_and, bit_or, if◌then◌else◌, add64, sub64,
}
use rashid.Cpu.Memory.{read}
use rashid.Macho.{Constants, Layout, str_is}

-- A literal of the source, as the bytes before its final 0.
abbrev pub chars : String → List ℕ
chars String.[] = []
chars (String.◌∷◌ c s) = code c ∷ chars s

-- `rsd_vaspec`; fmt is none for -1.
pub record VaSpec : Type 0 where
  pub nfixed : ℕ
  pub fmt : Option ℕ
  pub scan : Bool
  pub nsformat : Bool
  pub objc : Bool

abbrev spec : ℕ → ℕ → Bool → Bool → VaSpec
spec nfixed fmt scan nsformat = record {
  nfixed = nfixed;
  fmt = some fmt;
  scan = scan;
  nsformat = nsformat;
  objc = false;
}

-- `variadics`
abbrev pub variadics : List (List ℕ × VaSpec)
variadics =
    (chars "printf", spec 1 0 false false)
    ∷ (chars "fprintf", spec 2 1 false false)
    ∷ (chars "sprintf", spec 2 1 false false)
    ∷ (chars "snprintf", spec 3 2 false false)
    ∷ (chars "dprintf", spec 2 1 false false)
    ∷ (chars "asprintf", spec 2 1 false false)
    ∷ (chars "syslog", spec 2 1 false false)
    ∷ (chars "scanf", spec 1 0 true false)
    ∷ (chars "fscanf", spec 2 1 true false)
    ∷ (chars "sscanf", spec 2 1 true false)
    ∷ (chars "NSLog", spec 1 0 false true)
    ∷ (
      chars "objc_msgSend",
      record { nfixed = 2; fmt = none; scan = false; nsformat = true; objc = true },
    )
    ∷ []

-- `callback_args`
abbrev pub callback_args : List (List ℕ × ℕ)
callback_args =
    (chars "qsort", 3)
    ∷ (chars "bsearch", 4)
    ∷ (chars "atexit", 0)
    ∷ (chars "heapsort", 3)
    ∷ (chars "mergesort", 3)
    ∷ []

-- The symbol without the underscore that the object format puts in front.
abbrev pub bare : (ℕ → ℕ) → ℕ → ℕ
bare byte p = if byte p == 95 then p + 1 else p

-- strncmp(p, name, n) == 0, for the n characters of a name.
abbrev pub starts_with : (ℕ → ℕ) → ℕ → List ℕ → Bool
starts_with byte p [] = true
starts_with byte p (c ∷ cs) = (byte p == c) && starts_with byte (p + 1) cs

-- `rsd_takes_objc_receiver`; a symbol at 0 is NULL.
unfoldable pub takes_objc_receiver : (ℕ → ℕ) → ℕ → Bool
takes_objc_receiver byte symbol =
    let n = bare byte symbol in
    if symbol == 0
    then false
    else starts_with byte n (chars "objc_")
      || starts_with byte n (chars "object_")
      || starts_with byte n (chars "class_")

-- The loop over a table: the first row of that name.
unfoldable pub row {ℓ} : {A : Type ℓ} → (ℕ → ℕ) → ℕ → List (List ℕ × A) → Option A
row byte n [] = none
row byte n ((name, a) ∷ rows) =
    let rest = row byte n rows in if str_is byte n name then some a else rest

-- `rsd_callback_arg`; none is -1.
unfoldable pub callback_arg : (ℕ → ℕ) → ℕ → Option ℕ
unfolding row
callback_arg byte symbol = if symbol == 0 then none else row byte (bare byte symbol) callback_args

-- `rsd_variadic_spec`
unfoldable pub variadic_spec : (ℕ → ℕ) → ℕ → Option VaSpec
unfolding row
variadic_spec byte symbol = if symbol == 0 then none else row byte (bare byte symbol) variadics

-- The loop of `addr_is_code` for the address that __TEXT was linked at, with n commands left.
unfoldable pub text_vmaddr : Constants → Layout → (ℕ → ℕ) → ℕ → ℕ → ℕ
text_vmaddr k l mem zero lc = 0
text_vmaddr k l mem (suc n) lc =
    let rest = text_vmaddr k l mem n (lc + read mem (lc + l.lc_cmdsize) 4) in
    if (read mem (lc + l.lc_cmd) 4 == k.lc_segment_64)
      && str_is mem (lc + l.sc_segname) (chars "__TEXT")
    then read mem (lc + l.sc_vmaddr) 8
    else rest

-- The bits of a section's flags that say that it holds instructions, and where the flags lie.
pub record CodeFlags : Type 0 where
  pub pure_instructions : ℕ
  pub some_instructions : ℕ
  pub flags : ℕ

-- The loop over the sections of one segment: whether the one that holds the target is code.
unfoldable pub section_is_code : CodeFlags → Layout → (ℕ → ℕ) → ℕ → ℕ → ℕ → ℕ → Option Bool
section_is_code w l mem target slide zero sec = none
section_is_code w l mem target slide (suc n) sec =
    let s = add64 (read mem (sec + l.sec_addr) 8) slide in
    let size = read mem (sec + l.sec_size) 8 in
    let rest = section_is_code w l mem target slide n (sec + l.section_size) in
    if leb s target && ltb target (add64 s size)
    then some (
        not (
          bit_and (read mem (sec + w.flags) 4) (bit_or w.pure_instructions w.some_instructions)
          == 0))
    else rest

-- The second loop of `addr_is_code`.
unfoldable pub find_code : Constants → CodeFlags → Layout → (ℕ → ℕ) → ℕ → ℕ → ℕ → ℕ → Bool
unfolding section_is_code
find_code k w l mem target slide zero lc = true
find_code k w l mem target slide (suc n) lc =
    let rest = find_code k w l mem target slide n (lc + read mem (lc + l.lc_cmdsize) 4) in
    let nsects = read mem (lc + l.sc_nsects) 4 in
    if read mem (lc + l.lc_cmd) 4 == k.lc_segment_64
    then elim (section_is_code w l mem target slide nsects (lc + l.sc_size)) [
      | none ↦ rest
      | some is_code ↦ is_code
    ]
    else rest

-- `addr_is_code`; `dladdr` answers where the image of an address lies, or none.
unfoldable pub addr_is_code : Constants → CodeFlags → Layout → (ℕ → ℕ) → (ℕ → Option ℕ) → ℕ → Bool
unfolding text_vmaddr find_code
addr_is_code k w l mem dladdr p = elim (dladdr p) [
  | none ↦ true
  | some mh ↦
      let ncmds = read mem (mh + l.mh_ncmds) 4 in
      let slide = sub64 mh (text_vmaddr k l mem ncmds (mh + l.mh_size)) in
      if read mem mh 4 == k.mh_magic_64
      then find_code k w l mem p slide ncmds (mh + l.mh_size)
      else true
]
