-- ===== src/Fixups/Imports.antt =====
-- src/fixups.c: the table of imports of an image, and the stubs that are made of it.
use rashid.Base.{
  ℕ, zero, suc, ◌+◌, ◌-◌, ◌*◌, ◌^◌, Bool, true, false, ◌&&◌, ◌||◌, not, Option, none, some, List,
  [], ◌∷◌, leb, ◌==◌, if◌then◌else◌, length, get_elem?,
}
use rashid.Cpu.Memory.{read}
use rashid.Stubs.{Stubs}
use rashid.Fixups.{Import}
use rashid.Thunk.{VaSpec, bare, variadic_spec, callback_arg, takes_objc_receiver}

-- <mach-o/fixup-chains.h>: the offsets of the fields that are read, the sizes, and the constants.
pub record ImportLayout : Type 0 where
  pub version : ℕ
  pub starts_offset : ℕ
  pub imports_offset : ℕ
  pub symbols_offset : ℕ
  pub imports_count : ℕ
  pub imports_format : ℕ
  pub import_size : ℕ
  pub name_offset : ℕ → ℕ
  pub lib_ordinal : ℕ → ℕ
  pub weak_import : ℕ → ℕ
  pub dyld_chained_import : ℕ

-- What the host answers: whether an allocation of so many bytes succeeds, the last slash of a
-- string, `dlsym` of a name once the image's libraries are open, and `addr_is_code`.
pub record Linker : Type 0 where
  pub calloc : ℕ → Bool
  pub last_slash : ℕ → Option ℕ
  pub dlsym : ℕ → Option ℕ
  pub is_code : ℕ → Bool

-- `rsd_import` but for `used`, which the walk of the chains keeps; lib is none for "?".
pub record Entry : Type 0 where
  pub name : ℕ
  pub lib : Option ℕ
  pub weak : Bool
  pub native : Option ℕ
  pub is_code : Bool

-- `ordinal_lib`, with the libraries by the places of their paths.
unfoldable pub ordinal_lib : Linker → List ℕ → ℕ → Option ℕ
ordinal_lib o dylibs ord =
    if leb 1 ord && leb ord (length dylibs)
    then elim (get_elem? dylibs (ord - 1)) [
      | none ↦ none
      | some p ↦ elim (o.last_slash p) [ none ↦ some p | some slash ↦ some (slash + 1) ]
    ]
    else none

abbrev pub entry_at : ImportLayout → Linker → (ℕ → ℕ) → List ℕ → ℕ → ℕ → ℕ → Entry
entry_at l o byte dylibs table syms i =
    let word = read byte (table + i * l.import_size) 4 in
    record {
      name = syms + l.name_offset word;
      lib = ordinal_lib o dylibs (l.lib_ordinal word);
      weak = not (l.weak_import word == 0);
      native = none;
      is_code = false;
    }

-- The loop of `parse_imports`, with n imports left from i on.
unfoldable pub entries : ImportLayout → Linker → (ℕ → ℕ) → List ℕ → ℕ → ℕ → ℕ → ℕ → List Entry
unfolding ordinal_lib
entries l o byte dylibs table syms zero i = []
entries l o byte dylibs table syms (suc n) i =
    entry_at l o byte dylibs table syms i ∷ entries l o byte dylibs table syms n (suc i)

-- sizeof(rsd_import)
abbrev pub entry_size : ℕ
entry_size = 40

-- `parse_imports`; none where it returns -1. A count that is negative as an int is a request for
-- more memory than there are addresses.
unfoldable pub parse_imports : ImportLayout → Linker → (ℕ → ℕ) → List ℕ → ℕ → Option (List Entry)
unfolding entries
parse_imports l o byte dylibs chain =
    let n = read byte (chain + l.imports_count) 4 in
    let table = chain + read byte (chain + l.imports_offset) 4 in
    let syms = chain + read byte (chain + l.symbols_offset) 4 in
    if not (read byte (chain + l.imports_format) 4 == l.dyld_chained_import)
    then none
    else if n == 0
    then some []
    else if leb (2 ^ 31) n || not (o.calloc (n * entry_size))
    then none
    else some (entries l o byte dylibs table syms n 0)

-- One round of `rsd_resolve_imports` (src/thunk.c).
abbrev pub resolved : Linker → (ℕ → ℕ) → Entry → Entry
resolved o byte e =
    let native = o.dlsym (bare byte e.name) in
    record e { native = native; is_code = elim native [ none ↦ true | some p ↦ o.is_code p ] }

unfoldable pub resolve_imports : Linker → (ℕ → ℕ) → List Entry → List Entry
resolve_imports o byte [] = []
resolve_imports o byte (e ∷ es) = resolved o byte e ∷ resolve_imports o byte es

-- The imports as the walk of the chains reads them; it asks only for those that there are.
abbrev pub import_of : List Entry → ℕ → Import
import_of es i = elim (get_elem? es i) [
  | none ↦ record { native = none; is_code = false }
  | some e ↦ record { native = e.native; is_code = e.is_code }
]

-- One import's share of the arrays of `rsd_stubs`.
pub record Stub : Type 0 where
  pub name : ℕ
  pub lib : Option ℕ
  pub fn : Option ℕ
  pub va : Option VaSpec
  pub cbarg : Option ℕ
  pub objcrecv : Bool

-- The loop of `rsd_stubs_of`.
unfoldable pub stubs_from : (ℕ → ℕ) → List Entry → List Stub
stubs_from byte [] = []
stubs_from byte (e ∷ es) =
    record {
      name = e.name;
      lib = e.lib;
      fn = if e.is_code then e.native else none;
      va = variadic_spec byte e.name;
      cbarg = callback_arg byte e.name;
      objcrecv = takes_objc_receiver byte e.name;
    }
    ∷ stubs_from byte es

-- `rsd_stubs_of`, where its allocations succeed: the placing of the stubs, and the arrays.
unfoldable pub stubs_of : (ℕ → ℕ) → ℕ → List Entry → Stubs × List Stub
unfolding stubs_from
stubs_of byte stub_base es =
    if length es == 0
    then (record { base = 0; n = 0 }, [])
    else (record { base = stub_base; n = length es }, stubs_from byte es)
