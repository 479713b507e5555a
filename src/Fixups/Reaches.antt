-- ===== src/Fixups/Reaches.antt =====
-- src/fixups.c and src/stubs.h: a call through a bound import reaches the function that the host
-- gave for it.
use rashid.Base.{
  ℕ, zero, suc, ◌+◌, ◌*◌, ◌<◌, ◌^◌, ◌≡◌, ◌∙◌, ap, refl, Bool, true, false, some, List, [], ◌∷◌,
  ◌==◌, length, get_elem?, arith, inr,
}
use rashid.Stubs.{stub_index, stub_stride}
use rashid.Fixups.{ChainFormat, bound}
use rashid.Fixups.Chain.{stub_index-bound}
use rashid.Fixups.Imports.{Entry, Stub, import_of, stubs_from, stubs_of}
use rashid.Fixups.Apply.{Source, image_of}

length-stubs_from : (byte : ℕ → ℕ) (es : List Entry) → length (stubs_from byte es) ≡ length es
unfolding stubs_from
length-stubs_from byte [] = refl
length-stubs_from byte (e ∷ es) = ap suc (length-stubs_from byte es)

in_range : (es : List Entry) (i : ℕ) {e : Entry} → get_elem? es i ≡ some e → i < length es
in_range [] i h = absurd (ground arith)
in_range (x ∷ es) zero h = omega arith
in_range (x ∷ es) (suc i) {e} h = omega (arith, in_range es i {e = e} h)

-- The function of the stub of an import that is code is the import's own.
fn-stubs_from :
    (byte : ℕ → ℕ) (es : List Entry) (i : ℕ) {e : Entry}
    → get_elem? es i ≡ some e
    → e.is_code ≡ true
    → (stub : Stub) × (get_elem? (stubs_from byte es) i ≡ some stub)
      × (stub.fn ≡ e.native)
      × (stub.name ≡ e.name)
unfolding stubs_from
fn-stubs_from byte [] i h c = absurd (ground arith)
fn-stubs_from byte (x ∷ es) zero {e} h c =
    let same : x ≡ e = cc in
    let code : x.is_code ≡ true = ap (λ t. t.is_code) same ∙ c in
    (_, refl, rw code (ap (λ t. t.native) same), ap (λ t. t.name) same)
fn-stubs_from byte (x ∷ es) (suc i) {e} h c = fn-stubs_from byte es i {e = e} h c

import_of-code :
    (es : List Entry) (i : ℕ) {e : Entry}
    → get_elem? es i ≡ some e
    → e.is_code ≡ true
    → (import_of es i).is_code ≡ true
import_of-code [] i h c = absurd (ground arith)
import_of-code (x ∷ es) zero {e} h c = let same : x ≡ e = cc in ap (λ t. t.is_code) same ∙ c
import_of-code (x ∷ es) (suc i) {e} h c = import_of-code es i {e = e} h c

-- What the loader writes over a bind of an import that is code is an address that the interpreter
-- recognises as that import, and the entry of `rsd_stubs` that it looks up there has the import's
-- name and the function that the host gave for it. The addend stays inside of a stub, and the stubs
-- lie above 0 and below 2 ^ 64.
pub stubs_of-bound :
    (f : ChainFormat) (src : Source) (es : List Entry) (stub_base raw : ℕ) (offsets : Bool)
    {e : Entry}
    → get_elem? es (f.ordinal raw) ≡ some e
    → e.is_code ≡ true
    → f.addend raw < stub_stride
    → 0 < stub_base
    → stub_base + length es * stub_stride < 2 ^ 64
    → let (stubs, table) = stubs_of src.byte stub_base es in
      (stub_index stubs (bound f (image_of src es stub_base offsets) raw) ≡ some (f.ordinal raw))
      × (stub : Stub) × (get_elem? table (f.ordinal raw) ≡ some stub)
      × (stub.fn ≡ e.native)
      × (stub.name ≡ e.name)
unfolding stubs_of
stubs_of-bound f src es stub_base raw offsets {e} at code inside pos fits =
    let i = f.ordinal raw in
    let known = in_range es i {e = e} at in
    let img = image_of src es stub_base offsets in
    let recognised =
      stub_index-bound f img raw known inside (inr (import_of-code es i {e = e} at code)) pos
        fits in
    let filled : (length es == 0) ≡ false = ground arith in
    let (stub, found, fn, name) = fn-stubs_from src.byte es i {e = e} at code in
    rw filled (recognised, stub, found, fn, name)
