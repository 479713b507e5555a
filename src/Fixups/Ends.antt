-- ===== src/Fixups/Ends.antt =====
-- src/fixups.c: `rsd_fixups` ends, whatever the image holds.
use rashid.Base.{
  ℕ, zero, suc, ◌+◌, ◌*◌, ◌≤◌, ◌<◌, ◌^◌, ◌≡◌, refl, true, false, ◌&&◌, ◌||◌, not, Option, none,
  some, List, ◌==◌, add64, arith, length, if◌then◌else◌, by_test, Option-cases, inl, inr,
}
use rashid.AddressSpace.{AddressSpace, Host}
use rashid.AddressSpace.Sorted.{IsSorted}
use rashid.Cpu.Memory.{read}
use rashid.Fixups.{ChainFormat, Image, Walk, walk_chain}
use rashid.Fixups.Chain.{EndsBelow, NextFits, walk_chain-ends}
use rashid.Fixups.Imports.{ImportLayout, Linker, Entry, parse_imports, resolve_imports}
use rashid.Fixups.Apply.{
  StartsLayout, Source, Linked, image_of, pages, segments, Ended, map_stubs, linked, all_segments,
  fixups,
}

-- An address space in which the walk of a chain ends.
abbrev pub IsFine : ℕ → AddressSpace → Type 0
IsFine top s = IsSorted 0 s.reg × EndsBelow top s.reg

-- A loop that did not run out of fuel.
abbrev pub Finished {ℓ} : {A : Type ℓ} → Option A → Type ℓ
Finished {A} o = (a : A) × (o ≡ some a)

-- One step that finishes, and what follows it.
then-Finished {ℓ κ} :
    {A : Type ℓ} {B : Type κ} (o : Option A) (rest : A → Option B)
    → Finished o
    → ((a : A) → Finished (rest a))
    → Finished (elim o [ none ↦ none | some a ↦ rest a ])
then-Finished none rest (a, e) f = absurd (ground arith)
then-Finished (some a) rest h f = f a

module _ (f : ChainFormat) (top fuel : ℕ) (next_fits : NextFits f) (room : top + 2 ^ 14 ≤ 2 ^ 64)
    (enough : top < fuel) where
  chain-Finished :
      (img : Image) (s : AddressSpace) (addr : ℕ) (w : Walk)
      → IsFine top s
      → addr < 2 ^ 64
      → Finished (walk_chain f img s fuel addr w)
  chain-Finished img s addr w (o, e) h =
      walk_chain-ends f img s top fuel addr w next_fits o e room h (omega arith)

  pages-Finished :
      (l : StartsLayout) (img : Image) (s : AddressSpace) (byte : ℕ → ℕ) (sis seg n p : ℕ)
      (w : Walk)
      → IsFine top s
      → Finished (pages l f img s byte fuel sis seg n p w)
  unfolding pages
  pages-Finished l img s byte sis seg zero p w h = (w, refl)
  pages-Finished l img s byte sis seg (suc n) p w h =
      let start = read byte (sis + l.page_start + p * 2) 2 in
      let addr = add64 seg (p * read byte (sis + l.page_size) 2 + start) in
      then-Finished (if start == l.start_none then some w else walk_chain f img s fuel addr w)
        (λ w'. pages l f img s byte fuel sis seg n (suc p) w')
        (by_test (λ (o : Option Walk). Finished o) (start == l.start_none) (λ _. (w, refl))
          (λ _. chain-Finished img s addr w h (omega arith)))
        (λ w'. pages-Finished l img s byte sis seg n (suc p) w' h)

  segments-Finished :
      (l : StartsLayout) (src : Source) (es : List Entry) (stub_base : ℕ) (s : AddressSpace)
      (sii n i : ℕ) (w : Walk)
      → IsFine top s
      → Finished (segments l f src es stub_base s fuel sii n i w)
  unfolding segments
  segments-Finished l src es stub_base s sii zero i w h = ((true, w), refl)
  segments-Finished l src es stub_base s sii (suc n) i w h =
      let offset = read src.byte (sii + l.seg_info_offset + i * 4) 4 in
      let sis = sii + offset in
      let format = read src.byte (sis + l.pointer_format) 2 in
      let img = image_of src es stub_base (format == l.ptr_64_offset) in
      let seg = add64 (add64 src.pref_base src.slide) (read src.byte (sis + l.segment_offset) 8) in
      let count = read src.byte (sis + l.page_count) 2 in
      by_test (λ (o : Ended). Finished o)
        (not (offset == 0) && not (format == l.ptr_64 || (format == l.ptr_64_offset)))
        (λ _. ((false, w), refl))
        (λ _.
          then-Finished
            (if offset == 0 then some w else pages l f img s src.byte fuel sis seg count 0 w)
            (λ w'. segments l f src es stub_base s fuel sii n (suc i) w')
            (by_test (λ (o : Option Walk). Finished o) (offset == 0) (λ _. (w, refl))
              (λ _. pages-Finished l img s src.byte sis seg count 0 w h))
            (λ w'. segments-Finished l src es stub_base s sii n (suc i) w' h))

linked-Finished :
    (es : List Entry) (stub_base : ℕ) (s : AddressSpace) (o : Ended)
    → Finished o
    → Finished (linked es stub_base s o)
linked-Finished es stub_base s none (a, e) = absurd (ground arith)
linked-Finished es stub_base s (some (good, w)) h = (_, refl)

-- `rsd_fixups` returns, whatever the file holds: however many segments, pages and chains it names,
-- each chain ends with the fuel of one more than the highest address that is mapped, before the
-- stubs are mapped and after it. The address space is in order then, that highest address stays
-- 2 ^ 14 below the end, and the distance to the next fixup has 12 digits.
pub fixups-ends :
    (k : ImportLayout) (l : StartsLayout) (f : ChainFormat) (o : Linker) (h : Host) (src : Source)
    (top fuel : ℕ) (s : AddressSpace) (w : Walk)
    → NextFits f
    → top + 2 ^ 14 ≤ 2 ^ 64
    → top < fuel
    → IsFine top s
    → ((parsed : List Entry)
        → parse_imports k o src.byte src.dylibs (src.slice_off + src.fixups_off) ≡ some parsed
        → IsFine top (map_stubs h (resolve_imports o src.byte parsed) s).1)
    → (r : Linked) × (fixups k l f o h src fuel s w ≡ some r)
unfolding fixups
fixups-ends k l f o h src top fuel s w n room enough fine stubs_fine =
    let chain = src.slice_off + src.fixups_off in
    by_test (λ (r : Option Linked). Finished r) (src.fixups_size == 0) (λ _. (_, refl))
      λ _.
        by_test (λ (r : Option Linked). Finished r) (not (read src.byte (chain + k.version) 4 == 0))
          (λ _. (_, refl))
          λ _. elim (Option-cases (parse_imports k o src.byte src.dylibs chain)) [
            | inl e ↦ rw e (_, refl)
            | inr (parsed, e) ↦
                let es = resolve_imports o src.byte parsed in
                let sii = chain + read src.byte (chain + k.starts_offset) 4 in
                let count = read src.byte (sii + l.seg_count) 4 in
                let base = (map_stubs h es s).0 in
                let s' = (map_stubs h es s).1 in
                rw e (
                  by_test (λ (r : Option Linked). Finished r) (length es == 0)
                    (λ _.
                      linked-Finished es 0 s (all_segments k l f src chain es 0 s fuel w) (
                        segments-Finished f top fuel n room enough l src es 0 s sii count 0 w fine))
                    (λ _.
                      by_test (λ (r : Option Linked). Finished r) (base == 0) (λ _. (_, refl))
                        (λ _.
                          linked-Finished es base s'
                            (all_segments k l f src chain es base s' fuel w)
                            (segments-Finished f top fuel n room enough l src es base s' sii count 0
                              w (stubs_fine parsed e)))))
          ]
