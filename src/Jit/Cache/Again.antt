-- ===== src/Jit/Cache/Again.antt =====
-- src/jit.c, rsd_jit_lookup: it answers, keeps the cache in order, and answers the same again.
use mathlib.Core.Path.{subst}
use rashid.Base.{
  ℕ, suc, ◌-◌, ◌*◌, ◌/◌, ◌%◌, ◌^◌, ◌≡◌, ◌∙◌, ap, sym, inl, inr, refl, Bool, true, false, not,
  Option, none, some, ◌==◌, length, arith, by_test, ==_iff,
}
use rashid.AddressSpace
use rashid.AddressSpace.{AddressSpace, prot_x}
use rashid.Stubs.{Stubs, stub_index}
use rashid.Jit.Constant.{Buf}
use rashid.Jit.Words.{Layout}
use rashid.Jit.Code.{Helpers}
use rashid.Jit.Cache.{Jit, Block, slot_of, max_insns, decode_block, emit_block, install, jit_lookup}
use rashid.Jit.Cache.Blocks.{emit_block-finish}
use rashid.Jit.Cache.Keeps.{IsSound, IsPlaced, lookup-Step}

-- An answer.
abbrev Answers : Option (Option ℕ × Jit) → Type 0
Answers o = (r : Option ℕ × Jit) × (o ≡ some r)

emitted-Answers :
    (l : Layout) (j : Jit) (rip : ℕ) (o : Option (Buf × Block)) {k : Buf × Block}
    → o ≡ some k
    → Answers (elim o [ none ↦ none | some (b, k) ↦ some (install l j rip b k) ])
emitted-Answers l j rip none e = absurd (ground arith)
emitted-Answers l j rip (some (b, k)) e = (install l j rip b k, refl)

jit_lookup-Answers :
    (l : Layout) (h : Helpers) (check : Bool) (stubs : Stubs) (mem : ℕ → ℕ) (s : AddressSpace)
    (j : Jit) (rip : ℕ)
    → Answers (jit_lookup l h check stubs mem s j rip)
unfolding jit_lookup
jit_lookup-Answers l h check stubs mem s j rip =
    let e = j.cache (slot_of j rip) in
    let k = decode_block mem s max_insns rip in
    let emitted = emit_block l h check (suc (length k.insns)) rip k in
    let taken : Bool = elim e.code [ none ↦ false | some _ ↦ true ] in
    let is_stub : Bool = elim (stub_index stubs rip) [ none ↦ false | some _ ↦ true ] in
    let (block, found, _, _) = emit_block-finish l h check rip k in
    by_test Answers (e.tag == rip) (λ _. (_, refl))
      λ _.
        by_test Answers taken (λ _. (_, refl))
          λ _.
            by_test Answers is_stub (λ _. (_, refl))
              λ _.
                by_test Answers (not (AddressSpace.ok s rip 16 prot_x)) (λ _. (_, refl))
                  λ _. emitted-Answers l j rip emitted {k = block} found

-- A lookup of any address, in any state of the guest, returns, and keeps the cache of blocks in
-- order: the arena is not overrun, and every entry with code has an address that belongs to its
-- slot, code whose first three words are in the part of the arena in use, and a count of two
-- instructions or more. The cache is in order before. An answer is the code that the slot had, and
-- no more of the arena comes into use, or it is the end of what was in use, and at least three
-- words come into use; without an answer none do.
pub jit_lookup-IsSound :
    (l : Layout) (h : Helpers) (check : Bool) (stubs : Stubs) (mem : ℕ → ℕ) (s : AddressSpace)
    (j : Jit) (rip : ℕ)
    → IsSound j
    → (r : Option ℕ × Jit) × (jit_lookup l h check stubs mem s j rip ≡ some r)
      × IsSound r.1
      × IsPlaced rip j r
jit_lookup-IsSound l h check stubs mem s j rip sound =
    let (r, e) = jit_lookup-Answers l h check stubs mem s j rip in
    let step = lookup-Step l h check stubs mem s j rip e in (r, e, step.sound sound, step.placed)

slot_of_congr :
    (j j' : Jit) (rip : ℕ) → j'.cache_bits ≡ j.cache_bits → slot_of j' rip ≡ slot_of j rip
unfolding slot_of
slot_of_congr j j' rip e = ap (λ bits. rip * 0x9E37_79B9_7F4A_7C15 % 2 ^ 64 / 2 ^ (64 - bits)) e

jit_lookup-hit :
    (l : Layout) (h : Helpers) (check : Bool) (stubs : Stubs) (mem : ℕ → ℕ) (s : AddressSpace)
    (j : Jit) (rip : ℕ)
    → (j.cache (slot_of j rip)).tag ≡ rip
    → jit_lookup l h check stubs mem s j rip ≡ some ((j.cache (slot_of j rip)).code, j)
unfolding jit_lookup
jit_lookup-hit l h check stubs mem s j rip tag =
    let hit : ((j.cache (slot_of j rip)).tag == rip) ≡ true = (==_iff _ rip).1 tag in rw hit refl

-- An address that was answered with code is answered with the same code when it is looked up again,
-- though the guest's memory, its permissions and the stubs are others by then; nothing changes by
-- that.
pub jit_lookup_again :
    (l : Layout) (h : Helpers) (check : Bool) (stubs stubs' : Stubs) (mem mem' : ℕ → ℕ)
    (s s' : AddressSpace) (j : Jit) (rip : ℕ) {a : ℕ} {j' : Jit}
    → jit_lookup l h check stubs mem s j rip ≡ some (some a, j')
    → jit_lookup l h check stubs' mem' s' j' rip ≡ some (some a, j')
jit_lookup_again l h check stubs stubs' mem mem' s s' j rip {a} {j'} e =
    let step = lookup-Step l h check stubs mem s j rip e in
    let slot = slot_of_congr j j' rip step.same_hash in
    elim step.answer [
      | inl nothing ↦ absurd (ground arith)
      | inr (code, tag) ↦
          jit_lookup-hit l h check stubs' mem' s' j' rip
            (subst (λ t. (j'.cache t).tag ≡ rip) (sym slot) tag)
          ∙ ap (λ (o : Option ℕ). some (o, j'))
              (subst (λ t. (j'.cache t).code ≡ some a) (sym slot) code)
    ]
