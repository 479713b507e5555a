-- ===== src/Jit/Cache/Keeps.antt =====
-- src/jit.c, rsd_jit_lookup: what is in the cache stays there, and is found again.
use mathlib.Core.Path.{subst}
use rashid.Base.{
  ℕ, suc, ◌+◌, ◌*◌, ◌≤◌, ◌<◌, ◌≡◌, ◌⊎◌, ◌∙◌, ap, inl, inr, refl, Bool, true, false, not, Option,
  none, some, List, [], ◌∷◌, ltb, leb, if◌then◌else◌, ◌==◌, length, update, update_self, update_ne,
  arith, Bool-cases, by_test, clash, ==_iff,
}
use rashid.AddressSpace
use rashid.AddressSpace.{AddressSpace, prot_x}
use rashid.Stubs.{Stubs, stub_index}
use rashid.Jit.Constant.{Buf, put, put_imm}
use rashid.Emit.{Transfer, transfer}
use rashid.Emit.Others
use rashid.Emit.Others.{return_word}
use rashid.Jit.Words.{Layout, cpu_reg, put_leave}
use rashid.Jit.Code.{Helpers}
use rashid.Jit.Cache.{
  Jit, Entry, Block, slot_of, max_block, max_insns, decode_block, emit_block, finish, store_words,
  declined, install, jit_lookup,
}

-- An entry of slot s: code of three words or more inside of the part of the arena in use, for two
-- instructions or more, and for an address of that slot.
abbrev IsCode : Jit → ℕ → ℕ → ℕ → Option ℕ → Type 0
IsCode j s count tag none = Unit {0}
IsCode j s count tag (some a) =
    (2 ≤ count) × (slot_of j tag ≡ s) × (j.arena ≤ a) × (a + 12 ≤ j.arena + j.used)

abbrev pub IsEntry : Jit → ℕ → Entry → Type 0
IsEntry j s e = IsCode j s e.count e.tag e.code

-- The code is inside of the arena, and every entry is such a one.
pub record IsSound (j : Jit) : Type 0 where
  pub fits : j.used ≤ j.size
  pub entries : (s : ℕ) → IsEntry j s (j.cache s)

-- Where an answer lies: in the slot already, or the part of the arena that comes into use behind
-- what was in use is the code.
abbrev pub PlacedAt : ℕ → Jit → ℕ → Jit → Type 0
PlacedAt rip j a j' =
    ((j.cache (slot_of j rip)).code ≡ some a) × (j'.used ≡ j.used)
    ⊎ ((a ≡ j.arena + j.used) × (a + 12 ≤ j'.arena + j'.used))

abbrev pub IsPlaced : ℕ → Jit → Option ℕ × Jit → Type 0
IsPlaced rip j (none, j') = j'.used ≡ j.used
IsPlaced rip j (some a, j') = PlacedAt rip j a j'

hit-IsPlaced :
    (rip : ℕ) (j : Jit) (o : Option ℕ) → (j.cache (slot_of j rip)).code ≡ o → IsPlaced rip j (o, j)
hit-IsPlaced rip j none e = refl
hit-IsPlaced rip j (some a) e = inl (e, refl)

-- A word that was put leaves the buffer with one word more at the least, if it has not filled it.
put-long :
    (n : ℕ) (b : Buf) (w : ℕ)
    → (b.full ≡ false → n ≤ length b.out)
    → (put b w).full ≡ false
    → suc n ≤ length (put b w).out
unfolding put
put-long n b w h = elim (Bool-cases (leb b.max (length b.out))) [
  | inl e ↦ rw e (λ f. clash true refl f)
  | inr e ↦ rw e (λ f. omega (arith, h f))
]

-- The way out alone takes three words.
finish-long :
    (l : Layout) (b : Buf) (k : Block)
    → (finish l b k).0.full ≡ false
    → 3 ≤ length (finish l b k).0.out
unfolding finish put_leave
finish-long l b k =
    let b0 = record b { max = max_block } in
    let b1 = if k.ended then b0 else put_leave (put_imm b0 0 k.pc) in
    let b2 = put b1 (transfer Transfer.ldr 0 cpu_reg l.off_currip) in
    let b3 = put b2 (Others.pop 30) in
    put-long 2 b3 return_word (put-long 1 b2 (Others.pop 30) (put-long 0 b1 _ (λ _. omega arith)))

-- What a lookup of rip makes of the state: all code of before stays where it was, and an answer
-- stands in the cache.
pub record Step (rip : ℕ) (j : Jit) (r : Option ℕ × Jit) : Type 0 where
  pub sound : IsSound j → IsSound r.1
  pub same_hash : r.1.cache_bits ≡ j.cache_bits
  pub kept : (s : ℕ) → (r.1.cache s ≡ j.cache s) ⊎ ((j.cache s).code ≡ none)
  pub words : (x : ℕ) → x < j.arena + j.used → r.1.words x ≡ j.words x
  pub answer :
      (r.0 ≡ none)
      ⊎ (((r.1.cache (slot_of j rip)).code ≡ r.0) × ((r.1.cache (slot_of j rip)).tag ≡ rip))
  pub placed : IsPlaced rip j r

-- Nothing changes, and nothing is answered.
unchanged : (rip : ℕ) (j : Jit) → Step rip j (none, j)
unchanged rip j = record {
  sound = λ h. h;
  same_hash = refl;
  kept = λ s. inl refl;
  words = λ x p. refl;
  answer = inl refl;
  placed = refl;
}

-- An update of one slot that had no code.
update-kept :
    (cache : ℕ → Entry) (s : ℕ) (e : Entry) (i : ℕ)
    → (cache s).code ≡ none
    → (update cache s e i ≡ cache i) ⊎ ((cache i).code ≡ none)
update-kept cache s e i h = elim (Bool-cases (s == i)) [
  | inl p ↦ inr (subst (λ t. (cache t).code ≡ none) ((==_iff s i).0 p) h)
  | inr p ↦ inl (rw p refl)
]

update-entries :
    (P : ℕ → Entry → Type 0) (cache : ℕ → Entry) (s : ℕ) (e : Entry)
    → P s e
    → ((i : ℕ) → P i (cache i))
    → (i : ℕ) → P i (update cache s e i)
update-entries P cache s e h all i = elim (Bool-cases (s == i)) [
  | inl p ↦ rw p (subst (λ t. P t e) ((==_iff s i).0 p) h)
  | inr p ↦ rw p (all i)
]

declined-Step :
    (rip : ℕ) (j : Jit) → (j.cache (slot_of j rip)).code ≡ none → Step rip j (none, declined j rip)
unfolding slot_of
declined-Step rip j h = record {
  sound = λ w. record {
    fits = w.fits;
    entries =
        update-entries (IsEntry j) j.cache (slot_of j rip)
          (record (j.cache (slot_of j rip)) { tag = rip; code = none }) tt w.entries;
  };
  same_hash = refl;
  kept = λ s. update-kept j.cache (slot_of j rip) _ s h;
  words = λ x p. refl;
  answer = inl refl;
  placed = refl;
}

store_words_below :
    (mem : ℕ → ℕ) (code : ℕ) (ws : List ℕ) (x : ℕ) → x < code → store_words mem code ws x ≡ mem x
unfolding store_words
store_words_below mem code [] x h = refl
store_words_below mem code (w ∷ ws) x h =
    update_ne (store_words mem code ws) (code + length ws * 4) x w (omega arith)
    ∙ store_words_below mem code ws x h

-- More of the arena in use.
IsCode-grows :
    (j : Jit) (n s count tag : ℕ) (o : Option ℕ)
    → IsCode j s count tag o
    → IsCode (record j { used = j.used + n }) s count tag o
unfolding slot_of
IsCode-grows j n s count tag none h = tt
IsCode-grows j n s count tag (some a) h = (h.0, h.1, h.2, omega (arith, h.3))

install-Step :
    (l : Layout) (j : Jit) (rip : ℕ) (b : Buf) (k : Block)
    → (j.cache (slot_of j rip)).code ≡ none
    → Step rip j (install l j rip b k)
unfolding install slot_of
install-Step l j rip b k h =
    let b' = (finish l b k).0 in
    let size = length b'.out * 4 in
    let entry : Entry = record {
      tag = rip;
      code = some (j.arena + j.used);
      count = length k.insns;
    } in
    by_test (Step rip j) (ltb (length k.insns) 2) (λ _. declined-Step rip j h)
      λ long.
        by_test (Step rip j) b'.full (λ _. declined-Step rip j h)
          λ some_room.
            let long_enough = finish-long l b k some_room in
            by_test (Step rip j) (ltb j.size (j.used + size)) (λ _. unchanged rip j)
              λ room. record {
                sound = λ w. record {
                  fits = ground arith;
                  entries =
                      update-entries (IsEntry (record j { used = j.used + size })) j.cache
                        (slot_of j rip) entry
                        (ground arith, refl, omega arith, omega (arith, long_enough))
                        (λ s.
                          IsCode-grows j size s (j.cache s).count (j.cache s).tag (j.cache s).code
                            (w.entries s));
                };
                same_hash = refl;
                kept = λ s. update-kept j.cache (slot_of j rip) _ s h;
                words = λ x p. store_words_below j.words (j.arena + j.used) _ x p;
                answer = inr (
                  ap (λ (e : Entry). e.code) (update_self j.cache (slot_of j rip) entry),
                  ap (λ (e : Entry). e.tag) (update_self j.cache (slot_of j rip) entry),
                );
                placed = inr (refl, omega (arith, long_enough));
              }

-- An answer of the whole, if there is one.
abbrev AllSteps : ℕ → Jit → Option (Option ℕ × Jit) → Type 0
AllSteps rip j none = Unit {0}
AllSteps rip j (some r) = Step rip j r

-- The emission of a block, and what is made of it.
emitted-AllSteps :
    (l : Layout) (j : Jit) (rip : ℕ) (o : Option (Buf × Block))
    → (j.cache (slot_of j rip)).code ≡ none
    → AllSteps rip j (elim o [ none ↦ none | some (b, k) ↦ some (install l j rip b k) ])
emitted-AllSteps l j rip none h = tt
emitted-AllSteps l j rip (some (b, k)) h = install-Step l j rip b k h

not_taken : (o : Option ℕ) → (elim o [ none ↦ false | some _ ↦ true ]) ≡ false → o ≡ none
not_taken none h = refl
not_taken (some a) h = absurd (clash true refl h)

hit-Step :
    (rip : ℕ) (j : Jit)
    → (j.cache (slot_of j rip)).tag ≡ rip
    → Step rip j ((j.cache (slot_of j rip)).code, j)
hit-Step rip j h = record {
  sound = λ w. w;
  same_hash = refl;
  kept = λ s. inl refl;
  words = λ x p. refl;
  answer = inr (refl, h);
  placed = hit-IsPlaced rip j _ refl;
}

jit_lookup-AllSteps :
    (l : Layout) (h : Helpers) (check : Bool) (stubs : Stubs) (mem : ℕ → ℕ) (s : AddressSpace)
    (j : Jit) (rip : ℕ)
    → AllSteps rip j (jit_lookup l h check stubs mem s j rip)
unfolding jit_lookup
jit_lookup-AllSteps l h check stubs mem s j rip =
    let e = j.cache (slot_of j rip) in
    let k = decode_block mem s max_insns rip in
    let emitted = emit_block l h check (suc (length k.insns)) rip k in
    let taken : Bool = elim e.code [ none ↦ false | some _ ↦ true ] in
    let is_stub : Bool = elim (stub_index stubs rip) [ none ↦ false | some _ ↦ true ] in
    by_test (AllSteps rip j) (e.tag == rip) (λ t. hit-Step rip j ((==_iff e.tag rip).0 t))
      λ _.
        by_test (AllSteps rip j) taken (λ _. unchanged rip j)
          λ empty.
            by_test (AllSteps rip j) is_stub (λ _. unchanged rip j)
              λ _.
                by_test (AllSteps rip j) (not (AddressSpace.ok s rip 16 prot_x))
                  (λ _. unchanged rip j)
                  λ _. emitted-AllSteps l j rip emitted (not_taken e.code empty)

pub lookup-Step :
    (l : Layout) (h : Helpers) (check : Bool) (stubs : Stubs) (mem : ℕ → ℕ) (s : AddressSpace)
    (j : Jit) (rip : ℕ) {r : Option ℕ × Jit}
    → jit_lookup l h check stubs mem s j rip ≡ some r
    → Step rip j r
lookup-Step l h check stubs mem s j rip e =
    subst (AllSteps rip j) e (jit_lookup-AllSteps l h check stubs mem s j rip)
