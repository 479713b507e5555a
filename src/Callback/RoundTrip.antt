-- ===== src/Callback/RoundTrip.antt =====
-- What a trampoline leads back to (src/callback.c).
use rashid.Base.{
  ℕ, zero, suc, ◌≤◌, ◌<◌, ◌≡◌, ◌≢◌, ◌⊎◌, refl, ap, ◌∙◌, sym, false, none, some, List, [], ◌∷◌, ◌++◌,
  ◌==◌, length, get_elem?, arith, Bool-cases, Option-cases, inl, inr, length-append,
}
use mathlib.Core.Option
use rashid.Callback.{Table, trampoline, index_of, callback_for, callback_target, tramp_count}

index_of-get :
    (xs : List ℕ) (g : ℕ) {i : ℕ}
    → index_of xs g ≡ some i
    → (get_elem? xs i ≡ some g) × (i < length xs)
unfolding index_of
index_of-get [] g h = ground arith
index_of-get (x ∷ xs) g {i} h = elim (Bool-cases (x == g)) [
  | inl e ↦ ground arith
  | inr e ↦ elim (Option-cases (index_of xs g)) [
    | inl m ↦ ground arith
    | inr (j, m) ↦
        let ih = index_of-get xs g m in
        let at : i ≡ suc j = ground arith in rw at (ih.0, omega (arith, ih.1))
  ]
]

get-append_old : (xs ys : List ℕ) (i : ℕ) → i < length xs → get_elem? (xs ++ ys) i ≡ get_elem? xs i
get-append_old [] ys i h = absurd (omega arith)
get-append_old (x ∷ xs) ys zero h = refl
get-append_old (x ∷ xs) ys (suc i) h = get-append_old xs ys i (omega arith)

get-append_new : (xs : List ℕ) (g : ℕ) → get_elem? (xs ++ (g ∷ [])) (length xs) ≡ some g
get-append_new [] g = refl
get-append_new (x ∷ xs) g = get-append_new xs g

-- For a guest function other than 0 and a pool of at most 512 targets `rsd_callback_for` answers
-- one of the 512 trampolines, which leads back to that function, and the pool still fits; or it
-- answers 0 and changes nothing, and then all 512 are in use.
pub callback_for-target :
    (t : Table) (pool : List ℕ) (g : ℕ)
    → g ≢ 0
    → length pool ≤ tramp_count
    → let (addr, pool') = callback_for t pool g in
      (addr ≡ 0) × (pool' ≡ pool) × (length pool ≡ tramp_count)
      ⊎ ((i : ℕ) × (addr ≡ trampoline t i)
          × (i < tramp_count)
          × (callback_target pool' i ≡ g)
          × (length pool' ≤ tramp_count))
unfolding callback_for callback_target
callback_for-target t pool g nz fits =
    let test : (g == 0) ≡ false = ground arith in
    elim (Option-cases (index_of pool g)) [
      | inr (i, m) ↦
          let found = index_of-get pool g m in
          rw (test, m)
            (inr (i, refl, omega (arith, found.1), ap (λ o. Option.get_or o 0) found.0, fits))
      | inl m ↦ elim (Bool-cases (length pool == tramp_count)) [
        | inl e ↦ rw (test, m, e) (inl (refl, refl, ground arith))
        | inr e ↦
            rw (test, m, e)
              (inr (
                length pool,
                refl,
                ground arith,
                ap (λ o. Option.get_or o 0) (get-append_new pool g),
                ground (arith, length-append {0} pool (g ∷ [])),
              ))
      ]
    ]

-- A trampoline that was handed out keeps leading to the same guest function.
pub callback_for_keeps :
    (t : Table) (pool : List ℕ) (g i : ℕ)
    → i < length pool
    → callback_target (callback_for t pool g).1 i ≡ callback_target pool i
unfolding callback_for callback_target
callback_for_keeps t pool g i h = elim (Bool-cases (g == 0)) [
  | inl z ↦ rw z refl
  | inr z ↦ elim (Option-cases (index_of pool g)) [
    | inr (j, m) ↦ rw (z, m) refl
    | inl m ↦ elim (Bool-cases (length pool == tramp_count)) [
      | inl e ↦ rw (z, m, e) refl
      | inr e ↦ rw (z, m, e) (ap (λ o. Option.get_or o 0) (get-append_old pool (g ∷ []) i h))
    ]
  ]
]

index_of-append :
    (xs : List ℕ) (g : ℕ) → index_of xs g ≡ none → index_of (xs ++ (g ∷ [])) g ≡ some (length xs)
unfolding index_of
index_of-append [] g h = ground arith
index_of-append (x ∷ xs) g h = ground (arith, index_of-append xs g)

settled :
    (t : Table) (pool : List ℕ) (g : ℕ) (answer : ℕ × List ℕ)
    → callback_for t pool g ≡ answer
    → callback_for t answer.1 g ≡ answer
    → callback_for t (callback_for t pool g).1 g ≡ callback_for t pool g
settled t pool g answer e f = ap (λ (p : ℕ × List ℕ). callback_for t p.1 g) e ∙ f ∙ sym e

-- Asking again for the same guest function answers the same trampoline, and uses no more of the
-- table.
pub callback_for_again :
    (t : Table) (pool : List ℕ) (g : ℕ)
    → callback_for t (callback_for t pool g).1 g ≡ callback_for t pool g
unfolding callback_for
callback_for_again t pool g = elim (Bool-cases (g == 0)) [
  | inl z ↦ let e : callback_for t pool g ≡ (0, pool) = rw z refl in settled t pool g (0, pool) e e
  | inr z ↦ elim (Option-cases (index_of pool g)) [
    | inr (j, m) ↦
        let e : callback_for t pool g ≡ (trampoline t j, pool) = rw (z, m) refl in
        settled t pool g (trampoline t j, pool) e e
    | inl m ↦ elim (Bool-cases (length pool == tramp_count)) [
      | inl f ↦
          let e : callback_for t pool g ≡ (0, pool) = rw (z, m, f) refl in
          settled t pool g (0, pool) e e
      | inr f ↦
          settled t pool g (trampoline t (length pool), pool ++ (g ∷ [])) (rw (z, m, f) refl)
            (rw (z, index_of-append pool g m) refl)
    ]
  ]
]
