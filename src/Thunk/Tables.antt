-- ===== src/Thunk/Tables.antt =====
-- src/thunk.c: the tables of variadic functions and of functions that take a callback.
use rashid.Base.{
  ℕ, ◌+◌, ◌≡◌, refl, Bool, true, false, ◌&&◌, not, none, some, List, [], ◌∷◌, ◌==◌, arith,
  Bool-cases, inl, inr,
}
use rashid.Macho.{str_is}
use rashid.Thunk.{row, bare, variadics, callback_args, variadic_spec, callback_arg}

-- Whether two names are one, and whether a name is free of 0.
abbrev same : List ℕ → List ℕ → Bool
same [] [] = true
same [] (c ∷ cs) = false
same (b ∷ bs) [] = false
same (b ∷ bs) (c ∷ cs) = (b == c) && same bs cs

abbrev no_zero : List ℕ → Bool
no_zero [] = true
no_zero (c ∷ cs) = not (c == 0) && no_zero cs

-- A C string is one name at most.
str_is-same :
    (byte : ℕ → ℕ) (p : ℕ) (a b : List ℕ)
    → no_zero a ≡ true
    → no_zero b ≡ true
    → str_is byte p a ≡ true
    → str_is byte p b ≡ true
    → same a b ≡ true
str_is-same byte p [] [] za zb ea eb = refl
str_is-same byte p [] (c ∷ cs) za zb ea eb = absurd (ground arith)
str_is-same byte p (c ∷ cs) [] za zb ea eb = absurd (ground arith)
str_is-same byte p (a ∷ as') (b ∷ bs) za zb ea eb = ground (arith, str_is-same byte (p + 1) as' bs)

-- A table with no row of a given name, and two tables with no name in common.
abbrev lacks {ℓ} : {A : Type ℓ} → List ℕ → List (List ℕ × A) → Bool
lacks name [] = true
lacks name ((other, a) ∷ rows) = no_zero other && not (same name other) && lacks name rows

abbrev apart {ℓ κ} : {A : Type ℓ} {B : Type κ} → List (List ℕ × A) → List (List ℕ × B) → Bool
apart [] others = true
apart ((name, a) ∷ rows) others = no_zero name && lacks name others && apart rows others

lacks-row {ℓ} :
    {A : Type ℓ} (byte : ℕ → ℕ) (n : ℕ) (name : List ℕ) (rows : List (List ℕ × A))
    → no_zero name ≡ true
    → lacks name rows ≡ true
    → str_is byte n name ≡ true
    → row byte n rows ≡ none
unfolding row
lacks-row byte n name [] z l e = refl
lacks-row byte n name ((other, a) ∷ rows) z l e = elim (Bool-cases (str_is byte n other)) [
  | inl f ↦ absurd (ground (arith, str_is-same byte n name other z))
  | inr f ↦ rw f (lacks-row byte n name rows z (ground arith) e)
]

apart-row {ℓ κ} :
    {A : Type ℓ} {B : Type κ} (byte : ℕ → ℕ) (n : ℕ) (rows : List (List ℕ × A))
    (others : List (List ℕ × B)) {a : A}
    → apart rows others ≡ true
    → row byte n rows ≡ some a
    → row byte n others ≡ none
unfolding row
apart-row byte n [] others {a} d e = absurd (ground arith)
apart-row byte n ((name, b) ∷ rows) others {a} d e = elim (Bool-cases (str_is byte n name)) [
  | inl f ↦ lacks-row byte n name others (ground arith) (ground arith) f
  | inr f ↦ apart-row byte n rows others {a = a} (ground arith) (rw f at e)
]

-- No function is in both tables: for one that takes a callback there is no description of variadic
-- arguments. The interpreter, which replaces the callback only where there is no such description,
-- never skips it.
variadic_spec-callback_arg :
    (byte : ℕ → ℕ) (symbol : ℕ) {a : ℕ}
    → callback_arg byte symbol ≡ some a
    → variadic_spec byte symbol ≡ none
unfolding callback_arg variadic_spec
variadic_spec-callback_arg byte symbol {a} e = elim (Bool-cases (symbol == 0)) [
  | inl z ↦ rw z refl
  | inr z ↦
      rw z (apart-row byte (bare byte symbol) callback_args variadics {a = a} refl (rw z at e))
]
