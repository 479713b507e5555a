-- ===== src/Jit/Liveness/Effects.antt =====
-- src/cpu.c, "flags": which flags each routine sets whatever they were, and which it leaves.
use rashid.Base.{
  ℕ, zero, suc, ◌-◌, ◌*◌, ◌/◌, ◌^◌, ◌≤◌, ◌<◌, bit_and, bit_or, Bool, ◌≡◌, refl, ap, ◌∙◌, sym, arith,
  ltb, ◌==◌, ==_iff, Bool-cases, inl, inr,
}
use Prim.Native.Nat.{min, max}
use rashid.Bits.{bit, bit-lt, bit-bit_and, bit-bit_or, bit-complement}
use rashid.Cpu.{has, trunc_sz}
use rashid.Cpu.Flags.{
  parity_even, clear, raise_if, set_pzs, flags_logic, flags_arith, flags_add, flags_sub, flags_inc,
  flags_dec, add_overflow, sub_overflow, nibble_carry,
}
use rashid.Cpu.Flags.Bits.{digit, bit-raise_if, bit-clear}
use rashid.Cpu.Alu.{shift}
use rashid.Jit.Liveness.{fl_all, fl_logic, fl_inc}

-- A routine on the flags: those of w do not depend on what they were, and the others stay.
pub record Effect (w : ℕ) (G : ℕ → ℕ) : Type 0 where
  pub sets : (k : ℕ) → k < 32 → bit w k ≡ 1 → (f g : ℕ) → bit (G f) k ≡ bit (G g) k
  pub keeps : (k : ℕ) → k < 32 → bit w k ≡ 0 → (f : ℕ) → bit (G f) k ≡ bit f k

pub bit-zero : (k : ℕ) → bit 0 k ≡ 0
bit-zero zero = refl
bit-zero (suc k) = bit-zero k

pub Effect-none : Effect 0 (λ f. f)
Effect-none = record {
  sets = λ k h e f g. absurd (omega (arith, bit-zero k));
  keeps = λ k h e f. refl;
}

-- What the digits of a cleared and of a restored flags register are.
cleared : (k m f : ℕ) → k < 32 → m < 2 ^ 32 → bit (clear f m) k ≡ min (bit f k) (1 - bit m k)
cleared k m f h small =
    bit-clear k f m ∙ ap (λ (x : ℕ). min (bit f k) x) (bit-complement 32 k m small h)

masked :
    (k m f : ℕ)
    → k < 32
    → m < 2 ^ 32
    → bit (bit_and f (2 ^ 32 - 1 - m)) k ≡ min (bit f k) (1 - bit m k)
masked k m f h small =
    bit-bit_and k f (2 ^ 32 - 1 - m)
    ∙ ap (λ (x : ℕ). min (bit f k) x) (bit-complement 32 k m small h)

restored :
    (k m x f : ℕ)
    → k < 32
    → m < 2 ^ 32
    → bit (bit_or (clear x m) (bit_and f m)) k
      ≡ max (min (bit x k) (1 - bit m k)) (min (bit f k) (bit m k))
restored k m x f h small =
    omega (arith, bit-bit_or k (clear x m) (bit_and f m), cleared k m x h small, bit-bit_and k f m)

-- The flags of m are among those of w.
within : (w m : ℕ) → bit_or w m ≡ w → (k : ℕ) → bit m k ≤ bit w k
within w m e k =
    let both : max (bit w k) (bit m k) ≡ bit w k =
      sym (bit-bit_or k w m) ∙ ap (λ (x : ℕ). bit x k) e in
    omega (arith, both)

module _ {w : ℕ} {G : ℕ → ℕ} (e : Effect w G) where
  Effect-clear : (m : ℕ) → m < 2 ^ 32 → Effect (bit_or w m) (λ f. clear (G f) m)
  Effect-clear m small = record {
    sets = λ k h s f g. elim (Bool-cases (bit w k == 1)) [
      | inl o ↦ omega (
        arith,
        cleared k m (G f) h small,
        cleared k m (G g) h small,
        e.sets k h ((==_iff (bit w k) 1).0 o) f g,
      )
      | inr z ↦
          let one_of : bit m k ≡ 1 =
            ground (arith, z, s, bit-bit_or k w m, bit-lt k w, bit-lt k m) in
          omega (arith, cleared k m (G f) h small, cleared k m (G g) h small, one_of)
    ];
    keeps = λ k h z f.
        let both = bit-bit_or k w m in
        let none_of : bit w k ≡ 0 = omega (arith, both) in
        omega (arith, cleared k m (G f) h small, both, bit-lt k f, e.keeps k h none_of f);
  }

  Effect-raise_if :
      (t : Bool) (m : ℕ) → ((k : ℕ) → bit m k ≤ bit w k) → Effect w (λ f. raise_if t m (G f))
  Effect-raise_if t m within = record {
    sets = λ k h s f g.
        bit-raise_if k t m (G f)
        ∙ ap (λ (x : ℕ). max x (digit t * bit m k)) (e.sets k h s f g)
        ∙ sym (bit-raise_if k t m (G g));
    keeps = λ k h z f.
        let out : bit m k ≡ 0 = omega (arith, within k) in
        let raised : bit (raise_if t m (G f)) k ≡ max (bit (G f) k) (digit t * 0) =
          bit-raise_if k t m (G f) ∙ ap (λ (x : ℕ). max (bit (G f) k) (digit t * x)) out in
        omega (arith, raised, e.keeps k h z f);
  }

  -- The flags of m are put back.
  Effect-restore :
      (m : ℕ)
      → m < 2 ^ 32
      → Effect (bit_and w (2 ^ 32 - 1 - m)) (λ f. bit_or (clear (G f) m) (bit_and f m))
  Effect-restore m small = record {
    sets = λ k h s f g.
        let inside = masked k m w h small in
        let one_of : bit w k ≡ 1 = omega (arith, inside, bit-lt k w) in
        omega (
          arith,
          restored k m (G f) f h small,
          restored k m (G g) g h small,
          inside,
          bit-lt k w,
          bit-lt k m,
          e.sets k h one_of f g,
        );
    keeps = λ k h z f. elim (Bool-cases (bit w k == 0)) [
      | inl o ↦ omega (
        arith,
        restored k m (G f) f h small,
        bit-lt k m,
        bit-lt k f,
        e.keeps k h ((==_iff (bit w k) 0).0 o) f,
      )
      | inr n ↦
          let one_of : bit m k ≡ 1 =
            ground (arith, n, z, masked k m w h small, bit-lt k w, bit-lt k m) in
          omega (arith, restored k m (G f) f h small, bit-lt k f, one_of)
    ];
  }

pub Effect-set_pzs :
    {w : ℕ} {G : ℕ → ℕ} (e : Effect w G) (r size : ℕ)
    → Effect (bit_or w 196) (λ f. set_pzs (G f) r size)
unfolding set_pzs
Effect-set_pzs {w} e r size =
    let inside : (m : ℕ) → bit_or 196 m ≡ 196 → (k : ℕ) → bit m k ≤ bit (bit_or w 196) k =
      λ m h k. omega (arith, within 196 m h k, bit-bit_or k w 196) in
    let res = trunc_sz r size in
    let empty = Effect-clear e 196 (omega arith) in
    let zero_set = Effect-raise_if empty (res == 0) 64 (inside 64 refl) in
    let sign_set =
      Effect-raise_if zero_set (has (res / 2 ^ (size * 8 - 1))) 128 (inside 128 refl) in
    Effect-raise_if sign_set (parity_even res) 4 (inside 4 refl)

-- Without AF: and, or, xor, test and imul.
pub Effect-flags_logic : (r size : ℕ) → Effect fl_logic (λ f. flags_logic f r size)
unfolding flags_logic
Effect-flags_logic r size = Effect-set_pzs (Effect-clear Effect-none 2049 (omega arith)) r size

pub Effect-flags_arith :
    (carry overflow nibble : Bool) (r size : ℕ)
    → Effect fl_all (λ f. flags_arith f carry overflow nibble r size)
unfolding flags_arith
Effect-flags_arith carry overflow nibble r size =
    let empty = Effect-clear Effect-none 2065 (omega arith) in
    Effect-set_pzs
      (Effect-raise_if
        (Effect-raise_if (Effect-raise_if empty carry 1 (within 2065 1 refl)) overflow 2048
          (within 2065 2048 refl))
        nibble 16 (within 2065 16 refl))
      r size

pub Effect-flags_add : (a b r size : ℕ) → Effect fl_all (λ f. flags_add f a b r size)
unfolding flags_add
Effect-flags_add a b r size =
    let a' = trunc_sz a size in
    let b' = trunc_sz b size in
    let r' = trunc_sz r size in
    Effect-flags_arith (ltb r' a') (add_overflow a' b' r' size) (nibble_carry a' b' r') r' size

pub Effect-flags_sub : (a b r size : ℕ) → Effect fl_all (λ f. flags_sub f a b r size)
unfolding flags_sub
Effect-flags_sub a b r size =
    let a' = trunc_sz a size in
    let b' = trunc_sz b size in
    let r' = trunc_sz r size in
    Effect-flags_arith (ltb a' b') (sub_overflow a' b' r' size) (nibble_carry a' b' r') r' size

pub Effect-flags_inc : (a r size : ℕ) → Effect fl_inc (λ f. flags_inc f a r size)
unfolding flags_inc
Effect-flags_inc a r size = Effect-restore (Effect-flags_add a 1 r size) 1 (omega arith)

pub Effect-flags_dec : (a r size : ℕ) → Effect fl_inc (λ f. flags_dec f a r size)
unfolding flags_dec
Effect-flags_dec a r size = Effect-restore (Effect-flags_sub a 1 r size) 1 (omega arith)

pub Effect-shift : (a cnt size ext : ℕ) → Effect fl_logic (λ f. (shift f a cnt size ext).1)
unfolding shift
Effect-shift a cnt size ext =
    let empty = Effect-clear Effect-none 2049 (omega arith) in
    Effect-set_pzs
      (Effect-raise_if (Effect-raise_if empty _ 1 (within 2049 1 refl)) _ 2048
        (within 2049 2048 refl))
      _ size
