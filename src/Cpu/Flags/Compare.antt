-- ===== src/Cpu/Flags/Compare.antt =====
-- CMP followed by a condition (src/cpu.c, flags_sub and cond) against the order of the operands.
use native.Mathlib.Nat.{one-le-pow}
use rashid.Base.{
  ℕ, ◌-◌, ◌*◌, ◌/◌, ◌^◌, ◌<◌, Bool, true, false, not, ◌≡◌, refl, ◌∙◌, ap, ◌&&◌, ◌||◌, ltb, leb,
  ◌==◌, if◌then◌else◌, sub64, arith, ltb_ℤ, leb_ℤ,
}
use mathlib.Core.Path.{ap₂}
use rashid.Cpu.{has, trunc_sz, sext, IsSize, signed}
use rashid.Cpu.Flags.{flags_sub, flags_arith, cond, sub_overflow, nibble_carry, parity_even}
use rashid.Cpu.Flags.Bits.{
  digit, decide, cond_of_bits, arith_cf, arith_pf, arith_zf, arith_sf, arith_of,
}
use rashid.Cpu.Flags.Arith.{
  differs, sub_overflow_lem, signed_at, same_sign, signed-sext, trunc_sz-sub64, trunc_sz-lt,
  trunc_sz-trunc_sz, has_top,
}

not-not : (t : Bool) → not (not t) ≡ t
not-not true = refl
not-not false = refl

neither : (s t : Bool) → (not s && not t) ≡ not (s || t)
neither true t = refl
neither false t = refl

equal_or_below :
    (h a b : ℕ)
    → a < 2 * h
    → b < 2 * h
    → ((a == b) || ltb_ℤ (signed_at h a) (signed_at h b)) ≡ leb_ℤ (signed_at h a) (signed_at h b)
equal_or_below h a b p q = ground arith

module _ (flags a b size : ℕ) (i : IsSize size) (ha : a < 2 ^ 64) (hb : b < 2 ^ 64) where
  abbrev left : ℕ
  left = trunc_sz a size

  abbrev right : ℕ
  right = trunc_sz b size

  abbrev difference : ℕ
  difference = trunc_sz (sub64 a b) size

  abbrev half : ℕ
  half = 2 ^ (size * 8 - 1)

  abbrev overflow : Bool
  overflow =
      differs (leb half left) (leb half right) && differs (leb half left) (leb half difference)

  difference-lt : difference < 2 * half
  difference-lt = trunc_sz-lt (sub64 a b) size i (omega arith)

  -- The flags that CMP leaves, as tests on the operands.
  cond-sub :
      (cc : ℕ)
      → cond (flags_sub flags a b (sub64 a b) size) cc
        ≡ decide
            (ltb left right)
            (difference == 0)
            (leb half difference)
            overflow
            (parity_even difference)
            cc
  unfolding flags_sub
  cond-sub cc =
      let same = trunc_sz-trunc_sz (sub64 a b) size i (omega arith) in
      let c = ltb left right in
      let o = sub_overflow left right difference size in
      let n = nibble_carry left right difference in
      let word = flags_arith flags c o n difference size in
      cond_of_bits word cc c (difference == 0) (leb half difference) overflow
        (parity_even difference) (arith_cf flags c o n difference size)
        (arith_zf flags c o n difference size ∙ ap (λ t. digit (t == 0)) same)
        (arith_sf flags c o n difference size
          ∙ ap (λ t. digit (has (t / half))) same
          ∙ ap digit (has_top (size * 8 - 1) difference difference-lt))
        (arith_of flags c o n difference size
          ∙ ap digit (
              sub_overflow_lem (size * 8 - 1) left right difference (trunc_sz-lt a size i ha)
                (trunc_sz-lt b size i hb) difference-lt))
        (arith_pf flags c o n difference size ∙ ap (λ t. digit (parity_even t)) same)

  equal_test : (difference == 0) ≡ (left == right)
  equal_test =
      let e = trunc_sz-sub64 a b size i ha hb in
      let p = trunc_sz-lt a size i ha in let q = trunc_sz-lt b size i hb in ground arith

  signed_test :
      (if leb half difference then overflow else not overflow)
      ≡ not (ltb_ℤ (signed (sext a size)) (signed (sext b size)))
  signed_test =
      rw (signed-sext a size i ha, signed-sext b size i hb)
        (same_sign half left right difference (one-le-pow (size * 8 - 1) 2 (omega arith))
          (trunc_sz-lt a size i ha) (trunc_sz-lt b size i hb) (trunc_sz-sub64 a b size i ha hb))

  signed_or_equal :
      ((left == right) || ltb_ℤ (signed (sext a size)) (signed (sext b size)))
      ≡ leb_ℤ (signed (sext a size)) (signed (sext b size))
  signed_or_equal =
      rw (signed-sext a size i ha, signed-sext b size i hb)
        (equal_or_below half left right (trunc_sz-lt a size i ha) (trunc_sz-lt b size i hb))

  unsigned_or_equal : (ltb left right || (left == right)) ≡ leb left right
  unsigned_or_equal = ground arith

-- After CMP of a and b at any operand size, each of the conditions b, ae, e, ne, be and a decides
-- the order of the truncated operands as unsigned numbers, and l, ge, le and g that of the
-- sign-extended operands as signed numbers.
pub cond-flags_sub :
    (flags a b size : ℕ) (i : IsSize size)
    → a < 2 ^ 64
    → b < 2 ^ 64
    → let f = flags_sub flags a b (sub64 a b) size in
      let x = trunc_sz a size in
      let y = trunc_sz b size in
      let sx = signed (sext a size) in
      let sy = signed (sext b size) in
      (cond f 2 ≡ ltb x y)
      × (cond f 3 ≡ not (ltb x y))
      × (cond f 4 ≡ (x == y))
      × (cond f 5 ≡ not (x == y))
      × (cond f 6 ≡ leb x y)
      × (cond f 7 ≡ not (leb x y))
      × (cond f 12 ≡ ltb_ℤ sx sy)
      × (cond f 13 ≡ not (ltb_ℤ sx sy))
      × (cond f 14 ≡ leb_ℤ sx sy)
      × (cond f 15 ≡ not (leb_ℤ sx sy))
cond-flags_sub flags a b size i ha hb =
    let by = cond-sub flags a b size i ha hb in
    let z = equal_test flags a b size i ha hb in
    let u = unsigned_or_equal flags a b size i ha hb in
    let s = signed_test flags a b size i ha hb in
    let x = trunc_sz a size in
    let y = trunc_sz b size in
    let sx = signed (sext a size) in
    let sy = signed (sext b size) in
    let le_signed = signed_or_equal flags a b size i ha hb in
    let le =
      by 14
      ∙ ap₂ (λ t w. t || not w) z s
      ∙ ap (λ t. (x == y) || t) (not-not (ltb_ℤ sx sy))
      ∙ le_signed in
    (
      by 2,
      by 3,
      by 4 ∙ z,
      by 5 ∙ ap not z,
      by 6 ∙ ap (λ t. ltb x y || t) z ∙ u,
      by 7 ∙ ap (λ t. not (ltb x y || t)) z ∙ ap not u,
      by 12 ∙ ap not s ∙ not-not (ltb_ℤ sx sy),
      by 13 ∙ s,
      le,
      by 15 ∙ ap₂ (λ t w. not t && w) z s ∙ neither (x == y) (ltb_ℤ sx sy) ∙ ap not le_signed,
    )
