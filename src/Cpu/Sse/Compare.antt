-- ===== src/Cpu/Sse/Compare.antt =====
-- src/cpu.c, `comis`: what the conditions say behind a comparison of doubles.
use Prim.Native.Nat.{min, max}
use rashid.Base.{
  ℕ, ◌+◌, ◌-◌, ◌*◌, ◌^◌, Bool, true, false, not, ◌&&◌, ◌||◌, ◌≡◌, refl, ap, ◌∙◌, arith,
}
use rashid.Bits.{bit}
use rashid.Cpu.Flags.{f_cf, f_pf, f_af, f_zf, f_sf, f_of, clear, raise_if, cond}
use rashid.Cpu.Flags.Bits.{digit, digit-lt, bit-raise_if, bit-clear, decide, cond_of_bits}
use rashid.Cpu.Sse.Values.{Floats, is_nan, comis}

module _ (f : Floats) (flags a b : ℕ) where
  abbrev unordered : Bool
  unordered = is_nan a || is_nan b

  abbrev below : Bool
  below = not unordered && f.lt a b

  abbrev same : Bool
  same = not unordered && not below && f.eq a b

  abbrev cleared : ℕ
  cleared = clear flags (f_of + f_af + f_sf + f_zf + f_pf + f_cf)

  abbrev with_zf : ℕ
  with_zf = raise_if (unordered || same) f_zf cleared

  abbrev with_pf : ℕ
  with_pf = raise_if unordered f_pf with_zf

  -- Each digit of the new flags.
  bit-comis :
      (k : ℕ)
      → bit (comis f flags a b) k
        ≡ max
            (max
              (max
                (min (bit flags k) (bit (2 ^ 32 - 1 - (f_of + f_af + f_sf + f_zf + f_pf + f_cf)) k))
                (digit (unordered || same) * bit f_zf k))
              (digit unordered * bit f_pf k))
            (digit (unordered || below) * bit f_cf k)
  unfolding comis
  bit-comis k =
      bit-raise_if k (unordered || below) f_cf with_pf
      ∙ ap (λ (x : ℕ). max x (digit (unordered || below) * bit f_cf k))
          (bit-raise_if k unordered f_pf with_zf
            ∙ ap (λ (x : ℕ). max x (digit unordered * bit f_pf k))
                (bit-raise_if k (unordered || same) f_zf cleared
                  ∙ ap (λ (x : ℕ). max x (digit (unordered || same) * bit f_zf k))
                      (bit-clear k flags (f_of + f_af + f_sf + f_zf + f_pf + f_cf))))

  cond-comis-decide :
      (cc : ℕ)
      → cond (comis f flags a b) cc
        ≡ decide (unordered || below) (unordered || same) false false unordered cc
  cond-comis-decide cc =
      let c = digit-lt (unordered || below) in
      let z = digit-lt (unordered || same) in
      let u = digit-lt unordered in
      cond_of_bits (comis f flags a b) cc (unordered || below) (unordered || same) false false
        unordered (bit-comis 0 ∙ omega arith) (bit-comis 6 ∙ omega arith)
        (bit-comis 7 ∙ omega arith) (bit-comis 11 ∙ omega arith) (bit-comis 2 ∙ omega arith)

-- Behind ucomisd and comisd, of a with b: "below" holds if one of them is not a number or a is
-- less, "equal" if one of them is not a number or they are equal and a is not less, "above" if both are numbers
-- and neither holds, "parity" if one of them is not a number, and "less" never holds.
pub cond-comis :
    (f : Floats) (flags a b : ℕ)
    → let u = is_nan a || is_nan b in
      let flags' = comis f flags a b in
      (cond flags' 2 ≡ (u || f.lt a b))
      × (cond flags' 4 ≡ (u || (not (f.lt a b) && f.eq a b)))
      × (cond flags' 7 ≡ (not u && not (f.lt a b) && not (f.eq a b)))
      × (cond flags' 10 ≡ u)
      × (cond flags' 12 ≡ false)
cond-comis f flags a b =
    let u = is_nan a || is_nan b in
    (
      cond-comis-decide f flags a b 2 ∙ tests_b u (f.lt a b),
      cond-comis-decide f flags a b 4 ∙ tests_e u (f.lt a b) (f.eq a b),
      cond-comis-decide f flags a b 7 ∙ tests_a u (f.lt a b) (f.eq a b),
      cond-comis-decide f flags a b 10,
      cond-comis-decide f flags a b 12,
    )
  where
    tests_b : (u l : Bool) → (u || (not u && l)) ≡ (u || l)
    tests_b true l = refl
    tests_b false l = refl

    tests_e : (u l e : Bool) → (u || (not u && not (not u && l) && e)) ≡ (u || (not l && e))
    tests_e true l e = refl
    tests_e false l e = refl

    tests_a :
        (u l e : Bool)
        → not (u || (not u && l) || (u || (not u && not (not u && l) && e)))
          ≡ (not u && not l && not e)
    tests_a true l e = refl
    tests_a false true e = refl
    tests_a false false true = refl
    tests_a false false false = refl
