-- ===== src/Cpu/Flags/Bits.antt =====
-- The digits of the flags register after each routine of src/cpu.c.
use rashid.Base.{
  ℕ, ◌-◌, ◌*◌, ◌/◌, ◌^◌, ◌<◌, bit_and, Bool, true, false, not, ◌≡◌, ap, ◌&&◌, ◌||◌, ◌==◌,
  if◌then◌else◌, arith,
}
use Prim.Native.Nat.{min, max}
use native.Mathlib.Nat.{one-le-pow}
use rashid.Bits.{bit, bit-bit_and, bit-bit_or, bit_and-pow}
use rashid.Cpu.{has, trunc_sz}
use rashid.Cpu.Flags.{clear, raise_if, parity_even, flags_logic, flags_arith, cond}

-- A test as a digit.
abbrev pub digit : Bool → ℕ
digit true = 1
digit false = 0

pub bit-raise_if :
    (k : ℕ) (t : Bool) (mask flags : ℕ)
    → bit (raise_if t mask flags) k ≡ max (bit flags k) (digit t * bit mask k)
unfolding raise_if
bit-raise_if k true mask flags = omega (arith, bit-bit_or k flags mask)
bit-raise_if k false mask flags = omega arith

pub bit-clear :
    (k flags mask : ℕ) → bit (clear flags mask) k ≡ min (bit flags k) (bit (2 ^ 32 - 1 - mask) k)
unfolding clear
bit-clear k flags mask = bit-bit_and k flags (2 ^ 32 - 1 - mask)

pub digit-lt : (t : Bool) → digit t < 2
digit-lt true = omega arith
digit-lt false = omega arith

module _ (flags : ℕ) (carry overflow nibble : Bool) (r size : ℕ) where
  abbrev after : ℕ
  after = flags_arith flags carry overflow nibble r size

  pub arith_cf : bit after 0 ≡ digit carry
  unfolding flags_arith
  arith_cf = simp (bit-raise_if, bit-clear) (omega (arith, digit-lt carry))

  pub arith_pf : bit after 2 ≡ digit (parity_even (trunc_sz r size))
  unfolding flags_arith
  arith_pf =
      simp (bit-raise_if, bit-clear) (omega (arith, digit-lt (parity_even (trunc_sz r size))))

  pub arith_af : bit after 4 ≡ digit nibble
  unfolding flags_arith
  arith_af = simp (bit-raise_if, bit-clear) (omega (arith, digit-lt nibble))

  pub arith_zf : bit after 6 ≡ digit (trunc_sz r size == 0)
  unfolding flags_arith
  arith_zf = simp (bit-raise_if, bit-clear) (omega (arith, digit-lt (trunc_sz r size == 0)))

  pub arith_sf : bit after 7 ≡ digit (has (trunc_sz r size / 2 ^ (size * 8 - 1)))
  unfolding flags_arith
  arith_sf =
      simp (bit-raise_if, bit-clear)
        (omega (arith, digit-lt (has (trunc_sz r size / 2 ^ (size * 8 - 1)))))

  pub arith_of : bit after 11 ≡ digit overflow
  unfolding flags_arith
  arith_of = simp (bit-raise_if, bit-clear) (omega (arith, digit-lt overflow))

module _ (flags res size : ℕ) where
  abbrev after_logic : ℕ
  after_logic = flags_logic flags res size

  pub logic_cf : bit after_logic 0 ≡ 0
  unfolding flags_logic
  logic_cf = simp (bit-raise_if, bit-clear) (omega arith)

  pub logic_zf : bit after_logic 6 ≡ digit (trunc_sz res size == 0)
  unfolding flags_logic
  logic_zf = simp (bit-raise_if, bit-clear) (omega (arith, digit-lt (trunc_sz res size == 0)))

  pub logic_sf : bit after_logic 7 ≡ digit (has (trunc_sz res size / 2 ^ (size * 8 - 1)))
  unfolding flags_logic
  logic_sf =
      simp (bit-raise_if, bit-clear)
        (omega (arith, digit-lt (has (trunc_sz res size / 2 ^ (size * 8 - 1)))))

  pub logic_of : bit after_logic 11 ≡ 0
  unfolding flags_logic
  logic_of = simp (bit-raise_if, bit-clear) (omega arith)

-- The test that `cond` makes of a flag, once the digit of that flag is known.
pub flag_test : (k flags : ℕ) (t : Bool) → bit flags k ≡ digit t → has (bit_and flags (2 ^ k)) ≡ t
flag_test k flags true e =
    ground (arith, bit_and-pow k flags, one-le-pow k 2, ap (λ (x : ℕ). x * 2 ^ k) e)
flag_test k flags false e = ground (arith, bit_and-pow k flags, ap (λ (x : ℕ). x * 2 ^ k) e)

-- `cond` over the flags as tests.
abbrev pub decide : Bool → Bool → Bool → Bool → Bool → ℕ → Bool
decide cf zf sf of pf cc =
    let odd = has (bit_and cc 1) in
    let kind = cc / 2 in
    let same = if sf then of else not of in
    if kind == 0
    then (if odd then not of else of)
    else if kind == 1
    then (if odd then not cf else cf)
    else if kind == 2
    then (if odd then not zf else zf)
    else if kind == 3
    then (if odd then not (cf || zf) else cf || zf)
    else if kind == 4
    then (if odd then not sf else sf)
    else if kind == 5
    then (if odd then not pf else pf)
    else if kind == 6
    then (if odd then same else not same)
    else (if odd then not zf && same else zf || not same)

pub cond_of_bits :
    (flags cc : ℕ) (cf zf sf of pf : Bool)
    → bit flags 0 ≡ digit cf
    → bit flags 6 ≡ digit zf
    → bit flags 7 ≡ digit sf
    → bit flags 11 ≡ digit of
    → bit flags 2 ≡ digit pf
    → cond flags cc ≡ decide cf zf sf of pf cc
unfolding cond
cond_of_bits flags cc cf zf sf of pf a b c d e = rw (
  flag_test 0 flags cf a,
  flag_test 6 flags zf b,
  flag_test 7 flags sf c,
  flag_test 11 flags of d,
  flag_test 2 flags pf e,
)
