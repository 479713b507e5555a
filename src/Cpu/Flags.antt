-- ===== src/Cpu/Flags.antt =====
-- src/cpu.c, "flags": the flags register as the word that the source keeps.
pub mod Bits
pub mod Arith
pub mod Compare
pub mod Carry
use rashid.Base.{
  ℕ, zero, suc, ◌+◌, ◌-◌, ◌*◌, ◌/◌, ◌%◌, ◌^◌, bit_and, bit_or, bit_xor, Bool, true, false, not,
  ◌&&◌, ◌||◌, ltb, leb, ◌==◌, if◌then◌else◌, sub64,
}
use rashid.Cpu.{has, trunc_sz, sext}

abbrev pub f_cf : ℕ
f_cf = 1

abbrev pub f_pf : ℕ
f_pf = 4

abbrev pub f_af : ℕ
f_af = 16

abbrev pub f_zf : ℕ
f_zf = 64

abbrev pub f_sf : ℕ
f_sf = 128

abbrev pub f_of : ℕ
f_of = 2048

-- flags &= ~mask, on 32 bits, and `if (t) flags |= mask`.
unfoldable pub clear : ℕ → ℕ → ℕ
clear flags mask = bit_and flags (2 ^ 32 - 1 - mask)

unfoldable pub raise_if : Bool → ℕ → ℕ → ℕ
raise_if t mask flags = if t then bit_or flags mask else flags

-- ~x, on 64 bits
abbrev pub not64 : ℕ → ℕ
not64 x = 2 ^ 64 - 1 - x

-- `__builtin_popcount` of a byte
abbrev pub popcount : ℕ → ℕ → ℕ
popcount zero x = 0
popcount (suc k) x = x % 2 + popcount k (x / 2)

-- Does the low byte have an even number of ones?
unfoldable pub parity_even : ℕ → Bool
parity_even r = not (has (bit_and (popcount 8 (bit_and r 0xff)) 1))

unfoldable pub set_pzs : ℕ → ℕ → ℕ → ℕ
unfolding trunc_sz clear raise_if parity_even
set_pzs flags res size =
    let r = trunc_sz res size in
    raise_if (parity_even r) f_pf (
      raise_if (has (r / 2 ^ (size * 8 - 1))) f_sf
        (raise_if (r == 0) f_zf (clear flags (f_zf + f_sf + f_pf))))

unfoldable pub flags_logic : ℕ → ℕ → ℕ → ℕ
unfolding set_pzs
flags_logic flags res size = set_pzs (clear flags (f_cf + f_of)) res size

-- What the four arithmetic routines share: CF by its own test, then OF and AF.
unfoldable pub flags_arith : ℕ → Bool → Bool → Bool → ℕ → ℕ → ℕ
unfolding set_pzs
flags_arith flags carry overflow nibble r size =
    set_pzs
      (raise_if nibble f_af
        (raise_if overflow f_of (raise_if carry f_cf (clear flags (f_cf + f_of + f_af)))))
      r size

abbrev pub sign_of : ℕ → ℕ
sign_of size = 2 ^ (size * 8 - 1)

abbrev pub add_overflow : ℕ → ℕ → ℕ → ℕ → Bool
add_overflow a b r size = has (bit_and (bit_and (not64 (bit_xor a b)) (bit_xor a r)) (sign_of size))

abbrev pub sub_overflow : ℕ → ℕ → ℕ → ℕ → Bool
sub_overflow a b r size = has (bit_and (bit_and (bit_xor a b) (bit_xor a r)) (sign_of size))

abbrev pub nibble_carry : ℕ → ℕ → ℕ → Bool
nibble_carry a b r = has (bit_and (bit_xor (bit_xor a b) r) 0x10)

unfoldable pub flags_add : ℕ → ℕ → ℕ → ℕ → ℕ → ℕ
unfolding flags_arith
flags_add flags a b res size =
    let a' = trunc_sz a size in
    let b' = trunc_sz b size in
    let r = trunc_sz res size in
    flags_arith flags (ltb r a') (add_overflow a' b' r size) (nibble_carry a' b' r) r size

unfoldable pub flags_sub : ℕ → ℕ → ℕ → ℕ → ℕ → ℕ
unfolding flags_arith
flags_sub flags a b res size =
    let a' = trunc_sz a size in
    let b' = trunc_sz b size in
    let r = trunc_sz res size in
    flags_arith flags (ltb a' b') (sub_overflow a' b' r size) (nibble_carry a' b' r) r size

unfoldable pub flags_adc : ℕ → ℕ → ℕ → ℕ → ℕ → ℕ → ℕ
unfolding flags_arith
flags_adc flags a b cf res size =
    let a' = trunc_sz a size in
    let b' = trunc_sz b size in
    let r = trunc_sz res size in
    flags_arith flags (ltb r a' || (has cf && (r == a'))) (add_overflow a' b' r size)
      (nibble_carry a' b' r) r size

unfoldable pub flags_sbb : ℕ → ℕ → ℕ → ℕ → ℕ → ℕ → ℕ
unfolding flags_arith
flags_sbb flags a b cf res size =
    let a' = trunc_sz a size in
    let b' = trunc_sz b size in
    let r = trunc_sz res size in
    flags_arith flags (ltb a' b' || (has cf && (a' == b'))) (sub_overflow a' b' r size)
      (nibble_carry a' b' r) r size

-- `cond`: cc is the low half of the opcode; its lowest digit negates.
unfoldable pub cond : ℕ → ℕ → Bool
cond flags cc =
    let cf = has (bit_and flags f_cf) in
    let zf = has (bit_and flags f_zf) in
    let sf = has (bit_and flags f_sf) in
    let of = has (bit_and flags f_of) in
    let pf = has (bit_and flags f_pf) in
    let odd = has (bit_and cc 1) in
    let kind = cc / 2 in
    let same = if sf then of else not of in
    if kind == 0
    then (if odd then not of else of)
    else if kind == 1
    then (if odd then not cf else cf)
    else if kind == 2
    then (if odd then not zf else zf)
    else if kind == 3
    then (if odd then not (cf || zf) else cf || zf)
    else if kind == 4
    then (if odd then not sf else sf)
    else if kind == 5
    then (if odd then not pf else pf)
    else if kind == 6
    then (if odd then same else not same)
    else (if odd then not zf && same else zf || not same)

-- `rsd_i_flags_inc` and `rsd_i_flags_dec`: like add and sub by 1, but CF stays.
unfoldable pub flags_inc : ℕ → ℕ → ℕ → ℕ → ℕ
unfolding flags_add
flags_inc flags a r size = bit_or (clear (flags_add flags a 1 r size) f_cf) (bit_and flags f_cf)

unfoldable pub flags_dec : ℕ → ℕ → ℕ → ℕ → ℕ
unfolding flags_sub
flags_dec flags a r size = bit_or (clear (flags_sub flags a 1 r size) f_cf) (bit_and flags f_cf)
