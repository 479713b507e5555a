-- ===== src/Cpu/Sse/Values.antt =====
-- src/cpu.c, "SSE": floating-point values by their bits, comparisons, conversions and NaNs.
use rashid.Base.{
  ℕ, ◌+◌, ◌-◌, ◌%◌, ◌^◌, bit_or, Bool, not, ◌&&◌, ◌||◌, Option, none, some, ltb, ◌==◌,
  if◌then◌else◌, ℤ, pos, negsuc,
}
use rashid.Cpu.Flags.{f_cf, f_pf, f_af, f_zf, f_sf, f_of, clear, raise_if}

-- The floating-point arithmetic of the host, on bit patterns of doubles; `widen` and `narrow`
-- convert from and to singles. `rounded` is nearbyint or trunc, `none` where the value is not a
-- number or infinite.
pub record Floats : Type 0 where
  pub add : ℕ → ℕ → ℕ
  pub mul : ℕ → ℕ → ℕ
  pub sub : ℕ → ℕ → ℕ
  pub div : ℕ → ℕ → ℕ
  pub lt : ℕ → ℕ → Bool
  pub le : ℕ → ℕ → Bool
  pub eq : ℕ → ℕ → Bool
  pub sqrt_d : ℕ → ℕ
  pub sqrt_s : ℕ → ℕ
  pub widen : ℕ → ℕ
  pub narrow : ℕ → ℕ
  pub of_int : ℕ → ℕ
  pub of_int_s : ℕ → ℕ
  pub rounded : Bool → ℕ → Option ℤ

-- `isnan` of a double and of a float.
abbrev pub is_nan : ℕ → Bool
is_nan x = ltb 0x7FF0_0000_0000_0000 (x % 2 ^ 63)

abbrev pub is_nan_s : ℕ → Bool
is_nan_s x = ltb 0x7F80_0000 (x % 2 ^ 31)

-- `rsd_i_nan_d` and `rsd_i_nan_s`
unfoldable pub nan_d : ℕ → ℕ → ℕ → Bool → ℕ
nan_d r first second unary =
    if not (is_nan r)
    then r
    else if is_nan first
    then bit_or first 0x0008_0000_0000_0000
    else if not unary && is_nan second
    then bit_or second 0x0008_0000_0000_0000
    else 0xFFF8_0000_0000_0000

unfoldable pub nan_s : ℕ → ℕ → ℕ → Bool → ℕ
nan_s r first second unary =
    if not (is_nan_s r)
    then r
    else if is_nan_s first
    then bit_or first 0x0040_0000
    else if not unary && is_nan_s second
    then bit_or second 0x0040_0000
    else 0xFFC0_0000

-- `x86_nan_d` and `x86_nan_s`
unfoldable pub x86_nan_d : ℕ → ℕ → ℕ → ℕ → ℕ
unfolding nan_d
x86_nan_d op r first second =
    let unary = op == 0x51 in
    if (op == 0x5D) || (op == 0x5F)
    then r
    else nan_d r (if unary then second else first) second unary

unfoldable pub x86_nan_s : ℕ → ℕ → ℕ → ℕ → ℕ
unfolding nan_s
x86_nan_s op r first second =
    let unary = op == 0x51 in
    if (op == 0x5D) || (op == 0x5F)
    then r
    else nan_s r (if unary then second else first) second unary

-- `rsd_i_cvt2si`
abbrev pub fits_int : ℕ → Option ℤ → Option ℕ
fits_int w none = none
fits_int w (some (pos n)) = if ltb n (2 ^ (w - 1)) then some n else none
fits_int w (some (negsuc n)) = if ltb n (2 ^ (w - 1)) then some (2 ^ w - 1 - n) else none

unfoldable pub cvt2si : Floats → ℕ → ℕ → Bool → ℕ → ℕ
cvt2si f bits fsize nearest isize =
    let v = if fsize == 8 then bits else f.widen (bits % 2 ^ 32) in
    let w = if isize == 4 then 32 else 64 in
    elim (fits_int w (f.rounded nearest v)) [ none ↦ 2 ^ (w - 1) | some r ↦ r ]

-- `comis`, on doubles: the new flags.
unfoldable pub comis : Floats → ℕ → ℕ → ℕ → ℕ
unfolding clear raise_if
comis f flags a b =
    let unordered = is_nan a || is_nan b in
    let below = not unordered && f.lt a b in
    let same = not unordered && not below && f.eq a b in
    raise_if (unordered || below) f_cf (
      raise_if unordered f_pf
        (raise_if (unordered || same) f_zf (clear flags (f_of + f_af + f_sf + f_zf + f_pf + f_cf))))

-- `fcmp`
unfoldable pub fcmp : Floats → ℕ → ℕ → ℕ → Bool
fcmp f pred x y =
    let un = is_nan x || is_nan y in
    let k = pred % 8 in
    if k == 0
    then not un && f.eq x y
    else if k == 1
    then not un && f.lt x y
    else if k == 2
    then not un && f.le x y
    else if k == 3
    then un
    else if k == 4
    then un || not (f.eq x y)
    else if k == 5
    then un || not (f.lt x y)
    else if k == 6
    then un || not (f.le x y)
    else not un

-- `fbin`: `x > y` is `y < x`.
unfoldable pub fbin : Floats → ℕ → ℕ → ℕ → ℕ
fbin f op x y =
    if op == 0x58
    then f.add x y
    else if op == 0x59
    then f.mul x y
    else if op == 0x5C
    then f.sub x y
    else if op == 0x5E
    then f.div x y
    else if op == 0x5D
    then (if f.lt x y then x else y)
    else if f.lt y x
    then x
    else y

-- One lane of the arithmetic: the operation, and the NaN that x86 gives.
unfoldable pub arith_d : Floats → ℕ → ℕ → ℕ → ℕ
unfolding fbin x86_nan_d
arith_d f op x y = x86_nan_d op (if op == 0x51 then f.sqrt_d y else fbin f op x y) x y

unfoldable pub arith_s : Floats → ℕ → ℕ → ℕ → ℕ
unfolding fbin x86_nan_s
arith_s f op x y =
    let r = if op == 0x51 then f.sqrt_s y else f.narrow (fbin f op (f.widen x) (f.widen y)) in
    x86_nan_s op r x y
