-- ===== src/Cpu.antt =====
-- src/cpu.c, src/cpu.h: the x86-64 interpreter. Words of a given size, and the flags register.
pub mod State
pub mod Flags
pub mod Memory
pub mod Registers
pub mod Decode
pub mod Alu
pub mod Exec
pub mod Sse
pub mod Run
pub mod Start
pub mod Variadic
use rashid.Base.{
  ℕ, zero, suc, ◌+◌, ◌-◌, ◌*◌, ◌/◌, ◌%◌, ◌^◌, bit_and, Bool, true, false, not, ltb, ◌==◌,
  if◌then◌else◌, ◌≡◌, ◌⊎◌, ℤ, pos, negsuc,
}

-- A C condition on a number: is it different from 0?
abbrev pub has : ℕ → Bool
has x = not (x == 0)

-- The operand sizes, in bytes.
abbrev pub IsSize : ℕ → Type 0
IsSize size = (size ≡ 1) ⊎ (size ≡ 2) ⊎ (size ≡ 4) ⊎ (size ≡ 8)

-- `trunc_sz`
unfoldable pub trunc_sz : ℕ → ℕ → ℕ
trunc_sz v size =
    if size == 1
    then bit_and v 0xff
    else if size == 2
    then bit_and v 0xffff
    else if size == 4
    then bit_and v 0xffff_ffff
    else v

-- A value of w bits, sign-extended to 64: the conversions to intN_t and then to int64_t.
abbrev pub extend : ℕ → ℕ → ℕ
extend w v = let low = v % 2 ^ w in if ltb low (2 ^ (w - 1)) then low else low + (2 ^ 64 - 2 ^ w)

-- `sext`; the int64_t is given by its 64-bit pattern.
unfoldable pub sext : ℕ → ℕ → ℕ
sext v size =
    if size == 1
    then extend 8 v
    else if size == 2
    then extend 16 v
    else if size == 4
    then extend 32 v
    else v

-- The integer that a 64-bit pattern stands for.
abbrev pub signed : ℕ → ℤ
signed v = if ltb v (2 ^ 63) then pos v else negsuc (2 ^ 64 - v - 1)
