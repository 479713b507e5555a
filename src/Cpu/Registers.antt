-- ===== src/Cpu/Registers.antt =====
-- src/cpu.c, "registers": parts of a register, and the stack.
pub mod Parts
pub mod Stack
use rashid.Base.{
  ℕ, ◌+◌, ◌-◌, ◌*◌, ◌/◌, ◌%◌, ◌^◌, ◌≤◌, ◌<◌, bit_and, bit_or, Bool, true, false, not, ◌&&◌, ◌||◌,
  ◌≡◌, ◌≢◌, refl, ltb, leb, ◌==◌, if◌then◌else◌, add64, sub64, update, arith, Bool-cases, inl, inr,
  ap, ◌∙◌,
}
use rashid.Cpu.{trunc_sz, IsSize}
use rashid.Cpu.State.{Cpu, rsp}
use rashid.Cpu.Memory.{ld, st}

abbrev pub not64 : ℕ → ℕ
not64 x = 2 ^ 64 - 1 - x

-- The switch of `setreg`: a 32-bit write clears the upper half, narrower ones keep the rest.
unfoldable pub merge : ℕ → ℕ → ℕ → ℕ
merge old v size =
    if size == 1
    then bit_or (bit_and old (not64 0xff)) (bit_and v 0xff)
    else if size == 2
    then bit_or (bit_and old (not64 0xffff)) (bit_and v 0xffff)
    else if size == 4
    then bit_and v 0xffff_ffff
    else v

unfoldable pub setreg : Cpu → ℕ → ℕ → ℕ → Cpu
unfolding merge
setreg c i v size = record c { r = update c.r i (merge (c.r i) v size) }

unfoldable pub getreg : Cpu → ℕ → ℕ → ℕ
unfolding trunc_sz
getreg c i size = trunc_sz (c.r i) size

-- Without a REX prefix the byte registers 4 to 7 are ah, ch, dh and bh.
abbrev pub is_high : ℕ → Bool → Bool
is_high i rex = not rex && leb 4 i && ltb i 8

unfoldable pub getreg8 : Cpu → ℕ → Bool → ℕ
getreg8 c i rex = if is_high i rex then bit_and (c.r (i - 4) / 2 ^ 8) 0xff else bit_and (c.r i) 0xff

unfoldable pub setreg8 : Cpu → ℕ → ℕ → Bool → Cpu
setreg8 c i v rex =
    if is_high i rex
    then record c {
      r =
          update c.r (i - 4)
            (bit_or (bit_and (c.r (i - 4)) (not64 0xff00)) (bit_and v 0xff * 2 ^ 8));
    }
    else record c { r = update c.r i (bit_or (bit_and (c.r i) (not64 0xff)) (bit_and v 0xff)) }

unfoldable pub push : Cpu → ℕ → Cpu
unfolding st
push c v = let sp = sub64 (c.r rsp) 8 in st (record c { r = update c.r rsp sp }) sp v 8

unfoldable pub pop : Cpu → ℕ × Cpu
unfolding ld
pop c =
    let (v, c') = ld c (c.r rsp) 8 in (v, record c' { r = update c'.r rsp (add64 (c'.r rsp) 8) })
