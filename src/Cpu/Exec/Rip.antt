-- ===== src/Cpu/Exec/Rip.antt =====
-- src/cpu.c, `step`: where an instruction leaves rip.
use rashid.Base.{ℕ, Bool, ◌==◌, ◌≡◌, refl, add64, Bool-cases, inl, inr}
use rashid.Cpu.State.{Cpu}
use rashid.Cpu.Memory.{ld, st, access_ok, memfault}
use rashid.Cpu.Memory.RoundTrip.{st_keeps}
use rashid.Cpu.Registers.{setreg, setreg8, push, pop, is_high}
use rashid.Cpu.Decode.{Operand, reg, memory, pending, rd, wr}
use rashid.Cpu.Alu.{Operation, writes, compute}
use rashid.Cpu.Exec.Common.{apply_to, set_flags}

pub ld-rip : (c : Cpu) (a size : ℕ) → (ld c a size).1.rip ≡ c.rip
unfolding ld memfault
ld-rip c a size = elim (Bool-cases (access_ok c a size 1)) [ inl e ↦ rw e refl | inr e ↦ rw e refl ]

pub st-rip : (c : Cpu) (a v size : ℕ) → (st c a v size).rip ≡ c.rip
st-rip c a v size = let (_, _, _, e) = st_keeps c a v size in e

pub rd-rip : (c : Cpu) (o : Operand) (size : ℕ) (rex : Bool) → (rd c o size rex).1.rip ≡ c.rip
unfolding rd
rd-rip c (reg i) size rex = refl
rd-rip c (memory a seg) size rex = ld-rip c (add64 a seg) size
rd-rip c (pending a seg) size rex = ld-rip c (add64 a seg) size

setreg8-rip : (c : Cpu) (i v : ℕ) (rex : Bool) → (setreg8 c i v rex).rip ≡ c.rip
unfolding setreg8
setreg8-rip c i v rex = elim (Bool-cases (is_high i rex)) [ inl e ↦ rw e refl | inr e ↦ rw e refl ]

pub wr-rip : (c : Cpu) (o : Operand) (v size : ℕ) (rex : Bool) → (wr c o v size rex).rip ≡ c.rip
unfolding wr setreg
wr-rip c (reg i) v size rex = elim (Bool-cases (size == 1)) [
  | inl e ↦ rw e (setreg8-rip c i v rex)
  | inr e ↦ rw e refl
]
wr-rip c (memory a seg) v size rex = st-rip c (add64 a seg) v size
wr-rip c (pending a seg) v size rex = st-rip c (add64 a seg) v size

pub apply_to-rip :
    (o : Operation) (c : Cpu) (dst : Operand) (a b size : ℕ) (rex : Bool)
    → (apply_to o c dst a b size rex).rip ≡ c.rip
unfolding apply_to
apply_to-rip o c dst a b size rex =
    let c' = set_flags c (compute o c.flags a b size).1 in
    elim (Bool-cases (writes o)) [
      | inl e ↦ rw e (wr-rip c' dst (compute o c.flags a b size).0 size rex)
      | inr e ↦ rw e refl
    ]

pub push-rip : (c : Cpu) (v : ℕ) → (push c v).rip ≡ c.rip
unfolding push
push-rip c v = st-rip _ _ _ 8

pub pop-rip_same : (c : Cpu) → (pop c).1.rip ≡ c.rip
unfolding pop
pop-rip_same c = ld-rip c _ 8
