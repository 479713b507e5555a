-- ===== src/Jit/Liveness/Sound.antt =====
-- Leaving out the flags that are not needed cannot be observed (src/jit.c, flag_liveness): a block
-- in which each instruction produces the flags that it is asked for, against the interpreter.
use rashid.Base.{
  ℕ, ◌-◌, ◌*◌, ◌%◌, ◌^◌, ◌<◌, bit_and, bit_or, Bool, List, [], ◌∷◌, ◌==◌, if◌then◌else◌, ◌≡◌, ◌⊎◌,
  add64, sub64,
}
use rashid.Bits.{bit}
use rashid.Cpu.{sext}
use rashid.Cpu.Flags.{cond, flags_logic, flags_inc, flags_dec}
use rashid.Cpu.Alu.{compute, row_of, shift}
use rashid.Jit.Liveness.{Insn, Kind, op_inc, op_dec}

-- The values that an instruction meets in a run: its operands, cl, and the row of a shift.
pub record Operands : Type 0 where
  pub a : ℕ
  pub b : ℕ
  pub cl : ℕ
  pub ext : ℕ

abbrev pub Executed : Type 0
Executed = Insn × Operands

abbrev pub insns : List Executed → List Insn
insns [] = []
insns ((o, x) ∷ es) = o ∷ insns es

-- The count of a shift.
abbrev pub count_of : Insn → Operands → ℕ
count_of o x =
    bit_and (if o.by_cl then bit_and x.cl 0xff else o.imm) (if o.size == 8 then 63 else 31)

-- The flags behind an instruction in the interpreter, by its routines; f are the flags before.
abbrev pub alu_flags : Insn → Operands → ℕ → ℕ
alu_flags o x f =
    if o.op == op_inc
    then flags_inc f x.a (add64 x.a 1) o.size
    else if o.op == op_dec
    then flags_dec f x.a (sub64 x.a 1) o.size
    else (compute (row_of o.op) f x.a x.b o.size).1

abbrev pub shift_flags : Insn → Operands → ℕ → ℕ
shift_flags o x f = if count_of o x == 0 then f else (shift f x.a (count_of o x) o.size x.ext).1

abbrev pub flags_by : Kind → Insn → Operands → ℕ → ℕ
flags_by Kind.rr o x f = alu_flags o x f
flags_by Kind.ri o x f = alu_flags o x f
flags_by Kind.rm o x f = alu_flags o x f
flags_by Kind.mr o x f = alu_flags o x f
flags_by Kind.mi o x f = alu_flags o x f
flags_by Kind.imul o x f = flags_logic f (sext x.a o.size * sext x.b o.size % 2 ^ 64) o.size
flags_by Kind.shift o x f = shift_flags o x f
flags_by _ o x f = f

unfoldable pub interpreted : Insn → Operands → ℕ → ℕ
interpreted o x f = flags_by o.kind o x f

-- The flags of `need` from the interpreter's, the others as they were: `put_flags`. A shift calls
-- the interpreter's routine, whatever is needed.
abbrev pub asked : ℕ → ℕ → ℕ → ℕ
asked need new old = bit_or (bit_and new need) (bit_and old (2 ^ 32 - 1 - need))

abbrev pub compiled_by : Kind → Insn → Operands → ℕ → ℕ → ℕ
compiled_by Kind.shift o x need f = shift_flags o x f
compiled_by k o x need f = asked need (flags_by k o x f) f

unfoldable pub compiled : Insn → Operands → ℕ → ℕ → ℕ
compiled o x need f = compiled_by o.kind o x need f

-- What an instruction makes of the flags besides: the condition of a jump or of a setcc.
abbrev pub sees_by : Kind → ℕ → ℕ → List Bool
sees_by Kind.jcc cc f = cond f cc ∷ []
sees_by Kind.setcc cc f = cond f cc ∷ []
sees_by _ cc f = []

unfoldable pub sees : Insn → ℕ → List Bool
unfolding cond
sees o f = sees_by o.kind o.cc f

-- A run of the interpreter: the flags at the end, and what each instruction saw.
unfoldable pub full : List Executed → ℕ → ℕ
unfolding interpreted
full [] f = f
full ((o, x) ∷ es) f = full es (interpreted o x f)

unfoldable pub full_seen : List Executed → ℕ → List (List Bool)
unfolding interpreted sees
full_seen [] f = []
full_seen ((o, x) ∷ es) f = sees o f ∷ full_seen es (interpreted o x f)

-- A run of compiled code: each instruction sets the flags that it is asked for.
unfoldable pub lazy : List Executed → List ℕ → ℕ → ℕ
unfolding compiled
lazy [] ns f = f
lazy (e ∷ es) [] f = f
lazy ((o, x) ∷ es) (n ∷ ns) f = lazy es ns (compiled o x n f)

unfoldable pub lazy_seen : List Executed → List ℕ → ℕ → List (List Bool)
unfolding compiled sees
lazy_seen [] ns f = []
lazy_seen (e ∷ es) [] f = []
lazy_seen ((o, x) ∷ es) (n ∷ ns) f = sees o f ∷ lazy_seen es ns (compiled o x n f)

-- The operations that `put_op` knows, and the codes of conditions.
abbrev pub IsOp : ℕ → Type 0
IsOp op =
    (op ≡ 0x00)
    ⊎ (op ≡ 0x08)
    ⊎ (op ≡ 0x20)
    ⊎ (op ≡ 0x28)
    ⊎ (op ≡ 0x30)
    ⊎ (op ≡ 0x38)
    ⊎ (op ≡ 0x85)
    ⊎ (op ≡ 0x88)
    ⊎ (op ≡ op_inc)
    ⊎ (op ≡ op_dec)

abbrev pub IsKnown : Kind → Insn → Type 0
IsKnown Kind.rr o = IsOp o.op
IsKnown Kind.ri o = IsOp o.op
IsKnown Kind.rm o = IsOp o.op
IsKnown Kind.mr o = IsOp o.op
IsKnown Kind.mi o = IsOp o.op
IsKnown Kind.jcc o = o.cc < 16
IsKnown Kind.setcc o = o.cc < 16
IsKnown _ o = Unit {0}

abbrev pub AllKnown : List Executed → Type 0
AllKnown [] = Unit {0}
AllKnown ((o, x) ∷ es) = IsKnown o.kind o × AllKnown es

-- Two flag registers that a mask cannot tell apart.
abbrev pub Agree : ℕ → ℕ → ℕ → Type 0
Agree mask f g = (k : ℕ) → k < 32 → bit mask k ≡ 1 → bit f k ≡ bit g k

-- Before an instruction that writes w and reads rd, the flags `live` being needed behind it.
abbrev Before : ℕ → ℕ → ℕ → ℕ → ℕ → Type 0
Before live w rd f g = Agree (bit_or (bit_and live (2 ^ 32 - 1 - w)) rd) f g
