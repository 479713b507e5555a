-- ===== src/Jit/Decode/Common.antt =====
-- src/jit.c: `insn`, and reading ModRM.
use rashid.Base.{
  ℕ, ◌+◌, ◌/◌, ◌^◌, bit_and, Bool, true, false, Option, none, some, ◌==◌, if◌then◌else◌,
}
use rashid.Cpu.{has}
use rashid.Cpu.Memory.{read}
use rashid.Cpu.Decode.{rex_bit, field}
use rashid.Jit.Liveness.{Kind}
use rashid.Jit.Address
use rashid.Jit.Address.{modrm_mem}

-- `insn`. `operand` is the memory operand, `none` where `mem` is false; the fields of an SSE
-- instruction are in `sse`.
pub record Sse : Type 0 where
  pub mand : ℕ
  pub op2 : ℕ
  pub isize : ℕ
  pub xreg : ℕ
  pub xsrc : ℕ
  pub pred : ℕ

pub record Decoded : Type 0 where
  pub kind : Kind
  pub op : ℕ
  pub size : ℕ
  pub reg : ℕ
  pub src : ℕ
  pub operand : Option Address.Insn
  pub imm : ℕ
  pub no_write : Bool
  pub has_rex : Bool
  pub ssize : ℕ
  pub sign : Bool
  pub ext : ℕ
  pub by_cl : Bool
  pub imm_src : Bool
  pub cc : ℕ
  pub sse : Option Sse
  pub next : ℕ
  pub target : ℕ

-- What stands before the opcode.
pub record Prefixes : Type 0 where
  pub mand : ℕ
  pub rex : ℕ
  pub has_rex : Bool

-- The memset, the REX prefix and the operand size.
abbrev pub blank : Prefixes → Decoded
blank x = record {
  kind = Kind.nop;
  op = 0;
  size = if has (bit_and x.rex 8) then 8 else 4;
  reg = 0;
  src = 0;
  operand = none;
  imm = 0;
  no_write = false;
  has_rex = x.has_rex;
  ssize = 0;
  sign = false;
  ext = 0;
  by_cl = false;
  imm_src = false;
  cc = 0;
  sse = none;
  next = 0;
  target = 0;
}

-- ModRM and what belongs to it: the byte, the two register numbers, the memory operand unless
-- the byte names a register, and the address behind.
pub record ModRm : Type 0 where
  pub m : ℕ
  pub regf : ℕ
  pub rm : ℕ
  pub operand : Option Address.Insn
  pub p : ℕ

unfoldable pub take_modrm : (ℕ → ℕ) → ℕ → ℕ → ModRm
unfolding modrm_mem
take_modrm mem p rex =
    let m = read mem p 1 in
    let (end, o) = modrm_mem mem (p + 1) rex m in
    let is_reg = m / 2 ^ 6 == 3 in
    record {
      m = m;
      regf = field m 3 (rex_bit rex 4);
      rm = field m 0 (rex_bit rex 1);
      operand = if is_reg then none else some o;
      p = if is_reg then p + 1 else end;
    }

-- The ModRM extension of a group.
abbrev pub ext_of : ModRm → ℕ
ext_of x = bit_and (x.m / 2 ^ 3) 7

abbrev pub is_mem : ModRm → Bool
is_mem x = elim x.operand [ none ↦ false | some _ ↦ true ]

-- An answer: the address behind the instruction and the instruction.
abbrev pub Answer : Type 0
Answer = Option (ℕ × Decoded)
