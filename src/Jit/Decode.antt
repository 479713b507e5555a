-- ===== src/Jit/Decode.antt =====
-- src/jit.c, `decode`: the instructions that the compiler understands.
pub mod Common
pub mod Forms
pub mod Follows
pub mod Dispatch
pub mod TwoByte
pub mod OneByte
pub mod Landing
pub mod Agrees
use rashid.Base.{
  ℕ, ◌+◌, ◌-◌, ◌*◌, ◌/◌, ◌%◌, ◌^◌, bit_and, bit_or, Bool, true, false, not, ◌&&◌, ◌||◌, Option,
  none, some, ltb, leb, ◌==◌, if◌then◌else◌, add64, List, [], ◌∷◌,
}
use rashid.Cpu.{has, extend}
use rashid.Cpu.Memory.{read}
use rashid.Cpu.Decode.{rex_bit, field}
use rashid.Cpu.Exec.{between}
use rashid.Jit.Liveness.{Kind, op_inc, op_dec}
use rashid.Jit.Liveness
use rashid.Jit.Address
use rashid.Jit.Address.{modrm_mem}
use rashid.Jit.Decode.Common.{Sse, Prefixes, Decoded, blank, ModRm, take_modrm, is_mem, Answer}
use rashid.Jit.Decode.Forms.{
  is_row, row, group_imm, is_acc, acc_imm, mov_imm, shifts, two_operands, imul3, lea_insn, push_pop,
  relative, group5_insn,
}

-- The forms that `decode_sse` takes, by the mandatory prefix.
unfoldable pub sse_form : ℕ → ℕ → Bool
sse_form mand op2 =
    let scalar = (mand == 0xF2) || (mand == 0xF3) in
    let packed = (mand == 0) || (mand == 0x66) in
    if (op2 == 0x10) || (op2 == 0x11)
    then true
    else if (op2 == 0x28)
        || (op2 == 0x29)
        || between 0x54 0x57 op2
        || (op2 == 0x2E)
        || (op2 == 0x2F)
    then packed
    else if (op2 == 0xDB) || (op2 == 0xEB) || (op2 == 0xEF)
    then mand == 0x66
    else ((op2 == 0x51)
        || (op2 == 0x58)
        || (op2 == 0x59)
        || between 0x5C 0x5F op2
        || (op2 == 0xC2)
        || (op2 == 0x2A)
        || (op2 == 0x2C)
        || (op2 == 0x2D)
        || (op2 == 0x5A))
      && scalar

-- `decode_sse`
unfoldable pub decode_sse : (ℕ → ℕ) → ℕ → Prefixes → ℕ → Answer
unfolding take_modrm sse_form
decode_sse mem p x op2 =
    let r = take_modrm mem p x.rex in
    let fields : Sse = record {
      mand = x.mand;
      op2 = op2;
      isize = if has (bit_and x.rex 8) then 8 else 4;
      xreg = r.regf;
      xsrc = if is_mem r then 0 else r.rm;
      pred = if op2 == 0xC2 then bit_and (read mem r.p 1) 7 else 0;
    } in
    if sse_form x.mand op2
    then some (
      if op2 == 0xC2 then r.p + 1 else r.p,
      record (blank x) { kind = Kind.sse; operand = r.operand; sse = some fields },
    )
    else none

-- `case 0x0F`: p is the address behind the second opcode byte.
unfoldable pub two_byte_insn : (ℕ → ℕ) → ℕ → Prefixes → ℕ → Answer
unfolding relative take_modrm decode_sse
two_byte_insn mem p x op2 =
    let r = take_modrm mem p x.rex in
    let plain = x.mand == 0 in
    if between 0x80 0x8F op2
    then (if plain then relative Kind.jcc 4 mem p x (bit_and op2 0xF) else none)
    else if op2 == 0xAF
    then (if plain then some (r.p, record (two_operands x r) { kind = Kind.imul }) else none)
    else if between 0x90 0x9F op2
    then (if plain
        then some (
          r.p,
          record (blank x) {
            kind = Kind.setcc;
            size = 1;
            cc = bit_and op2 0xF;
            reg = if is_mem r then 0 else r.rm;
            operand = r.operand;
          },
        )
        else none)
    else if (op2 == 0xB6) || (op2 == 0xB7) || (op2 == 0xBE) || (op2 == 0xBF)
    then (if plain
        then some (
          r.p,
          record (two_operands x r) {
            kind = Kind.movx;
            ssize = if has (bit_and op2 1) then 2 else 1;
            sign = has (bit_and op2 8);
          },
        )
        else none)
    else if op2 == 0x1F
    then (if plain || (x.mand == 0x66)
        then some (r.p, record (blank x) { kind = Kind.nop })
        else none)
    else decode_sse mem p x op2

-- The switch on the opcode; p is the address behind it.
unfoldable pub decode_op : (ℕ → ℕ) → ℕ → Prefixes → ℕ → Answer
unfolding row group_imm acc_imm mov_imm shifts imul3 lea_insn push_pop relative two_byte_insn
    group5_insn
decode_op mem p x op =
    if is_row op
    then row mem p x op
    else if (op == 0x80) || (op == 0x81) || (op == 0x83) || (op == 0xC6) || (op == 0xC7)
    then group_imm mem p x op
    else if is_acc op
    then acc_imm mem p x op
    else if between 0xB0 0xBF op
    then mov_imm mem p x op
    else if (op == 0xC0) || (op == 0xC1) || between 0xD0 0xD3 op
    then shifts mem p x op
    else if (op == 0x69) || (op == 0x6B)
    then imul3 mem p x op
    else if op == 0x8D
    then lea_insn mem p x
    else if between 0x50 0x5F op
    then push_pop p x op
    else if op == 0x90
    then (if has x.rex then none else some (p, blank x))
    else if between 0x70 0x7F op
    then relative Kind.jcc 1 mem p x (bit_and op 0xF)
    else if op == 0x0F
    then two_byte_insn mem (p + 1) x (read mem p 1)
    else if op == 0xEB
    then relative Kind.jmp 1 mem p x 0
    else if op == 0xE9
    then relative Kind.jmp 4 mem p x 0
    else if op == 0xE8
    then relative Kind.call 4 mem p x 0
    else if op == 0xC3
    then some (p, record (blank x) { kind = Kind.ret })
    else if (op == 0xFE) || (op == 0xFF)
    then group5_insn mem p x op
    else none

abbrev pub is_jump : Kind → Bool
is_jump Kind.jcc = true
is_jump Kind.jmp = true
is_jump Kind.call = true
is_jump _ = false

-- The length, the address behind and the target of a jump.
abbrev pub placed : ℕ → ℕ × Decoded → Decoded
placed rip (end, o) =
    let next = add64 rip (end - rip) in
    record o { next = next; target = if is_jump o.kind then add64 next o.imm else 0 }

-- The prefixes at p, and the address behind them.
unfoldable pub take_prefixes : (ℕ → ℕ) → ℕ → ℕ × Prefixes
take_prefixes mem p =
    let b0 = mem p in
    let has_mand = (b0 == 0x66) || (b0 == 0xF2) || (b0 == 0xF3) in
    let p1 = if has_mand then p + 1 else p in
    let b1 = mem p1 in
    let has_rex = b1 - b1 % 16 == 0x40 in
    (
      if has_rex then p1 + 1 else p1,
      record {
        mand = if has_mand then b0 else 0;
        rex = if has_rex then b1 else 0;
        has_rex = has_rex;
      },
    )

-- `decode`: `none` is 0.
unfoldable pub decode : (ℕ → ℕ) → ℕ → Option Decoded
unfolding take_prefixes decode_op
decode mem rip =
    let (p, x) = take_prefixes mem rip in
    let op = read mem p 1 in
    if has x.mand && not (op == 0x0F)
    then none
    else elim (decode_op mem (p + 1) x op) [ none ↦ none | some a ↦ some (placed rip a) ]
