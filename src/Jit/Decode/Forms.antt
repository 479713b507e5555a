-- ===== src/Jit/Decode/Forms.antt =====
-- src/jit.c, `decode`: its cases, each with the address behind the instruction.
use rashid.Base.{
  ℕ, ◌+◌, ◌-◌, ◌*◌, ◌%◌, bit_and, bit_or, Bool, true, not, ◌&&◌, ◌||◌, none, some, ltb, ◌==◌,
  if◌then◌else◌,
}
use rashid.Cpu.{has, extend}
use rashid.Cpu.Memory.{read}
use rashid.Cpu.Decode.{rex_bit}
use rashid.Cpu.Exec.{between}
use rashid.Jit.Liveness.{Kind, op_inc, op_dec}
use rashid.Jit.Decode.Common.{Prefixes, Decoded, blank, ModRm, take_modrm, ext_of, is_mem, Answer}

-- The rows of the ALU, test and mov, without adc and sbb.
abbrev pub is_row : ℕ → Bool
is_row op =
    (ltb op 0x40 && ltb (op % 8) 4 && not (between 0x10 0x1F op))
    || (op == 0x84)
    || (op == 0x85)
    || between 0x88 0x8B op

unfoldable pub row : (ℕ → ℕ) → ℕ → Prefixes → ℕ → Answer
unfolding take_modrm
row mem p x op =
    let to_reg = has (bit_and op 2) && not (op == 0x84) && not (op == 0x85) in
    let r = take_modrm mem p x.rex in
    let code = if (op == 0x84) || (op == 0x85) then 0x85 else op - op % 4 in
    let o : Decoded = record (blank x) {
      size = if has (bit_and op 1) then (blank x).size else 1;
      op = code;
      no_write = (code == 0x38) || (code == 0x85);
      operand = r.operand;
    } in
    if is_mem r
    then some (r.p, record o { kind = if to_reg then Kind.rm else Kind.mr; reg = r.regf })
    else some (
      r.p,
      record o {
        kind = Kind.rr;
        reg = if to_reg then r.regf else r.rm;
        src = if to_reg then r.rm else r.regf;
      },
    )

-- An immediate, cut for a 4-byte operand.
abbrev pub cut : ℕ → ℕ → ℕ
cut size v = if size == 4 then bit_and v 0xffff_ffff else v

-- `map`, the operations of group 1 by their extension.
abbrev pub group1_code : ℕ → ℕ
group1_code ext =
    if ext == 1
    then 0x08
    else if ext == 4
    then 0x20
    else if ext == 5
    then 0x28
    else if ext == 6
    then 0x30
    else if ext == 7
    then 0x38
    else 0x00

-- Operations with an immediate, and mov r/m, imm.
unfoldable pub group_imm : (ℕ → ℕ) → ℕ → Prefixes → ℕ → Answer
unfolding take_modrm
group_imm mem p x op =
    let is_byte = (op == 0x80) || (op == 0xC6) in
    let mov = (op == 0xC6) || (op == 0xC7) in
    let r = take_modrm mem p x.rex in
    let ext = ext_of r in
    let size = if is_byte then 1 else (blank x).size in
    let imm =
      if is_byte
      then read mem r.p 1
      else if op == 0x83
      then extend 8 (read mem r.p 1)
      else extend 32 (read mem r.p 4) in
    let o : Decoded = record (blank x) {
      kind = if is_mem r then Kind.mi else Kind.ri;
      size = size;
      reg = if is_mem r then 0 else r.rm;
      operand = r.operand;
      imm = cut size imm;
      op = if mov then 0x88 else group1_code ext;
      no_write = not mov && (ext == 7);
    } in
    if mov && not (ext == 0)
    then none
    else if not mov && ((ext == 2) || (ext == 3))
    then none
    else some (r.p + (if is_byte || (op == 0x83) then 1 else 4), o)

-- Operations on eAX with an immediate.
abbrev pub is_acc : ℕ → Bool
is_acc op =
    (ltb op 0x40 && between 4 5 (op % 8) && not (between 0x10 0x1F op))
    || (op == 0xA8)
    || (op == 0xA9)

unfoldable pub acc_imm : (ℕ → ℕ) → ℕ → Prefixes → ℕ → Answer
acc_imm mem p x op =
    let size = if has (bit_and op 1) then (blank x).size else 1 in
    let code = if (op == 0xA8) || (op == 0xA9) then 0x85 else op - op % 8 in
    let imm = if size == 1 then read mem p 1 else extend 32 (read mem p 4) in
    some (
      p + (if size == 1 then 1 else 4),
      record (blank x) {
        kind = Kind.ri;
        size = size;
        imm = cut size imm;
        op = code;
        no_write = (code == 0x38) || (code == 0x85);
      },
    )

-- mov r, imm
unfoldable pub mov_imm : (ℕ → ℕ) → ℕ → Prefixes → ℕ → Answer
mov_imm mem p x op =
    let size = if ltb op 0xB8 then 1 else (blank x).size in
    let n = if ltb op 0xB8 then 1 else if size == 8 then 8 else 4 in
    some (
      p + n,
      record (blank x) {
        kind = Kind.ri;
        size = size;
        reg = bit_or (bit_and op 7) (rex_bit x.rex 1);
        imm = read mem p n;
        op = 0x88;
      },
    )

-- Shifts, by an immediate, by cl or by one.
unfoldable pub shifts : (ℕ → ℕ) → ℕ → Prefixes → ℕ → Answer
unfolding take_modrm
shifts mem p x op =
    let r = take_modrm mem p x.rex in
    let by_imm = (op == 0xC0) || (op == 0xC1) in
    let by_cl = (op == 0xD2) || (op == 0xD3) in
    if ltb (ext_of r) 4
    then none
    else some (
      if by_imm then r.p + 1 else r.p,
      record (blank x) {
        kind = Kind.shift;
        size = if has (bit_and op 1) then (blank x).size else 1;
        ext = ext_of r;
        reg = if is_mem r then 0 else r.rm;
        operand = r.operand;
        imm = if by_imm then read mem r.p 1 else if by_cl then 0 else 1;
        by_cl = by_cl;
      },
    )

-- The reg field and a source, for imul and movzx, movsx.
abbrev pub two_operands : Prefixes → ModRm → Decoded
two_operands x r = record (blank x) {
  reg = r.regf;
  src = if is_mem r then 0 else r.rm;
  operand = r.operand;
}

-- imul r, r/m, imm
unfoldable pub imul3 : (ℕ → ℕ) → ℕ → Prefixes → ℕ → Answer
unfolding take_modrm
imul3 mem p x op =
    let r = take_modrm mem p x.rex in
    some (
      r.p + (if op == 0x6B then 1 else 4),
      record (two_operands x r) {
        kind = Kind.imul;
        imm_src = true;
        imm = if op == 0x6B then extend 8 (read mem r.p 1) else extend 32 (read mem r.p 4);
      },
    )

unfoldable pub lea_insn : (ℕ → ℕ) → ℕ → Prefixes → Answer
unfolding take_modrm
lea_insn mem p x =
    let r = take_modrm mem p x.rex in
    if is_mem r
    then some (r.p, record (blank x) { kind = Kind.lea; reg = r.regf; operand = r.operand })
    else none

-- push and pop of a register other than rsp
unfoldable pub push_pop : ℕ → Prefixes → ℕ → Answer
push_pop p x op =
    let reg = bit_or (bit_and op 7) (rex_bit x.rex 1) in
    if reg == 4
    then none
    else some
        (p, record (blank x) { kind = if ltb op 0x58 then Kind.push else Kind.pop; reg = reg })

-- A jump or call with a displacement of n bytes.
unfoldable pub relative : Kind → ℕ → (ℕ → ℕ) → ℕ → Prefixes → ℕ → Answer
relative kind n mem p x cc =
    some (p + n, record (blank x) { kind = kind; cc = cc; imm = extend (n * 8) (read mem p n) })

-- inc, dec, call and jmp of group 5
unfoldable pub group5_insn : (ℕ → ℕ) → ℕ → Prefixes → ℕ → Answer
unfolding take_modrm
group5_insn mem p x op =
    let r = take_modrm mem p x.rex in
    let ext = ext_of r in
    let o : Decoded = record (blank x) {
      size = if op == 0xFE then 1 else (blank x).size;
      reg = if is_mem r then 0 else r.rm;
      operand = r.operand;
    } in
    if ltb ext 2
    then some (
      r.p,
      record o {
        kind = if is_mem r then Kind.mi else Kind.ri;
        imm = 1;
        op = if ext == 0 then op_inc else op_dec;
      },
    )
    else if (op == 0xFE) || (not (ext == 2) && not (ext == 4))
    then none
    else if not (is_mem r) && (r.rm == 4)
    then none
    else some (r.p, record o { kind = if ext == 2 then Kind.callm else Kind.jmpm })
