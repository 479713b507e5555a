-- ===== src/Cpu/Exec/TwoByte.antt =====
-- src/cpu.c, `step`: the integer instructions behind the byte 0F.
use rashid.Base.{
  ℕ, ◌-◌, ◌*◌, ◌/◌, ◌%◌, ◌^◌, bit_and, bit_or, Bool, ◌&&◌, ◌||◌, ltb, leb, ◌==◌, if◌then◌else◌,
}
use rashid.Cpu.{has, sext}
use rashid.Cpu.State.{Cpu, Fault, rcx}
use rashid.Cpu.Flags.{cond, flags_logic}
use rashid.Cpu.Registers.{getreg, setreg}
use rashid.Cpu.Decode.{Decoder, fetch, modrm, fixup_rip, rd, wr}
use rashid.Cpu.Exec.Common.{advance, stop, set_flags, operand}
use rashid.Cpu.Exec.Rows.{imul_rm}
use rashid.Cpu.Exec.Flow.{jcc}

-- nop with an operand
unfoldable pub long_nop : Cpu → Decoder → Cpu
unfolding operand
long_nop c d = let (_, _, d') = operand c d in advance c d'

unfoldable pub setcc : Cpu → Decoder → ℕ → Cpu
unfolding operand wr cond
setcc c d op =
    let (_, rm, d') = operand c d in
    wr (advance c d') rm (if cond c.flags (bit_and op 0xF) then 1 else 0) 1 d.has_rex

-- cmovcc: the operand is read only when the condition holds.
unfoldable pub cmovcc : Cpu → Decoder → ℕ → Cpu
unfolding operand rd setreg cond
cmovcc c d op =
    let (i, rm, d') = operand c d in
    let c1 = advance c d' in
    let (v, c2) = rd c1 rm d.opsize d.has_rex in
    if cond c1.flags (bit_and op 0xF) then setreg c2 i v d.opsize else c1

-- A shift of uint64_t to the left by k: bits above 64 are lost.
abbrev pub shl64 : ℕ → ℕ → ℕ
shl64 v k = v * 2 ^ k % 2 ^ 64

-- The value of shld and shrd. A count above the operand's width, which C leaves undefined where
-- the other shift becomes negative, moves by 0 here.
unfoldable pub double_shift : Bool → ℕ → ℕ → ℕ → ℕ → ℕ
double_shift left dst src cnt w =
    if left
    then bit_or (shl64 dst cnt) (src / 2 ^ (w - cnt))
    else bit_or (dst / 2 ^ cnt) (shl64 src (w - cnt))

unfoldable pub shift_double : Cpu → Decoder → ℕ → Cpu
unfolding modrm fetch fixup_rip rd wr getreg flags_logic double_shift
shift_double c d op =
    let size = d.opsize in
    let (i, o, d1) = modrm c d in
    let (raw, d2) =
      if (op == 0xA4) || (op == 0xAC) then fetch 1 c d1 else (bit_and (c.r rcx) 0xff, d1) in
    let rm = fixup_rip d2 o in
    let c1 = advance c d2 in
    let cnt = bit_and raw (if size == 8 then 63 else 31) in
    let (dst, c2) = rd c1 rm size d.has_rex in
    let r = double_shift (ltb op 0xAC) dst (getreg c2 i size) cnt (size * 8) in
    if cnt == 0 then c1 else wr (set_flags c2 (flags_logic c2.flags r size)) rm r size d.has_rex

-- movzx and movsx. `rd` of one byte takes ah to bh from a register operand as `getreg8` does.
unfoldable pub mov_extended : Cpu → Decoder → ℕ → Cpu
unfolding operand rd sext setreg
mov_extended c d op =
    let size = if has (bit_and op 1) then 2 else 1 in
    let (i, rm, d') = operand c d in
    let (v, c') = rd (advance c d') rm size d.has_rex in
    setreg c' i (if has (bit_and op 8) then sext v size else v) d.opsize

-- What follows the calls of `do_syscall` and `sse_exec` in `case 0x0F`.
unfoldable pub two_byte : Cpu → Decoder → ℕ → Cpu
unfolding long_nop jcc setcc cmovcc shift_double imul_rm mov_extended
two_byte c d op =
    if (op == 0x1E) || (op == 0x1F)
    then long_nop c d
    else if leb 0x80 op && leb op 0x8F
    then jcc 4 c d op
    else if leb 0x90 op && leb op 0x9F
    then setcc c d op
    else if leb 0x40 op && leb op 0x4F
    then cmovcc c d op
    else if (op == 0xA4) || (op == 0xA5) || (op == 0xAC) || (op == 0xAD)
    then shift_double c d op
    else if op == 0xAF
    then imul_rm c d
    else if (op == 0xB6) || (op == 0xB7) || (op == 0xBE) || (op == 0xBF)
    then mov_extended c d op
    else stop c Fault.unimplemented_opcode d.rip0
