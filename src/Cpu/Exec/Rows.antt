-- ===== src/Cpu/Exec/Rows.antt =====
-- src/cpu.c, `step`: the rows of the ALU, in their three encodings, and moves between operands.
use rashid.Base.{ℕ, ◌-◌, ◌*◌, ◌/◌, ◌%◌, ◌^◌, bit_and, not, ◌&&◌, ◌==◌, if◌then◌else◌}
use rashid.Cpu.{has, extend, sext}
use rashid.Cpu.State.{Cpu, Fault, rax, rdx}
use rashid.Cpu.Flags.{flags_logic}
use rashid.Cpu.Registers.{getreg, setreg, setreg8}
use rashid.Cpu.Alu.{compute, writes, row_of, acc_row_of, group1_of}
use rashid.Cpu.Decode.{Operand, reg, Decoder, fetch, modrm, fixup_rip, rd, wr}
use rashid.Cpu.Exec.Common.{
  advance, stop, set_flags, op_reg, fetch_signed, fetch_acc, operand, apply_to,
}

-- op r/m, r and op r, r/m, with `test` and `mov`.
unfoldable pub alu_row : Cpu → Decoder → ℕ → Cpu
unfolding operand rd apply_to row_of
alu_row c d op =
    let size = if has (bit_and op 1) then d.opsize else 1 in
    let to_reg = has (bit_and op 2) && not (op == 0x84) && not (op == 0x85) in
    let (i, rm, d') = operand c d in
    let dst = if to_reg then reg i else rm in
    let src = if to_reg then rm else reg i in
    let (a, c1) = rd (advance c d') dst size d.has_rex in
    let (b, c2) = rd c1 src size d.has_rex in apply_to (row_of op) c2 dst a b size d.has_rex

-- op eAX, imm. The register is written as a whole register, also al.
unfoldable pub alu_acc : Cpu → Decoder → ℕ → Cpu
unfolding fetch_acc getreg setreg compute acc_row_of
alu_acc c d op =
    let size = if has (bit_and op 1) then d.opsize else 1 in
    let (b, d') = fetch_acc size c d in
    let c1 = advance c d' in
    let (r, flags) = compute (acc_row_of op) c1.flags (getreg c1 rax size) b size in
    let c2 = set_flags c1 flags in if writes (acc_row_of op) then setreg c2 rax r size else c2

-- test eAX, imm
unfoldable pub test_acc : Cpu → Decoder → ℕ → Cpu
unfolding fetch_acc getreg flags_logic
test_acc c d op =
    let size = if op == 0xA8 then 1 else d.opsize in
    let (b, d') = fetch_acc size c d in
    set_flags (advance c d') (flags_logic c.flags (bit_and (getreg c rax size) b) size)

-- op r/m, imm
unfoldable pub group1 : Cpu → Decoder → ℕ → Cpu
unfolding modrm fetch_signed fixup_rip rd apply_to group1_of
group1 c d op =
    let size = if op == 0x80 then 1 else d.opsize in
    let (ext, o, d1) = modrm c d in
    let (b, d2) = fetch_signed (if op == 0x81 then 4 else 1) c d1 in
    let rm = fixup_rip d2 o in
    let (a, c') = rd (advance c d2) rm size d.has_rex in
    apply_to (group1_of (bit_and ext 7)) c' rm a b size d.has_rex

-- imul r, r/m, imm and imul r, r/m: the low 64 bits of the product of two int64_t.
unfoldable pub imul_imm : Cpu → Decoder → ℕ → Cpu
unfolding modrm fetch_signed fixup_rip rd sext setreg flags_logic
imul_imm c d op =
    let (i, o, d1) = modrm c d in
    let (imm, d2) = fetch_signed (if op == 0x6B then 1 else 4) c d1 in
    let (v, c') = rd (advance c d2) (fixup_rip d2 o) d.opsize d.has_rex in
    let r = sext v d.opsize * imm % 2 ^ 64 in
    set_flags (setreg c' i r d.opsize) (flags_logic c'.flags r d.opsize)

unfoldable pub imul_rm : Cpu → Decoder → Cpu
unfolding operand rd sext getreg setreg flags_logic
imul_rm c d =
    let (i, rm, d') = operand c d in
    let c1 = advance c d' in
    let (v, c2) = rd c1 rm d.opsize d.has_rex in
    let r = sext (getreg c1 i d.opsize) d.opsize * sext v d.opsize % 2 ^ 64 in
    set_flags (setreg c2 i r d.opsize) (flags_logic c2.flags r d.opsize)

-- movsxd
unfoldable pub movsxd : Cpu → Decoder → Cpu
unfolding operand rd setreg
movsxd c d =
    let (i, rm, d') = operand c d in
    let (v, c') = rd (advance c d') rm 4 d.has_rex in setreg c' i (extend 32 v) d.opsize

-- xchg r/m, r
unfoldable pub xchg : Cpu → Decoder → Cpu
unfolding operand rd wr
xchg c d =
    let (i, rm, d') = operand c d in
    let (a, c1) = rd (advance c d') rm d.opsize d.has_rex in
    let (b, c2) = rd c1 (reg i) d.opsize d.has_rex in
    wr (wr c2 rm b d.opsize d.has_rex) (reg i) a d.opsize d.has_rex

-- lea; the segment is left out of the address.
unfoldable pub load_address : Cpu → ℕ → Operand → ℕ → ℕ → Cpu
unfolding setreg
load_address c i (Operand.reg _) size start = stop c Fault.lea_register start
load_address c i (Operand.memory a seg) size start = setreg c i a size
load_address c i (Operand.pending a seg) size start = setreg c i a size

unfoldable pub lea : Cpu → Decoder → Cpu
unfolding operand load_address
lea c d = let (i, rm, d') = operand c d in load_address (advance c d') i rm d.opsize d.rip0

-- cwde and cdqe; cdq and cqo.
unfoldable pub widen_acc : Cpu → Decoder → Cpu
unfolding getreg sext setreg
widen_acc c d =
    let half = d.opsize / 2 in setreg (advance c d) rax (sext (getreg c rax half) half) d.opsize

unfoldable pub sign_acc : Cpu → Decoder → Cpu
unfolding getreg sext setreg
sign_acc c d =
    setreg (advance c d) rdx
      (if has (sext (getreg c rax d.opsize) d.opsize / 2 ^ 63) then 2 ^ 64 - 1 else 0) d.opsize

-- mov r8, imm8 and mov r, imm
unfoldable pub mov_imm8 : Cpu → Decoder → ℕ → Cpu
unfolding fetch setreg8
mov_imm8 c d op = let (v, d') = fetch 1 c d in setreg8 (advance c d') (op_reg op d) v d.has_rex

unfoldable pub mov_imm : Cpu → Decoder → ℕ → Cpu
unfolding fetch setreg
mov_imm c d op =
    let (v, d') = fetch (if d.opsize == 8 then 8 else if d.opsize == 2 then 2 else 4) c d in
    setreg (advance c d') (op_reg op d) v d.opsize

-- mov r/m, imm
unfoldable pub mov_rm_imm : Cpu → Decoder → ℕ → Cpu
unfolding modrm fetch fetch_signed fixup_rip wr
mov_rm_imm c d op =
    let (_, o, d1) = modrm c d in
    let (v, d2) = if op == 0xC6 then fetch 1 c d1 else fetch_signed 4 c d1 in
    wr (advance c d2) (fixup_rip d2 o) v (if op == 0xC6 then 1 else d.opsize) d.has_rex
