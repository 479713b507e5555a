-- ===== src/Cpu/Sse.antt =====
-- src/cpu.c, `sse_exec`: the SSE instructions.
pub mod Compare
pub mod Lanes
pub mod Values
pub mod Forms
use rashid.Base.{
  ℕ, ◌+◌, ◌-◌, ◌*◌, ◌/◌, ◌%◌, ◌^◌, Bool, true, false, not, ◌&&◌, ◌||◌, ltb, leb, ◌==◌,
  if◌then◌else◌,
}
use rashid.Cpu.{has}
use rashid.Cpu.State.{Cpu}
use rashid.Cpu.Registers.{setreg}
use rashid.Cpu.Decode.{Operand, reg, memory, pending, Decoder, fetch, modrm, fixup_rip}
use rashid.Cpu.Exec.Common.{advance, operand}
use rashid.Cpu.Sse.Lanes.{lane16}
use rashid.Cpu.Sse.Values.{Floats, arith_d, arith_s}
use rashid.Cpu.Sse.Forms.{
  is_scalar, moves, moves_int, movd_to, movq_load, movd_from, movq_store, bitwise, packed, lanes64,
  lanes32, by_prefix, compares, from_int, to_int, convert, equal8, equal32, sign_mask, pshufd,
  interleave, compare_mask,
}

-- What `sse_exec` answers: whether it handled the opcode, and the state and the cursor then.
abbrev pub Answer : Type 0
Answer = Bool × Cpu × Decoder

abbrev pub done : Cpu → Decoder → Answer
done c d = (true, c, d)

-- pmovmskb and pextrw take a register; for a memory operand they answer false, with the operand
-- read.
unfoldable pub pmovmskb : Cpu → Decoder → Answer
unfolding operand setreg
pmovmskb c d = let (i, rm, d') = operand c d in from (advance c d') d' i rm
  where
    from : Cpu → Decoder → ℕ → Operand → Answer
    from c d i (reg j) = (true, setreg c i (sign_mask (c.xmm j) 0 16) 8, d)
    from c d i (memory a seg) = (false, c, d)
    from c d i (pending a seg) = (false, c, d)

unfoldable pub pextrw : Cpu → Decoder → Answer
unfolding modrm fetch fixup_rip setreg
pextrw c d =
    let (i, o, d1) = modrm c d in
    let (imm, d2) = fetch 1 c d1 in from (advance c d2) d2 i imm (fixup_rip d2 o)
  where
    from : Cpu → Decoder → ℕ → ℕ → Operand → Answer
    from c d i imm (reg j) = (true, setreg c i (lane16 (c.xmm j) (imm % 8)) 8, d)
    from c d i imm (memory a seg) = (false, c, d)
    from c d i imm (pending a seg) = (false, c, d)

-- `case 0x7E`: without one of its two prefixes it answers false, with the operand read.
unfoldable pub movd_or_q : Cpu → Decoder → Answer
unfolding operand movq_load movd_from
movd_or_q c d =
    let (_, _, d') = operand c d in
    if d.mand == 0xF3
    then done (movq_load c d) d
    else if d.mand == 0x66
    then done (movd_from c d) d
    else (false, advance c d', d')

-- A form that wants a prefix.
abbrev pub when : Bool → Cpu → Decoder → Cpu → Answer
when test c d c' = if test then (true, c', d) else (false, c, d)

-- The first half of the switch: moves and bitwise operations.
unfoldable pub sse_moves : Cpu → Decoder → ℕ → Answer
unfolding moves moves_int movd_to movd_or_q movq_store packed
sse_moves c d op =
    if (op == 0x10) || (op == 0x11) || (op == 0x28) || (op == 0x29)
    then done (moves c d op) d
    else if (op == 0x6F) || (op == 0x7F)
    then when ((d.mand == 0x66) || (d.mand == 0xF3)) c d (moves_int c d op)
    else if op == 0x6E
    then when (d.mand == 0x66) c d (movd_to c d)
    else if op == 0x7E
    then movd_or_q c d
    else if op == 0xD6
    then when (d.mand == 0x66) c d (movq_store c d)
    else if (leb 0x54 op && leb op 0x57) || (op == 0xDB) || (op == 0xEB) || (op == 0xEF)
    then when (ltb op 0xDB || (d.mand == 0x66)) c d (packed (lanes64 (bitwise op)) c d)
    else (false, c, d)

-- The second half: arithmetic, comparisons, conversions and lanes.
unfoldable pub sse_values : Floats → Cpu → Decoder → ℕ → Answer
unfolding by_prefix compares from_int to_int convert packed pmovmskb pshufd compare_mask pextrw
sse_values f c d op =
    if (op == 0x51) || (op == 0x58) || (op == 0x59) || (leb 0x5C op && leb op 0x5F)
    then done (by_prefix (arith_d f op) (arith_s f op) c d) d
    else if (op == 0x2E) || (op == 0x2F)
    then done (compares f c d) d
    else if op == 0x2A
    then when (is_scalar d) c d (from_int f c d)
    else if (op == 0x2C) || (op == 0x2D)
    then when (is_scalar d) c d (to_int f c d op)
    else if op == 0x5A
    then when (is_scalar d) c d (convert f c d)
    else if op == 0x74
    then when (d.mand == 0x66) c d (packed equal8 c d)
    else if op == 0x76
    then when (d.mand == 0x66) c d (packed (lanes32 equal32) c d)
    else if op == 0xD7
    then (if d.mand == 0x66 then pmovmskb c d else (false, c, d))
    else if op == 0x70
    then when (d.mand == 0x66) c d (pshufd c d)
    else if (op == 0x14) || (op == 0x15)
    then when (not (is_scalar d)) c d (packed (interleave (d.mand == 0x66) (op == 0x15)) c d)
    else if (op == 0x6C) || (op == 0x6D)
    then when (d.mand == 0x66) c d (packed (interleave true (op == 0x6D)) c d)
    else if op == 0xC2
    then done (compare_mask f c d) d
    else if op == 0xC5
    then (if d.mand == 0x66 then pextrw c d else (false, c, d))
    else (false, c, d)

abbrev pub is_move : ℕ → Bool
is_move op =
    (op == 0x10)
    || (op == 0x11)
    || (op == 0x28)
    || (op == 0x29)
    || (op == 0x6F)
    || (op == 0x7F)
    || (op == 0x6E)
    || (op == 0x7E)
    || (op == 0xD6)
    || (leb 0x54 op && leb op 0x57)
    || (op == 0xDB)
    || (op == 0xEB)
    || (op == 0xEF)

-- `sse_exec`
unfoldable pub sse_exec : Floats → Cpu → Decoder → ℕ → Answer
unfolding sse_moves sse_values
sse_exec f c d op = if is_move op then sse_moves c d op else sse_values f c d op
