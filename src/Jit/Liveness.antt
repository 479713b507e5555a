-- ===== src/Jit/Liveness.antt =====
-- src/jit.c, flag liveness: which flags an instruction of a block has to produce.
pub mod Effects
pub mod Sound
use rashid.Base.{
  ℕ, ◌+◌, ◌-◌, ◌/◌, ◌^◌, bit_and, bit_or, Bool, true, false, not, ◌||◌, List, [], ◌∷◌, ◌==◌,
  if◌then◌else◌,
}
use rashid.Cpu.{has}
use rashid.Cpu.Flags.{f_cf, f_pf, f_af, f_zf, f_sf, f_of}

-- The kinds of instruction, `K_RR` and so on.
pub data Kind : Type 0 where
  rr ri rm mr mi lea push pop nop sse movx shift imul setcc : Kind
  jcc jmp call ret callm jmpm : Kind

-- The fields of `insn` that the analysis reads.
pub record Insn : Type 0 where
  pub kind : Kind
  pub op : ℕ
  pub size : ℕ
  pub imm : ℕ
  pub by_cl : Bool
  pub cc : ℕ

abbrev pub op_inc : ℕ
op_inc = 0x100

abbrev pub op_dec : ℕ
op_dec = 0x101

abbrev pub fl_all : ℕ
fl_all = 2261

abbrev pub fl_logic : ℕ
fl_logic = 2245

abbrev pub fl_inc : ℕ
fl_inc = 2260

-- The table of `cc_reads`.
unfoldable pub cc_reads : ℕ → ℕ
cc_reads cc =
    let pair = bit_and (cc / 2) 7 in
    if pair == 0
    then f_of
    else if pair == 1
    then f_cf
    else if pair == 2
    then f_zf
    else if pair == 3
    then f_cf + f_zf
    else if pair == 4
    then f_sf
    else if pair == 5
    then f_pf
    else if pair == 6
    then f_sf + f_of
    else f_zf + f_sf + f_of

-- The operations of `flags_written` by their opcode.
abbrev pub alu_written : ℕ → ℕ
alu_written op =
    if op == 0x88
    then 0
    else if (op == 0x00) || (op == 0x28) || (op == 0x38)
    then fl_all
    else if (op == op_inc) || (op == op_dec)
    then fl_inc
    else fl_logic

abbrev pub written_by : Kind → Insn → ℕ
written_by Kind.rr o = alu_written o.op
written_by Kind.ri o = alu_written o.op
written_by Kind.rm o = alu_written o.op
written_by Kind.mr o = alu_written o.op
written_by Kind.mi o = alu_written o.op
written_by Kind.imul o = fl_logic
written_by Kind.shift o =
    if o.by_cl || not (has (bit_and o.imm (if o.size == 8 then 63 else 31))) then 0 else fl_logic
written_by _ o = 0

unfoldable pub flags_written : Insn → ℕ
flags_written o = written_by o.kind o

abbrev pub read_by : Kind → ℕ → ℕ
read_by Kind.jcc cc = cc_reads cc
read_by Kind.setcc cc = cc_reads cc
read_by _ cc = 0

unfoldable pub flags_read : Insn → ℕ
flags_read o = read_by o.kind o.cc

-- What is live where a block begins: the loop of `flag_liveness` runs from its end.
unfoldable pub live_before : List Insn → ℕ
live_before [] = fl_all
live_before (o ∷ os) =
    bit_or (bit_and (live_before os) (2 ^ 32 - 1 - flags_written o)) (flags_read o)

-- `flag_liveness`: the `fneed` of each instruction.
unfoldable pub flag_liveness : List Insn → List ℕ
unfolding live_before
flag_liveness [] = []
flag_liveness (o ∷ os) = bit_and (flags_written o) (live_before os) ∷ flag_liveness os
