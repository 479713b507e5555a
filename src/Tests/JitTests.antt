-- ===== src/Tests/JitTests.antt =====
-- The theorems on the compiler (src/jit.c, src/emit.h) at concrete inputs.
use rashid.Base.{
  ℕ, ◌%◌, ◌/◌, ◌^◌, true, false, some, if◌then◌else◌, List, [], ◌∷◌, ◌≡◌, refl, ◌==◌, arith,
}
use rashid.Cpu.Memory.{read}
use rashid.Cpu.Decode.{modrm, dec_rip, fixup_rip}
use rashid.Jit.Liveness.{Insn, Kind, op_inc}
use rashid.Jit.Liveness.Sound.{Operands, Executed, full}
use rashid.Jit.Liveness.Sound
use rashid.Jit.Address.{modrm_mem}
use rashid.Jit.Address
use rashid.Jit.Words.{Layout, put_ea}
use rashid.Jit.Operand.{guest, put_ea-modrm}
use rashid.Jit.Constant.{Buf, put_imm, run, Holds, run-put_imm}
use rashid.Cpu.State.{Cpu}
use rashid.Cpu.Exec.{execute}
use rashid.Jit.Decode.{decode, decode_op, take_prefixes}
use rashid.Jit.Decode.Common.{Decoded, blank}
use rashid.Jit.Decode.Forms.{relative}
use rashid.Jit.Decode.Landing.{GoesTo}
use rashid.Jit.Decode.Agrees.{execute-decode}
use rashid.Tests.Samples.{cpu, dec, host, files, outside}

-- cmp, inc, a shift by cl and je: CF of cmp is live, its other flags are overwritten by inc, but
-- the shift may leave them all.
abbrev an_insn : Kind → ℕ → Insn
an_insn k op = record { kind = k; op = op; size = 4; imm = 0; by_cl = true; cc = 4 }

abbrev operands : Operands
operands = record { a = 7; b = 7; cl = 0x20; ext = 4 }

abbrev block : List Executed
block =
    (an_insn Kind.rr 0x38, operands)
    ∷ (an_insn Kind.rr op_inc, operands)
    ∷ (an_insn Kind.shift 0, operands)
    ∷ (an_insn Kind.jcc 0, operands)
    ∷ []

-- The byte 0x44 asks for a SIB byte and a displacement of 8 bits.
memory_form : (read cpu.mem dec.p 1 / 2 ^ 6 == 3) ≡ false
memory_form = refl

abbrev empty : Buf
empty = record { out = []; max = 16; full = false; check = false; fix = [] }

abbrev offsets : Layout
offsets = record {
  off_r0 = 0;
  off_tmp0 = 512;
  off_xmm0 = 128;
  off_currip = 392;
  off_running = 600;
  off_flags = 400;
  off_as = 616;
}

-- The registers at 0x1000, each of them 0x1800.
abbrev registers : ℕ → ℕ
registers a = if a % 8 == 1 then 0x18 else 0

holds_registers : (i : ℕ) → guest registers offsets 0x1000 i ≡ 0x1800
holds_registers i = ground arith

put_ea-modrm_example :
    let (n, o) = modrm_mem cpu.mem 0x2002 0 0x44 in
    let (_, operand, d') = modrm cpu dec in
    (run registers (λ _. 0x1000) (put_ea offsets empty (dec_rip dec) o).out 1
      ≡ Address.operand_address (fixup_rip dec operand))
    × (d'.p ≡ n)
unfolding run
put_ea-modrm_example =
    put_ea-modrm cpu dec dec registers (λ _. 0x1000) offsets empty (λ i. omega arith)
      (λ a. omega arith) holds_registers (refl, omega arith) (omega arith) memory_form

run-put_imm_example :
    Holds (run (λ _. 0) (λ _. 7) (put_imm empty 9 0x12_0000_5678).out) (λ _. 7) 9 0x12_0000_5678
    × ((put_imm empty 9 0x12_0000_5678).full ≡ false)
unfolding run
run-put_imm_example =
    run-put_imm (λ _. 0) (λ _. 7) empty 9 0x12_0000_5678 (omega arith) (omega arith) (omega arith)

-- je over two bytes, at 0x2000.
abbrev at_je : Cpu
at_je = record cpu { mem = λ a. if a == 0x2000 then 0x74 else 2 }

abbrev je : Decoded
je = record (blank (record { mand = 0; rex = 0; has_rex = false })) {
  kind = Kind.jcc;
  cc = 4;
  imm = 2;
  next = 0x2002;
  target = 0x2004;
}

decode-je : decode at_je.mem 0x2000 ≡ some je
unfolding decode take_prefixes decode_op relative
decode-je = refl

execute-decode_example :
    (c' : Cpu) × (execute 2 host files outside at_je ≡ some c') × GoesTo 0x202 je Kind.jcc c'.rip
execute-decode_example = execute-decode host files outside at_je 0 je (λ i. omega arith) decode-je
