-- ===== src/Cpu/Exec/Common.antt =====
-- src/cpu.c, `step`: what the cases of its switch share.
use rashid.Base.{ℕ, ◌*◌, bit_and, bit_or, Bool, false, some, ◌==◌, if◌then◌else◌, add64}
use rashid.Cpu.{extend}
use rashid.Cpu.State.{Cpu, Fault}
use rashid.Cpu.Alu.{Operation, compute, writes}
use rashid.Cpu.Decode.{Operand, Decoder, fetch, dec_rip, rex_bit, modrm, fixup_rip, wr}

-- `ADVANCE`
abbrev pub advance : Cpu → Decoder → Cpu
advance c d = record c { rip = dec_rip d }

-- The three assignments with which a case stops the run.
abbrev pub stop : Cpu → Fault → ℕ → Cpu
stop c what start = record c { fault = some what; fault_rip = start; running = false }

-- A branch: rip + rel, for a displacement of w bits.
abbrev pub jump : Cpu → ℕ → ℕ → Cpu
jump c w rel = record c { rip = add64 c.rip (extend w rel) }

abbrev pub set_flags : Cpu → ℕ → Cpu
set_flags c f = record c { flags = f }

-- The register of an opcode that names one in its low three bits.
abbrev pub op_reg : ℕ → Decoder → ℕ
op_reg op d = bit_or (bit_and op 7) (rex_bit d.rex 1)

-- An immediate of n bytes, sign-extended.
unfoldable pub fetch_signed : ℕ → Cpu → Decoder → ℕ × Decoder
unfolding fetch
fetch_signed n c d = let (v, d') = fetch n c d in (extend (n * 8) v, d')

-- The immediate of the rows on eAX: 8 bits, 16 with an operand-size prefix, 32 otherwise.
unfoldable pub fetch_acc : ℕ → Cpu → Decoder → ℕ × Decoder
unfolding fetch fetch_signed
fetch_acc size c d =
    if size == 1 then fetch 1 c d else if size == 2 then fetch 2 c d else fetch_signed 4 c d

-- ModRM with no immediate behind it, rip advanced: the register field, the operand, the cursor.
unfoldable pub operand : Cpu → Decoder → ℕ × Operand × Decoder
unfolding modrm fixup_rip
operand c d = let (i, o, d') = modrm c d in (i, fixup_rip d' o, d')

-- An operation on values already read: flags first, then the result, if it has one.
unfoldable pub apply_to : Operation → Cpu → Operand → ℕ → ℕ → ℕ → Bool → Cpu
unfolding compute wr
apply_to o c dst a b size rex =
    let (r, flags) = compute o c.flags a b size in
    let c' = set_flags c flags in if writes o then wr c' dst r size rex else c'
