-- ===== src/Cpu/Exec/Flow.antt =====
-- src/cpu.c, `step`: the stack, branches, calls and returns.
use rashid.Base.{ℕ, ◌+◌, ◌*◌, bit_and, bit_or, ◌==◌, if◌then◌else◌, add64, update}
use rashid.Cpu.State.{Cpu, rsp, rbp}
use rashid.Cpu.Flags.{f_cf, f_pf, f_af, f_zf, f_sf, f_of, cond}
use rashid.Cpu.Registers.{push, pop}
use rashid.Cpu.Decode.{Decoder, fetch, wr}
use rashid.Cpu.Exec.Common.{advance, jump, op_reg, fetch_signed, operand}

unfoldable pub push_reg : Cpu → Decoder → ℕ → Cpu
unfolding push
push_reg c d op = push (advance c d) (c.r (op_reg op d))

unfoldable pub pop_reg : Cpu → Decoder → ℕ → Cpu
unfolding pop
pop_reg c d op = let (v, c') = pop (advance c d) in record c' { r = update c'.r (op_reg op d) v }

unfoldable pub push_imm : Cpu → Decoder → ℕ → Cpu
unfolding fetch_signed push
push_imm c d op =
    let (v, d') = fetch_signed (if op == 0x6A then 1 else 4) c d in push (advance c d') v

unfoldable pub pop_rm : Cpu → Decoder → Cpu
unfolding operand pop wr
pop_rm c d =
    let (_, rm, d') = operand c d in let (v, c') = pop (advance c d') in wr c' rm v 8 d.has_rex

abbrev pub all_flags : ℕ
all_flags = f_cf + f_pf + f_af + f_zf + f_sf + f_of

unfoldable pub pushfq : Cpu → Decoder → Cpu
unfolding push
pushfq c d = push (advance c d) c.flags

unfoldable pub popfq : Cpu → Decoder → Cpu
unfolding pop
popfq c d =
    let (v, c') = pop (advance c d) in record c' { flags = bit_or (bit_and v all_flags) 0x202 }

-- jcc, with a displacement of 8 or 32 bits.
unfoldable pub jcc : ℕ → Cpu → Decoder → ℕ → Cpu
unfolding fetch cond
jcc n c d op =
    let (rel, d') = fetch n c d in
    let c' = advance c d' in if cond c'.flags (bit_and op 0xF) then jump c' (n * 8) rel else c'

-- jmp and call, relative.
unfoldable pub jmp_rel : ℕ → Cpu → Decoder → Cpu
unfolding fetch
jmp_rel n c d = let (rel, d') = fetch n c d in jump (advance c d') (n * 8) rel

unfoldable pub call_rel : Cpu → Decoder → Cpu
unfolding fetch push
call_rel c d = let (rel, d') = fetch 4 c d in let c' = advance c d' in jump (push c' c'.rip) 32 rel

-- ret, and ret that takes n bytes of arguments off the stack.
unfoldable pub ret : Cpu → Cpu
unfolding pop
ret c = let (v, c') = pop c in record c' { rip = v }

unfoldable pub ret_n : Cpu → Decoder → Cpu
unfolding fetch pop
ret_n c d =
    let (n, _) = fetch 2 c d in
    let (v, c') = pop c in record c' { rip = v; r = update c'.r rsp (add64 (c'.r rsp) n) }

unfoldable pub leave : Cpu → Decoder → Cpu
unfolding pop
leave c d =
    let c1 = record (advance c d) { r = update c.r rsp (c.r rbp) } in
    let (v, c2) = pop c1 in record c2 { r = update c2.r rbp v }
