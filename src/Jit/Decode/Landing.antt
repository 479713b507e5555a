-- ===== src/Jit/Decode/Landing.antt =====
-- src/jit.c, decode, and src/cpu.c, step: where rip goes, by the decoder behind the prefixes.
use rashid.Base.{
  ℕ, ◌+◌, ◌-◌, ◌%◌, ◌^◌, ◌<◌, Bool, true, false, not, ◌&&◌, ◌||◌, Option, none, some, ◌==◌,
  if◌then◌else◌, by_test, ◌≡◌, refl, sym, add64, inl, inr, arith, at_value, either, ◌⊎◌,
}
use mathlib.Core.Path.{subst}
use rashid.AddressSpace.{Host}
use rashid.Cpu.{has}
use rashid.Cpu.State.{Cpu}
use rashid.Cpu.Memory.{read}
use rashid.Cpu.Decode.{Decoder, fetch}
use rashid.Cpu.Exec.{Outside, prefix, escape, opcode}
use rashid.Cpu.Exec.Common.{advance}
use rashid.Cpu.Exec.Syscall.{Files, do_syscall}
use rashid.Jit.Decode.{decode_op, decode_sse, sse_form, two_byte_insn, placed, is_jump}
use rashid.Jit.Liveness.{Kind}
use rashid.Cpu.Flags.{cond}
use rashid.Jit.Decode.Common.{Prefixes, Decoded, blank, Answer}
use rashid.Jit.Decode.Follows.{Follows, Lands, prefixes_of}
use rashid.Jit.Decode.TwoByte.{two_byte_insn-Follows}
use rashid.Jit.Decode.OneByte.{one_byte-Follows}

-- A byte of the loop over the prefixes is no instruction for the compiler.
pub prefix_or_insn :
    (c : Cpu) (d : Decoder) (mem : ℕ → ℕ) (p : ℕ) (x : Prefixes) (b : ℕ)
    → (prefix c d b ≡ none) ⊎ (decode_op mem p x b ≡ none)
unfolding prefix decode_op
prefix_or_insn c d mem p x b =
    let Q : ℕ → Type 0 = λ o. decode_op mem p x o ≡ none in
    by_test (λ (a : Option Decoder). (a ≡ none) ⊎ Q b) (b == 0x66)
      (λ e. inr (at_value Q 0x66 e refl))
      (λ _.
        by_test (λ (a : Option Decoder). (a ≡ none) ⊎ Q b) (b == 0x67)
          (λ e. inr (at_value Q 0x67 e refl))
          (λ _.
            by_test (λ (a : Option Decoder). (a ≡ none) ⊎ Q b) ((b == 0xF2) || (b == 0xF3))
              (λ h. inr (
                either (b == 0xF2) (b == 0xF3) h (λ e. at_value Q 0xF2 e refl)
                  (λ e. at_value Q 0xF3 e refl)))
              (λ _.
                by_test (λ (a : Option Decoder). (a ≡ none) ⊎ Q b)
                  ((b == 0x2E) || (b == 0x36) || (b == 0x3E) || (b == 0x26))
                  (λ h. inr (
                    either ((b == 0x2E) || (b == 0x36) || (b == 0x3E)) (b == 0x26) h
                      (λ h.
                        either ((b == 0x2E) || (b == 0x36)) (b == 0x3E) h
                          (λ h.
                            either (b == 0x2E) (b == 0x36) h (λ e. at_value Q 0x2E e refl)
                              (λ e. at_value Q 0x36 e refl))
                          (λ e. at_value Q 0x3E e refl))
                      (λ e. at_value Q 0x26 e refl)))
                  (λ _.
                    by_test (λ (a : Option Decoder). (a ≡ none) ⊎ Q b) (b == 0x64)
                      (λ e. inr (at_value Q 0x64 e refl))
                      (λ _.
                        by_test (λ (a : Option Decoder). (a ≡ none) ⊎ Q b) (b == 0x65)
                          (λ e. inr (at_value Q 0x65 e refl)) (λ _. inl refl))))))

-- Neither is REX a prefix for that loop.
pub prefix-rex : (c : Cpu) (d : Decoder) (b : ℕ) → (b - b % 16 == 0x40) ≡ true → prefix c d b ≡ none
unfolding prefix
prefix-rex c d b h = ground arith

module _ (h : Host) (f : Files) (o : Outside) (c : Cpu) (words : (i : ℕ) → c.r i < 2 ^ 64) where
  escape-Follows :
      (d : Decoder)
      → Follows c d
          (two_byte_insn c.mem (d.p + 1) (prefixes_of d) (read c.mem d.p 1))
          (escape h f o c d)
  unfolding escape fetch two_byte_insn decode_sse sse_form
  escape-Follows d =
      let op = read c.mem d.p 1 in
      let d1 : Decoder = record d { p = d.p + 1 } in
      let form : ℕ → Answer = λ n. two_byte_insn c.mem (d.p + 1) (prefixes_of d) n in
      by_test (λ c'. Follows c d (form op) c') (op == 0x05)
        (λ e.
          by_none (form op) (do_syscall h f (advance c d1))
            (at_value (λ n. form n ≡ none) 0x05 e refl))
        (λ _. two_byte_insn-Follows o.floats c d1 words op)
    where
      by_none : (a : Answer) (c' : Cpu) → a ≡ none → Follows c d a c'
      by_none a c' e = subst (λ a'. Follows c d a' c') (sym e) tt

  opcode-Follows :
      (d : Decoder)
      → let op = read c.mem d.p 1 in
        ((op == 0x0F) ≡ false → d.opsize ≡ (blank (prefixes_of d)).size)
        → Follows c d (decode_op c.mem (d.p + 1) (prefixes_of d) op) (opcode h f o c d)
  unfolding opcode fetch decode_op
  opcode-Follows d size =
      let op = read c.mem d.p 1 in
      let d1 : Decoder = record d { p = d.p + 1 } in
      let x = prefixes_of d in
      let escaped : Answer = two_byte_insn c.mem (d.p + 1 + 1) x (read c.mem (d.p + 1) 1) in
      let ends : Answer → Cpu → Type 0 = λ a c'. Follows c d a c' in
      by_test (λ c'. ends (decode_op c.mem (d.p + 1) x op) c') (op == 0x0F)
        (λ e.
          subst (λ a. ends a (escape h f o c d1))
            (sym (at_value (λ n. decode_op c.mem (d.p + 1) x n ≡ escaped) 0x0F e refl))
            (escape-Follows d1))
        (λ n. one_byte-Follows c d1 words (size n) op n)

-- Where an instruction that the compiler accepts leaves the interpreter: behind it, or at the
-- target of a jump. A return and an indirect branch go where the guest says, and SSE instructions
-- are decoded apart.
abbrev pub GoesTo : ℕ → Decoded → Kind → ℕ → Type 0
GoesTo flags o Kind.jcc rip = rip ≡ (if cond flags o.cc then o.target else o.next)
GoesTo flags o Kind.jmp rip = rip ≡ o.target
GoesTo flags o Kind.call rip = rip ≡ o.target
GoesTo flags o Kind.ret rip = Unit {0}
GoesTo flags o Kind.callm rip = Unit {0}
GoesTo flags o Kind.jmpm rip = Unit {0}
GoesTo flags o Kind.sse rip = Unit {0}
GoesTo flags o _ rip = rip ≡ o.next

goes_to :
    (flags start rip end : ℕ) (o : Decoded) (k : Kind)
    → let next = add64 start (end - start) in
      Lands flags next k o.imm o.cc rip
      → GoesTo flags
          (record o { next = next; target = if is_jump k then add64 next o.imm else 0 })
          k
          rip
goes_to flags start rip end o Kind.rr h = h
goes_to flags start rip end o Kind.ri h = h
goes_to flags start rip end o Kind.rm h = h
goes_to flags start rip end o Kind.mr h = h
goes_to flags start rip end o Kind.mi h = h
goes_to flags start rip end o Kind.lea h = h
goes_to flags start rip end o Kind.push h = h
goes_to flags start rip end o Kind.pop h = h
goes_to flags start rip end o Kind.nop h = h
goes_to flags start rip end o Kind.sse h = h
goes_to flags start rip end o Kind.movx h = h
goes_to flags start rip end o Kind.shift h = h
goes_to flags start rip end o Kind.imul h = h
goes_to flags start rip end o Kind.setcc h = h
goes_to flags start rip end o Kind.jcc h = h
goes_to flags start rip end o Kind.jmp h = h
goes_to flags start rip end o Kind.call h = h
goes_to flags start rip end o Kind.ret h = h
goes_to flags start rip end o Kind.callm h = h
goes_to flags start rip end o Kind.jmpm h = h

abbrev pub LandsAs : Cpu → Option Decoded → Cpu → Type 0
LandsAs c none c' = Unit {0}
LandsAs c (some o) c' = GoesTo c.flags o o.kind c'.rip

-- `decode` behind the prefixes.
abbrev pub decoded_at : (ℕ → ℕ) → ℕ → ℕ × Prefixes → Option Decoded
decoded_at mem rip (p, x) =
    let op = read mem p 1 in
    if has x.mand && not (op == 0x0F)
    then none
    else elim (decode_op mem (p + 1) x op) [ none ↦ none | some a ↦ some (placed rip a) ]

abbrev pub decoded_from : Cpu → Decoder → Option Decoded
decoded_from c d = decoded_at c.mem d.rip0 (d.p, prefixes_of d)

placed-LandsAs :
    (c : Cpu) (d : Decoder) (c' : Cpu) (a : Answer)
    → Follows c d a c'
    → LandsAs c (elim a [ none ↦ none | some b ↦ some (placed d.rip0 b) ]) c'
placed-LandsAs c d c' none h = tt
placed-LandsAs c d c' (some (end, o)) h = goes_to c.flags d.rip0 c'.rip end o o.kind h

-- Operand sizes as both hold them, unless a prefix asks for 0F.
abbrev pub Sized : Decoder → Type 0
Sized d = has d.mand ≡ false → d.opsize ≡ (blank (prefixes_of d)).size

pub opcode-LandsAs :
    (h : Host) (f : Files) (o : Outside) (c : Cpu) (d : Decoder)
    → ((i : ℕ) → c.r i < 2 ^ 64)
    → Sized d
    → LandsAs c (decoded_from c d) (opcode h f o c d)
opcode-LandsAs h f o c d words size =
    let op = read c.mem d.p 1 in
    let c' = opcode h f o c d in
    by_test (λ r. LandsAs c r c') (has d.mand && not (op == 0x0F)) (λ _. tt)
      (λ n.
        placed-LandsAs c d c' (decode_op c.mem (d.p + 1) (prefixes_of d) op)
          (opcode-Follows h f o c words d (λ m. size (unmarked (has d.mand) (op == 0x0F) n m))))
  where
    unmarked : (a b : Bool) → (a && not b) ≡ false → b ≡ false → a ≡ false
    unmarked a b n m = ground arith
