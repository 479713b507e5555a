-- ===== src/Jit/Decode/TwoByte.antt =====
-- src/jit.c, decode, `case 0x0F`, and src/cpu.c, step, `case 0x0F`: where rip goes.
use rashid.Base.{
  ℕ, ◌^◌, ◌<◌, bit_and, true, ◌||◌, ◌==◌, by_test, ◌≡◌, refl, sym, ap, ◌∙◌, if_both, at_value,
  either,
}
use mathlib.Core.Path.{subst}
use rashid.Cpu.State.{Cpu}
use rashid.Cpu.Decode.{Decoder}
use rashid.Cpu.Sse.{sse_exec, sse_values}
use rashid.Cpu.Sse.Values.{Floats}
use rashid.Cpu.Exec.{between}
use rashid.Cpu.Exec.TwoByte.{two_byte, setcc, mov_extended}
use rashid.Cpu.Exec.Flow.{jcc}
use rashid.Cpu.Exec.Ends.{imul_rm-rip, mov_extended-rip, setcc-rip, long_nop-rip}
use rashid.Jit.Liveness.{Kind}
use rashid.Jit.Decode.{two_byte_insn, decode_sse, sse_form}
use rashid.Jit.Decode.Common.{Answer}
use rashid.Jit.Decode.Forms.{relative}
use rashid.Jit.Decode.Follows.{Follows, at_cursor, prefixes_of, taken, operand-cursor, jcc-Follows}
use rashid.Jit.Decode.Dispatch.{lower_half, upper_part, jcc_or_set, behind_0f}

module _ (f : Floats) (c : Cpu) (d : Decoder) (words : (i : ℕ) → c.r i < 2 ^ 64) where
  -- An SSE instruction is decoded apart, so nothing is asked of it.
  decode_sse-Follows :
      (op : ℕ) (c' : Cpu) → Follows c d (decode_sse c.mem d.p (prefixes_of d) op) c'
  unfolding decode_sse
  decode_sse-Follows op c' = if_both (λ a. Follows c d a c') (sse_form d.mand op) tt tt

  -- Where `case 0x0F` leaves rip.
  abbrev LandsBehind : ℕ → Type 0
  LandsBehind op = (behind_0f f c d op).rip ≡ at_cursor d (taken c d words).p

  mul_lands : LandsBehind 0xAF
  unfolding two_byte sse_exec sse_values
  mul_lands = imul_rm-rip c d ∙ operand-cursor c d words

  nop_lands : LandsBehind 0x1F
  unfolding two_byte sse_exec sse_values
  nop_lands = long_nop-rip c d ∙ operand-cursor c d words

  extend_lands :
      (op : ℕ)
      → ((op == 0xB6) || (op == 0xB7) || (op == 0xBE) || (op == 0xBF)) ≡ true
      → LandsBehind op
  unfolding two_byte sse_exec sse_values
  extend_lands op h =
      let at : (k : ℕ) → (op == k) ≡ true → LandsBehind k → LandsBehind op =
        λ k e. at_value LandsBehind k e in
      let ends : (k : ℕ) → (mov_extended c d k).rip ≡ at_cursor d (taken c d words).p =
        λ k. mov_extended-rip c d k ∙ operand-cursor c d words in
      either ((op == 0xB6) || (op == 0xB7) || (op == 0xBE)) (op == 0xBF) h
        (λ h1.
          either ((op == 0xB6) || (op == 0xB7)) (op == 0xBE) h1
            (λ h2.
              either (op == 0xB6) (op == 0xB7) h2 (λ e. at 0xB6 e (ends 0xB6))
                (λ e. at 0xB7 e (ends 0xB7)))
            (λ e. at 0xBE e (ends 0xBE)))
        (λ e. at 0xBF e (ends 0xBF))

  pub two_byte_insn-Follows :
      (op : ℕ) → Follows c d (two_byte_insn c.mem d.p (prefixes_of d) op) (behind_0f f c d op)
  unfolding two_byte_insn
  two_byte_insn-Follows op =
      let c' = behind_0f f c d op in
      let x = prefixes_of d in
      let r = taken c d words in
      let plain = d.mand == 0 in
      let P : Answer → Type 0 = λ a. Follows c d a c' in
      by_test P (between 0x80 0x8F op)
        (λ t.
          let same : c' ≡ jcc 4 c d op = jcc_or_set f c d op (lower_half op t) ∙ rw t refl in
          if_both P plain
            (subst (Follows c d (relative Kind.jcc 4 c.mem d.p x (bit_and op 0xF))) (sym same)
              (jcc-Follows c d words 4 op))
            tt)
        (λ n.
          by_test P (op == 0xAF) (λ t. if_both P plain (at_value LandsBehind 0xAF t mul_lands) tt)
            (λ _.
              by_test P (between 0x90 0x9F op)
                (λ t.
                  let same : c' ≡ setcc c d op =
                    jcc_or_set f c d op (upper_part op t) ∙ rw n refl in
                  if_both P plain
                    (ap (λ (s : Cpu). s.rip) same ∙ setcc-rip c d op ∙ operand-cursor c d words) tt)
                (λ _.
                  by_test P ((op == 0xB6) || (op == 0xB7) || (op == 0xBE) || (op == 0xBF))
                    (λ t. if_both P plain (extend_lands op t) tt)
                    (λ _.
                      by_test P (op == 0x1F)
                        (λ t.
                          if_both P (plain || (d.mand == 0x66))
                            (at_value LandsBehind 0x1F t nop_lands) tt)
                        (λ _. decode_sse-Follows op c')))))
