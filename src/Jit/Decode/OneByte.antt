-- ===== src/Jit/Decode/OneByte.antt =====
-- src/jit.c, decode, and src/cpu.c, step: where rip goes behind a one-byte opcode.
use rashid.Base.{
  ℕ, ◌+◌, ◌^◌, ◌<◌, bit_and, true, false, ◌||◌, some, ltb, ◌==◌, if◌then◌else◌, by_test, ◌≡◌, refl,
  sym, Bool-cases, inl, inr, if_both, at_value, either, clash,
}
use mathlib.Core.Path.{subst}
use rashid.Cpu.{has}
use rashid.Cpu.State.{Cpu}
use rashid.Cpu.Decode.{Decoder, modrm, dec_rip}
use rashid.Cpu.Exec.{between, low_opcode, high_opcode}
use rashid.Cpu.Exec.Rows.{mov_imm8, mov_imm}
use rashid.Cpu.Exec.Flow.{push_reg, pop_reg}
use rashid.Jit.Decode.Forms
use rashid.Cpu.Exec.Ends.{group1-rip, mov_rm_imm-rip}
use rashid.Jit.Liveness.{Kind}
use rashid.Jit.Decode.{decode_op}
use rashid.Jit.Decode.Common.{Answer, blank}
use rashid.Jit.Decode.Forms.{two_operands, relative}
use rashid.Jit.Decode.Follows.{
  Follows, prefixes_of, jcc-Follows, group_bytes, group_imm-Follows, acc-Follows, test_A8-Follows,
  test_A9-Follows, mov8-Follows, mov-Follows, push-Follows, pop-Follows, imul3-Follows,
  group5-Follows, row-Follows, shifts-Follows, lea-Follows, jmp-Follows, call-Follows,
}
use rashid.Jit.Decode.Dispatch.{
  one_byte, row_case, acc_case, mov_case, push_case, jcc_case, shift_case,
}

module _ (c : Cpu) (d : Decoder) (words : (i : ℕ) → c.r i < 2 ^ 64)
    (size : d.opsize ≡ (blank (prefixes_of d)).size) where
  -- What the two switches make of an opcode.
  abbrev FollowedAt : (ℕ → Answer) → ℕ → Type 0
  FollowedAt form op = Follows c d (form op) (one_byte c d op)

  group_imm_case :
      (op : ℕ)
      → ((op == 0x80) || (op == 0x81) || (op == 0x83) || (op == 0xC6) || (op == 0xC7)) ≡ true
      → FollowedAt (Forms.group_imm c.mem d.p (prefixes_of d)) op
  unfolding low_opcode high_opcode
  group_imm_case op h =
      let Q = FollowedAt (Forms.group_imm c.mem d.p (prefixes_of d)) in
      let g : (k : ℕ)
          → (one_byte c d k).rip
            ≡ dec_rip (record (modrm c d).2 { p = (modrm c d).2.p + group_bytes k })
          → (op == k) ≡ true
          → Q op =
        λ k r e. at_value Q k e (group_imm-Follows c d words k (one_byte c d k) r) in
      either ((op == 0x80) || (op == 0x81) || (op == 0x83) || (op == 0xC6)) (op == 0xC7) h
        (λ h1.
          either ((op == 0x80) || (op == 0x81) || (op == 0x83)) (op == 0xC6) h1
            (λ h2.
              either ((op == 0x80) || (op == 0x81)) (op == 0x83) h2
                (λ h3.
                  either (op == 0x80) (op == 0x81) h3 (g 0x80 (group1-rip c d 0x80))
                    (g 0x81 (group1-rip c d 0x81)))
                (g 0x83 (group1-rip c d 0x83)))
            (g 0xC6 (mov_rm_imm-rip c d 0xC6)))
        (g 0xC7 (mov_rm_imm-rip c d 0xC7))

  acc_imm_case :
      (op : ℕ) → Forms.is_acc op ≡ true → FollowedAt (Forms.acc_imm c.mem d.p (prefixes_of d)) op
  unfolding high_opcode
  acc_imm_case op h =
      let Q = FollowedAt (Forms.acc_imm c.mem d.p (prefixes_of d)) in
      elim (Bool-cases (op == 0xA8)) [
        | inl e ↦ at_value Q 0xA8 e (test_A8-Follows c d words size)
        | inr n8 ↦ elim (Bool-cases (op == 0xA9)) [
          | inl e ↦ at_value Q 0xA9 e (test_A9-Follows c d words size)
          | inr n9 ↦
              subst (Follows c d (Forms.acc_imm c.mem d.p (prefixes_of d) op))
                (sym (acc_case c d op h n8 n9)) (acc-Follows c d words size op)
        ]
      ]

  mov_half :
      (op : ℕ)
      → Follows c d
          (Forms.mov_imm c.mem d.p (prefixes_of d) op)
          (if ltb op 0xB8 then mov_imm8 c d op else mov_imm c d op)
  mov_half op =
      by_test (Follows c d (Forms.mov_imm c.mem d.p (prefixes_of d) op)) (ltb op 0xB8)
        (mov8-Follows c d words size op) (mov-Follows c d words size op)

  push_half :
      (op : ℕ)
      → Follows c d
          (Forms.push_pop d.p (prefixes_of d) op)
          (if ltb op 0x58 then push_reg c d op else pop_reg c d op)
  push_half op =
      by_test (Follows c d (Forms.push_pop d.p (prefixes_of d) op)) (ltb op 0x58)
        (push-Follows c d words op) (pop-Follows c d words op)

  imul_case :
      (op : ℕ)
      → ((op == 0x69) || (op == 0x6B)) ≡ true
      → FollowedAt (Forms.imul3 c.mem d.p (prefixes_of d)) op
  unfolding low_opcode
  imul_case op h =
      let Q = FollowedAt (Forms.imul3 c.mem d.p (prefixes_of d)) in
      either (op == 0x69) (op == 0x6B) h (λ e. at_value Q 0x69 e (imul3-Follows c d words 0x69))
        (λ e. at_value Q 0x6B e (imul3-Follows c d words 0x6B))

  group5_case :
      (op : ℕ)
      → ((op == 0xFE) || (op == 0xFF)) ≡ true
      → FollowedAt (Forms.group5_insn c.mem d.p (prefixes_of d)) op
  unfolding high_opcode
  group5_case op h =
      let Q = FollowedAt (Forms.group5_insn c.mem d.p (prefixes_of d)) in
      either (op == 0xFE) (op == 0xFF) h (λ e. at_value Q 0xFE e (group5-Follows c d words 0xFE))
        (λ e. at_value Q 0xFF e (group5-Follows c d words 0xFF))

  -- The one-byte opcodes.
  pub one_byte-Follows :
      (op : ℕ)
      → (op == 0x0F) ≡ false
      → Follows c d (decode_op c.mem d.p (prefixes_of d) op) (one_byte c d op)
  unfolding decode_op low_opcode high_opcode
  one_byte-Follows op n0f =
      let x = prefixes_of d in
      let c' = one_byte c d op in
      let P : Answer → Type 0 = λ a. Follows c d a c' in
      by_test P (Forms.is_row op)
        (λ t.
          subst (Follows c d (Forms.row c.mem d.p x op)) (sym (row_case c d op t))
            (row-Follows c d words op))
        (λ _.
          by_test P ((op == 0x80) || (op == 0x81) || (op == 0x83) || (op == 0xC6) || (op == 0xC7))
            (λ t. group_imm_case op t)
            (λ _.
              by_test P (Forms.is_acc op) (λ t. acc_imm_case op t)
                (λ _.
                  by_test P (between 0xB0 0xBF op)
                    (λ t.
                      subst (Follows c d (Forms.mov_imm c.mem d.p x op)) (sym (mov_case c d op t))
                        (mov_half op))
                    (λ _.
                      by_test P ((op == 0xC0) || (op == 0xC1) || between 0xD0 0xD3 op)
                        (λ t.
                          subst (Follows c d (Forms.shifts c.mem d.p x op))
                            (sym (shift_case c d op t)) (shifts-Follows c d words op))
                        (λ _.
                          by_test P ((op == 0x69) || (op == 0x6B)) (λ t. imul_case op t)
                            (λ _.
                              by_test P (op == 0x8D)
                                (λ t.
                                  at_value
                                    (λ o. Follows c d (Forms.lea_insn c.mem d.p x) (one_byte c d o))
                                    0x8D t (lea-Follows c d words))
                                (λ _.
                                  by_test P (between 0x50 0x5F op)
                                    (λ t.
                                      subst (Follows c d (Forms.push_pop d.p x op))
                                        (sym (push_case c d op t)) (push_half op))
                                    (λ _.
                                      by_test P (op == 0x90)
                                        (λ t. if_both P (has d.rex) tt (
                                          at_value
                                            (λ o.
                                              Follows c d (some (d.p, blank x)) (one_byte c d o))
                                            0x90 t refl))
                                        (λ _.
                                          by_test P (between 0x70 0x7F op)
                                            (λ t.
                                              subst
                                                (Follows c d (
                                                  Forms.relative Kind.jcc 1 c.mem d.p x
                                                    (bit_and op 0xF)))
                                                (sym (jcc_case c d op t))
                                                (jcc-Follows c d words 1 op))
                                            (λ _.
                                              by_test P (op == 0x0F) (λ t. clash (op == 0x0F) t n0f)
                                                (λ _.
                                                  by_test P (op == 0xEB)
                                                    (λ t.
                                                      at_value
                                                        (λ o.
                                                          Follows c d
                                                            (Forms.relative Kind.jmp 1 c.mem d.p x
                                                            0)
                                                            (one_byte c d o))
                                                        0xEB t (jmp-Follows c d words 1))
                                                    (λ _.
                                                      by_test P (op == 0xE9)
                                                        (λ t.
                                                          at_value
                                                            (λ o.
                                                            Follows c d
                                                            (Forms.relative Kind.jmp 4 c.mem d.p x
                                                            0)
                                                            (one_byte c d o))
                                                            0xE9 t (jmp-Follows c d words 4))
                                                        (λ _.
                                                          by_test P (op == 0xE8)
                                                            (λ t.
                                                            at_value
                                                            (λ o.
                                                            Follows c d
                                                            (Forms.relative Kind.call 4 c.mem d.p x
                                                            0)
                                                            (one_byte c d o))
                                                            0xE8 t (call-Follows c d words))
                                                            (λ _.
                                                            by_test P (op == 0xC3) (λ _. tt)
                                                            (λ _.
                                                            by_test P ((op == 0xFE) || (op == 0xFF))
                                                            (λ t. group5_case op t)
                                                            (λ _. tt))))))))))))))))
