-- ===== src/Jit/Decode/Dispatch.antt =====
-- The switches of src/jit.c, decode, and of src/cpu.c, step, take an opcode to the same case.
use rashid.Base.{
  ℕ, ◌+◌, true, false, ◌&&◌, ◌||◌, ltb, leb, ◌==◌, if◌then◌else◌, ◌≡◌, refl, ◌∙◌, Bool-cases, inl,
  inr, arith, at_value, either,
}
use rashid.Cpu.State.{Cpu}
use rashid.Cpu.Decode.{Decoder}
use rashid.Cpu.Sse.{sse_exec, sse_values}
use rashid.Cpu.Sse.Values.{Floats}
use rashid.Cpu.Exec.{between, is_row, is_acc, low_opcode, high_opcode}
use rashid.Cpu.Exec.Rows.{alu_row, alu_acc, mov_imm8, mov_imm}
use rashid.Cpu.Exec.Groups.{shift_rm}
use rashid.Cpu.Exec.TwoByte.{two_byte, setcc}
use rashid.Cpu.Exec.Flow.{jcc, push_reg, pop_reg}
use rashid.Jit.Decode.Forms
use rashid.Jit.Decode.Forms.{two_operands, relative}

-- An opcode of a range is none outside of it.
pub differs :
    (lo hi k op : ℕ) → between lo hi op ≡ true → (ltb k lo || ltb hi k) ≡ true → (op == k) ≡ false
differs lo hi k op h out = ground arith

pub apart :
    (lo hi lo' hi' op : ℕ)
    → between lo hi op ≡ true
    → ltb hi' lo ≡ true
    → between lo' hi' op ≡ false
apart lo hi lo' hi' op h out = ground arith

pub upper_half :
    (op : ℕ)
    → between 0x80 0x9F op ≡ true
    → between 0x80 0x8F op ≡ false
    → between 0x90 0x9F op ≡ true
upper_half op h n = ground arith

pub lower_half : (op : ℕ) → between 0x80 0x8F op ≡ true → between 0x80 0x9F op ≡ true
lower_half op h = ground arith

pub upper_part : (op : ℕ) → between 0x90 0x9F op ≡ true → between 0x80 0x9F op ≡ true
upper_part op h = ground arith

-- `sse_exec` declines conditional branches and setcc.
pub sse_exec-declines :
    (f : Floats) (c : Cpu) (d : Decoder) (op : ℕ)
    → between 0x80 0x9F op ≡ true
    → sse_exec f c d op ≡ (false, c, d)
unfolding sse_exec sse_values
sse_exec-declines f c d op h =
    let n : (k : ℕ) → (ltb k 0x80 || ltb 0x9F k) ≡ true → (op == k) ≡ false =
      λ k out. differs 0x80 0x9F k op h out in
    rw
      (
        n 0x10 refl,
        n 0x11 refl,
        n 0x28 refl,
        n 0x29 refl,
        n 0x6F refl,
        n 0x7F refl,
        n 0x6E refl,
        n 0x7E refl,
        n 0xD6 refl,
        n 0xDB refl,
        n 0xEB refl,
        n 0xEF refl,
        n 0x51 refl,
        n 0x58 refl,
        n 0x59 refl,
        n 0x2E refl,
        n 0x2F refl,
        n 0x2A refl,
        n 0x2C refl,
        n 0x2D refl,
        n 0x5A refl,
        n 0x74 refl,
        n 0x76 refl,
        n 0xD7 refl,
        n 0x70 refl,
        n 0x14 refl,
        n 0x15 refl,
        n 0x6C refl,
        n 0x6D refl,
        n 0xC2 refl,
        n 0xC5 refl,
        apart 0x80 0x9F 0x54 0x57 op h refl,
        apart 0x80 0x9F 0x5C 0x5F op h refl,
      )
      refl

-- What `case 0x0F` runs for an opcode other than syscall.
abbrev pub behind_0f : Floats → Cpu → Decoder → ℕ → Cpu
behind_0f f c d op =
    let (handled, c', d') = sse_exec f c d op in if handled then c' else two_byte c' d' op

pub jcc_or_set :
    (f : Floats) (c : Cpu) (d : Decoder) (op : ℕ)
    → between 0x80 0x9F op ≡ true
    → behind_0f f c d op ≡ (if between 0x80 0x8F op then jcc 4 c d op else setcc c d op)
unfolding two_byte
jcc_or_set f c d op h =
    let e : behind_0f f c d op ≡ two_byte c d op = rw (sse_exec-declines f c d op h) refl in
    let rest : between 0x80 0x8F op ≡ false → between 0x90 0x9F op ≡ true =
      λ n. upper_half op h n in
    let n : (k : ℕ) → (ltb k 0x80 || ltb 0x9F k) ≡ true → (op == k) ≡ false =
      λ k out. differs 0x80 0x9F k op h out in
    e ∙ elim (Bool-cases (between 0x80 0x8F op)) [
      | inl t ↦ rw (n 0x1E refl, n 0x1F refl, t) refl
      | inr t ↦ rw (n 0x1E refl, n 0x1F refl, t, rest t) refl
    ]

-- The one-byte opcodes, in the two halves of the switch.
abbrev pub one_byte : Cpu → Decoder → ℕ → Cpu
one_byte c d op = if ltb op 0x90 then low_opcode c d op else high_opcode c d op

-- What the tests on a range of opcodes say of the switch's other tests.
pub row_tests : (op : ℕ) → Forms.is_row op ≡ true → (ltb op 0x90 ≡ true) × (is_row op ≡ true)
row_tests op h = (ground arith, ground arith)

pub acc_tests :
    (op : ℕ)
    → Forms.is_acc op ≡ true
    → (op == 0xA8) ≡ false
    → (op == 0xA9) ≡ false
    → (ltb op 0x90 ≡ true) × (is_row op ≡ false) × (is_acc op ≡ true)
acc_tests op h n8 n9 = (ground arith, ground arith, ground arith)

pub middle_tests :
    (op : ℕ)
    → between 0x50 0x7F op ≡ true
    → (ltb op 0x90 ≡ true) × (is_row op ≡ false) × (is_acc op ≡ false)
middle_tests op h = (ground arith, ground arith, ground arith)

pub within :
    (lo hi lo' hi' op : ℕ)
    → between lo hi op ≡ true
    → (leb lo' lo && leb hi hi') ≡ true
    → between lo' hi' op ≡ true
within lo hi lo' hi' op h wide = ground arith

-- A range cut in two at m + 1.
pub cut_low :
    (lo m hi op : ℕ) → between lo hi op ≡ true → ltb op (m + 1) ≡ true → between lo m op ≡ true
cut_low lo m hi op h t = ground arith

pub cut_high :
    (lo m hi op : ℕ)
    → between lo hi op ≡ true
    → ltb op (m + 1) ≡ false
    → (between lo m op ≡ false) × (between (m + 1) hi op ≡ true)
cut_high lo m hi op h t = (ground arith, ground arith)

pub high_half : (lo hi op : ℕ) → between lo hi op ≡ true → leb 0x90 lo ≡ true → ltb op 0x90 ≡ false
high_half lo hi op h t = ground arith

pub row_case :
    (c : Cpu) (d : Decoder) (op : ℕ) → Forms.is_row op ≡ true → one_byte c d op ≡ alu_row c d op
unfolding low_opcode
row_case c d op h = let (low, row) = row_tests op h in rw (low, row) refl

pub acc_case :
    (c : Cpu) (d : Decoder) (op : ℕ)
    → Forms.is_acc op ≡ true
    → (op == 0xA8) ≡ false
    → (op == 0xA9) ≡ false
    → one_byte c d op ≡ alu_acc c d op
unfolding low_opcode
acc_case c d op h n8 n9 = let (low, row, acc) = acc_tests op h n8 n9 in rw (low, row, acc) refl

pub mov_case :
    (c : Cpu) (d : Decoder) (op : ℕ)
    → between 0xB0 0xBF op ≡ true
    → one_byte c d op ≡ (if ltb op 0xB8 then mov_imm8 c d op else mov_imm c d op)
unfolding high_opcode
mov_case c d op h =
    let n : (k : ℕ) → (ltb k 0xB0 || ltb 0xBF k) ≡ true → (op == k) ≡ false =
      λ k out. differs 0xB0 0xBF k op h out in
    let half = high_half 0xB0 0xBF op h refl in
    elim (Bool-cases (ltb op 0xB8)) [
      | inl t ↦
          rw
            (
              half,
              n 0x90 refl,
              n 0x98 refl,
              n 0x99 refl,
              n 0x9C refl,
              n 0x9D refl,
              n 0xA8 refl,
              n 0xA9 refl,
              cut_low 0xB0 0xB7 0xBF op h t,
              t,
            )
            refl
      | inr t ↦
          let (not_low, high) = cut_high 0xB0 0xB7 0xBF op h t in
          rw
            (
              half,
              n 0x90 refl,
              n 0x98 refl,
              n 0x99 refl,
              n 0x9C refl,
              n 0x9D refl,
              n 0xA8 refl,
              n 0xA9 refl,
              not_low,
              high,
              t,
            )
            refl
    ]

pub push_case :
    (c : Cpu) (d : Decoder) (op : ℕ)
    → between 0x50 0x5F op ≡ true
    → one_byte c d op ≡ (if ltb op 0x58 then push_reg c d op else pop_reg c d op)
unfolding low_opcode
push_case c d op h =
    let (low, row, acc) = middle_tests op (within 0x50 0x5F 0x50 0x7F op h refl) in
    elim (Bool-cases (ltb op 0x58)) [
      | inl t ↦ rw (row, acc, low, cut_low 0x50 0x57 0x5F op h t, t) refl
      | inr t ↦
          let (not_low, high) = cut_high 0x50 0x57 0x5F op h t in
          rw (row, acc, low, not_low, high, t) refl
    ]

pub jcc_case :
    (c : Cpu) (d : Decoder) (op : ℕ) → between 0x70 0x7F op ≡ true → one_byte c d op ≡ jcc 1 c d op
unfolding low_opcode
jcc_case c d op h =
    let (low, row, acc) = middle_tests op (within 0x70 0x7F 0x50 0x7F op h refl) in
    let n : (k : ℕ) → (ltb k 0x70 || ltb 0x7F k) ≡ true → (op == k) ≡ false =
      λ k out. differs 0x70 0x7F k op h out in
    rw
      (
        row,
        acc,
        low,
        apart 0x70 0x7F 0x50 0x57 op h refl,
        apart 0x70 0x7F 0x58 0x5F op h refl,
        n 0x63 refl,
        n 0x68 refl,
        n 0x6A refl,
        n 0x69 refl,
        n 0x6B refl,
        h,
      )
      refl

quarter :
    (op : ℕ)
    → between 0xD0 0xD3 op ≡ true
    → ((op == 0xD0) || (op == 0xD1) || ((op == 0xD2) || (op == 0xD3))) ≡ true
quarter op h = ground arith

pub shift_case :
    (c : Cpu) (d : Decoder) (op : ℕ)
    → ((op == 0xC0) || (op == 0xC1) || between 0xD0 0xD3 op) ≡ true
    → one_byte c d op ≡ shift_rm c d op
unfolding high_opcode
shift_case c d op h =
    let Q : ℕ → Type 0 = λ o. one_byte c d o ≡ shift_rm c d o in
    either {P = Q op} ((op == 0xC0) || (op == 0xC1)) (between 0xD0 0xD3 op) h
      (λ h1.
        either {P = Q op} (op == 0xC0) (op == 0xC1) h1 (λ e. at_value Q 0xC0 {n = op} e refl)
          (λ e. at_value Q 0xC1 {n = op} e refl))
      (λ t.
        either {P = Q op} ((op == 0xD0) || (op == 0xD1)) ((op == 0xD2) || (op == 0xD3))
          (quarter op t)
          (λ h1.
            either {P = Q op} (op == 0xD0) (op == 0xD1) h1 (λ e. at_value Q 0xD0 {n = op} e refl)
              (λ e. at_value Q 0xD1 {n = op} e refl))
          (λ h1.
            either {P = Q op} (op == 0xD2) (op == 0xD3) h1 (λ e. at_value Q 0xD2 {n = op} e refl)
              (λ e. at_value Q 0xD3 {n = op} e refl)))
