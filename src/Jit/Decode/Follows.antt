-- ===== src/Jit/Decode/Follows.antt =====
-- Where the interpreter goes after an instruction that the compiler has decoded (src/jit.c,
-- decode; src/cpu.c, step).
use rashid.Base.{
  ℕ, ◌+◌, ◌-◌, ◌/◌, ◌^◌, ◌<◌, bit_and, Bool, true, false, not, ◌&&◌, ◌||◌, none, some, ltb, ◌==◌,
  if◌then◌else◌, by_test, ◌≡◌, refl, sym, ap, ◌∙◌, add64, Bool-cases, inl, inr, arith, if_both,
}
use mathlib.Core.Path.{ap₂}
use rashid.Cpu.{has, extend}
use rashid.Cpu.State.{Cpu}
use rashid.Cpu.Flags.{cond}
use rashid.Cpu.Memory.{read}
use rashid.Cpu.Decode.{Decoder, modrm, dec_rip, fetch}
use rashid.Cpu.Decode.Cursor.{modrm-rip0, modrm-field, field-low}
use rashid.Cpu.Exec.Common.{op_reg}
use rashid.Cpu.Exec.Ends.{
  alu_row-rip, imul_imm-rip, acc_bytes, alu_acc-rip, test_acc-rip, mov_imm8-rip, mov_imm-rip,
  lea-rip, push_reg-rip, pop_reg-rip, jcc-rip, jmp_rel-rip, call_rel-rip, count_bytes, shift_rm-rip,
  group5-rip,
}
use rashid.Cpu.Exec.Rows.{alu_row, alu_acc, test_acc, imul_imm, lea, mov_imm8, mov_imm}
use rashid.Cpu.Exec.Flow.{push_reg, pop_reg, jcc, jmp_rel, call_rel}
use rashid.Cpu.Exec.Groups.{shift_rm, group5}
use rashid.Jit.Liveness.{Kind}
use rashid.Jit.Address.{modrm_mem, modrm-modrm_mem}
use rashid.Jit.Decode.Common.{Prefixes, blank, ModRm, take_modrm, ext_of, is_mem, Answer}
use rashid.Jit.Decode.Forms.{
  cut, row, group_imm, acc_imm, shifts, imul3, lea_insn, push_pop, relative, group5_insn,
}
use rashid.Jit.Decode.Forms

-- The address with which the decoder stands at p.
abbrev pub at_cursor : Decoder → ℕ → ℕ
at_cursor d p = add64 d.rip0 (p - d.rip0)

-- Where the compiler expects the interpreter to go, for each kind. A return and an indirect branch
-- go where the guest says, and SSE instructions are decoded apart.
abbrev pub Lands : ℕ → ℕ → Kind → ℕ → ℕ → ℕ → Type 0
Lands flags next Kind.jcc imm cc rip = rip ≡ (if cond flags cc then add64 next imm else next)
Lands flags next Kind.jmp imm cc rip = rip ≡ add64 next imm
Lands flags next Kind.call imm cc rip = rip ≡ add64 next imm
Lands flags next Kind.ret imm cc rip = Unit {0}
Lands flags next Kind.callm imm cc rip = Unit {0}
Lands flags next Kind.jmpm imm cc rip = Unit {0}
Lands flags next Kind.sse imm cc rip = Unit {0}
Lands flags next _ imm cc rip = rip ≡ next

-- The same for an answer of the decoder, which may decline.
abbrev pub Follows : Cpu → Decoder → Answer → Cpu → Type 0
Follows c d none c' = Unit {0}
Follows c d (some (end, o)) c' = Lands c.flags (at_cursor d end) o.kind o.imm o.cc c'.rip

-- The length of the immediate of an operation with one.
abbrev pub group_bytes : ℕ → ℕ
group_bytes op = if (op == 0x80) || (op == 0xC6) || (op == 0x83) then 1 else 4

-- The prefixes as the interpreter holds them.
abbrev pub prefixes_of : Decoder → Prefixes
prefixes_of d = record { mand = d.mand; rex = d.rex; has_rex = d.has_rex }

module _ (c : Cpu) (d : Decoder) (words : (i : ℕ) → c.r i < 2 ^ 64) where
  abbrev pub taken : ModRm
  taken = take_modrm c.mem d.p d.rex

  abbrev byte : ℕ
  byte = read c.mem d.p 1

  modrm-p_reg : (byte / 2 ^ 6 == 3) ≡ true → (modrm c d).2.p ≡ d.p + 1
  unfolding modrm fetch
  modrm-p_reg e = rw e refl

  taken-p_reg : (byte / 2 ^ 6 == 3) ≡ true → taken.p ≡ d.p + 1
  unfolding take_modrm
  taken-p_reg e = rw e refl

  taken-p_mem : (byte / 2 ^ 6 == 3) ≡ false → taken.p ≡ (modrm_mem c.mem (d.p + 1) d.rex byte).0
  unfolding take_modrm
  taken-p_mem e = rw e refl

  -- Both decoders stand at the same place behind ModRM.
  modrm-p : (modrm c d).2.p ≡ taken.p
  modrm-p = elim (Bool-cases (byte / 2 ^ 6 == 3)) [
    | inl e ↦ modrm-p_reg e ∙ sym (taken-p_reg e)
    | inr e ↦ (modrm-modrm_mem c d d words e).1 ∙ sym (taken-p_mem e)
  ]

  -- So they agree on the address, once n more bytes are read.
  modrm-cursor :
      (n : ℕ)
      → dec_rip (record (modrm c d).2 { p = (modrm c d).2.p + n }) ≡ at_cursor d (taken.p + n)
  modrm-cursor n = ap₂ (λ (a b : ℕ). add64 a (b + n - a)) (modrm-rip0 c d) modrm-p

  -- No more bytes.
  pub operand-cursor : dec_rip ((modrm c d).2) ≡ at_cursor d taken.p
  operand-cursor = ap₂ (λ (a b : ℕ). add64 a (b - a)) (modrm-rip0 c d) modrm-p

  pub row-Follows : (op : ℕ) → Follows c d (row c.mem d.p (prefixes_of d) op) (alu_row c d op)
  unfolding row
  row-Follows op =
      let e = alu_row-rip c d op ∙ operand-cursor in
      let to_reg = has (bit_and op 2) && not (op == 0x84) && not (op == 0x85) in
      if_both (λ a. Follows c d a (alu_row c d op)) (is_mem taken)
        (if_both (λ k. Lands c.flags (at_cursor d taken.p) k 0 0 (alu_row c d op).rip) to_reg e e) e

  -- An instruction with n bytes behind ModRM, which goes on to the next one.
  goes_on :
      (n : ℕ) (c' : Cpu)
      → c'.rip ≡ dec_rip (record (modrm c d).2 { p = (modrm c d).2.p + n })
      → c'.rip ≡ at_cursor d (taken.p + n)
  goes_on n c' e = e ∙ modrm-cursor n

  -- Operations with an immediate, whatever the interpreter does.
  pub group_imm-Follows :
      (op : ℕ) (c' : Cpu)
      → c'.rip ≡ dec_rip (record (modrm c d).2 { p = (modrm c d).2.p + group_bytes op })
      → Follows c d (group_imm c.mem d.p (prefixes_of d) op) c'
  unfolding group_imm
  group_imm-Follows op c' h =
      let e = goes_on (group_bytes op) c' h in
      let is_byte = (op == 0x80) || (op == 0xC6) in
      let mov = (op == 0xC6) || (op == 0xC7) in
      let ext = ext_of taken in
      let size = if is_byte then 1 else (blank (prefixes_of d)).size in
      let imm =
        if is_byte
        then read c.mem taken.p 1
        else if op == 0x83
        then extend 8 (read c.mem taken.p 1)
        else extend 32 (read c.mem taken.p 4) in
      let ends : Answer → Type 0 = λ a. Follows c d a c' in
      let lands : Kind → Type 0 =
        λ k. Lands c.flags (at_cursor d (taken.p + group_bytes op)) k (cut size imm) 0 c'.rip in
      if_both ends (mov && not (ext == 0)) tt
        (if_both ends (not mov && ((ext == 2) || (ext == 3))) tt (if_both lands (is_mem taken) e e))

  pub shifts-Follows :
      (op : ℕ) → Follows c d (shifts c.mem d.p (prefixes_of d) op) (shift_rm c d op)
  unfolding shifts
  shifts-Follows op =
      let by_imm = (op == 0xC0) || (op == 0xC1) in
      let end = if by_imm then taken.p + 1 else taken.p in
      let same : taken.p + count_bytes op ≡ end = elim (Bool-cases by_imm) [
        | inl t ↦ rw t refl
        | inr t ↦ rw t (omega arith)
      ] in
      if_both (λ a. Follows c d a (shift_rm c d op)) (ltb (ext_of taken) 4) tt
        (goes_on (count_bytes op) (shift_rm c d op) (shift_rm-rip c d op) ∙ ap (at_cursor d) same)

  pub imul3-Follows : (op : ℕ) → Follows c d (imul3 c.mem d.p (prefixes_of d) op) (imul_imm c d op)
  unfolding imul3
  imul3-Follows op = imul_imm-rip c d op ∙ modrm-cursor (if op == 0x6B then 1 else 4)

  pub lea-Follows : Follows c d (lea_insn c.mem d.p (prefixes_of d)) (lea c d)
  unfolding lea_insn
  lea-Follows =
      if_both (λ a. Follows c d a (lea c d)) (is_mem taken) (lea-rip c d ∙ operand-cursor) tt

  pub push-Follows :
      (op : ℕ)
      → ltb op 0x58 ≡ true
      → Follows c d (push_pop d.p (prefixes_of d) op) (push_reg c d op)
  unfolding push_pop
  push-Follows op low =
      if_both (λ a. Follows c d a (push_reg c d op)) (op_reg op d == 4) tt
        (rw low (push_reg-rip c d op))

  pub pop-Follows :
      (op : ℕ)
      → ltb op 0x58 ≡ false
      → Follows c d (push_pop d.p (prefixes_of d) op) (pop_reg c d op)
  unfolding push_pop
  pop-Follows op high =
      if_both (λ a. Follows c d a (pop_reg c d op)) (op_reg op d == 4) tt
        (rw high (pop_reg-rip c d op))

  pub jcc-Follows :
      (n op : ℕ)
      → Follows c d (relative Kind.jcc n c.mem d.p (prefixes_of d) (bit_and op 0xF)) (jcc n c d op)
  unfolding relative fetch
  jcc-Follows n op = jcc-rip n c d op

  pub jmp-Follows :
      (n : ℕ) → Follows c d (relative Kind.jmp n c.mem d.p (prefixes_of d) 0) (jmp_rel n c d)
  unfolding relative fetch
  jmp-Follows n = jmp_rel-rip n c d

  pub call-Follows : Follows c d (relative Kind.call 4 c.mem d.p (prefixes_of d) 0) (call_rel c d)
  unfolding relative fetch
  call-Follows = call_rel-rip c d

  -- The extension of a group is the same for both.
  modrm-ext : bit_and ((modrm c d).0) 7 ≡ ext_of taken
  unfolding take_modrm
  modrm-ext = ap (λ r. bit_and r 7) (modrm-field c d) ∙ field-low byte 3 (has (bit_and d.rex 4))

  pub group5-Follows :
      (op : ℕ) → Follows c d (group5_insn c.mem d.p (prefixes_of d) op) (group5 c d op)
  unfolding group5_insn
  group5-Follows op =
      let c' = group5 c d op in
      let x = prefixes_of d in
      let ext = ext_of taken in
      let ends : Answer → Type 0 = λ a. Follows c d a c' in
      let end = at_cursor d taken.p in
      by_test ends (ltb ext 2)
        (λ low.
          let e = group5-rip c d op (ap (λ i. ltb i 2) modrm-ext ∙ low) ∙ operand-cursor in
          if_both (λ k. Lands c.flags end k 1 0 c'.rip) (is_mem taken) e e)
        (λ _. if_both ends ((op == 0xFE) || (not (ext == 2) && not (ext == 4))) tt (
          if_both ends (not (is_mem taken) && (taken.rm == 4)) tt
            (if_both (λ k. Lands c.flags end k 0 0 c'.rip) (ext == 2) tt tt)))

  module _ (size : d.opsize ≡ (blank (prefixes_of d)).size) where
    -- The length of an immediate on eAX.
    acc-cursor :
        (wide : Bool)
        → let size = if wide then d.opsize else 1 in
          dec_rip (record d { p = d.p + acc_bytes size })
          ≡ at_cursor d
              (d.p + (if (if wide then (blank (prefixes_of d)).size else 1) == 1 then 1 else 4))
    acc-cursor true = elim (Bool-cases (has (bit_and d.rex 8))) [
      | inl t ↦ rw (size, t) refl
      | inr t ↦ rw (size, t) refl
    ]
    acc-cursor false = refl

    pub acc-Follows : (op : ℕ) → Follows c d (acc_imm c.mem d.p (prefixes_of d) op) (alu_acc c d op)
    unfolding acc_imm
    acc-Follows op = alu_acc-rip c d op ∙ acc-cursor (has (bit_and op 1))

    pub test_A8-Follows : Follows c d (acc_imm c.mem d.p (prefixes_of d) 0xA8) (test_acc c d 0xA8)
    unfolding acc_imm
    test_A8-Follows = test_acc-rip c d 0xA8 ∙ acc-cursor false

    pub test_A9-Follows : Follows c d (acc_imm c.mem d.p (prefixes_of d) 0xA9) (test_acc c d 0xA9)
    unfolding acc_imm
    test_A9-Follows = test_acc-rip c d 0xA9 ∙ acc-cursor true

    pub mov8-Follows :
        (op : ℕ)
        → ltb op 0xB8 ≡ true
        → Follows c d (Forms.mov_imm c.mem d.p (prefixes_of d) op) (mov_imm8 c d op)
    unfolding Forms.mov_imm
    mov8-Follows op low = rw low (mov_imm8-rip c d op)

    pub mov-Follows :
        (op : ℕ)
        → ltb op 0xB8 ≡ false
        → Follows c d (Forms.mov_imm c.mem d.p (prefixes_of d) op) (mov_imm c d op)
    unfolding Forms.mov_imm
    mov-Follows op high = elim (Bool-cases (has (bit_and d.rex 8))) [
      | inl t ↦
          let e : d.opsize ≡ 8 = size ∙ rw t refl in rw (high, t) (mov_imm-rip c d op ∙ rw e refl)
      | inr t ↦
          let e : d.opsize ≡ 4 = size ∙ rw t refl in rw (high, t) (mov_imm-rip c d op ∙ rw e refl)
    ]
