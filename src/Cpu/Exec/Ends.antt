-- ===== src/Cpu/Exec/Ends.antt =====
-- src/cpu.c, `step`: behind which bytes each case leaves rip.
use rashid.Base.{
  ℕ, ◌+◌, ◌-◌, ◌*◌, bit_and, Bool, true, false, not, ◌&&◌, ◌||◌, ltb, ◌==◌, if◌then◌else◌, ◌≡◌,
  refl, ap, ◌∙◌, add64, sub64, Bool-cases, inl, inr, arith, if_both,
}
use rashid.Cpu.{has, extend}
use rashid.Cpu.State.{Cpu, rcx}
use rashid.Cpu.Flags.{cond, flags_inc, flags_dec}
use rashid.Cpu.Registers.{setreg, setreg8}
use rashid.Cpu.Decode.{
  Operand, reg, memory, pending, Decoder, fetch, modrm, fixup_rip, rd, wr, dec_rip,
}
use rashid.Cpu.Alu.{Operation, writes, shift, row_of, acc_row_of, group1_of}
use rashid.Cpu.Exec.Common.{advance, apply_to, set_flags, operand, fetch_signed, fetch_acc, op_reg}
use rashid.Cpu.Exec.Rows.{
  alu_row, alu_acc, test_acc, group1, imul_imm, imul_rm, load_address, lea, mov_imm8, mov_imm,
  mov_rm_imm,
}
use rashid.Cpu.Exec.Flow.{push_reg, pop_reg, jcc, jmp_rel, call_rel}
use rashid.Cpu.Exec.Groups.{shift_rm, group5}
use rashid.Cpu.Exec.TwoByte.{long_nop, setcc, mov_extended}
use rashid.Cpu.Exec.Rip.{rd-rip, wr-rip, apply_to-rip, push-rip, pop-rip_same}

-- Two operands read and the operation applied.
read_apply :
    (o : Operation) (c : Cpu) (dst src : Operand) (size : ℕ) (rex : Bool)
    → let (a, c1) = rd c dst size rex in
      let (b, c2) = rd c1 src size rex in (apply_to o c2 dst a b size rex).rip ≡ c.rip
read_apply o c dst src size rex =
    let (a, c1) = rd c dst size rex in
    let (b, c2) = rd c1 src size rex in
    apply_to-rip o c2 dst a b size rex ∙ rd-rip c1 src size rex ∙ rd-rip c dst size rex

-- One operand read, with a value from elsewhere.
read_apply1 :
    (o : Operation) (c : Cpu) (dst : Operand) (b size : ℕ) (rex : Bool)
    → let (a, c1) = rd c dst size rex in (apply_to o c1 dst a b size rex).rip ≡ c.rip
read_apply1 o c dst b size rex =
    let (a, c1) = rd c dst size rex in apply_to-rip o c1 dst a b size rex ∙ rd-rip c dst size rex

pub alu_row-rip : (c : Cpu) (d : Decoder) (op : ℕ) → (alu_row c d op).rip ≡ dec_rip ((modrm c d).2)
unfolding alu_row operand
alu_row-rip c d op =
    let size = if has (bit_and op 1) then d.opsize else 1 in
    let to_reg = has (bit_and op 2) && not (op == 0x84) && not (op == 0x85) in
    let (i, o, d') = modrm c d in
    let rm = fixup_rip d' o in
    let dst = if to_reg then reg i else rm in
    let src = if to_reg then rm else reg i in
    read_apply (row_of op) (advance c d') dst src size d.has_rex

pub group1-rip :
    (c : Cpu) (d : Decoder) (op : ℕ)
    → let d1 = (modrm c d).2 in
      (group1 c d op).rip ≡ dec_rip (record d1 { p = d1.p + (if op == 0x81 then 4 else 1) })
unfolding group1 fetch_signed fetch
group1-rip c d op =
    let size = if op == 0x80 then 1 else d.opsize in
    let (ext, o, d1) = modrm c d in
    let (b, d2) = fetch_signed (if op == 0x81 then 4 else 1) c d1 in
    read_apply1 (group1_of (bit_and ext 7)) (advance c d2) (fixup_rip d2 o) b size d.has_rex

pub mov_rm_imm-rip :
    (c : Cpu) (d : Decoder) (op : ℕ)
    → let d1 = (modrm c d).2 in
      (mov_rm_imm c d op).rip ≡ dec_rip (record d1 { p = d1.p + (if op == 0xC6 then 1 else 4) })
unfolding mov_rm_imm fetch_signed fetch
mov_rm_imm-rip c d op =
    let (_, o, d1) = modrm c d in
    elim (Bool-cases (op == 0xC6)) [
      | inl e ↦
          let (v, d2) = fetch 1 c d1 in rw e (wr-rip (advance c d2) (fixup_rip d2 o) v 1 d.has_rex)
      | inr e ↦
          let (v, d2) = fetch_signed 4 c d1 in
          rw e (wr-rip (advance c d2) (fixup_rip d2 o) v d.opsize d.has_rex)
    ]

pub imul_imm-rip :
    (c : Cpu) (d : Decoder) (op : ℕ)
    → let d1 = (modrm c d).2 in
      (imul_imm c d op).rip ≡ dec_rip (record d1 { p = d1.p + (if op == 0x6B then 1 else 4) })
unfolding imul_imm fetch_signed fetch setreg
imul_imm-rip c d op =
    let (i, o, d1) = modrm c d in
    let (imm, d2) = fetch_signed (if op == 0x6B then 1 else 4) c d1 in
    rd-rip (advance c d2) (fixup_rip d2 o) d.opsize d.has_rex

pub imul_rm-rip : (c : Cpu) (d : Decoder) → (imul_rm c d).rip ≡ dec_rip ((modrm c d).2)
unfolding imul_rm operand setreg
imul_rm-rip c d =
    let (i, o, d') = modrm c d in rd-rip (advance c d') (fixup_rip d' o) d.opsize d.has_rex

pub mov_extended-rip :
    (c : Cpu) (d : Decoder) (op : ℕ) → (mov_extended c d op).rip ≡ dec_rip ((modrm c d).2)
unfolding mov_extended operand setreg
mov_extended-rip c d op =
    let size = if has (bit_and op 1) then 2 else 1 in
    let (i, o, d') = modrm c d in rd-rip (advance c d') (fixup_rip d' o) size d.has_rex

pub setcc-rip : (c : Cpu) (d : Decoder) (op : ℕ) → (setcc c d op).rip ≡ dec_rip ((modrm c d).2)
unfolding setcc operand
setcc-rip c d op =
    let (i, o, d') = modrm c d in
    let v = if cond c.flags (bit_and op 0xF) then 1 else 0 in
    wr-rip (advance c d') (fixup_rip d' o) v 1 d.has_rex

-- The length of an immediate of the rows on eAX.
abbrev pub acc_bytes : ℕ → ℕ
acc_bytes size = if size == 1 then 1 else if size == 2 then 2 else 4

fetch_acc-cursor :
    (size : ℕ) (c : Cpu) (d : Decoder)
    → dec_rip ((fetch_acc size c d).1) ≡ dec_rip (record d { p = d.p + acc_bytes size })
unfolding fetch_acc fetch_signed fetch
fetch_acc-cursor size c d = elim (Bool-cases (size == 1)) [
  | inl e ↦ rw e refl
  | inr e ↦ elim (Bool-cases (size == 2)) [ inl e' ↦ rw (e, e') refl | inr e' ↦ rw (e, e') refl ]
]

pub alu_acc-rip :
    (c : Cpu) (d : Decoder) (op : ℕ)
    → (alu_acc c d op).rip
      ≡ dec_rip (record d { p = d.p + acc_bytes (if has (bit_and op 1) then d.opsize else 1) })
unfolding alu_acc setreg
alu_acc-rip c d op =
    let size = if has (bit_and op 1) then d.opsize else 1 in
    let e = fetch_acc-cursor size c d in
    if_both (λ (c' : Cpu). c'.rip ≡ dec_rip (record d { p = d.p + acc_bytes size }))
      (writes (acc_row_of op)) e e

pub test_acc-rip :
    (c : Cpu) (d : Decoder) (op : ℕ)
    → (test_acc c d op).rip
      ≡ dec_rip (record d { p = d.p + acc_bytes (if op == 0xA8 then 1 else d.opsize) })
unfolding test_acc
test_acc-rip c d op = fetch_acc-cursor (if op == 0xA8 then 1 else d.opsize) c d

setreg8-rip : (c : Cpu) (i v : ℕ) (rex : Bool) → (setreg8 c i v rex).rip ≡ c.rip
unfolding wr setreg8
setreg8-rip c i v rex = wr-rip c (reg i) v 1 rex

pub mov_imm8-rip :
    (c : Cpu) (d : Decoder) (op : ℕ) → (mov_imm8 c d op).rip ≡ dec_rip (record d { p = d.p + 1 })
unfolding mov_imm8
mov_imm8-rip c d op =
    let (v, d') = fetch 1 c d in setreg8-rip (advance c d') (op_reg op d) v d.has_rex

pub mov_imm-rip :
    (c : Cpu) (d : Decoder) (op : ℕ)
    → (mov_imm c d op).rip
      ≡ dec_rip
          (record d { p = d.p + (if d.opsize == 8 then 8 else if d.opsize == 2 then 2 else 4) })
unfolding mov_imm fetch setreg
mov_imm-rip c d op = refl

load_address-rip :
    (c : Cpu) (i : ℕ) (o : Operand) (size start : ℕ) → (load_address c i o size start).rip ≡ c.rip
unfolding load_address setreg
load_address-rip c i (reg _) size start = refl
load_address-rip c i (memory a seg) size start = refl
load_address-rip c i (pending a seg) size start = refl

pub lea-rip : (c : Cpu) (d : Decoder) → (lea c d).rip ≡ dec_rip ((modrm c d).2)
unfolding lea operand
lea-rip c d =
    let (i, o, d') = modrm c d in load_address-rip (advance c d') i (fixup_rip d' o) d.opsize d.rip0

pub long_nop-rip : (c : Cpu) (d : Decoder) → (long_nop c d).rip ≡ dec_rip ((modrm c d).2)
unfolding long_nop operand
long_nop-rip c d = refl

pub push_reg-rip : (c : Cpu) (d : Decoder) (op : ℕ) → (push_reg c d op).rip ≡ dec_rip d
unfolding push_reg
push_reg-rip c d op = push-rip (advance c d) (c.r (op_reg op d))

pub pop_reg-rip : (c : Cpu) (d : Decoder) (op : ℕ) → (pop_reg c d op).rip ≡ dec_rip d
unfolding pop_reg
pop_reg-rip c d op = pop-rip_same (advance c d)

pub jcc-rip :
    (n : ℕ) (c : Cpu) (d : Decoder) (op : ℕ)
    → let (rel, d') = fetch n c d in
      (jcc n c d op).rip ≡ (
        if cond c.flags (bit_and op 0xF)
        then add64 (dec_rip d') (extend (n * 8) rel)
        else dec_rip d')
unfolding jcc fetch
jcc-rip n c d op = elim (Bool-cases (cond c.flags (bit_and op 0xF))) [
  | inl e ↦ rw e refl
  | inr e ↦ rw e refl
]

pub jmp_rel-rip :
    (n : ℕ) (c : Cpu) (d : Decoder)
    → let (rel, d') = fetch n c d in (jmp_rel n c d).rip ≡ add64 (dec_rip d') (extend (n * 8) rel)
unfolding jmp_rel
jmp_rel-rip n c d = refl

pub call_rel-rip :
    (c : Cpu) (d : Decoder)
    → let (rel, d') = fetch 4 c d in (call_rel c d).rip ≡ add64 (dec_rip d') (extend 32 rel)
unfolding call_rel
call_rel-rip c d =
    let (rel, d') = fetch 4 c d in
    ap (λ x. add64 x (extend 32 rel)) (push-rip (advance c d') (dec_rip d'))

-- The count of a shift is a byte only in two of the encodings.
abbrev pub count_bytes : ℕ → ℕ
count_bytes op = if (op == 0xC0) || (op == 0xC1) then 1 else 0

shift_count : Cpu → Decoder → ℕ → ℕ × Decoder
unfolding fetch
shift_count c d op =
    if (op == 0xC0) || (op == 0xC1)
    then fetch 1 c d
    else if (op == 0xD0) || (op == 0xD1)
    then (1, d)
    else (bit_and (c.r rcx) 0xff, d)

shift_count-cursor :
    (c : Cpu) (d : Decoder) (op : ℕ)
    → dec_rip ((shift_count c d op).1) ≡ dec_rip (record d { p = d.p + count_bytes op })
unfolding shift_count fetch
shift_count-cursor c d op = elim (Bool-cases ((op == 0xC0) || (op == 0xC1))) [
  | inl e ↦ rw e refl
  | inr e ↦
      let same : dec_rip d ≡ dec_rip (record d { p = d.p + 0 }) =
        ap (λ p. add64 d.rip0 (p - d.rip0)) (omega arith) in
      elim (Bool-cases ((op == 0xD0) || (op == 0xD1))) [
        | inl e' ↦ rw (e, e') same
        | inr e' ↦ rw (e, e') same
      ]
]

pub shift_rm-rip :
    (c : Cpu) (d : Decoder) (op : ℕ)
    → let d1 = (modrm c d).2 in
      (shift_rm c d op).rip ≡ dec_rip (record d1 { p = d1.p + count_bytes op })
unfolding shift_rm fetch shift_count
shift_rm-rip c d op =
    let size = if has (bit_and op 1) then d.opsize else 1 in
    let (i, o, d1) = modrm c d in
    let ext = bit_and i 7 in
    let (raw, d2) = shift_count c d1 op in
    let rm = fixup_rip d2 o in
    let c1 = advance c d2 in
    let cnt = bit_and raw (if size == 8 then 63 else 31) in
    let (a, c2) = rd c1 rm size d.has_rex in
    let (v, flags) = shift c2.flags a cnt size ext in
    let there : Cpu → Type 0 = λ c'. c'.rip ≡ dec_rip d2 in
    let written : (wr (set_flags c2 flags) rm v size d.has_rex).rip ≡ dec_rip d2 =
      wr-rip (set_flags c2 flags) rm v size d.has_rex ∙ rd-rip c1 rm size d.has_rex in
    if_both there (cnt == 0) refl (if_both there (ltb ext 4) refl written)
    ∙ shift_count-cursor c d1 op

below_two : (e : ℕ) → (e == 0) ≡ false → ltb e 2 ≡ true → (e == 1) ≡ true
below_two e n low = ground arith

pub group5-rip :
    (c : Cpu) (d : Decoder) (op : ℕ)
    → let (i, o, d') = modrm c d in ltb (bit_and i 7) 2 ≡ true → (group5 c d op).rip ≡ dec_rip d'
unfolding group5 operand
group5-rip c d op low =
    let size = if op == 0xFE then 1 else d.opsize in
    let (i, o, d') = modrm c d in
    let rm = fixup_rip d' o in
    let ext = bit_and i 7 in
    let (a, c1) = rd (advance c d') rm size d.has_rex in
    let more = add64 a 1 in
    let less = sub64 a 1 in
    let read : c1.rip ≡ dec_rip d' = rd-rip (advance c d') rm size d.has_rex in
    elim (Bool-cases (ext == 0)) [
      | inl e ↦
          rw e
            (wr-rip (set_flags c1 (flags_inc c1.flags a more size)) rm more size d.has_rex ∙ read)
      | inr e ↦
          let one : (ext == 1) ≡ true = below_two ext e low in
          rw (e, one)
            (wr-rip (set_flags c1 (flags_dec c1.flags a less size)) rm less size d.has_rex ∙ read)
    ]
