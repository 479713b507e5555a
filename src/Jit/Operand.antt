-- ===== src/Jit/Operand.antt =====
-- src/jit.c, put_ea: what the words for the address of a memory operand leave in x1.
use rashid.Base.{
  ℕ, zero, suc, ◌+◌, ◌-◌, ◌*◌, ◌/◌, ◌%◌, ◌^◌, ◌≤◌, ◌<◌, ◌≡◌, ◌∙◌, ◌&&◌, ap, sym, refl, bit_or,
  bit_and, by_test, Bool, true, false, Option, none, some, ltb, ◌==◌, if◌then◌else◌, length, add64,
  sub64, update, arith, Bool-cases, inl, inr,
}
use native.Mathlib.Nat.{pow-suc}
use mathlib.Core.Path.{ap₂, fun_ext}
use rashid.Bits.{bit_or-lt, bit_and-ones}
use rashid.Cpu.{has}
use rashid.Cpu.Memory.{read}
use rashid.Emit.{ThreeRegs, three_regs, Transfer, transfer, movz, movk}
use rashid.Emit.Others.{add_shift, add_imm, sub_imm}
use rashid.Emit.Fields.{transfer_lem}
use rashid.Emit.Words.{word_of_offset}
use rashid.Jit.Constant.{
  Buf, put, put_room, put_when, put_imm, half, run, run_word, run_sum, run-put_imm,
}
use rashid.Cpu.State.{Cpu}
use rashid.Cpu.Decode.{Decoder, modrm, fixup_rip, dec_rip, field, rex_bit}
use rashid.Jit.Address.{
  Insn, more_disp, modrm_mem, operand_address, modrm-modrm_mem, ea, base_of, index_of,
}
use rashid.Jit.Words.{Layout, cpu_reg, off_r, put_disp, put_index, put_based, put_ea}

-- A number of n bytes.
pub read-lt : (mem : ℕ → ℕ) → ((a : ℕ) → mem a < 256) → (n a : ℕ) → read mem a n < 256 ^ n
read-lt mem bytes zero a = omega arith
read-lt mem bytes (suc n) a = omega (arith, bytes a, read-lt mem bytes n (a + 1), pow-suc 256 n)

-- A load of a register of the guest.
load_register :
    (mem q : ℕ → ℕ) (t off : ℕ)
    → t < 32
    → off % 8 ≡ 0
    → off < 32768
    → run_word mem q (transfer Transfer.ldr t cpu_reg off)
      ≡ update q t (read mem (q cpu_reg + off) 8)
unfolding run_word run_sum
load_register mem q t off p e small =
    let w = transfer Transfer.ldr t cpu_reg (off / 8 * 8) in
    let back : off / 8 * 8 ≡ off = omega (arith, e) in
    let (d, n, imm, form) =
      transfer_lem Transfer.ldr t cpu_reg (off / 8) p (omega arith) (omega arith) in
    let not_movz : (w / 2 ^ 23 == 0x1A5) ≡ false = ground (arith, form) in
    let not_movk : (w / 2 ^ 23 == 0x1E5) ≡ false = ground (arith, form) in
    let is_load : (w / 2 ^ 22 == 0x3E5) ≡ true = ground (arith, form) in
    rw (sym back) (rw (not_movz, not_movk, is_load, d, n, imm) refl)

-- The sums with the index, and with a displacement in x6.
add_index :
    (mem q : ℕ → ℕ) (scale : ℕ)
    → scale < 4
    → run_word mem q (add_shift 1 1 6 scale) ≡ update q 1 (add64 (q 1) (q 6 * 2 ^ scale % 2 ^ 64))
unfolding run_word run_sum
add_index mem q zero p = refl
add_index mem q (suc zero) p = refl
add_index mem q (suc (suc zero)) p = refl
add_index mem q (suc (suc (suc zero))) p = refl
add_index mem q (suc (suc (suc (suc n)))) p = absurd (omega arith)

add_register :
    (mem q : ℕ → ℕ)
    → run_word mem q (three_regs ThreeRegs.add 1 1 6)
      ≡ update q 1 (add64 (q 1) (q 6 * 2 ^ 0 % 2 ^ 64))
unfolding run_word run_sum three_regs
add_register mem q = refl

clear_x1 : (mem q : ℕ → ℕ) → run_word mem q (movz 1 0 0) ≡ update q 1 0
unfolding run_word movz
clear_x1 mem q = refl

add_small :
    (mem q : ℕ → ℕ) (imm : ℕ)
    → imm < 4096
    → run_word mem q (add_imm 1 1 imm) ≡ update q 1 (add64 (q 1) imm)
unfolding run_word run_sum
add_small mem q imm p =
    let w = add_imm 1 1 imm in
    let cut : imm * 2 ^ 10 % 2 ^ 32 ≡ imm * 2 ^ 10 = omega arith in
    let form : w ≡ 0x244 * 2 ^ 22 + imm * 2 ^ 10 + 1 * 2 ^ 5 + 1 =
      ap (λ t. bit_or (bit_or (bit_or 0x9100_0000 t) 32) 1) cut
      ∙ word_of_offset 0x244 imm 1 1 p (omega arith) (omega arith) in
    let not_movz : (w / 2 ^ 23 == 0x1A5) ≡ false = ground (arith, form) in
    let not_movk : (w / 2 ^ 23 == 0x1E5) ≡ false = ground (arith, form) in
    let not_load : (w / 2 ^ 22 == 0x3E5) ≡ false = ground (arith, form) in
    let not_shift : (w / 2 ^ 21 == 0x458) ≡ false = ground (arith, form) in
    let is_sum : (w / 2 ^ 22 == 0x244) ≡ true = ground (arith, form) in
    let d : w % 32 ≡ 1 = omega (arith, form) in
    let n : w / 2 ^ 5 % 32 ≡ 1 = omega (arith, form) in
    let i : w / 2 ^ 10 % 2 ^ 12 ≡ imm = omega (arith, form) in
    rw (not_movz, not_movk, not_load, not_shift, is_sum, d, n, i) refl

sub_small :
    (mem q : ℕ → ℕ) (imm : ℕ)
    → imm < 4096
    → run_word mem q (sub_imm 1 1 imm) ≡ update q 1 (sub64 (q 1) imm)
unfolding run_word run_sum
sub_small mem q imm p =
    let w = sub_imm 1 1 imm in
    let cut : imm * 2 ^ 10 % 2 ^ 32 ≡ imm * 2 ^ 10 = omega arith in
    let form : w ≡ 0x344 * 2 ^ 22 + imm * 2 ^ 10 + 1 * 2 ^ 5 + 1 =
      ap (λ t. bit_or (bit_or (bit_or 0xD100_0000 t) 32) 1) cut
      ∙ word_of_offset 0x344 imm 1 1 p (omega arith) (omega arith) in
    let not_movz : (w / 2 ^ 23 == 0x1A5) ≡ false = ground (arith, form) in
    let not_movk : (w / 2 ^ 23 == 0x1E5) ≡ false = ground (arith, form) in
    let not_load : (w / 2 ^ 22 == 0x3E5) ≡ false = ground (arith, form) in
    let not_shift : (w / 2 ^ 21 == 0x458) ≡ false = ground (arith, form) in
    let not_sum : (w / 2 ^ 22 == 0x244) ≡ false = ground (arith, form) in
    let is_difference : (w / 2 ^ 22 == 0x344) ≡ true = ground (arith, form) in
    let d : w % 32 ≡ 1 = omega (arith, form) in
    let n : w / 2 ^ 5 % 32 ≡ 1 = omega (arith, form) in
    let i : w / 2 ^ 10 % 2 ^ 12 ≡ imm = omega (arith, form) in
    rw (not_movz, not_movk, not_load, not_shift, not_sum, is_difference, d, n, i) refl

-- Behind the words of b: x1 holds v, x6 holds u, and the address of the registers is in place; the
-- buffer has room for n more words.
record Leaves (mem x : ℕ → ℕ) (cpu n : ℕ) (b : Buf) (v u : ℕ) : Type 0 where
  pub one : run mem x b.out 1 ≡ v
  pub six : run mem x b.out 6 ≡ u
  pub base : run mem x b.out cpu_reg ≡ cpu
  pub left : length b.out + n ≤ b.max

run-put :
    (mem x : ℕ → ℕ) (n : ℕ) (b : Buf) (w : ℕ)
    → length b.out + suc n ≤ b.max
    → (run mem x (put b w).out ≡ run_word mem (run mem x b.out) w)
      × (length (put b w).out + n ≤ (put b w).max)
unfolding run
run-put mem x n b w room = rw (put_room b w n room) (refl, omega (arith, room))

-- A word that sets x1, or x6.
put_one :
    {mem x : ℕ → ℕ} {cpu n : ℕ} {b : Buf} {v u : ℕ} (w v' : ℕ)
    → Leaves mem x cpu (suc n) b v u
    → run_word mem (run mem x b.out) w ≡ update (run mem x b.out) 1 v'
    → Leaves mem x cpu n (put b w) v' u
put_one {mem} {x} {n = n} {b = b} w v' h e =
    let (runs, left) = run-put mem x n b w h.left in
    let all = runs ∙ e in
    let q = run mem x b.out in
    record {
      one = ap (λ f. f 1) all;
      six = ap (λ f. f 6) all ∙ h.six;
      base = ap (λ f. f cpu_reg) all ∙ h.base;
      left = left;
    }

put_six :
    {mem x : ℕ → ℕ} {cpu n : ℕ} {b : Buf} {v u : ℕ} (w u' : ℕ)
    → Leaves mem x cpu (suc n) b v u
    → run_word mem (run mem x b.out) w ≡ update (run mem x b.out) 6 u'
    → Leaves mem x cpu n (put b w) v u'
put_six {mem} {x} {n = n} {b = b} w u' h e =
    let (runs, left) = run-put mem x n b w h.left in
    let all = runs ∙ e in
    record {
      one = ap (λ f. f 1) all ∙ h.one;
      six = ap (λ f. f 6) all;
      base = ap (λ f. f cpu_reg) all ∙ h.base;
      left = left;
    }

put_when-room :
    (t : Bool) (b : Buf) (w n : ℕ)
    → length b.out + suc n ≤ b.max
    → length (put_when t b w).out + n ≤ (put_when t b w).max
unfolding put_when
put_when-room true b w n h = rw (put_room b w n h) (omega (arith, h))
put_when-room false b w n h = omega (arith, h)

-- A constant goes to x6, or to x1.
put_imm-room :
    (b : Buf) (reg v n : ℕ)
    → length b.out + suc (suc (suc (suc n))) ≤ b.max
    → length (put_imm b reg v).out + n ≤ (put_imm b reg v).max
unfolding put_imm
put_imm-room b reg v n h =
    let first = movz reg (half v 0) 0 in
    let b0 = put b first in
    let b1 = put_when (has (v / 2 ^ 16)) b0 (movk reg (half v 1) 1) in
    let b2 = put_when (has (v / 2 ^ 32)) b1 (movk reg (half v 2) 2) in
    let start : length b0.out + suc (suc (suc n)) ≤ b0.max =
      rw (put_room b first (suc (suc (suc n))) (omega (arith, h))) (omega (arith, h)) in
    put_when-room (has (v / 2 ^ 48)) b2 (movk reg (half v 3) 3) n (
      put_when-room (has (v / 2 ^ 32)) b1 (movk reg (half v 2) 2) (suc n)
        (put_when-room (has (v / 2 ^ 16)) b0 (movk reg (half v 1) 1) (suc (suc n)) start))

constant_six :
    {mem x : ℕ → ℕ} {cpu n : ℕ} {b : Buf} {v u : ℕ} (u' : ℕ)
    → Leaves mem x cpu (suc (suc (suc (suc n)))) b v u
    → u' < 2 ^ 64
    → Leaves mem x cpu n (put_imm b 6 u') v u'
constant_six {mem} {x} {n = n} {b = b} u' h p =
    let (here, others) = (run-put_imm mem x b 6 u' (omega arith) p (omega (arith, h.left))).0 in
    record {
      one = others 1 (λ e. absurd (omega (arith, e))) ∙ h.one;
      six = here;
      base = others cpu_reg (λ e. absurd (omega (arith, e))) ∙ h.base;
      left = put_imm-room b 6 u' n h.left;
    }

-- The displacement.
put_disp-Leaves :
    {mem x : ℕ → ℕ} {cpu : ℕ} {b : Buf} {v u : ℕ} (disp : ℕ)
    → Leaves mem x cpu 5 b v u
    → v < 2 ^ 64
    → disp < 2 ^ 64
    → run mem x (put_disp b disp).out 1 ≡ add64 v disp
unfolding put_disp
put_disp-Leaves {mem} {x} {b = b} {v = v} disp h small p =
    let q = run mem x b.out in
    elim (Bool-cases (has disp && ltb disp 4096)) [
      | inl t ↦ rw t (
          (put_one {n = 4} (add_imm 1 1 disp) (add64 (q 1) disp) h
            (add_small mem q disp (ground arith))).one
          ∙ ap (λ (y : ℕ). add64 y disp) h.one)
      | inr t ↦ elim (Bool-cases (ltb (2 ^ 64 - 4096) disp)) [
        | inl s ↦
            let imm = sub64 0 disp in
            let near : imm < 4096 = ground arith in
            rw (t, s)
              ((put_one {n = 4} (sub_imm 1 1 imm) (sub64 (q 1) imm) h
                  (sub_small mem q imm near)).one
                ∙ ap (λ (y : ℕ). sub64 y imm) h.one
                ∙ ground arith)
        | inr s ↦ elim (Bool-cases (has disp)) [
          | inl d ↦
              let loaded = constant_six {n = 1} disp h p in
              let q' = run mem x (put_imm b 6 disp).out in
              rw (t, s, d)
                ((put_one {n = 0} (three_regs ThreeRegs.add 1 1 6) _ loaded
                    (add_register mem q')).one
                  ∙ ap₂ (λ (y z : ℕ). add64 y (z * 2 ^ 0 % 2 ^ 64)) loaded.one loaded.six
                  ∙ omega arith)
          | inr d ↦ rw (t, s, d) (h.one ∙ ground arith)
        ]
      ]
    ]

-- The registers of the guest, in memory.
abbrev pub guest : (ℕ → ℕ) → Layout → ℕ → ℕ → ℕ
guest mem l cpu i = read mem (cpu + off_r l i) 8

-- Registers are in reach of a load.
abbrev pub InReach : Layout → Type 0
InReach l = (l.off_r0 % 8 ≡ 0) × (off_r l 15 < 32768)

put_index-Leaves :
    {mem x : ℕ → ℕ} {cpu n : ℕ} {b : Buf} {v u : ℕ} (l : Layout) (i scale : ℕ)
    → InReach l
    → i < 16
    → scale < 4
    → Leaves mem x cpu (suc (suc n)) b v u
    → Leaves mem x cpu n
        (put_index l b i scale)
        (add64 v (guest mem l cpu i * 2 ^ scale % 2 ^ 64))
        (guest mem l cpu i)
unfolding put_index
put_index-Leaves {mem} {x} {cpu} {n} {b} {v} l i scale (aligned, near) p s h =
    let q = run mem x b.out in
    let w = transfer Transfer.ldr 6 cpu_reg (off_r l i) in
    let loaded = put_six {n = suc n} w (guest mem l cpu i) h (
      load_register mem q 6 (off_r l i) (omega arith) (omega arith) (omega arith)
      ∙ ap (λ (a : ℕ). update q 6 (read mem (a + off_r l i) 8)) h.base) in
    let q' = run mem x (put b w).out in
    put_one (add_shift 1 1 6 scale) _ loaded (
      add_index mem q' scale s
      ∙ ap₂ (λ (y z : ℕ). update q' 1 (add64 y (z * 2 ^ scale % 2 ^ 64))) loaded.one loaded.six)

-- The base, or nothing, and the index.
load_base :
    {mem x : ℕ → ℕ} {cpu n : ℕ} {b : Buf} {v u : ℕ} (l : Layout) (i : ℕ)
    → InReach l
    → i < 16
    → Leaves mem x cpu (suc n) b v u
    → Leaves mem x cpu n (put b (transfer Transfer.ldr 1 cpu_reg (off_r l i))) (guest mem l cpu i) u
load_base {mem} {x} {cpu} {n} {b} l i (aligned, near) p h =
    let q = run mem x b.out in
    put_one (transfer Transfer.ldr 1 cpu_reg (off_r l i)) (guest mem l cpu i) h (
      load_register mem q 1 (off_r l i) (omega arith) (omega arith) (omega arith)
      ∙ ap (λ (a : ℕ). update q 1 (read mem (a + off_r l i) 8)) h.base)

fewer :
    {mem x : ℕ → ℕ} {cpu : ℕ} {b : Buf} {v u : ℕ}
    → Leaves mem x cpu 7 b v u
    → Leaves mem x cpu 5 b v u
fewer h = record { one = h.one; six = h.six; base = h.base; left = omega (arith, h.left) }

-- A base or an index of the operand is one of the 16 registers.
abbrev pub IsRegister : Option ℕ → Type 0
IsRegister none = Unit {0}
IsRegister (some i) = i < 16

based :
    {mem x : ℕ → ℕ} {cpu : ℕ} {b : Buf} {v u : ℕ} (l : Layout) (base index : Option ℕ)
    (scale disp : ℕ)
    → InReach l
    → ((i : ℕ) → guest mem l cpu i < 2 ^ 64)
    → IsRegister base
    → IsRegister index
    → scale < 4
    → disp < 2 ^ 64
    → Leaves mem x cpu 8 b v u
    → run mem x (put_based l b base index scale disp).out 1
      ≡ add64 (add64 (base_of (guest mem l cpu) base) (index_of (guest mem l cpu) index scale)) disp
unfolding put_based
based {mem} {x} {b = b} l none none scale disp near words p q s d h =
    (run-put_imm mem x b 1 disp (omega arith) d (omega (arith, h.left))).0.0 ∙ omega arith
based {mem} {x} {b = b} l none (some i) scale disp near words p q s d h =
    put_disp-Leaves disp
      (put_index-Leaves l i scale near q s
        (put_one {n = 7} (movz 1 0 0) 0 h (clear_x1 mem (run mem x b.out))))
      (omega arith) d
based {mem} {x} {cpu} l (some r) none scale disp near words p q s d h =
    put_disp-Leaves disp (fewer (load_base {n = 7} l r near p h)) (words r) d
    ∙ omega (arith, words r)
based {mem} {x} {cpu} l (some r) (some i) scale disp near words p q s d h =
    put_disp-Leaves disp (put_index-Leaves l i scale near q s (load_base {n = 7} l r near p h))
      (omega arith) d

-- The words of `put_ea` leave in x1 the address of the operand: behind the words that the buffer
-- had, with the guest's registers in memory at the address in the register of the cpu, they leave
-- there base + index * 2 ^ scale + displacement on 64 bits, or next + displacement for an operand
-- that is relative to rip. The buffer has room for eight words, the registers are in reach of
-- loads and hold 64 bits, and the fields of the operand have the sizes that x86 gives them.
pub run-put_ea :
    (mem x : ℕ → ℕ) (l : Layout) (b : Buf) (next : ℕ) (o : Insn)
    → InReach l
    → ((i : ℕ) → guest mem l (run mem x b.out cpu_reg) i < 2 ^ 64)
    → IsRegister o.base
    → IsRegister o.index
    → o.scale < 4
    → o.disp < 2 ^ 64
    → length b.out + 8 ≤ b.max
    → run mem x (put_ea l b next o).out 1 ≡ ea (guest mem l (run mem x b.out cpu_reg)) next o
unfolding put_ea ea
run-put_ea mem x l b next o near words p q s d room =
    let start : Leaves mem x (run mem x b.out cpu_reg) 8 b (run mem x b.out 1) (run mem x b.out 6) =
      record { one = refl; six = refl; base = refl; left = room } in
    elim (Bool-cases o.riprel) [
      | inl rel ↦ rw rel (
          (run-put_imm mem x b 1 (add64 next o.disp) (omega arith) (omega arith)
            (omega (arith, room))).0.0)
      | inr rel ↦ rw rel (based l o.base o.index o.scale o.disp near words p q s d start)
    ]

-- An operand with the sizes that `put_ea` relies on.
abbrev pub IsOperand : Insn → Type 0
IsOperand o = IsRegister o.base × IsRegister o.index × (o.scale < 4) × (o.disp < 2 ^ 64)

more_disp-IsOperand :
    (mem : ℕ → ℕ) (n md : ℕ) (o : Insn) → IsOperand o → IsOperand (more_disp mem n md o).1
unfolding more_disp
more_disp-IsOperand mem n md o (b, i, s, d) = elim (Bool-cases (md == 1)) [
  | inl one ↦ rw one (b, i, s, omega arith)
  | inr n1 ↦ elim (Bool-cases (md == 2)) [
    | inl two ↦ rw (n1, two) (b, i, s, omega arith)
    | inr n2 ↦ rw (n1, n2) (b, i, s, d)
  ]
]

field-lt : (v at rex k : ℕ) → field v at (rex_bit rex k) < 16
field-lt v at rex k =
    bit_or-lt 4 (bit_and (v / 2 ^ at) 7) (rex_bit rex k)
      (omega (arith, bit_and-ones 3 (v / 2 ^ at))) (ground arith)

-- The compiler's decoder gives such an operand.
modrm_mem-IsOperand :
    (mem : ℕ → ℕ) (n rex m : ℕ) → ((a : ℕ) → mem a < 256) → IsOperand (modrm_mem mem n rex m).1
unfolding modrm_mem
modrm_mem-IsOperand mem n rex m bytes =
    let md = m / 2 ^ 6 in
    let rmb = bit_and m 7 in
    let sib = read mem n 1 in
    let index = field sib 3 (rex_bit rex 2) in
    let low_field : bit_or rmb (rex_bit rex 1) < 16 =
      bit_or-lt 4 rmb (rex_bit rex 1) (omega (arith, bit_and-ones 3 m)) (ground arith) in
    let scale : sib / 2 ^ 6 < 4 = omega (arith, read-lt mem bytes 1 n) in
    let empty : Insn = record { base = none; index = none; scale = 0; riprel = false; disp = 0 } in
    let indexed : Insn = record empty { index = some index; scale = sib / 2 ^ 6 } in
    let start : IsOperand (if index == 4 then empty else indexed) =
      by_test (λ (o : Insn). IsOperand o) (index == 4) (λ _. (tt, tt, omega arith, omega arith))
        (λ _. (tt, field-lt sib 3 rex 2, scale, omega arith)) in
    by_test (λ (r : ℕ × Insn). IsOperand r.1) (rmb == 4)
      (λ _.
        by_test (λ (r : ℕ × Insn). IsOperand r.1) ((bit_and sib 7 == 5) && (md == 0))
          (λ _. more_disp-IsOperand mem (n + 1 + 4) md _ (start.0, start.1, start.2, ground arith))
          (λ _.
            more_disp-IsOperand mem (n + 1) md _ (field-lt sib 0 rex 1, start.1, start.2, start.3)))
      (λ _.
        by_test (λ (r : ℕ × Insn). IsOperand r.1) ((rmb == 5) && (md == 0))
          (λ _. more_disp-IsOperand mem (n + 4) md _ (tt, tt, omega arith, ground arith))
          (λ _. more_disp-IsOperand mem n md _ (low_field, tt, omega arith, omega arith)))

-- The compiler and the interpreter agree on every memory operand: for any register contents,
-- prefixes and instruction bytes, they read the same number of bytes, and the words that `put_ea`
-- emits for the compiler's description of the operand leave in x1 the address that the interpreter
-- resolves, wherever the instruction ends. The guest's registers are in memory at the address in
-- the register of the cpu, in reach of loads, and hold 64 bits; bytes of guest memory are below
-- 256; and the buffer has room for eight words.
pub put_ea-modrm :
    (c : Cpu) (d end : Decoder) (mem x : ℕ → ℕ) (l : Layout) (b : Buf)
    → ((i : ℕ) → c.r i < 2 ^ 64)
    → ((a : ℕ) → c.mem a < 256)
    → ((i : ℕ) → guest mem l (run mem x b.out cpu_reg) i ≡ c.r i)
    → InReach l
    → length b.out + 8 ≤ b.max
    → (read c.mem d.p 1 / 2 ^ 6 == 3) ≡ false
    → let (n, o) = modrm_mem c.mem (d.p + 1) d.rex (read c.mem d.p 1) in
      let (_, operand, d') = modrm c d in
      (run mem x (put_ea l b (dec_rip end) o).out 1 ≡ operand_address (fixup_rip end operand))
      × (d'.p ≡ n)
put_ea-modrm c d end mem x l b words bytes regs near room notreg =
    let byte = read c.mem d.p 1 in
    let o = (modrm_mem c.mem (d.p + 1) d.rex byte).1 in
    let (base, index, scale, disp) = modrm_mem-IsOperand c.mem (d.p + 1) d.rex byte bytes in
    let same : guest mem l (run mem x b.out cpu_reg) ≡ c.r = fun_ext regs in
    let (address, length_same) = modrm-modrm_mem c d end words notreg in
    (
      run-put_ea mem x l b (dec_rip end) o near (λ i. omega (arith, regs i, words i)) base index
            scale disp room
          ∙ ap (λ r. ea r (dec_rip end) o) same
          ∙ sym address,
      length_same,
    )
