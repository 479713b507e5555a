-- ===== src/Jit/Condition.antt =====
-- src/jit.c, put_cond_even: what the words for a condition do, and the condition that the code
-- behind them tests.
use rashid.Base.{
  ℕ, zero, suc, ◌+◌, ◌-◌, ◌*◌, ◌/◌, ◌%◌, ◌^◌, ◌≤◌, ◌<◌, ◌≡◌, ◌∙◌, ap, sym, refl, bit_or, bit_xor,
  bit_and, Bool, true, not, List, [], ◌∷◌, ◌==◌, if◌then◌else◌, length, update, arith,
}
use rashid.Bits.{bit_and-ones}
use rashid.Cpu.Memory.{read}
use rashid.Cpu.Flags.{cond}
use rashid.Emit.{three_regs, Transfer, transfer}
use rashid.Emit.Others.{cmp0}
use rashid.Emit.Fields.{transfer_lem}
use rashid.Jit.Constant.{Buf, put, put_room}
use rashid.Jit.Words.{Layout, cpu_reg, flag_to, join, put_even, put_cond_even}
use rashid.Jit.Code.{in_reach}
use rashid.Jit.Code.Insns.{odd_cond}
use rashid.Jit.Decides.{even_value, every_code}

-- The registers of the processor, and its flag Z.
pub record Machine : Type 0 where
  pub x : ℕ → ℕ
  pub z : Bool

-- What the processor does for the words that put_cond_even emits: a load of 32 bits, a bit field
-- to the low end, `or`, `xor`, and a comparison with an immediate.
unfoldable pub execute : (ℕ → ℕ) → Machine → ℕ → Machine
execute mem m w =
    let d = w % 32 in
    let n = m.x (w / 2 ^ 5 % 32) in
    let imm = w / 2 ^ 10 % 2 ^ 12 in
    let low = w / 2 ^ 16 % 64 in
    if w / 2 ^ 22 == 0x2E5
    then record m { x = update m.x d (read mem (n + imm * 4) 4) }
    else if w / 2 ^ 22 == 0x34D
    then record m { x = update m.x d (n / 2 ^ low % 2 ^ (w / 2 ^ 10 % 64 + 1 - low)) }
    else if w / 2 ^ 21 == 0x550
    then record m { x = update m.x d (bit_or n (m.x (w / 2 ^ 16 % 32))) }
    else if w / 2 ^ 21 == 0x650
    then record m { x = update m.x d (bit_xor n (m.x (w / 2 ^ 16 % 32))) }
    else if w / 2 ^ 22 == 0x3C4
    then record m { z = n == imm }
    else m

-- The words of a buffer, the oldest first.
unfoldable pub run_words : (ℕ → ℕ) → Machine → List ℕ → Machine
unfolding execute
run_words mem m [] = m
run_words mem m (w ∷ ws) = execute mem (run_words mem m ws) w

-- Whether a condition of the processor, eq or ne, holds.
abbrev pub holds : ℕ → Machine → Bool
holds c m = if c == 0 then m.z else not m.z

-- The buffer leads to the state q, and has room for n more words.
record Leads (mem : ℕ → ℕ) (m : Machine) (n : ℕ) (b : Buf) (q : Machine) : Type 0 where
  pub state : run_words mem m b.out ≡ q
  pub left : length b.out + n ≤ b.max

put-Leads :
    {mem : ℕ → ℕ} {m : Machine} {n : ℕ} {b : Buf} {q : Machine} (w : ℕ)
    → Leads mem m (suc n) b q
    → Leads mem m n (put b w) (execute mem q w)
unfolding run_words
put-Leads {mem} {m} {n} {b} {q} w h =
    rw (put_room b w n h.left)
      (record { state = ap (λ t. execute mem t w) h.state; left = omega (arith, h.left) })

-- The load of the flags.
load_flags :
    (mem : ℕ → ℕ) (m : Machine) (off : ℕ)
    → off % 4 ≡ 0
    → off < 16384
    → execute mem m (transfer Transfer.ldr_w 9 cpu_reg off)
      ≡ record m { x = update m.x 9 (read mem (m.x cpu_reg + off) 4) }
unfolding execute
load_flags mem m off e p =
    let w = transfer Transfer.ldr_w 9 cpu_reg (off / 4 * 4) in
    let back : off / 4 * 4 ≡ off = omega (arith, e) in
    let (d, n, imm, form) =
      transfer_lem Transfer.ldr_w 9 cpu_reg (off / 4) (omega arith) (omega arith) (omega arith) in
    let is_load : (w / 2 ^ 22 == 0x2E5) ≡ true = ground (arith, form) in
    rw (sym back) (rw (is_load, d, n, imm) refl)

-- The switch and the comparison, for one kind.
abbrev Tests : (ℕ → ℕ) → Machine → Buf → ℕ → ℕ → Type 0
Tests mem m b flags kind =
    (run_words mem m (put (put_even b kind) (cmp0 0)).out).z ≡ (even_value flags kind == 0)

module _ (mem : ℕ → ℕ) (m y : Machine) (b : Buf) (flags : ℕ)
    (loaded : Leads mem m 6 b (record y { x = update y.x 9 flags })) where
  test_of : Tests mem m b flags 0
  unfolding put_even flag_to execute
  test_of = ap (λ q. q.z) (put-Leads _ (put-Leads _ loaded)).state

  test_cf : Tests mem m b flags 1
  unfolding put_even flag_to execute
  test_cf = ap (λ q. q.z) (put-Leads _ (put-Leads _ loaded)).state

  test_zf : Tests mem m b flags 2
  unfolding put_even flag_to execute
  test_zf = ap (λ q. q.z) (put-Leads _ (put-Leads _ loaded)).state

  test_below_or_equal : Tests mem m b flags 3
  unfolding put_even flag_to join execute three_regs
  test_below_or_equal =
      ap (λ q. q.z) (put-Leads _ (put-Leads _ (put-Leads _ (put-Leads _ loaded)))).state

  test_sf : Tests mem m b flags 4
  unfolding put_even flag_to execute
  test_sf = ap (λ q. q.z) (put-Leads _ (put-Leads _ loaded)).state

  test_pf : Tests mem m b flags 5
  unfolding put_even flag_to execute
  test_pf = ap (λ q. q.z) (put-Leads _ (put-Leads _ loaded)).state

  test_differ : Tests mem m b flags 6
  unfolding put_even flag_to join execute three_regs
  test_differ = ap (λ q. q.z) (put-Leads _ (put-Leads _ (put-Leads _ (put-Leads _ loaded)))).state

  test_zf_or_differ : Tests mem m b flags 7
  unfolding put_even flag_to join execute three_regs
  test_zf_or_differ =
      ap (λ q. q.z)
        (put-Leads _
          (put-Leads _ (put-Leads _ (put-Leads _ (put-Leads _ (put-Leads _ loaded)))))).state

  any_test : (kind : ℕ) → kind < 8 → Tests mem m b flags kind
  any_test zero p = test_of
  any_test (suc zero) p = test_cf
  any_test (suc (suc zero)) p = test_zf
  any_test (suc (suc (suc zero))) p = test_below_or_equal
  any_test (suc (suc (suc (suc zero)))) p = test_sf
  any_test (suc (suc (suc (suc (suc zero))))) p = test_pf
  any_test (suc (suc (suc (suc (suc (suc zero)))))) p = test_differ
  any_test (suc (suc (suc (suc (suc (suc (suc zero))))))) p = test_zf_or_differ
  any_test (suc (suc (suc (suc (suc (suc (suc (suc n)))))))) p = absurd (omega arith)

-- The digits of a condition's number above its lowest, at most 3.
kind_is : (cc : ℕ) → cc < 16 → bit_and (cc / 2) 7 ≡ cc / 2
kind_is cc p = bit_and-ones 3 (cc / 2) ∙ omega arith

-- A layout that `rsd_jit_init` takes has the flags in reach.
in_reach-off_flags :
    (l : Layout) → in_reach l ≡ true → (l.off_flags % 4 ≡ 0) × (l.off_flags < 16384)
unfolding in_reach
in_reach-off_flags l e = (ground (arith, e), ground (arith, e))

-- With a layout that `rsd_jit_init` takes and room for the words in the buffer: the condition that
-- is tested behind the words of `put_cond_even`, run by the processor, is the condition cc of the
-- flags in memory.
pub run_words-put_cond_even :
    (mem : ℕ → ℕ) (m : Machine) (l : Layout) (b : Buf) (cc : ℕ)
    → cc < 16
    → in_reach l ≡ true
    → length b.out + 7 ≤ b.max
    → holds (odd_cond cc) (run_words mem m (put_cond_even l b cc).out)
      ≡ cond (read mem ((run_words mem m b.out).x cpu_reg + l.off_flags) 4) cc
unfolding put_cond_even
run_words-put_cond_even mem m l b cc p reach room =
    let y = run_words mem m b.out in
    let flags = read mem (y.x cpu_reg + l.off_flags) 4 in
    let (aligned, low) = in_reach-off_flags l reach in
    let start : Leads mem m 7 b y = record { state = refl; left = room } in
    let after_load = put-Leads _ start in
    let loaded : Leads mem m 6 (put b (transfer Transfer.ldr_w 9 cpu_reg l.off_flags))
        (record y { x = update y.x 9 flags }) =
      record {
        state = after_load.state ∙ load_flags mem y l.off_flags aligned low;
        left = after_load.left;
      } in
    let b0 = put b (transfer Transfer.ldr_w 9 cpu_reg l.off_flags) in
    let test = any_test mem m y b0 flags loaded (cc / 2) (omega arith) in
    rw (kind_is cc p, test) (every_code flags cc p)
