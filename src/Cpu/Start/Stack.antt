-- ===== src/Cpu/Start/Stack.antt =====
-- src/cpu.c, `rsd_cpu_init`: the first stack pointer is aligned and inside of the stack.
use rashid.Base.{
  ℕ, ◌+◌, ◌-◌, ◌*◌, ◌/◌, ◌%◌, ◌^◌, ◌≤◌, ◌<◌, Bool, true, false, some, List, [], ◌∷◌, ◌++◌, ◌==◌,
  if◌then◌else◌, ◌≡◌, refl, ap, sub64, add64, bit_or, length, take, length-take, arith,
}
use mathlib.Core.Path.{subst}
use rashid.AddressSpace.{AddressSpace, Host, map, prot_r, prot_w}
use rashid.Cpu.State.{Cpu, rsp, rsi}
use rashid.Cpu.Memory.{put_bytes}
use rashid.Cpu.Memory.RoundTrip.{st_keeps}
use rashid.Cpu.Exec.{return_magic}
use rashid.Cpu.Registers.Parts.{aligned}
use rashid.Cpu.Start.{
  guest_stack_size, place_args, align16, vector_at, main_stack, start_stack, enter_main,
  enter_start, cpu_init, put_words, blank_cpu, main_args,
}

-- The bytes that the strings take.
abbrev pub total : List (List ℕ) → ℕ
total [] = 0
total (arg ∷ args) = length arg + 1 + total args

place_args_lem :
    (args : List (List ℕ)) (strp : ℕ) (mem : ℕ → ℕ)
    → total args ≤ strp
    → strp < 2 ^ 64
    → let (low, _, addrs) = place_args args strp mem in
      (low ≡ strp - total args) × (length addrs ≡ length args)
unfolding place_args
place_args_lem [] strp mem h w = (omega arith, refl)
place_args_lem (arg ∷ args) strp mem h w =
    let at = sub64 strp (length arg + 1) in
    let below : at ≡ strp - (length arg + 1) = omega arith in
    let (low, same) =
      place_args_lem args at (put_bytes mem at (arg ++ (0 ∷ []))) (omega arith) (omega arith) in
    (omega arith, omega arith)

-- Where the vectors go.
vector_at_lem :
    (low n : ℕ)
    → n ≤ 60
    → 600 ≤ low
    → low < 2 ^ 64
    → (vector_at (align16 low) n % 16 ≡ 0)
      × (low ≤ vector_at (align16 low) n + 8 * n + 60)
      × (vector_at (align16 low) n + 8 * (n + 3) ≤ low)
vector_at_lem low n few high top =
    let a = aligned low top in
    let s = sub64 (align16 low) ((n + 3) * 8) in
    let m : s ≡ low / 16 * 16 - (n + 3) * 8 = omega arith in
    let b : vector_at (align16 low) n ≡ s / 16 * 16 = aligned s (omega arith) in
    (omega arith, omega arith, omega arith)

main_stack_lem :
    (vec : ℕ)
    → 7000 ≤ vec
    → vec < 2 ^ 64
    → ((main_stack vec + 8) % 16 ≡ 0)
      × (vec ≤ main_stack vec + 4120)
      × (main_stack vec + 4096 ≤ vec)
main_stack_lem vec low top =
    let a = aligned (sub64 vec 4096) (omega arith) in (omega arith, omega arith, omega arith)

start_stack_lem :
    (vec n : ℕ)
    → n ≤ 60
    → 7000 ≤ vec
    → vec < 2 ^ 64
    → (start_stack vec n % 16 ≡ 0)
      × (vec ≤ start_stack vec n + 4640)
      × (start_stack vec n + 4096 ≤ vec)
start_stack_lem vec n few low top =
    let a = aligned (sub64 vec 4096) (omega arith) in
    let s = sub64 (align16 (sub64 vec 4096)) ((n + 4) * 8) in
    let m : s ≡ (vec - 4096) / 16 * 16 - (n + 4) * 8 = omega arith in
    let b = aligned s (omega arith) in (omega arith, omega arith, omega arith)

-- The numbers of the two starts, for a stack of `room` bytes at base.
main_within :
    (base low n : ℕ)
    → n ≤ 60
    → base + 8192 ≤ low
    → low ≤ base + guest_stack_size
    → base + guest_stack_size < 2 ^ 64
    → let sp = main_stack (vector_at (align16 low) n) in
      ((sp + 8) % 16 ≡ 0)
      × (base ≤ sp)
      × (sp + 4096 ≤ vector_at (align16 low) n)
      × (vector_at (align16 low) n + 8 * (n + 3) ≤ low)
main_within base low n few above below room =
    let vec = vector_at (align16 low) n in
    let (_, near, under) = vector_at_lem low n few (omega arith) (omega arith) in
    let (even, close, far) = main_stack_lem vec (omega arith) (omega arith) in
    (even, omega arith, omega arith, under)

start_within :
    (base low n : ℕ)
    → n ≤ 60
    → base + 8192 ≤ low
    → low ≤ base + guest_stack_size
    → base + guest_stack_size < 2 ^ 64
    → let sp = start_stack (vector_at (align16 low) n) n in
      (sp % 16 ≡ 0)
      × (base ≤ sp)
      × (sp + 4096 ≤ vector_at (align16 low) n)
      × (vector_at (align16 low) n + 8 * (n + 3) ≤ low)
start_within base low n few above below room =
    let vec = vector_at (align16 low) n in
    let (_, near, under) = vector_at_lem low n few (omega arith) (omega arith) in
    let (even, close, far) = start_stack_lem vec n few (omega arith) (omega arith) in
    (even, omega arith, omega arith, under)

enter_main-rsi : (c : Cpu) (vec n : ℕ) → (enter_main c vec n).r rsi ≡ vec
unfolding enter_main
enter_main-rsi c vec n =
    let (regs, _, _, _) =
      st_keeps (record c { r = main_args c vec n }) (main_stack vec) return_magic 8 in
    ap (λ (r : ℕ → ℕ). r rsi) regs

enter_main-rip : (c : Cpu) (vec n : ℕ) → (enter_main c vec n).rip ≡ c.rip
unfolding enter_main
enter_main-rip c vec n =
    let (_, _, _, e) =
      st_keeps (record c { r = main_args c vec n }) (main_stack vec) return_magic 8 in
    e

-- In the guest's first state c, the stack pointer is in the stack at base, 4096 bytes or more below
-- the vectors of n arguments, which end at the strings or below them. With main, the second
-- argument points to the vectors.
abbrev pub StackFits : ℕ → Bool → ℕ → ℕ → Cpu → Type 0
StackFits base has_main n strings c =
    let vec = vector_at (align16 strings) n in
    (((if has_main then c.r rsp + 8 else c.r rsp) % 16) ≡ 0)
    × ((if has_main then c.r rsi else vec) ≡ vec)
    × (base ≤ c.r rsp)
    × (c.r rsp + 4096 ≤ vec)
    × (vec + 8 * (n + 3) ≤ strings)

enter_main-StackFits :
    (base low n : ℕ) (c : Cpu)
    → n ≤ 60
    → base + 8192 ≤ low
    → low ≤ base + guest_stack_size
    → base + guest_stack_size < 2 ^ 64
    → StackFits base true n low (enter_main c (vector_at (align16 low) n) n)
unfolding enter_main
enter_main-StackFits base low n c few above below room =
    let vec = vector_at (align16 low) n in
    let (even, inside, under, end) = main_within base low n few above below room in
    (even, enter_main-rsi c vec n, inside, under, end)

enter_start-StackFits :
    (base low : ℕ) (addrs : List ℕ) (c : Cpu)
    → length addrs ≤ 60
    → base + 8192 ≤ low
    → low ≤ base + guest_stack_size
    → base + guest_stack_size < 2 ^ 64
    → StackFits base false
        (length addrs)
        low
        (enter_start c (vector_at (align16 low) (length addrs)) addrs)
unfolding enter_start
enter_start-StackFits base low addrs c few above below room =
    let (even, inside, under, end) = start_within base low (length addrs) few above below room in
    (even, refl, inside, under, end)

-- The strings end far enough above base.
place_args_within :
    (base : ℕ) (argv : List (List ℕ)) (mem : ℕ → ℕ)
    → base + guest_stack_size < 2 ^ 64
    → total (take 60 argv) + 8192 ≤ guest_stack_size
    → let (low, _, addrs) = place_args (take 60 argv) (add64 base guest_stack_size) mem in
      (length addrs ≤ 60)
      × (base + 8192 ≤ low)
      × (low ≡ base + guest_stack_size - total (take 60 argv))
      × (length addrs ≡ length (take 60 argv))
place_args_within base argv mem room fits =
    let args = take 60 argv in
    let top = add64 base guest_stack_size in
    let whole : top ≡ base + guest_stack_size = omega arith in
    let (placed, counted) = place_args_lem args top mem (omega arith) (omega arith) in
    (omega (arith, length-take 60 argv), omega arith, omega arith, counted)

-- When the stack has been mapped, and the first 60 arguments leave 8192 bytes of it, the guest starts
-- at its entry with a stack pointer inside of the stack, 4096 bytes and more below its vectors, which
-- end below the strings at the top of the stack: a multiple of 16 where it starts at _start, and 8
-- below one, as behind a call, where it starts at main, which gets the vectors as its second argument. The stack does not reach the top of the address space.
pub cpu_init-StackFits :
    (h : Host) (s : AddressSpace) (mem : ℕ → ℕ) (entry : ℕ) (has_main : Bool) (argv : List (List ℕ))
    → let base = (map h s 0 guest_stack_size (bit_or prot_r prot_w) false).0 in
      (base == 0) ≡ false
      → base + guest_stack_size < 2 ^ 64
      → total (take 60 argv) + 8192 ≤ guest_stack_size
      → (c : Cpu) × (cpu_init h s mem entry has_main argv ≡ some c)
        × (c.rip ≡ entry)
        × StackFits base has_main
            (length (take 60 argv))
            (base + guest_stack_size - total (take 60 argv))
            c
unfolding cpu_init enter_start
cpu_init-StackFits h s mem entry true argv mapped room fits =
    let (base, space) = map h s 0 guest_stack_size (bit_or prot_r prot_w) false in
    let (low, mem1, addrs) = place_args (take 60 argv) (add64 base guest_stack_size) mem in
    let vec = vector_at (align16 low) (length addrs) in
    let c = blank_cpu space (put_words (addrs ++ (0 ∷ 0 ∷ 0 ∷ [])) vec mem1) entry in
    let (few, above, placed, counted) = place_args_within base argv mem room fits in
    let c' = enter_main c vec (length addrs) in
    (
      c',
      rw mapped refl,
      enter_main-rip c vec (length addrs),
      subst (λ n. StackFits base true n (base + guest_stack_size - total (take 60 argv)) c') counted
          (subst (λ t. StackFits base true (length addrs) t c') placed
            (enter_main-StackFits base low (length addrs) c few above (omega arith) room)),
    )
cpu_init-StackFits h s mem entry false argv mapped room fits =
    let (base, space) = map h s 0 guest_stack_size (bit_or prot_r prot_w) false in
    let (low, mem1, addrs) = place_args (take 60 argv) (add64 base guest_stack_size) mem in
    let vec = vector_at (align16 low) (length addrs) in
    let c = blank_cpu space (put_words (addrs ++ (0 ∷ 0 ∷ 0 ∷ [])) vec mem1) entry in
    let (few, above, placed, counted) = place_args_within base argv mem room fits in
    let c' = enter_start c vec addrs in
    (
      c',
      rw mapped refl,
      refl,
      subst (λ n. StackFits base false n (base + guest_stack_size - total (take 60 argv)) c')
          counted
          (subst (λ t. StackFits base false (length addrs) t c') placed
            (enter_start-StackFits base low addrs c few above (omega arith) room)),
    )
