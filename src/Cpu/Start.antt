-- ===== src/Cpu/Start.antt =====
-- src/cpu.c, `rsd_cpu_init`: the guest's stack and its registers at the start.
pub mod Stack
use rashid.Base.{
  ℕ, ◌+◌, ◌-◌, ◌*◌, ◌/◌, ◌%◌, ◌^◌, Bool, true, false, Option, none, some, List, [], ◌∷◌, ◌++◌, ◌==◌,
  if◌then◌else◌, update, add64, sub64, bit_and, bit_or, length, take,
}
use rashid.AddressSpace.{AddressSpace, Host, map, prot_r, prot_w}
use rashid.Cpu.State.{Cpu, Xmm, rcx, rdx, rsp, rsi, rdi}
use rashid.Cpu.Memory.{st, write, put_bytes}
use rashid.Cpu.Registers.{not64}
use rashid.Cpu.Exec.{return_magic}

-- `GUEST_STACK_SIZE`
abbrev pub guest_stack_size : ℕ
guest_stack_size = 2 ^ 20

-- The strings, each with a zero byte behind it, from strp downwards: where they end, memory, and
-- the address of each.
unfoldable pub place_args : List (List ℕ) → ℕ → (ℕ → ℕ) → ℕ × (ℕ → ℕ) × List ℕ
place_args [] strp mem = (strp, mem, [])
place_args (arg ∷ args) strp mem =
    let at = sub64 strp (length arg + 1) in
    let (end, mem', addrs) = place_args args at (put_bytes mem at (arg ++ (0 ∷ []))) in
    (end, mem', at ∷ addrs)

-- 64-bit words from an address on.
unfoldable pub put_words : List ℕ → ℕ → (ℕ → ℕ) → ℕ → ℕ
put_words [] a mem = mem
put_words (w ∷ ws) a mem = put_words ws (add64 a 8) (write mem a w 8)

abbrev pub align16 : ℕ → ℕ
align16 a = bit_and a (not64 15)

-- Where argv, the empty envp and the empty apple vector go, below the strings.
abbrev pub vector_at : ℕ → ℕ → ℕ
vector_at strp argc = align16 (sub64 strp ((argc + 3) * 8))

-- The stack pointer below that: of main, with its return address, and of _start, with argc and the
-- vectors.
abbrev pub main_stack : ℕ → ℕ
main_stack vec = sub64 (align16 (sub64 vec 4096)) 8

abbrev pub start_stack : ℕ → ℕ → ℕ
start_stack vec argc = align16 (sub64 (align16 (sub64 vec 4096)) ((argc + 4) * 8))

-- The `memset`, and the fields that do not depend on the stack.
abbrev pub blank_cpu : AddressSpace → (ℕ → ℕ) → ℕ → Cpu
blank_cpu space mem entry = record {
  r = λ _. 0;
  xmm = λ _. record { q0 = 0; q1 = 0 };
  rip = entry;
  cur_rip = 0;
  flags = 0x202;
  gs_base = 0;
  fs_base = 0;
  mem = mem;
  space = space;
  wlog = none;
  running = true;
  exit_code = 0;
  icount = 0;
  fault = none;
  fault_rip = 0;
  fault_addr = none;
}

-- The arguments of main, in registers.
abbrev pub main_args : Cpu → ℕ → ℕ → ℕ → ℕ
main_args c vec argc =
    update (update (update (update c.r rdi argc) rsi vec) rdx (add64 vec ((argc + 1) * 8))) rcx
      (add64 vec ((argc + 2) * 8))

-- An image that starts at main.
unfoldable pub enter_main : Cpu → ℕ → ℕ → Cpu
unfolding st
enter_main c vec argc =
    let sp = main_stack vec in
    let c' = st (record c { r = main_args c vec argc }) sp return_magic 8 in
    record c' { r = update c'.r rsp sp }

-- An image that starts at _start: the arguments on the stack.
unfoldable pub enter_start : Cpu → ℕ → List ℕ → Cpu
unfolding put_words
enter_start c vec addrs =
    let argc = length addrs in
    let sp = start_stack vec argc in
    record c {
      mem = put_words (argc ∷ (addrs ++ (0 ∷ 0 ∷ 0 ∷ []))) sp c.mem;
      r = update c.r rsp sp;
    }

-- `rsd_cpu_init`: `none` is -1. `mem` is memory behind the mapping of the stack.
unfoldable pub cpu_init : Host → AddressSpace → (ℕ → ℕ) → ℕ → Bool → List (List ℕ) → Option Cpu
unfolding map place_args put_words enter_main enter_start
cpu_init h s mem entry has_main argv =
    let (base, space) = map h s 0 guest_stack_size (bit_or prot_r prot_w) false in
    let (low, mem1, addrs) = place_args (take 60 argv) (add64 base guest_stack_size) mem in
    let argc = length addrs in
    let vec = vector_at (align16 low) argc in
    let mem2 = put_words (addrs ++ (0 ∷ 0 ∷ 0 ∷ [])) vec mem1 in
    let c = blank_cpu space mem2 entry in
    if base == 0
    then none
    else if has_main
    then some (enter_main c vec argc)
    else some (enter_start c vec addrs)
