-- ===== src/Cpu/Run.antt =====
-- src/cpu.c: the run loop, a compiled block checked against the interpreter, and calls from native
-- code into the guest.
pub mod Keeps
pub mod Budget
pub mod Checked
use rashid.Base.{
  ℕ, zero, suc, ◌+◌, ◌-◌, ◌*◌, ◌/◌, ◌%◌, ◌^◌, Bool, true, false, not, ◌&&◌, ◌||◌, Option, none,
  some, List, [], ◌∷◌, ltb, leb, ◌==◌, if◌then◌else◌, update, add64, sub64, bit_and,
}
use mathlib.Core.Option
use rashid.Cpu.State.{Cpu, Fault, Xmm, WriteLog, rax, rcx, rdx, rsp, rsi, rdi}
use rashid.Cpu.Memory.{st, undo_writes}
use rashid.Cpu.Registers.{not64}
use rashid.Cpu.Exec.{callback_magic}
use rashid.Callback.{callback_target}

-- `rsd_callframe`: the argument registers of the native caller, and its results.
pub record Frame : Type 0 where
  pub x : ℕ → ℕ
  pub d : ℕ → ℕ

abbrev pub is_fault : Option Fault → Bool
is_fault none = false
is_fault (some _) = true

-- `while (c->running) { step(c); c->icount++; }`, on fuel: `none` when that is used up, or where a
-- step has no result.
unfoldable pub run_guest : ℕ → (Cpu → Option Cpu) → Cpu → Option Cpu
run_guest zero step c = none
run_guest (suc fuel) step c =
    if c.running
    then elim (step c) [
      | none ↦ none
      | some c' ↦ run_guest fuel step (record c' { icount = add64 c'.icount 1 })
    ]
    else some c

-- The registers of the first six integer arguments, and of the first eight floating-point ones.
abbrev pub with_args : (ℕ → ℕ) → (ℕ → ℕ) → ℕ → ℕ
with_args r x =
    update
      (update (update (update (update (update r rdi (x 0)) rsi (x 1)) rdx (x 2)) rcx (x 3)) 8 (x 4))
      9 (x 5)

abbrev pub with_floats : (ℕ → Xmm) → (ℕ → ℕ) → ℕ → Xmm
with_floats xmm d i = if ltb i 8 then record (xmm i) { q0 = d i } else xmm i

-- The stack pointer of the guest function: below the red zone, aligned, less the return address.
abbrev pub callback_stack : ℕ → ℕ
callback_stack sp = sub64 (bit_and (sub64 sp 256) (not64 15)) 8

-- The state in which the guest function starts.
unfoldable pub enter_guest : Cpu → Frame → ℕ → Cpu
unfolding st
enter_guest c f target =
    let c1 : Cpu = record c { r = with_args c.r f.x; xmm = with_floats c.xmm f.d } in
    let sp = callback_stack (c.r rsp) in
    let c2 = st c1 sp callback_magic 8 in
    record c2 { r = update c2.r rsp sp; rip = target; running = true }

-- What is put back when it has returned.
abbrev pub leave_guest : Cpu → Cpu → Cpu
leave_guest c c' = record c' {
  r = c.r;
  xmm = c.xmm;
  rip = c.rip;
  flags = c.flags;
  running = not (is_fault c'.fault);
}

abbrev pub results : Cpu → Frame → Frame
results c f = record {
  x = update (update f.x 0 (c.r rax)) 1 (c.r rdx);
  d = update (update f.d 0 ((c.xmm 0).q0)) 1 ((c.xmm 1).q0);
}

-- `rsd_guest_call`; `pool` are the targets of the trampolines.
unfoldable pub guest_call : ℕ → (Cpu → Option Cpu) → List ℕ → ℕ → Cpu → Frame → Option (Cpu × Frame)
unfolding callback_target enter_guest run_guest
guest_call fuel step pool index c f =
    let target = callback_target pool index in
    if target == 0
    then some (c, record f { x = update f.x 0 0 })
    else elim (run_guest fuel step (enter_guest c f target)) [
      | none ↦ none
      | some c' ↦ some (leave_guest c c', results c' f)
    ]

-- The compiler, as the loop uses it: the code of the block at an address, if there is any, with
-- the number of its instructions; and what entering code does, with the address at which it leaves.
pub record Engine : Type 0 where
  pub lookup : Cpu → Option (ℕ × ℕ)
  pub enter : ℕ → Cpu → ℕ × Cpu

-- `run_block` where blocks are not checked.
unfoldable pub run_block : Engine → ℕ → ℕ → Cpu → Cpu
run_block e body n c =
    let (rip, c') = e.enter body c in record c' { rip = rip; icount = add64 c'.icount n }

-- The budget is used up: the assignments of the loop.
abbrev pub exhausted : Cpu → Cpu
exhausted c = record c { fault = some Fault.out_of_budget; fault_rip = c.rip; running = false }

-- The block to run at an address, if there is one.
unfoldable pub found : Option Engine → Cpu → Option (Engine × ℕ × ℕ)
found none c = none
found (some e) c = elim (e.lookup c) [ none ↦ none | some (body, n) ↦ some (e, body, n) ]

-- Behind a block, and behind an interpreted instruction: whether the budget is used up. A budget of
-- 0 is none.
abbrev pub behind_block : ℕ → Cpu → Cpu
behind_block budget c = if not (budget == 0) && leb budget c.icount then exhausted c else c

abbrev pub behind_step : ℕ → Cpu → Cpu
behind_step budget c0 =
    let c : Cpu = record c0 { icount = add64 c0.icount 1 } in
    if (c.icount == budget) && not (budget == 0) then exhausted c else c

-- One round of the loop of `rsd_cpu_run`.
unfoldable pub round : Option Engine → (Cpu → Option Cpu) → ℕ → Cpu → Option Cpu
unfolding run_block found
round engine step budget c = elim (found engine c) [
  | some (e, body, n) ↦ some (behind_block budget (run_block e body n c))
  | none ↦ Option.map (behind_step budget) (step c)
]

-- `rsd_cpu_run`, on fuel, one unit a round.
unfoldable pub cpu_run : ℕ → Option Engine → (Cpu → Option Cpu) → ℕ → Cpu → Option Cpu
unfolding round
cpu_run zero engine step budget c = none
cpu_run (suc fuel) engine step budget c =
    if c.running
    then elim (round engine step budget c) [
      | none ↦ none
      | some c' ↦ cpu_run fuel engine step budget c'
    ]
    else some c
