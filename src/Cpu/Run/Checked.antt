-- ===== src/Cpu/Run/Checked.antt =====
-- src/cpu.c, `run_block` with `jit_check`: a compiled block, replayed by the interpreter.
pub mod Verdict
use mathlib.Core.List.{reverse}
use rashid.Base.{
  ℕ, zero, suc, ◌+◌, Bool, true, false, not, ◌&&◌, ◌||◌, Option, none, some, List, [], ◌∷◌, ◌==◌,
  if◌then◌else◌, add64, length,
}
use rashid.Cpu.State.{Cpu, Fault, Xmm, Write, WriteLog}
use rashid.Cpu.Memory.{bytes, undo_writes}
use rashid.Cpu.Run.{Engine, is_fault}

abbrev pub empty_log : WriteLog
empty_log = record { entries = []; overflow = false }

abbrev pub log_of : Cpu → WriteLog
log_of c = elim c.wlog [ none ↦ empty_log | some w ↦ w ]

-- The block, with its writes logged: the state behind it, with its log.
abbrev pub enter_logged : Engine → ℕ → Cpu → Cpu
enter_logged e body c =
    let (rip, c') = e.enter body (record c { wlog = some empty_log }) in record c' { rip = rip }

-- The state before the block, with memory put back and an empty log. The address space is shared,
-- and stays as the block left it.
abbrev pub rewound : Cpu → Cpu → Cpu
rewound before after = record before {
  mem = undo_writes (log_of after).entries after.mem;
  space = after.space;
  wlog = some empty_log;
}

-- `while (done < ninsn && c->running) { step(c); done++; }`
unfoldable pub replay : ℕ → (Cpu → Option Cpu) → Cpu → Option Cpu
replay zero step c = some c
replay (suc n) step c =
    if c.running then elim (step c) [ none ↦ none | some c' ↦ replay n step c' ] else some c

abbrev pub all_below : (ℕ → Bool) → ℕ → Bool
all_below test zero = true
all_below test (suc n) = test n && all_below test n

abbrev pub same_xmm : Xmm → Xmm → Bool
same_xmm a b = (a.q0 == b.q0) && (a.q1 == b.q1)

-- `ok`: what the engines made of the registers.
unfoldable pub same_state : Cpu → Cpu → Bool
same_state after c =
    (is_fault after.fault && is_fault c.fault)
    || (not (is_fault after.fault)
        && not (is_fault c.fault)
        && (c.rip == after.rip)
        && (c.flags == after.flags)
        && all_below (λ i. c.r i == after.r i) 16
        && all_below (λ i. same_xmm (c.xmm i) (after.xmm i)) 16)

-- The writes of the compiled code, oldest first, against those of the interpreter; of those there
-- are no fewer, where the lengths have passed or the log of the interpreter is full.
abbrev pub same_writes : List Write → List Write → Bool
same_writes [] ys = true
same_writes (x ∷ xs) [] = false
same_writes (x ∷ xs) (y ∷ ys) =
    (x.addr == y.addr) && (x.size == y.size) && (x.val == y.val) && same_writes xs ys

abbrev pub same_bytes : List ℕ → List ℕ → Bool
same_bytes [] ys = true
same_bytes (x ∷ xs) [] = false
same_bytes (x ∷ xs) (y ∷ ys) = (x == y) && same_bytes xs ys

-- The bytes around each write, as each engine left them.
abbrev pub same_windows : List Write → (ℕ → ℕ) → (ℕ → ℕ) → Bool
same_windows [] after now = true
same_windows (w ∷ ws) after now =
    same_bytes (bytes after w.addr w.span) (bytes now w.addr w.span) && same_windows ws after now

-- `mem_ok`
unfoldable pub same_memory : Cpu → Cpu → Bool
same_memory after c =
    let jit = log_of after in
    let int = log_of c in
    (jit.overflow || int.overflow || (length jit.entries == length int.entries))
    && (jit.overflow
        || (same_writes (reverse jit.entries) (reverse int.entries)
            && same_windows jit.entries after.mem c.mem))

-- The state behind the check.
abbrev pub judged : Cpu → ℕ → Bool → Cpu → Bool × Cpu
judged before n passed c0 =
    let c = record c0 { wlog = none } in
    if passed then (true, record c { icount = add64 c.icount n }) else (
      false,
      record c { fault = some Fault.disagreement; fault_rip = before.rip; running = false },
    )

-- `run_block` where blocks are checked.
unfoldable pub run_checked : Engine → (Cpu → Option Cpu) → ℕ → ℕ → Cpu → Option (Bool × Cpu)
unfolding replay same_state same_memory undo_writes
run_checked e step body n c =
    let after = enter_logged e body c in
    elim (replay n step (rewound c after)) [
      | none ↦ none
      | some c' ↦ some (judged c n (same_state after c' && same_memory after c') c')
    ]
