-- ===== src/Cpu/Run/Checked/Verdict.antt =====
-- src/cpu.c, `run_block` with `jit_check`: what the verdict means.
use rashid.Base.{
  ℕ, zero, suc, ◌+◌, ◌<◌, ◌≤◌, Bool, true, false, not, ◌&&◌, ◌||◌, Option, none, some, List, [],
  ◌∷◌, ◌==◌, ==_iff, ◌≡◌, ◌⊎◌, inl, inr, refl, sym, ap, ◌∙◌, Bool-cases, arith, either, clash,
  length, add64, if◌then◌else◌,
}
use mathlib.Core.List.{reverse}
use mathlib.Core.Path.{ap₂}
use rashid.Cpu.State.{Cpu, Fault, Xmm, Write}
use rashid.Cpu.Memory.{bytes}
use rashid.Cpu.Run.{Engine, is_fault}
use rashid.Cpu.Run.Checked.{
  enter_logged, rewound, replay, all_below, same_xmm, same_state, same_memory, judged, run_checked,
  log_of, same_bytes, same_windows, same_writes,
}

both : (a b : Bool) → (a && b) ≡ true → (a ≡ true) × (b ≡ true)
both true b h = (refl, h)
both false b h = clash false h refl

all_below_lem : (test : ℕ → Bool) (n i : ℕ) → all_below test n ≡ true → i < n → test i ≡ true
all_below_lem test zero i h p = elim p [ ]
all_below_lem test (suc n) i h p =
    let (here, rest) = both (test n) (all_below test n) h in
    elim (Bool-cases (i == n)) [
      | inl e ↦ ap test ((==_iff i n).0 e) ∙ here
      | inr e ↦ all_below_lem test n i rest (smaller i n p e)
    ]
  where
    smaller : (i n : ℕ) → i < suc n → (i == n) ≡ false → i < n
    smaller i n p e = ground arith

-- What both engines made of a block.
abbrev pub Agree : Cpu → Cpu → Type 0
Agree after c =
    ((is_fault after.fault ≡ true) × (is_fault c.fault ≡ true))
    ⊎ (((is_fault after.fault ≡ false) × (is_fault c.fault ≡ false))
        × ((c.rip ≡ after.rip) × (c.flags ≡ after.flags))
        × ((i : ℕ) → i < 16 → (c.r i ≡ after.r i) × (c.xmm i ≡ after.xmm i)))

same_xmm_lem : (a b : Xmm) → same_xmm a b ≡ true → a ≡ b
same_xmm_lem a b h =
    let (p, q) = both (a.q0 == b.q0) (a.q1 == b.q1) h in
    ap₂ (λ (x y : ℕ). xmm_of x y) ((==_iff a.q0 b.q0).0 p) ((==_iff a.q1 b.q1).0 q)
  where
    xmm_of : ℕ → ℕ → Xmm
    xmm_of x y = record { q0 = x; q1 = y }

is_false : (b : Bool) → not b ≡ true → b ≡ false
is_false true h = clash false h refl
is_false false h = refl

same_state-Agree : (after c : Cpu) → same_state after c ≡ true → Agree after c
unfolding same_state
same_state-Agree after c h =
    let fa = is_fault after.fault in
    let fc = is_fault c.fault in
    let regs = all_below (λ i. c.r i == after.r i) 16 in
    let lanes = all_below (λ i. same_xmm (c.xmm i) (after.xmm i)) 16 in
    either (fa && fc)
      (not fa && not fc && (c.rip == after.rip) && (c.flags == after.flags) && regs && lanes) h
      (λ t. inl (both fa fc t))
      (λ t.
        let (t1, l) =
          both (not fa && not fc && (c.rip == after.rip) && (c.flags == after.flags) && regs) lanes
            t in
        let (t2, r) =
          both (not fa && not fc && (c.rip == after.rip) && (c.flags == after.flags)) regs t1 in
        let (t3, f) = both (not fa && not fc && (c.rip == after.rip)) (c.flags == after.flags) t2 in
        let (t4, p) = both (not fa && not fc) (c.rip == after.rip) t3 in
        let (a, b) = both (not fa) (not fc) t4 in
        inr (
          (is_false fa a, is_false fc b),
          ((==_iff c.rip after.rip).0 p, (==_iff c.flags after.flags).0 f),
          λ i m. (
            (==_iff (c.r i) (after.r i)).0 (all_below_lem (λ i. c.r i == after.r i) 16 i r m),
            same_xmm_lem (c.xmm i) (after.xmm i)
                (all_below_lem (λ i. same_xmm (c.xmm i) (after.xmm i)) 16 i l m),
          ),
        ))

same_bytes_lem :
    (n a x : ℕ) (after now : ℕ → ℕ)
    → same_bytes (bytes after a n) (bytes now a n) ≡ true
    → a ≤ x
    → x < a + n
    → after x ≡ now x
same_bytes_lem zero a x after now h p q = absurd (omega arith)
same_bytes_lem (suc n) a x after now h p q =
    let (here, rest) =
      both (after a == now a) (same_bytes (bytes after (a + 1) n) (bytes now (a + 1) n)) h in
    elim (Bool-cases (a == x)) [
      | inl e ↦
          let at = (==_iff a x).0 e in
          ap after (sym at) ∙ (==_iff (after a) (now a)).0 here ∙ ap now at
      | inr e ↦ same_bytes_lem n (a + 1) x after now rest (ground arith) (omega arith)
    ]

-- The bytes around each of the writes, in two memories.
abbrev pub SameWindows : List Write → (ℕ → ℕ) → (ℕ → ℕ) → Type 0
SameWindows [] after now = Unit {0}
SameWindows (w ∷ ws) after now =
    ((x : ℕ) → w.addr ≤ x → x < w.addr + w.span → after x ≡ now x) × SameWindows ws after now

same_windows-SameWindows :
    (ws : List Write) (after now : ℕ → ℕ)
    → same_windows ws after now ≡ true
    → SameWindows ws after now
same_windows-SameWindows [] after now h = tt
same_windows-SameWindows (w ∷ ws) after now h =
    let (here, rest) =
      both (same_bytes (bytes after w.addr w.span) (bytes now w.addr w.span))
        (same_windows ws after now) h in
    (
      λ x p q. same_bytes_lem w.span w.addr x after now here p q,
      same_windows-SameWindows ws after now rest,
    )

-- The writes of one list are those with which the other begins: addresses, sizes and values.
abbrev pub BeginsWith : List Write → List Write → Type 0
BeginsWith [] ys = Unit {0}
BeginsWith (x ∷ xs) [] = true ≡ false
BeginsWith (x ∷ xs) (y ∷ ys) =
    ((x.addr ≡ y.addr) × (x.size ≡ y.size) × (x.val ≡ y.val)) × BeginsWith xs ys

same_writes-BeginsWith : (xs ys : List Write) → same_writes xs ys ≡ true → BeginsWith xs ys
same_writes-BeginsWith [] ys h = tt
same_writes-BeginsWith (x ∷ xs) [] h = sym h
same_writes-BeginsWith (x ∷ xs) (y ∷ ys) h =
    let (h1, rest) =
      both ((x.addr == y.addr) && (x.size == y.size) && (x.val == y.val)) (same_writes xs ys) h in
    let (h2, v) = both ((x.addr == y.addr) && (x.size == y.size)) (x.val == y.val) h1 in
    let (a, s) = both (x.addr == y.addr) (x.size == y.size) h2 in
    (
      ((==_iff x.addr y.addr).0 a, (==_iff x.size y.size).0 s, (==_iff x.val y.val).0 v),
      same_writes-BeginsWith xs ys rest,
    )

-- What both engines wrote, where the log of compiled code has not overflowed: the same writes in
-- the same order, as many of them unless the interpreter's log overflowed, and the same bytes
-- around them.
abbrev pub AgreeMemory : Cpu → Cpu → Type 0
AgreeMemory after c =
    ((log_of after).overflow ≡ true)
    ⊎ ((((log_of c).overflow ≡ true) ⊎ (length (log_of after).entries ≡ length (log_of c).entries))
        × BeginsWith (reverse (log_of after).entries) (reverse (log_of c).entries)
        × SameWindows (log_of after).entries after.mem c.mem)

same_memory-AgreeMemory : (after c : Cpu) → same_memory after c ≡ true → AgreeMemory after c
unfolding same_memory
same_memory-AgreeMemory after c h =
    let jit = log_of after in
    let int = log_of c in
    let writes = same_writes (reverse jit.entries) (reverse int.entries) in
    let windows = same_windows jit.entries after.mem c.mem in
    let counts = length jit.entries == length int.entries in
    let (counted, seen) =
      both (jit.overflow || int.overflow || counts) (jit.overflow || (writes && windows)) h in
    either jit.overflow (writes && windows) seen (λ full. inl full)
      (λ t.
        let (w, b) = both writes windows t in
        let told : BeginsWith (reverse jit.entries) (reverse int.entries)
            × SameWindows jit.entries after.mem c.mem =
          (
            same_writes-BeginsWith (reverse jit.entries) (reverse int.entries) w,
            same_windows-SameWindows jit.entries after.mem c.mem b,
          ) in
        either (jit.overflow || int.overflow) counts counted
          (λ f.
            either jit.overflow int.overflow f (λ full. inl full)
              (λ full. inr (inl full, told.0, told.1)))
          (λ n. inr (inr ((==_iff (length jit.entries) (length int.entries)).0 n), told.0, told.1)))

-- A block that is run and checked. When the interpreter answers, so does the check, and the program
-- goes on in the interpreter's state, with the log taken away: where the check passes, with the
-- block's instructions counted, and where it fails, stopped with a fault at the block. When the check
-- passes, both engines have faulted, or neither has and rip, the flags, the 16 registers and the 16
-- floating-point registers that compiled code left are those with which the program goes on; and
-- the log of compiled code has overflowed, or both have made the same writes in the same order (the
-- interpreter perhaps more, if its log overflowed), with the same bytes around each.
pub run_checked-Agree :
    (e : Engine) (step : Cpu → Option Cpu) (body n : ℕ) (c replayed : Cpu)
    → replay n step (rewound c (enter_logged e body c)) ≡ some replayed
    → (passed : Bool) × (c' : Cpu) × (run_checked e step body n c ≡ some (passed, c'))
      × (c' ≡ (
          if passed
          then record replayed { wlog = none; icount = add64 replayed.icount n }
          else record replayed {
            wlog = none;
            fault = some Fault.disagreement;
            fault_rip = c.rip;
            running = false;
          }))
      × (passed ≡ true → Agree (enter_logged e body c) c')
      × (passed ≡ true → AgreeMemory (enter_logged e body c) replayed)
unfolding run_checked
run_checked-Agree e step body n c replayed answer =
    let after = enter_logged e body c in
    let state = same_state after replayed in
    let memory = same_memory after replayed in
    let verdict : Cpu → Option (Bool × Cpu) =
      λ c'. some (judged c n (same_state after c' && same_memory after c') c') in
    let ran : run_checked e step body n c ≡ verdict replayed =
      ap
        (λ (r : Option Cpu). elim r as (λ _. Option (Bool × Cpu)) [
          | none ↦ none
          | some c' ↦ verdict c'
        ])
        answer in
    let told : Bool → Option (Bool × Cpu) = λ b. some (judged c n b replayed) in
    elim (Bool-cases (state && memory)) [
      | inl t ↦ (
        true,
        (judged c n true replayed).1,
        ran ∙ ap told t,
        refl,
        (λ _. same_state-Agree after replayed ((both state memory t).0)),
        λ _. same_memory-AgreeMemory after replayed ((both state memory t).1),
      )
      | inr t ↦ (
        false,
        (judged c n false replayed).1,
        ran ∙ ap told t,
        refl,
        (λ no. clash false no refl),
        λ no. clash false no refl,
      )
    ]
