-- ===== src/Cpu/Run/Budget.antt =====
-- src/cpu.c, `rsd_cpu_run`: a budget of instructions ends the run.
use rashid.Base.{
  ℕ, zero, suc, ◌+◌, ◌-◌, ◌^◌, ◌≤◌, ◌<◌, true, false, not, ◌&&◌, Option, none, some, leb, ◌==◌,
  if◌then◌else◌, ◌≡◌, ◌⊎◌, inl, inr, refl, ap, ◌∙◌, add64, arith, Bool-cases, Option-cases, by_test,
}
use mathlib.Core.Option
use rashid.Cpu.State.{Cpu}
use rashid.Cpu.Run.{Engine, found, run_block, behind_block, behind_step, round, cpu_run}

-- From a running state of P, a step answers, leaves the count of instructions as it is, and the
-- round ends in P.
abbrev pub Counts : (Cpu → Type 0) → (Cpu → Option Cpu) → ℕ → Type 0
Counts P step budget =
    (c : Cpu)
    → P c
    → c.running ≡ true
    → (c' : Cpu) × (step c ≡ some c') × (c'.icount ≡ c.icount) × P (behind_step budget c')

-- From a state of P, compiled code leaves the count, the round ends in P, and the block that is found
-- is not empty and no longer than the compiler's bound of 48.
abbrev pub CountsBlocks : (Cpu → Type 0) → Engine → ℕ → Type 0
CountsBlocks P e budget =
    (c : Cpu) (body n : ℕ)
    → P c
    → e.lookup c ≡ some (body, n)
    → ((e.enter body c).1.icount ≡ c.icount)
      × P (behind_block budget (run_block e body n c))
      × ((1 ≤ n) × (n ≤ 48))

abbrev pub CountsAll : (Cpu → Type 0) → Option Engine → ℕ → Type 0
CountsAll P none budget = Unit {0}
CountsAll P (some e) budget = CountsBlocks P e budget

-- A round moves on by at least one instruction, and when the budget is reached it stops the run.
abbrev Advances : ℕ → Cpu → Cpu → Type 0
Advances budget c c' =
    (c.icount < c'.icount)
    × ((c'.running ≡ false) × (c'.icount ≤ budget + 47) ⊎ (c'.icount < budget))

block_stops :
    (budget n : ℕ) (c c' : Cpu)
    → c'.icount ≡ add64 c.icount n
    → c.icount < budget
    → budget + 48 ≤ 2 ^ 64
    → (1 ≤ n) × (n ≤ 48)
    → Advances budget c (behind_block budget c')
block_stops budget n c c' e inside room (one, most) =
    let sum : c'.icount ≡ c.icount + n = e ∙ omega arith in
    by_test (Advances budget c) (not (budget == 0) && leb budget c'.icount)
      (λ _. (omega arith, inl (refl, omega arith)))
      (λ t. (omega arith, inr (below budget c'.icount (omega arith) t)))
  where
    below : (b i : ℕ) → 0 < b → (not (b == 0) && leb b i) ≡ false → i < b
    below b i pos t = ground arith

step_stops :
    (budget : ℕ) (c c' : Cpu)
    → c'.icount ≡ c.icount
    → c.icount < budget
    → budget + 48 ≤ 2 ^ 64
    → Advances budget c (behind_step budget c')
step_stops budget c c' e inside room =
    let i = add64 c'.icount 1 in
    let sum : i ≡ c.icount + 1 = omega arith in
    by_test (Advances budget c) ((i == budget) && not (budget == 0))
      (λ _. (omega arith, inl (refl, omega arith)))
      (λ t. (omega arith, inr (below budget i (omega arith) (omega arith) t)))
  where
    below : (b i : ℕ) → 0 < b → i ≤ b → ((i == b) && not (b == 0)) ≡ false → i < b
    below b i pos most t = ground arith

module _ (P : Cpu → Type 0) (step : Cpu → Option Cpu) (budget : ℕ) (counts : Counts P step budget)
    (room : budget + 48 ≤ 2 ^ 64) where
  interpreted :
      (engine : Option Engine) (c : Cpu)
      → P c
      → c.running ≡ true
      → found engine c ≡ none
      → c.icount < budget
      → (c' : Cpu) × (round engine step budget c ≡ some c') × Advances budget c c' × P c'
  unfolding round
  interpreted engine c p goes e inside =
      let (c1, answer, same, p1) = counts c p goes in
      (
        behind_step budget c1,
        rw (e, round) (ap (Option.map (behind_step budget)) answer),
        step_stops budget c c1 same inside room,
        p1,
      )

  round-Advances :
      (engine : Option Engine) (c : Cpu)
      → CountsAll P engine budget
      → P c
      → c.running ≡ true
      → c.icount < budget
      → (c' : Cpu) × (round engine step budget c ≡ some c') × Advances budget c c' × P c'
  unfolding round found run_block
  round-Advances none c h p goes inside = interpreted none c p goes refl inside
  round-Advances (some e) c blocks p goes inside = elim (Option-cases (e.lookup c)) [
    | inl absent ↦ interpreted (some e) c p goes (rw absent refl) inside
    | inr ((body, n), present) ↦
        let (enters, p1, sizes) = blocks c body n p present in
        (
          behind_block budget (run_block e body n c),
          rw (present, round) refl,
          block_stops budget n c (run_block e body n c) (ap (λ (i : ℕ). add64 i n) enters) inside
              room sizes,
          p1,
        )
  ]

  halts :
      (k : ℕ) (engine : Option Engine) (c : Cpu)
      → c.running ≡ false
      → cpu_run (suc k) engine step budget c ≡ some c
  unfolding cpu_run
  halts k engine c stopped = rw stopped refl

  goes_on :
      (k : ℕ) (engine : Option Engine) (c c1 : Cpu)
      → c.running ≡ true
      → round engine step budget c ≡ some c1
      → cpu_run (suc k) engine step budget c ≡ cpu_run k engine step budget c1
  unfolding cpu_run
  goes_on k engine c c1 goes e =
      let rest : Option Cpu → Option Cpu = λ r. elim r as (λ _. Option Cpu) [
        | none ↦ none
        | some c' ↦ cpu_run k engine step budget c'
      ] in
      ap (λ b. if b then rest (round engine step budget c) else some c) goes ∙ ap rest e

  run_ends :
      (k : ℕ) (engine : Option Engine) (c : Cpu)
      → CountsAll P engine budget
      → P c
      → c.icount < budget
      → budget ≤ c.icount + k
      → (c' : Cpu) × (cpu_run (suc k) engine step budget c ≡ some c')
        × (c'.running ≡ false)
        × (c'.icount ≤ budget + 47)
  run_ends zero engine c h p inside enough = elim (impossible enough inside) [ ]
    where
      impossible : budget ≤ c.icount + 0 → c.icount < budget → ⊥
      impossible p q = omega arith
  run_ends (suc k) engine c h p inside enough = elim (Bool-cases c.running) [
    | inr stopped ↦ (c, halts (suc k) engine c stopped, stopped, omega arith)
    | inl goes ↦
        let (c1, e, (moved, next), p1) = round-Advances engine c h p goes inside in
        elim next [
          | inl (stopped, few) ↦
              (c1, goes_on (suc k) engine c c1 goes e ∙ halts k engine c1 stopped, stopped, few)
          | inr inside1 ↦
              let (c2, e2, stopped, few) = run_ends k engine c1 h p1 inside1 (omega arith) in
              (c2, goes_on (suc k) engine c c1 goes e ∙ e2, stopped, few)
        ]
  ]

-- With a budget, the run ends: after at most as many rounds as instructions are left of the budget,
-- the loop has stopped, and it has counted at most 47 instructions beyond the budget, the rest of
-- a compiled block. P is a property of the states of the run: the first has it, each round keeps it,
-- and from a state with it steps answer and leave the count alone, and blocks have 1 to 48
-- instructions and leave the count alone. The run starts within the budget, and the count of 64
-- bits has room.
pub cpu_run-ends :
    (P : Cpu → Type 0) (step : Cpu → Option Cpu) (budget : ℕ) (engine : Option Engine) (c : Cpu)
    → Counts P step budget
    → CountsAll P engine budget
    → P c
    → budget + 48 ≤ 2 ^ 64
    → c.icount < budget
    → (c' : Cpu) × (cpu_run (suc (budget - c.icount)) engine step budget c ≡ some c')
      × (c'.running ≡ false)
      × (c'.icount ≤ budget + 47)
cpu_run-ends P step budget engine c counts blocks p room inside =
    run_ends P step budget counts room (budget - c.icount) engine c blocks p inside (omega arith)

-- A round may miss the budget. When the budget is not used up before a step and is used up behind
-- it, because a callback inside of that step counted instructions as well, the interpreter's
-- comparison, which is for equality with one more than the step's count, does not stop the run.
pub round_misses :
    (step : Cpu → Option Cpu) (budget : ℕ) (c c1 : Cpu)
    → step c ≡ some c1
    → c.icount < budget
    → budget ≤ c1.icount
    → c1.icount + 1 < 2 ^ 64
    → (c' : Cpu) × (round none step budget c ≡ some c')
      × (c'.running ≡ c1.running)
      × (budget < c'.icount)
unfolding round found
round_misses step budget c c1 e inside over room =
    let i = add64 c1.icount 1 in
    let sum : i ≡ c1.icount + 1 = omega arith in
    (
      behind_step budget c1,
      ap (Option.map (behind_step budget)) e,
      by_test (λ (c' : Cpu). c'.running ≡ c1.running) ((i == budget) && not (budget == 0))
          (λ t. elim (equal i budget t (omega arith)) [ ]) (λ _. refl),
      by_test (λ (c' : Cpu). budget < c'.icount) ((i == budget) && not (budget == 0))
          (λ _. omega arith) (λ _. omega arith),
    )
  where
    equal : (i b : ℕ) → ((i == b) && not (b == 0)) ≡ true → b < i → ⊥
    equal i b t h = ground arith
