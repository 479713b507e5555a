-- ===== src/Tests/RunTests.antt =====
-- The theorems on the run loop and on callbacks (src/cpu.c) at concrete inputs.
use rashid.Base.{
  ℕ, ◌+◌, ◌-◌, ◌∙◌, ap, sym, ◌⊎◌, inl, inr, clash, by_test, ◌&&◌, ◌%◌, ◌≤◌, ◌<◌, true, false, not,
  none, some, Option, [], ◌∷◌, ◌≡◌, ◌==◌, refl, arith, if◌then◌else◌, Bool, bit_or, List, [], ◌∷◌,
  ◌^◌, add64,
}
use rashid.Cpu.State.{Cpu, Fault, rsp, rdi}
use rashid.Cpu.Registers.{pop}
use rashid.Cpu.Memory.{access_ok}
use rashid.AddressSpace.{prot_r, prot_w, ok, walk, find, init, map, reserve, insert, page_up}
use rashid.Cpu.Exec.{callback_magic, step, execute, opcode, high_opcode, prefixes, rex_prefix}
use rashid.Cpu.Exec.Flow.{jmp_rel}
use rashid.Cpu.Decode.{fetch}
use rashid.Stubs.{Stubs, stub_index}
use rashid.Cpu.Run.{Frame, Engine, callback_stack, enter_guest, round, cpu_run}
use rashid.Cpu.Run.Keeps.{enter_guest_lem}
use rashid.Cpu.Run.Budget.{Counts, cpu_run-ends, round_misses}
use rashid.Cpu.Run.Checked.{enter_logged, rewound, replay, run_checked}
use rashid.Cpu.Run.Checked.Verdict.{Agree, AgreeMemory, run_checked-Agree}
use rashid.Cpu.Start.{guest_stack_size, cpu_init}
use rashid.Cpu.Start.Stack.{StackFits, cpu_init-StackFits}
use rashid.Tests.Samples.{cpu, host, files, outside}

-- Two arguments, from native code.
abbrev frame : Frame
frame = record { x = λ i. 40 + i; d = λ _. 0 }

stack_written : access_ok cpu (callback_stack 0x1800) 8 prot_w ≡ true
unfolding access_ok ok
stack_written = refl

stack_read : access_ok cpu (callback_stack 0x1800) 8 prot_r ≡ true
unfolding access_ok ok
stack_read = refl

enter_guest_lem_example :
    let g = enter_guest cpu frame 0x2100 in
    ((g.r rsp + 8) % 16 ≡ 0)
    × (g.r rsp + 264 ≤ 0x1800)
    × ((g.rip ≡ 0x2100) × (g.r rdi ≡ 40))
    × ((pop g).0 ≡ callback_magic)
enter_guest_lem_example =
    enter_guest_lem cpu frame 0x2100 (omega arith) (omega arith) stack_written stack_read

-- A jump to itself at 0x2000, run by the interpreter.
abbrev spinning : ℕ → Cpu
spinning i = record cpu { mem = λ a. if a == 0x2000 then 0xEB else 0xFE; icount = i }

abbrev no_stubs : Stubs
no_stubs = record { base = 0; n = 0 }

spins : (i : ℕ) → step 1 host files outside no_stubs (spinning i) ≡ some (spinning i)
unfolding step stub_index ok walk find execute prefixes rex_prefix opcode high_opcode jmp_rel fetch
spins i = refl

-- It goes on, or it has stopped.
abbrev Spins : Cpu → Type 0
Spins c = ((i : ℕ) × (c ≡ spinning i)) ⊎ (c.running ≡ false)

spinning_Counts : Counts Spins (step 1 host files outside no_stubs) 100
spinning_Counts c (inl (i, e)) goes = (
  spinning i,
  ap (step 1 host files outside no_stubs) e ∙ spins i,
  ap (λ (c' : Cpu). c'.icount) (sym e),
  by_test (λ (c' : Cpu). Spins c') ((add64 i 1 == 100) && not (100 == 0)) (λ _. inr refl)
      (λ _. inl (add64 i 1, refl)),
)
spinning_Counts c (inr stopped) goes = clash c.running goes stopped

cpu_run-ends_example :
    (c' : Cpu) × (cpu_run 101 none (step 1 host files outside no_stubs) 100 (spinning 0) ≡ some c')
    × (c'.running ≡ false)
    × (c'.icount ≤ 147)
cpu_run-ends_example =
    cpu_run-ends Spins (step 1 host files outside no_stubs) 100 none (spinning 0) spinning_Counts tt
      (inl (0, refl)) (omega arith) (omega arith)

-- A callback of 50 instructions inside of one step.
abbrev with_callback : Cpu → Option Cpu
with_callback c = some (record c { icount = add64 c.icount 50 })

round_misses_example :
    (c' : Cpu) × (round none with_callback 20 cpu ≡ some c')
    × (c'.running ≡ true)
    × (20 < c'.icount)
round_misses_example =
    round_misses with_callback 20 cpu (record cpu { icount = 50 }) refl (omega arith) (omega arith)
      (omega arith)

-- A program with two arguments, on the sample host.
abbrev argv : List (List ℕ)
argv = (112 ∷ 114 ∷ []) ∷ (120 ∷ []) ∷ []

abbrev stack_base : ℕ
stack_base = (map host init 0 guest_stack_size (bit_or prot_r prot_w) false).0

stack_mapped : (stack_base == 0) ≡ false
unfolding map reserve insert init page_up
stack_mapped = refl

stack_room : stack_base + guest_stack_size < 2 ^ 64
unfolding map reserve insert init page_up
stack_room = omega arith

cpu_init-StackFits_example :
    (c : Cpu) × (cpu_init host init (λ _. 0) 0x2000 true argv ≡ some c)
    × (c.rip ≡ 0x2000)
    × StackFits stack_base true 2 (stack_base + guest_stack_size - 5) c
cpu_init-StackFits_example =
    cpu_init-StackFits host init (λ _. 0) 0x2000 true argv stack_mapped stack_room (omega arith)

-- A block of one instruction, which goes on to the next byte, as its step does.
abbrev single : Engine
single = record { lookup = λ _. none; enter = λ body c. (c.rip + 1, c) }

abbrev next_byte : Cpu → Option Cpu
next_byte c = some (record c { rip = c.rip + 1 })

abbrev replayed : Cpu
replayed = record (rewound cpu (enter_logged single 7 cpu)) { rip = 0x2001 }

replays : replay 1 next_byte (rewound cpu (enter_logged single 7 cpu)) ≡ some replayed
unfolding replay
replays = refl

run_checked-Agree_example :
    (passed : Bool) × (c' : Cpu) × (run_checked single next_byte 7 1 cpu ≡ some (passed, c'))
    × (c' ≡ (
        if passed then record replayed { wlog = none; icount = 1 } else record replayed {
          wlog = none;
          fault = some Fault.disagreement;
          fault_rip = 0x2000;
          running = false;
        }))
    × (passed ≡ true → Agree (enter_logged single 7 cpu) c')
    × (passed ≡ true → AgreeMemory (enter_logged single 7 cpu) replayed)
run_checked-Agree_example = run_checked-Agree single next_byte 7 1 cpu replayed replays
