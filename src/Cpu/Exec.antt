-- ===== src/Cpu/Exec.antt =====
-- src/cpu.c, `step`: one instruction of the guest.
pub mod Common
pub mod Rows
pub mod Flow
pub mod Groups
pub mod Division
pub mod TwoByte
pub mod Syscall
pub mod Prefixes
pub mod Returns
pub mod Rip
pub mod Ends
use rashid.Base.{
  ℕ, zero, suc, ◌+◌, ◌-◌, ◌*◌, ◌/◌, ◌%◌, ◌^◌, bit_and, Bool, true, false, not, ◌&&◌, ◌||◌, Option,
  none, some, ltb, leb, ◌==◌, if◌then◌else◌,
}
use rashid.AddressSpace
use rashid.AddressSpace.{Host, prot_x}
use rashid.Stubs.{Stubs, stub_index}
use rashid.Cpu.{has}
use rashid.Cpu.State.{Cpu, Fault, rax}
use rashid.Cpu.Memory.{memfault, why}
use rashid.Cpu.Decode.{Decoder, fetch}
use rashid.Cpu.Exec.Common.{advance, stop}
use rashid.Cpu.Exec.Rows.{
  alu_row, alu_acc, test_acc, group1, imul_imm, movsxd, xchg, lea, widen_acc, sign_acc, mov_imm8,
  mov_imm, mov_rm_imm,
}
use rashid.Cpu.Exec.Flow.{
  push_reg, pop_reg, push_imm, pop_rm, pushfq, popfq, jcc, jmp_rel, call_rel, ret, ret_n, leave,
}
use rashid.Cpu.Exec.Groups.{shift_rm, group3, group5}
use rashid.Cpu.Exec.TwoByte.{two_byte}
use rashid.Cpu.Sse.Values.{Floats}
use rashid.Cpu.Sse.{sse_exec}
use rashid.Cpu.Exec.Syscall.{Files, do_syscall}

-- One round of the loop over the prefixes; `none` at the first byte that is no prefix.
unfoldable pub prefix : Cpu → Decoder → ℕ → Option Decoder
prefix c d b =
    let d' = record d { p = d.p + 1 } in
    if b == 0x66
    then some (record d' { opsize = 2; mand = 0x66 })
    else if b == 0x67
    then some (record d' { addr32 = true })
    else if (b == 0xF2) || (b == 0xF3)
    then some (record d' { mand = b })
    else if (b == 0x2E) || (b == 0x36) || (b == 0x3E) || (b == 0x26)
    then some d'
    else if b == 0x64
    then some (record d' { seg_base = c.fs_base })
    else if b == 0x65
    then some (record d' { seg_base = c.gs_base })
    else none

-- The loop, on fuel; `none` when that is used up.
unfoldable pub prefixes : ℕ → Cpu → Decoder → Option Decoder
unfolding prefix
prefixes zero c d = none
prefixes (suc fuel) c d = elim (prefix c d (c.mem d.p)) [
  | none ↦ some d
  | some d' ↦ prefixes fuel c d'
]

-- The REX prefix, which comes last.
unfoldable pub rex_prefix : Cpu → Decoder → Decoder
rex_prefix c d =
    let b = c.mem d.p in
    if b - b % 16 == 0x40
    then record d {
      p = d.p + 1;
      rex = b;
      has_rex = true;
      opsize = if has (bit_and b 8) then 8 else d.opsize;
    }
    else d

abbrev pub between : ℕ → ℕ → ℕ → Bool
between lo hi op = leb lo op && leb op hi

-- The rows below 0x40, by the low three digits of the opcode, and the rows of test and mov.
abbrev pub is_row : ℕ → Bool
is_row op = (ltb op 0x40 && ltb (op % 8) 4) || (op == 0x84) || (op == 0x85) || between 0x88 0x8B op

abbrev pub is_acc : ℕ → Bool
is_acc op = ltb op 0x40 && between 4 5 (op % 8)

-- What stands outside of the interpreter: floating-point arithmetic, and the native function
-- behind an import, if it has a thunk.
pub record Outside : Type 0 where
  pub floats : Floats
  pub native : ℕ → Option (Cpu → Cpu)

-- `case 0x0F`
unfoldable pub escape : Host → Files → Outside → Cpu → Decoder → Cpu
unfolding fetch do_syscall sse_exec two_byte
escape h f o c d0 =
    let (op, d) = fetch 1 c d0 in
    if op == 0x05
    then do_syscall h f (advance c d)
    else (let (handled, c', d') = sse_exec o.floats c d op in
        if handled then c' else two_byte c' d' op)

-- The switch on the opcode, in two parts.
unfoldable pub low_opcode : Cpu → Decoder → ℕ → Cpu
unfolding alu_row alu_acc test_acc push_reg pop_reg push_imm movsxd imul_imm jcc group1 xchg lea
    pop_rm
low_opcode c d op =
    if is_row op
    then alu_row c d op
    else if is_acc op
    then alu_acc c d op
    else if between 0x50 0x57 op
    then push_reg c d op
    else if between 0x58 0x5F op
    then pop_reg c d op
    else if op == 0x63
    then movsxd c d
    else if (op == 0x68) || (op == 0x6A)
    then push_imm c d op
    else if (op == 0x69) || (op == 0x6B)
    then imul_imm c d op
    else if between 0x70 0x7F op
    then jcc 1 c d op
    else if (op == 0x80) || (op == 0x81) || (op == 0x83)
    then group1 c d op
    else if op == 0x87
    then xchg c d
    else if op == 0x8D
    then lea c d
    else if op == 0x8F
    then pop_rm c d
    else stop c Fault.unimplemented_opcode d.rip0

unfoldable pub high_opcode : Cpu → Decoder → ℕ → Cpu
unfolding pushfq popfq widen_acc sign_acc test_acc mov_imm8 mov_imm shift_rm ret_n ret mov_rm_imm
    leave call_rel jmp_rel group3 group5
high_opcode c d op =
    if op == 0x90
    then advance c d
    else if op == 0x98
    then widen_acc c d
    else if op == 0x99
    then sign_acc c d
    else if op == 0x9C
    then pushfq c d
    else if op == 0x9D
    then popfq c d
    else if (op == 0xA8) || (op == 0xA9)
    then test_acc c d op
    else if between 0xB0 0xB7 op
    then mov_imm8 c d op
    else if between 0xB8 0xBF op
    then mov_imm c d op
    else if (op == 0xC0) || (op == 0xC1) || between 0xD0 0xD3 op
    then shift_rm c d op
    else if op == 0xC2
    then ret_n c d
    else if op == 0xC3
    then ret c
    else if (op == 0xC6) || (op == 0xC7)
    then mov_rm_imm c d op
    else if op == 0xC9
    then leave c d
    else if op == 0xE8
    then call_rel c d
    else if op == 0xE9
    then jmp_rel 4 c d
    else if op == 0xEB
    then jmp_rel 1 c d
    else if (op == 0xF6) || (op == 0xF7)
    then group3 c d op
    else if (op == 0xFE) || (op == 0xFF)
    then group5 c d op
    else stop c Fault.unimplemented_opcode d.rip0

unfoldable pub opcode : Host → Files → Outside → Cpu → Decoder → Cpu
unfolding fetch escape low_opcode high_opcode
opcode h f o c d0 =
    let (op, d) = fetch 1 c d0 in
    if op == 0x0F
    then escape h f o c d
    else if ltb op 0x90
    then low_opcode c d op
    else high_opcode c d op

-- One instruction at an executable rip.
unfoldable pub execute : ℕ → Host → Files → Outside → Cpu → Option Cpu
unfolding prefixes rex_prefix opcode
execute fuel h f o c0 =
    let c = record c0 { cur_rip = c0.rip } in
    let d : Decoder = record {
      p = c.rip;
      rip0 = c.rip;
      rex = 0;
      has_rex = false;
      opsize = 4;
      addr32 = false;
      seg_base = 0;
      mand = 0;
    } in
    elim (prefixes fuel c d) [ none ↦ none | some d' ↦ some (opcode h f o c (rex_prefix c d')) ]

abbrev pub return_magic : ℕ
return_magic = 0xFFFF_FFFF_FFFF_F000

abbrev pub callback_magic : ℕ
callback_magic = 0xFFFF_FFFF_FFFF_F100

-- `step`: the two addresses that end a run, an import, or an instruction.
unfoldable pub step : ℕ → Host → Files → Outside → Stubs → Cpu → Option Cpu
unfolding stub_index memfault why AddressSpace.ok execute
step fuel h f o s c =
    if c.rip == callback_magic
    then some (record c { running = false })
    else if c.rip == return_magic
    then some (record c { running = false; exit_code = bit_and (c.r rax) 0xff })
    else elim (stub_index s c.rip) [
      | some i ↦ elim (o.native i) [
        | some call ↦ some (call c)
        | none ↦ some (stop c Fault.no_thunk c.rip)
      ]
      | none ↦
          if AddressSpace.ok c.space c.rip 1 prot_x
          then execute fuel h f o c
          else some (memfault c c.rip (why c c.rip 1))
    ]
