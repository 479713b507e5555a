-- ===== src/Cpu/State.antt =====
-- src/cpu.h, `rsd_cpu`, and the log of guest writes that checks a compiled block.
use rashid.Base.{ℕ, Bool, Option, List}
use rashid.AddressSpace.{AddressSpace}

-- The registers by their numbers in instructions.
abbrev pub rax : ℕ
rax = 0

abbrev pub rcx : ℕ
rcx = 1

abbrev pub rdx : ℕ
rdx = 2

abbrev pub rsp : ℕ
rsp = 4

abbrev pub rbp : ℕ
rbp = 5

abbrev pub rsi : ℕ
rsi = 6

abbrev pub rdi : ℕ
rdi = 7

-- Why a run stopped: a constructor for each text that the source puts into `fault`.
pub data Fault : Type 0 where
  protection null_pointer unusable_address : Fault
  lea_register rotate divide_by_zero far_call unimplemented_opcode unimplemented_syscall : Fault
  no_thunk read_buffer write_buffer out_of_budget disagreement : Fault

-- `rsd_xmm`, by its two 64-bit lanes.
pub record Xmm : Type 0 where
  pub q0 : ℕ
  pub q1 : ℕ

-- One entry of `rsd_writelog`. `before` are the `span` bytes from the address on.
pub record Write : Type 0 where
  pub addr : ℕ
  pub old : ℕ
  pub val : ℕ
  pub size : ℕ
  pub span : ℕ
  pub before : List ℕ

-- `rsd_writelog`, the newest entry first.
pub record WriteLog : Type 0 where
  pub entries : List Write
  pub overflow : Bool

-- The state that the interpreter keeps. Guest and host addresses are the same, so that memory is
-- one map from addresses to bytes.
pub record Cpu : Type 0 where
  pub r : ℕ → ℕ
  pub xmm : ℕ → Xmm
  pub rip : ℕ
  pub cur_rip : ℕ
  pub flags : ℕ
  pub gs_base : ℕ
  pub fs_base : ℕ
  pub mem : ℕ → ℕ
  pub space : AddressSpace
  pub wlog : Option WriteLog
  pub running : Bool
  pub exit_code : ℕ
  pub icount : ℕ
  pub fault : Option Fault
  pub fault_rip : ℕ
  pub fault_addr : Option ℕ
