-- ===== src/Tests/Samples.antt =====
-- A small address space and a processor, for the tests.
use rashid.Base.{ℕ, arith, true, false, [], ◌∷◌, none, some, ltb, leb, ◌==◌}
use rashid.AddressSpace.{Region, AddressSpace, Host, no_hit}
use rashid.AddressSpace.Sorted.{IsSorted}
use rashid.Cpu.State.{Cpu}
use rashid.Cpu.Decode.{Decoder}
use rashid.Cpu.Exec.{Outside}
use rashid.Cpu.Exec.Syscall.{Files}
use rashid.Cpu.Sse.Values.{Floats}

-- A stack that can be read and written, and code behind it.
abbrev pub stack : Region
stack = record { start = 0x1000; end = 0x2000; prot = 3 }

abbrev pub code : Region
code = record { start = 0x2000; end = 0x3000; prot = 5 }

abbrev pub space : AddressSpace
space = record {
  reg = stack ∷ code ∷ [];
  cap = 16;
  rd0 = no_hit;
  rd1 = no_hit;
  wr0 = no_hit;
  wr1 = no_hit;
}

pub space-IsSorted : IsSorted 0 space.reg
space-IsSorted = (omega arith, omega arith, (omega arith, omega arith, tt))

-- A host with pages of 4 KB on which everything succeeds.
abbrev pub host : Host
host = record {
  page = 0x1000;
  mmap = λ _ _ _. some 0x8000;
  munmap = λ _ _. true;
  alloc = λ _. true;
}

abbrev pub registers : ℕ → ℕ
registers _ = 0x1800

abbrev pub cpu : Cpu
cpu = record {
  r = registers;
  xmm = λ _. record { q0 = 0; q1 = 0 };
  rip = 0x2000;
  cur_rip = 0x2000;
  flags = 0x202;
  gs_base = 0;
  fs_base = 0;
  mem = λ _. 0x44;
  space = space;
  wlog = some (record { entries = []; overflow = false });
  running = true;
  exit_code = 0;
  icount = 0;
  fault = none;
  fault_rip = 0;
  fault_addr = none;
}

abbrev pub dec : Decoder
dec = record {
  p = 0x2001;
  rip0 = 0x2000;
  rex = 0;
  has_rex = false;
  opsize = 4;
  addr32 = false;
  seg_base = 0;
  mand = 0;
}

-- A host whose files answer nothing, and whose floating-point operations answer 0.
abbrev pub files : Files
files = record { read_fd = λ _ _. (0, []); write_fd = λ _ bs. 0; close_fd = λ _. 0 }

abbrev pub floats : Floats
floats = record {
  add = λ _ _. 0;
  mul = λ _ _. 0;
  sub = λ _ _. 0;
  div = λ _ _. 0;
  lt = λ a b. ltb a b;
  le = λ a b. leb a b;
  eq = λ a b. a == b;
  sqrt_d = λ _. 0;
  sqrt_s = λ _. 0;
  widen = λ a. a;
  narrow = λ a. a;
  of_int = λ _. 0;
  of_int_s = λ _. 0;
  rounded = λ _ _. none;
}

abbrev pub outside : Outside
outside = record { floats = floats; native = λ _. none }
