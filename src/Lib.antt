-- ===== src/Lib.antt =====
-- rashid runs x86-64 macOS programs on arm64. This library models the parts of it that decide what
-- a guest program does, and proves what they promise to one another. Paths are from the root of
-- the repository.
--
-- * AddressSpace (src/as.c, src/as.h): the regions of guest memory as an ordered list, the array
--   `reg`, with the two entries per kind of access that compiled code tests in line. One function
--   per function of the source; `find` is the linear search, `place` the insertion behind the
--   regions that start lower, `walk` the loop that rsd_as_ok and rsd_as_mapped share. Its fuel is
--   the number of bytes left, and each round takes at least one. Sorted, Protect, Access, Map and
--   Hits hold the order of the regions, what the operations do at each address, and the entries;
--   Reach the states that a sequence of operations reaches.
--   The host (page size, mmap, munmap, allocator) is the record `Host`, a parameter.
-- * Cpu (src/cpu.c, src/cpu.h): the interpreter. State is the record `rsd_cpu`; Memory has the
--   checked loads and stores with faults and the log of writes; Registers the partial writes of a
--   register and the stack; Flags and Alu the flags, the conditions and the operations; Decode the
--   operand that ModRM and SIB name; Exec the cases of `step`, one definition per case of its
--   switch, in Rows, Flow, Groups and TwoByte, and the system calls in Syscall; Sse the function
--   sse_exec, with the lanes of a register in Lanes, comparisons, conversions and NaNs in Values and
--   the cases in Forms; Variadic the arguments of variadic functions; Start rsd_cpu_init; Run the
--   loop of rsd_cpu_run, run_block (with its check in Run.Checked), and rsd_guest_call. Guest addresses are host
--   addresses, so that memory is one map from addresses to bytes. The loop over prefixes runs on
--   fuel, one round per prefix byte; the loops of Run run on fuel, one unit per round, and the
--   budget bounds the rounds of rsd_cpu_run.
-- * Jit (src/jit.c): Liveness has the analysis of flags of a block, Address the decoder of memory
--   operands and the address that one denotes, Constant the words that put_imm writes, and a machine
--   with registers that runs them, Operand what the words of put_ea leave in x1 on that machine, Words the words for registers, addresses, conditions and operations. Condition has a machine
--   with registers and one flag that runs the words of a condition, and Decides the arithmetic that
--   compares it with the interpreter's; in_reach of Code is the test of rsd_jit_init on the layout. Decode has the
--   decoder of instructions, `decode`, with its cases in Forms; Follows, Dispatch, OneByte, TwoByte,
--   Landing and Agrees compare it with the interpreter, whose cases end where Cpu.Exec.Ends says.
--   What put_region_check tests is modelled with the address space, whose entries it tests. Code has
--   the generators: in line flags, loads and stores in Code itself, put_sse in Code.Sse, put_insn
--   with one definition per case in Code.Insns; Code.Good and its children show that they keep to
--   their buffer. Cache has rsd_jit_lookup: the decoding of a block, its emission, which is tried
--   again on fewer instructions where it does not fit (on fuel, one unit per attempt), the arena and
--   the cache of blocks; Cache.Blocks is about one block, Keeps and Again about the cache.
-- * Emit (src/emit.h): the encodings of AArch64 instructions.
-- * Macho (src/macho.c, src/macho.h): the slice of a fat file and the walk over the load commands;
--   Macho.Load has the span, the copying and protecting of segments, and rsd_load as a whole. Slice,
--   Bounds, Span, Place and Segments hold the proofs; AddressSpace.Mapped what rsd_as_map promises
--   the loader. The constants of <mach-o/loader.h> and where its fields lie are the records
--   `Constants` and `Layout`; the file is a function from offsets to bytes.
-- * Fixups (src/fixups.c), Stubs (src/stubs.h), Thunk (src/thunk.c), Callback (src/callback.c): the
--   walk along a chain of fixups, the table of imports (Fixups.Imports), rsd_fixups over all segments
--   and pages (Fixups.Apply), the addresses that stand for imports, the tables of functions and the
--   test whether a native address is code, and the pool of trampolines for guest functions. The bit
--   fields of <mach-o/fixup-chains.h>, dlsym, dladdr and the place of the trampolines are parameters.
--   The walk of one chain runs on fuel, one unit per fixup; Fixups.Ends shows how much is enough.
--
-- A word of w bits is a natural number, cut with % 2 ^ w where the source's type cuts it; a signed
-- value is given by its pattern. Bits holds the digits of the bitwise operations, Base the tests,
-- lists and words that the modules share, Tests the theorems at concrete inputs.
--
-- The floating-point arithmetic of the host is the record `Floats`, on bit patterns, compiled code
-- the record `Engine`; the functions of Cpu.Run take a step of the interpreter as an argument.
--
-- Not modelled: the calls of native functions (a parameter of Cpu.Exec.step), the setting up of the
-- arena and the profile in src/jit.c, the Objective-C bridge (src/objc.c), which only calls the
-- runtime of the platform, the assembly files, and the command line (src/main.c).
pub mod Base
pub mod Bits
pub mod AddressSpace
pub mod Cpu
pub mod Jit
pub mod Callback
pub mod Stubs
pub mod Fixups
pub mod Emit
pub mod Tests
pub mod Macho
pub mod Thunk
