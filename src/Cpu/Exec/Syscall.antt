-- ===== src/Cpu/Exec/Syscall.antt =====
-- src/cpu.c, "syscall": macOS system calls, and what the interpreter shares with compiled code.
use rashid.Base.{
  ℕ, ◌-◌, ◌/◌, ◌%◌, ◌^◌, bit_and, bit_or, Bool, false, not, ◌&&◌, List, none, some, ltb, ◌==◌,
  if◌then◌else◌, sub64, update,
}
use rashid.AddressSpace
use rashid.AddressSpace.{Host, AddressSpace, prot_r, prot_w}
use rashid.Cpu.{has}
use rashid.Cpu.State.{Cpu, Fault, rax, rdx, rsi, rdi}
use rashid.Cpu.Flags.{f_cf, clear}
use rashid.Cpu.Memory.{memfault, access_ok, ld, st, bytes, put_bytes}

-- What the host's read, write and close answer: the 64-bit pattern of the result, and for read
-- also the bytes that were put into the buffer.
pub record Files : Type 0 where
  pub read_fd : ℕ → ℕ → ℕ × List ℕ
  pub write_fd : ℕ → List ℕ → ℕ
  pub close_fd : ℕ → ℕ

abbrev pub r8 : ℕ
r8 = 8

abbrev pub r10 : ℕ
r10 = 10

abbrev pub enomem : ℕ
enomem = 12

-- `syscall_ret`: the int64_t is given by its 64-bit pattern.
unfoldable pub syscall_ret : Cpu → ℕ → Cpu
unfolding clear
syscall_ret c v =
    if ltb v (2 ^ 63)
    then record c { flags = clear c.flags f_cf; r = update c.r rax v }
    else record c { flags = bit_or c.flags f_cf; r = update c.r rax (sub64 0 v) }

abbrev pub unimplemented_syscall : Cpu → Cpu
unimplemented_syscall c = record c {
  fault = some Fault.unimplemented_syscall;
  fault_rip = c.rip;
  running = false;
}

-- `SYSCALL_CLASS` and `SYSCALL_NUMBER`
abbrev pub syscall_class : ℕ → ℕ
syscall_class n = bit_and (n / 2 ^ 24) 0xff

abbrev pub syscall_number : ℕ → ℕ
syscall_number n = bit_and n 0xffffff

-- The cases that read and write guest memory.
unfoldable pub sys_read : Files → Cpu → Cpu
unfolding access_ok memfault syscall_ret
sys_read f c =
    let (v, bs) = f.read_fd (c.r rdi % 2 ^ 32) (c.r rdx) in
    if access_ok c (c.r rsi) (c.r rdx) prot_w
    then syscall_ret (record c { mem = put_bytes c.mem (c.r rsi) bs }) v
    else memfault c (c.r rsi) Fault.read_buffer

unfoldable pub sys_write : Files → Cpu → Cpu
unfolding access_ok memfault syscall_ret
sys_write f c =
    if access_ok c (c.r rsi) (c.r rdx) prot_r
    then syscall_ret c (f.write_fd (c.r rdi % 2 ^ 32) (bytes c.mem (c.r rsi) (c.r rdx)))
    else memfault c (c.r rsi) Fault.write_buffer

-- The cases that change the address space. -1 is returned as errno 1.
abbrev pub status : Cpu → Bool × AddressSpace → Cpu
unfolding syscall_ret
status c (done, s) = syscall_ret (record c { space = s }) (if done then 0 else 2 ^ 64 - 1)

unfoldable pub sys_mmap : Host → Cpu → Cpu
unfolding AddressSpace.map syscall_ret clear
sys_mmap h c =
    let flags = c.r r10 in
    let (got, s) =
      AddressSpace.map h c.space (c.r rdi) (c.r rsi) (bit_and (c.r rdx) 7)
        (has (bit_and flags 0x10)) in
    if not (has (bit_and flags 0x1000)) && ltb (c.r r8 % 2 ^ 32) (2 ^ 31)
    then unimplemented_syscall c
    else if got == 0
    then syscall_ret (record c { space = s }) (2 ^ 64 - enomem)
    else record c { space = s; flags = clear c.flags f_cf; r = update c.r rax got }

-- `do_syscall`
unfoldable pub do_syscall : Host → Files → Cpu → Cpu
unfolding syscall_ret sys_read sys_write sys_mmap AddressSpace.unmap AddressSpace.protect
do_syscall h f c =
    let class = syscall_class (c.r rax) in
    let n = syscall_number (c.r rax) in
    if class == 3
    then (if n == 3
        then syscall_ret (record c { gs_base = c.r rdi }) 0
        else unimplemented_syscall c)
    else if not (class == 2)
    then unimplemented_syscall c
    else if n == 1
    then record c { running = false; exit_code = c.r rdi % 2 ^ 32 }
    else if n == 3
    then sys_read f c
    else if n == 4
    then sys_write f c
    else if n == 6
    then syscall_ret c (f.close_fd (c.r rdi % 2 ^ 32))
    else if n == 73
    then status c (AddressSpace.unmap h c.space (c.r rdi) (c.r rsi))
    else if n == 74
    then status c (AddressSpace.protect h c.space (c.r rdi) (c.r rsi) (bit_and (c.r rdx) 7))
    else if n == 75
    then syscall_ret c 0
    else if n == 197
    then sys_mmap h c
    else unimplemented_syscall c

-- `rsd_i_ld` and `rsd_i_st`: a region that served an access without a fault is noted.
unfoldable pub noted_ld : Cpu → ℕ → ℕ → ℕ × Cpu
unfolding ld AddressSpace.note
noted_ld c a size = let (v, c') = ld c a size in (v, noted c' a prot_r)
  where
    noted : Cpu → ℕ → ℕ → Cpu
    noted c a prot = elim c.fault [
      | none ↦ record c { space = AddressSpace.note c.space a prot }
      | some _ ↦ c
    ]

unfoldable pub noted_st : Cpu → ℕ → ℕ → ℕ → Cpu
unfolding st AddressSpace.note
noted_st c a v size =
    let c' = st c a v size in
    elim c'.fault [ none ↦ record c' { space = AddressSpace.note c'.space a prot_w } | some _ ↦ c' ]
