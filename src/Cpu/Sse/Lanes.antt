-- ===== src/Cpu/Sse/Lanes.antt =====
-- src/cpu.c, "SSE": the lanes of an XMM register, and moving one to and from memory.
use rashid.Base.{ℕ, zero, suc, ◌+◌, ◌-◌, ◌*◌, ◌/◌, ◌%◌, ◌^◌, ◌==◌, if◌then◌else◌, add64, update}
use rashid.AddressSpace.{prot_r, prot_w}
use rashid.Cpu.State.{Cpu, Xmm}
use rashid.Cpu.Memory.{memfault, access_ok, why, log_write, read, write, ld}
use rashid.Cpu.Decode.{Operand, reg, memory, pending}

abbrev pub zero_xmm : Xmm
zero_xmm = record { q0 = 0; q1 = 0 }

-- The members of the union `rsd_xmm`: q, d, w and b at an index.
abbrev pub lane64 : Xmm → ℕ → ℕ
lane64 x i = if i == 0 then x.q0 else x.q1

abbrev pub lane32 : Xmm → ℕ → ℕ
lane32 x i = lane64 x (i / 2) / 2 ^ (32 * (i % 2)) % 2 ^ 32

abbrev pub lane16 : Xmm → ℕ → ℕ
lane16 x i = lane64 x (i / 4) / 2 ^ (16 * (i % 4)) % 2 ^ 16

abbrev pub lane8 : Xmm → ℕ → ℕ
lane8 x i = lane64 x (i / 8) / 2 ^ (8 * (i % 8)) % 2 ^ 8

-- d[0] alone.
abbrev pub set_low32 : Xmm → ℕ → Xmm
set_low32 x v = record x { q0 = x.q0 - x.q0 % 2 ^ 32 + v % 2 ^ 32 }

-- A register by its four or by its two lanes.
abbrev pub of_lanes32 : (ℕ → ℕ) → Xmm
of_lanes32 f = record { q0 = f 0 + f 1 * 2 ^ 32; q1 = f 2 + f 3 * 2 ^ 32 }

abbrev pub of_lanes64 : (ℕ → ℕ) → Xmm
of_lanes64 f = record { q0 = f 0; q1 = f 1 }

-- n lanes of 8 digits from the lane i on.
abbrev pub pack8 : (ℕ → ℕ) → ℕ → ℕ → ℕ
pack8 f i zero = 0
pack8 f i (suc n) = f i + 2 ^ 8 * pack8 f (i + 1) n

-- `ld128`
unfoldable pub ld128 : Cpu → ℕ → Xmm × Cpu
unfolding access_ok why memfault
ld128 c a =
    if access_ok c a 16 prot_r
    then (record { q0 = read c.mem a 8; q1 = read c.mem (a + 8) 8 }, c)
    else (zero_xmm, memfault c a (why c a 16))

-- `st128`: both halves are logged before either is written.
unfoldable pub st128 : Cpu → ℕ → Xmm → Cpu
unfolding access_ok why memfault log_write
st128 c a v =
    let c' = log_write (log_write c a v.q0 8) (a + 8) v.q1 8 in
    if access_ok c a 16 prot_w
    then record c' { mem = write (write c'.mem a v.q0 8) (a + 8) v.q1 8 }
    else memfault c a (why c a 16)

abbrev pub set_xmm : Cpu → ℕ → Xmm → Cpu
set_xmm c i v = record c { xmm = update c.xmm i v }

-- `xrd`, `xwr` and `xrd_lo`
unfoldable pub xrd : Cpu → Operand → Xmm × Cpu
unfolding ld128
xrd c (reg i) = (c.xmm i, c)
xrd c (memory a seg) = ld128 c (add64 a seg)
xrd c (pending a seg) = ld128 c (add64 a seg)

unfoldable pub xwr : Cpu → Operand → Xmm → Cpu
unfolding st128
xwr c (reg i) v = set_xmm c i v
xwr c (memory a seg) v = st128 c (add64 a seg) v
xwr c (pending a seg) v = st128 c (add64 a seg) v

unfoldable pub xrd_lo : Cpu → Operand → ℕ → ℕ × Cpu
unfolding ld
xrd_lo c (reg i) n = (if n == 4 then lane32 (c.xmm i) 0 else (c.xmm i).q0, c)
xrd_lo c (memory a seg) n = ld c (add64 a seg) n
xrd_lo c (pending a seg) n = ld c (add64 a seg) n
