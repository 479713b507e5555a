-- ===== src/Cpu/Memory.antt =====
-- src/cpu.c, "memory": checked loads and stores, and the log of writes.
pub mod RoundTrip
pub mod Undo
use rashid.Base.{
  ℕ, zero, suc, ◌+◌, ◌-◌, ◌*◌, ◌/◌, ◌%◌, ◌^◌, bit_and, Bool, true, false, not, ◌&&◌, ◌||◌, Option,
  none, some, List, [], ◌∷◌, ltb, leb, ◌==◌, if◌then◌else◌, length, add64, sub64, update,
}
use rashid.AddressSpace
use rashid.AddressSpace.{prot_r, prot_w}
use rashid.Cpu.State.{Cpu, Fault, Write, WriteLog}

abbrev pub min_valid : ℕ
min_valid = 0x1000

abbrev pub max_valid : ℕ
max_valid = 0x0001_0000_0000_0000

-- `memfault`: the first fault is kept.
unfoldable pub memfault : Cpu → ℕ → Fault → Cpu
memfault c a what = record c {
  fault = elim c.fault [ none ↦ some what | some f ↦ some f ];
  fault_rip = elim c.fault [ none ↦ c.cur_rip | some _ ↦ c.fault_rip ];
  fault_addr = elim c.fault [ none ↦ some a | some _ ↦ c.fault_addr ];
  running = false;
}

unfoldable pub access_ok : Cpu → ℕ → ℕ → ℕ → Bool
access_ok c a n prot =
    if AddressSpace.ok c.space a n prot
    then true
    else if AddressSpace.mapped c.space a n
    then false
    else leb min_valid a && ltb a max_valid && leb n (sub64 max_valid a)

unfoldable pub why : Cpu → ℕ → ℕ → Fault
why c a n =
    if AddressSpace.mapped c.space a n
    then Fault.protection
    else if ltb a min_valid
    then Fault.null_pointer
    else Fault.unusable_address

-- The n bytes from a on, as a little-endian number.
abbrev pub read : (ℕ → ℕ) → ℕ → ℕ → ℕ
read mem a zero = 0
read mem a (suc n) = mem a + 256 * read mem (a + 1) n

-- The low n bytes of v, stored from a on.
abbrev pub write : (ℕ → ℕ) → ℕ → ℕ → ℕ → ℕ → ℕ
write mem a v zero = mem
write mem a v (suc n) = write (update mem a (v % 256)) (a + 1) (v / 256) n

-- `memcpy` out of memory and into it.
abbrev pub bytes : (ℕ → ℕ) → ℕ → ℕ → List ℕ
bytes mem a zero = []
bytes mem a (suc n) = mem a ∷ bytes mem (a + 1) n

abbrev pub put_bytes : (ℕ → ℕ) → ℕ → List ℕ → ℕ → ℕ
put_bytes mem a [] = mem
put_bytes mem a (b ∷ bs) = put_bytes (update mem a b) (a + 1) bs

abbrev pub wlog_max : ℕ
wlog_max = 512

-- The log after one more write.
unfoldable pub logged : Cpu → ℕ → ℕ → ℕ → WriteLog → WriteLog
logged c a v size w =
    let span = if AddressSpace.ok c.space a 16 prot_r then 16 else size in
    let entry : Write = record {
      addr = a;
      old = read c.mem a size;
      val = v % 2 ^ (size * 8);
      size = size;
      span = span;
      before = bytes c.mem a span;
    } in
    if leb wlog_max (length w.entries)
    then record w { overflow = true }
    else record w { entries = entry ∷ w.entries }

abbrev pub next_log : Cpu → ℕ → ℕ → ℕ → Option WriteLog → Option WriteLog
next_log c a v size none = none
next_log c a v size (some w) = some (logged c a v size w)

unfoldable pub log_write : Cpu → ℕ → ℕ → ℕ → Cpu
unfolding logged
log_write c a v size = record c { wlog = next_log c a v size c.wlog }

-- The widths that the switches of `ld` and `st` tell apart.
abbrev pub width : ℕ → ℕ
width size = if size == 1 then 1 else if size == 2 then 2 else if size == 4 then 4 else 8

unfoldable pub ld : Cpu → ℕ → ℕ → ℕ × Cpu
unfolding access_ok why memfault
ld c a size =
    if access_ok c a size prot_r
    then (read c.mem a (width size), c)
    else (0, memfault c a (why c a size))

unfoldable pub st : Cpu → ℕ → ℕ → ℕ → Cpu
unfolding access_ok why memfault log_write
st c a v size =
    if access_ok c a size prot_w
    then (let c' = log_write c a v size in record c' { mem = write c'.mem a v (width size) })
    else memfault c a (why c a size)

-- `undo_writes`, from the newest write to the oldest.
unfoldable pub undo_writes : List Write → (ℕ → ℕ) → ℕ → ℕ
undo_writes [] mem = mem
undo_writes (w ∷ ws) mem = undo_writes ws (put_bytes mem w.addr w.before)
