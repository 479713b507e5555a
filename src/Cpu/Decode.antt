-- ===== src/Cpu/Decode.antt =====
-- src/cpu.c, "decode": reading instruction bytes, and the operand that ModRM names.
pub mod Cursor
use rashid.Base.{
  ℕ, ◌+◌, ◌-◌, ◌*◌, ◌/◌, ◌%◌, ◌^◌, bit_and, bit_or, Bool, ◌&&◌, ◌==◌, if◌then◌else◌, add64,
}
use rashid.Cpu.{has, extend}
use rashid.Cpu.State.{Cpu, rsp}
use rashid.Cpu.Memory.{read, ld, st}
use rashid.Cpu.Registers.{getreg, getreg8, setreg, setreg8}

-- `opnd`. The source marks the three kinds by `is_reg` and by `reg` being -1 or -2; `pending` is
-- an address relative to the end of the instruction, by its displacement.
pub data Operand : Type 0 where
  reg : ℕ → Operand
  memory : ℕ → ℕ → Operand
  pending : ℕ → ℕ → Operand

-- `dec`: `p` is the guest address of the next byte, which is also its host address.
pub record Decoder : Type 0 where
  pub p : ℕ
  pub rip0 : ℕ
  pub rex : ℕ
  pub has_rex : Bool
  pub opsize : ℕ
  pub addr32 : Bool
  pub seg_base : ℕ
  pub mand : ℕ

-- `fetch8` to `fetch64`: the number, and the cursor behind it.
unfoldable pub fetch : ℕ → Cpu → Decoder → ℕ × Decoder
fetch n c d = (read c.mem d.p n, record d { p = d.p + n })

-- `dec_rip`
abbrev pub dec_rip : Decoder → ℕ
dec_rip d = add64 d.rip0 (d.p - d.rip0)

-- The fields of ModRM and of SIB, with the digit that REX adds.
abbrev pub rex_bit : ℕ → ℕ → ℕ
rex_bit rex mask = if has (bit_and rex mask) then 8 else 0

abbrev pub field : ℕ → ℕ → ℕ → ℕ
field m k high = bit_or (bit_and (m / 2 ^ k) 7) high

-- The displacement that `mod` asks for, added to the address.
unfoldable pub displace : Cpu → Decoder → ℕ → ℕ → ℕ × Decoder
unfolding fetch
displace c d md addr =
    if md == 1
    then (let (v, d') = fetch 1 c d in (add64 addr (extend 8 v), d'))
    else if md == 2
    then (let (v, d') = fetch 4 c d in (add64 addr (extend 32 v), d'))
    else (addr, d)

-- The SIB byte: base and scaled index.
unfoldable pub sib_address : Cpu → Decoder → ℕ → ℕ × Decoder
unfolding fetch
sib_address c d md =
    let (sib, d1) = fetch 1 c d in
    let index = field sib 3 (rex_bit d.rex 2) in
    let base = field sib 0 (rex_bit d.rex 1) in
    let scaled = if index == rsp then 0 else c.r index * 2 ^ (sib / 2 ^ 6) % 2 ^ 64 in
    if (bit_and sib 7 == 5) && (md == 0)
    then (let (v, d2) = fetch 4 c d1 in (add64 scaled (extend 32 v), d2))
    else (add64 scaled (c.r base), d1)

-- `modrm`: the reg field, the operand, and the cursor behind the bytes used.
unfoldable pub modrm : Cpu → Decoder → ℕ × Operand × Decoder
unfolding fetch displace sib_address
modrm c d =
    let (m, d1) = fetch 1 c d in
    let md = m / 2 ^ 6 in
    let reg_field = field m 3 (rex_bit d.rex 4) in
    let rm_bits = bit_and m 7 in
    let rm = bit_or rm_bits (rex_bit d.rex 1) in
    if md == 3
    then (reg_field, reg rm, d1)
    else if rm_bits == 4
    then (let (a, d2) = sib_address c d1 md in
        let (addr, d3) = displace c d2 md a in (reg_field, memory addr d.seg_base, d3))
    else if (rm_bits == 5) && (md == 0)
    then (let (v, d2) = fetch 4 c d1 in (reg_field, pending (extend 32 v) d.seg_base, d2))
    else (let (addr, d2) = displace c d1 md (c.r rm) in (reg_field, memory addr d.seg_base, d2))

-- `fixup_rip`, called once the whole instruction has been read.
unfoldable pub fixup_rip : Decoder → Operand → Operand
fixup_rip d (reg i) = reg i
fixup_rip d (memory a seg) = memory a seg
fixup_rip d (pending disp seg) = memory (add64 (dec_rip d) (extend 32 disp)) seg

-- `rd` and `wr`; after `fixup_rip` no operand is pending.
unfoldable pub rd : Cpu → Operand → ℕ → Bool → ℕ × Cpu
unfolding ld getreg getreg8
rd c (reg i) size rex = (if size == 1 then getreg8 c i rex else getreg c i size, c)
rd c (memory a seg) size rex = ld c (add64 a seg) size
rd c (pending disp seg) size rex = ld c (add64 disp seg) size

unfoldable pub wr : Cpu → Operand → ℕ → ℕ → Bool → Cpu
unfolding st setreg setreg8
wr c (reg i) v size rex = if size == 1 then setreg8 c i v rex else setreg c i v size
wr c (memory a seg) v size rex = st c (add64 a seg) v size
wr c (pending disp seg) v size rex = st c (add64 disp seg) v size
