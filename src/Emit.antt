-- ===== src/Emit.antt =====
-- src/emit.h: the encodings of AArch64 instructions. Registers are numbers below 32; a signed
-- argument is given by its 32-bit pattern.
pub mod Words
pub mod Fields
pub mod Others
use rashid.Base.{ℕ, ◌+◌, ◌-◌, ◌*◌, ◌/◌, ◌%◌, ◌^◌, bit_and, bit_or, Bool, true, false}

-- << of uint32_t
abbrev pub shl32 : ℕ → ℕ → ℕ
shl32 v k = v * 2 ^ k % 2 ^ 32

-- The three-register instructions: `a64_add` to `a64_eor_w`, `a64_mul`, `a64_mul_w`, `a64_bic`.
pub data ThreeRegs : Type 0 where
  add sub and orr eor add_w sub_w and_w orr_w eor_w mul mul_w bic : ThreeRegs

abbrev pub three_base : ThreeRegs → ℕ
three_base ThreeRegs.add = 0x8B00_0000
three_base ThreeRegs.sub = 0xCB00_0000
three_base ThreeRegs.and = 0x8A00_0000
three_base ThreeRegs.orr = 0xAA00_0000
three_base ThreeRegs.eor = 0xCA00_0000
three_base ThreeRegs.add_w = 0x0B00_0000
three_base ThreeRegs.sub_w = 0x4B00_0000
three_base ThreeRegs.and_w = 0x0A00_0000
three_base ThreeRegs.orr_w = 0x2A00_0000
three_base ThreeRegs.eor_w = 0x4A00_0000
three_base ThreeRegs.mul = 0x9B00_7C00
three_base ThreeRegs.mul_w = 0x1B00_7C00
three_base ThreeRegs.bic = 0x8A20_0000

-- base | (m << 16) | (n << 5) | d
unfoldable pub three_regs : ThreeRegs → ℕ → ℕ → ℕ → ℕ
three_regs o d n m = bit_or (bit_or (bit_or (three_base o) (shl32 m 16)) (shl32 n 5)) d

-- Loads and stores at a register plus an offset, which is encoded in units of the access.
pub data Transfer : Type 0 where
  ldr str ldrh strh ldrb strb ldr_d str_d ldr_s str_s ldr_w str_w : Transfer

abbrev pub transfer_base : Transfer → ℕ
transfer_base Transfer.ldr = 0xF940_0000
transfer_base Transfer.str = 0xF900_0000
transfer_base Transfer.ldrh = 0x7940_0000
transfer_base Transfer.strh = 0x7900_0000
transfer_base Transfer.ldrb = 0x3940_0000
transfer_base Transfer.strb = 0x3900_0000
transfer_base Transfer.ldr_d = 0xFD40_0000
transfer_base Transfer.str_d = 0xFD00_0000
transfer_base Transfer.ldr_s = 0xBD40_0000
transfer_base Transfer.str_s = 0xBD00_0000
transfer_base Transfer.ldr_w = 0xB940_0000
transfer_base Transfer.str_w = 0xB900_0000

abbrev pub unit : Transfer → ℕ
unit Transfer.ldr = 8
unit Transfer.str = 8
unit Transfer.ldrh = 2
unit Transfer.strh = 2
unit Transfer.ldrb = 1
unit Transfer.strb = 1
unit Transfer.ldr_d = 8
unit Transfer.str_d = 8
unit Transfer.ldr_s = 4
unit Transfer.str_s = 4
unit Transfer.ldr_w = 4
unit Transfer.str_w = 4

unfoldable pub transfer : Transfer → ℕ → ℕ → ℕ → ℕ
transfer o t n off =
    bit_or (bit_or (bit_or (transfer_base o) (shl32 (off / unit o) 10)) (shl32 n 5)) t

-- `a64_movz` and `a64_movk`
unfoldable pub movz : ℕ → ℕ → ℕ → ℕ
movz d imm hw = bit_or (bit_or (bit_or 0xD280_0000 (shl32 hw 21)) (shl32 imm 5)) d

unfoldable pub movk : ℕ → ℕ → ℕ → ℕ
movk d imm hw = bit_or (bit_or (bit_or 0xF280_0000 (shl32 hw 21)) (shl32 imm 5)) d

-- `a64_b`, `a64_bcond` and `a64_cbz_w`: displacements in words.
unfoldable pub b : ℕ → ℕ
b imm26 = bit_or 0x1400_0000 (bit_and imm26 0x3FF_FFFF)

unfoldable pub bcond : ℕ → ℕ → ℕ
bcond cond imm19 = bit_or (bit_or 0x5400_0000 (shl32 (bit_and imm19 0x7_FFFF) 5)) cond

unfoldable pub cbz_w : ℕ → ℕ → ℕ
cbz_w t imm19 = bit_or (bit_or 0x3400_0000 (shl32 (bit_and imm19 0x7_FFFF) 5)) t
