-- ===== src/Emit/Others.antt =====
-- src/emit.h: the encodings that stand alone.
use rashid.Base.{ℕ, ◌+◌, ◌-◌, bit_and, bit_or, bit_xor, Bool, if◌then◌else◌}
use rashid.Emit.{shl32}

-- base | (n << 5) | d
abbrev pub two_regs : ℕ → ℕ → ℕ → ℕ
two_regs base d n = bit_or (bit_or base (shl32 n 5)) d

-- `a64_push` and `a64_pop`
abbrev pub push : ℕ → ℕ
push t = bit_or (bit_or (bit_or 0xF800_0C00 (shl32 0x1F0 12)) (shl32 31 5)) t

abbrev pub pop : ℕ → ℕ
pop t = bit_or (bit_or (bit_or 0xF840_0400 (shl32 16 12)) (shl32 31 5)) t

-- `a64_mov` and `a64_mov_w`
abbrev pub mov : ℕ → ℕ → ℕ
mov d m = bit_or (bit_or 0xAA00_03E0 (shl32 m 16)) d

abbrev pub mov_w : ℕ → ℕ → ℕ
mov_w d m = bit_or (bit_or 0x2A00_03E0 (shl32 m 16)) d

-- `a64_add_imm` and `a64_sub_imm`
abbrev pub add_imm : ℕ → ℕ → ℕ → ℕ
add_imm d n imm = two_regs (bit_or 0x9100_0000 (shl32 imm 10)) d n

abbrev pub sub_imm : ℕ → ℕ → ℕ → ℕ
sub_imm d n imm = two_regs (bit_or 0xD100_0000 (shl32 imm 10)) d n

-- base | (m << 16) | (sh << 10) | (n << 5) | d: `a64_add_shift`, `a64_orr_lsl`, `a64_eor_lsr`
abbrev pub shifted : ℕ → ℕ → ℕ → ℕ → ℕ → ℕ
shifted base d n m sh = two_regs (bit_or (bit_or base (shl32 m 16)) (shl32 sh 10)) d n

abbrev pub add_shift : ℕ → ℕ → ℕ → ℕ → ℕ
add_shift = shifted 0x8B00_0000

abbrev pub orr_lsl : ℕ → ℕ → ℕ → ℕ → ℕ
orr_lsl = shifted 0xAA00_0000

abbrev pub eor_lsr : ℕ → ℕ → ℕ → ℕ → ℕ
eor_lsr = shifted 0xCA40_0000

-- `a64_ubfx` and `a64_bfi`
abbrev pub ubfx : ℕ → ℕ → ℕ → ℕ → ℕ
ubfx d n lsb width = shifted 0xD340_0000 d n lsb (lsb + width - 1)

abbrev pub bfi : ℕ → ℕ → ℕ → ℕ → ℕ
bfi d n lsb width = shifted 0xB340_0000 d n (bit_and (64 - lsb) 63) (width - 1)

-- `a64_sxt` and `a64_sxt_w`
abbrev pub sxt : ℕ → ℕ → ℕ → ℕ
sxt d n bits = two_regs (bit_or 0x9340_0000 (shl32 (bits - 1) 10)) d n

abbrev pub sxt_w : ℕ → ℕ → ℕ → ℕ
sxt_w d n bits = two_regs (bit_or 0x1300_0000 (shl32 (bits - 1) 10)) d n

-- `a64_cmp0`
abbrev pub cmp0 : ℕ → ℕ
cmp0 n = bit_or 0xF100_001F (shl32 n 5)

-- base | (m << 16) | (cond << 12) | (n << 5) | d: `a64_csel`, `a64_fcsel_d`, `a64_fcsel_s`
abbrev pub select : ℕ → ℕ → ℕ → ℕ → ℕ → ℕ
select base d n m cond = two_regs (bit_or (bit_or base (shl32 m 16)) (shl32 cond 12)) d n

abbrev pub csel : ℕ → ℕ → ℕ → ℕ → ℕ
csel = select 0x9A80_0000

abbrev pub fcsel_d : ℕ → ℕ → ℕ → ℕ → ℕ
fcsel_d = select 0x1E60_0C00

abbrev pub fcsel_s : ℕ → ℕ → ℕ → ℕ → ℕ
fcsel_s = select 0x1E20_0C00

-- `a64_csetm`, `a64_csetm_w` and `a64_cset`, which encode the inverted condition
abbrev pub csetm : ℕ → ℕ → ℕ
csetm d cond = bit_or (bit_or 0xDA9F_03E0 (shl32 (bit_xor cond 1) 12)) d

abbrev pub csetm_w : ℕ → ℕ → ℕ
csetm_w d cond = bit_or (bit_or 0x5A9F_03E0 (shl32 (bit_xor cond 1) 12)) d

abbrev pub cset : ℕ → ℕ → ℕ
cset d cond = bit_or (bit_or 0x9A9F_07E0 (shl32 (bit_xor cond 1) 12)) d

-- `a64_adds_zr`, `a64_subs_zr`, `a64_ands_zr`, `a64_fcmp_d` and `a64_fcmp_s`: no destination
abbrev pub compare : ℕ → ℕ → ℕ → ℕ
compare base n m = bit_or (bit_or base (shl32 m 16)) (shl32 n 5)

abbrev pub adds_zr : ℕ → ℕ → Bool → ℕ
adds_zr n m w = compare (if w then 0x2B00_001F else 0xAB00_001F) n m

abbrev pub subs_zr : ℕ → ℕ → Bool → ℕ
subs_zr n m w = compare (if w then 0x6B00_001F else 0xEB00_001F) n m

abbrev pub ands_zr : ℕ → ℕ → Bool → ℕ
ands_zr n m w = compare (if w then 0x6A00_001F else 0xEA00_001F) n m

abbrev pub fcmp_d : ℕ → ℕ → ℕ
fcmp_d = compare 0x1E60_2000

abbrev pub fcmp_s : ℕ → ℕ → ℕ
fcmp_s = compare 0x1E20_2000

-- `a64_eor_bit`
abbrev pub eor_bit : ℕ → ℕ → ℕ → ℕ
eor_bit d n k = two_regs (bit_or 0xD240_0000 (shl32 (bit_and (64 - k) 63) 16)) d n

-- `a64_fop_d` and `a64_fop_s`
abbrev pub fop_d : ℕ → ℕ → ℕ → ℕ → ℕ
fop_d op d n m = two_regs (bit_or (bit_or 0x1E60_0000 op) (shl32 m 16)) d n

abbrev pub fop_s : ℕ → ℕ → ℕ → ℕ → ℕ
fop_s op d n m = two_regs (bit_or (bit_or 0x1E20_0000 op) (shl32 m 16)) d n

-- The floating-point instructions of two registers, from `a64_fsqrt_d` to `a64_fcvt_ds`.
pub data Float : Type 0 where
  fsqrt_d fsqrt_s fmov_dx fmov_xd fmov_sw fmov_ws : Float
  scvtf_dx scvtf_dw scvtf_sx scvtf_sw fcvt_sd fcvt_ds : Float

abbrev pub float : Float → ℕ → ℕ → ℕ
float fsqrt_d = two_regs 0x1E61_C000
float fsqrt_s = two_regs 0x1E21_C000
float fmov_dx = two_regs 0x9E67_0000
float fmov_xd = two_regs 0x9E66_0000
float fmov_sw = two_regs 0x1E27_0000
float fmov_ws = two_regs 0x1E26_0000
float scvtf_dx = two_regs 0x9E62_0000
float scvtf_dw = two_regs 0x1E62_0000
float scvtf_sx = two_regs 0x9E22_0000
float scvtf_sw = two_regs 0x1E22_0000
float fcvt_sd = two_regs 0x1E62_4000
float fcvt_ds = two_regs 0x1E22_C000

-- `a64_blr` and `a64_ret`
abbrev pub blr : ℕ → ℕ
blr n = bit_or 0xD63F_0000 (shl32 n 5)

abbrev pub return_word : ℕ
return_word = 0xD65F_03C0
