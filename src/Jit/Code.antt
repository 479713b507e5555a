-- ===== src/Jit/Code.antt =====
-- src/jit.c: the code for flags, for loads and for stores.
pub mod Sse
pub mod Insns
pub mod Good
use rashid.Base.{
  ℕ, zero, suc, ◌+◌, ◌-◌, ◌*◌, ◌%◌, ◌^◌, bit_and, Bool, true, false, not, ◌&&◌, ◌||◌, Option, none,
  some, List, [], ◌∷◌, ltb, leb, ◌==◌, if◌then◌else◌, length, sub64,
}
use rashid.Cpu.{has}
use rashid.Cpu.Flags.{f_cf, f_pf, f_af, f_zf, f_sf, f_of}
use rashid.Emit
use rashid.Emit.{ThreeRegs, three_regs, Transfer, transfer, movz, bcond, cbz_w}
use rashid.Emit.Others
use rashid.Emit.Others.{adds_zr, subs_zr, ands_zr, cset, orr_lsl, eor_lsr, ubfx, eor_bit, mov}
use rashid.Jit.Constant.{Buf, put, put_imm, put_when}
use rashid.Jit.Words.{Layout, cpu_reg, off_r, Routine, put_call}

-- Where the routines of the interpreter that compiled code calls lie, and the two arrays of hits
-- in `rsd_as`.
pub record Helpers : Type 0 where
  pub flags : Routine → ℕ
  pub ld : ℕ
  pub st : ℕ
  pub wlog : ℕ
  pub ld128 : ℕ
  pub st128 : ℕ
  pub comisd : ℕ
  pub comiss : ℕ
  pub cvt2si : ℕ
  pub nan_d : ℕ
  pub nan_s : ℕ
  pub shift : ℕ
  pub off_rd : ℕ
  pub off_wr : ℕ

-- The conditions of AArch64.
abbrev pub eq : ℕ
eq = 0

abbrev pub ne : ℕ
ne = 1

abbrev pub cs : ℕ
cs = 2

abbrev pub cc : ℕ
cc = 3

abbrev pub mi : ℕ
mi = 4

abbrev pub pl : ℕ
pl = 5

abbrev pub vs : ℕ
vs = 6

abbrev pub vc : ℕ
vc = 7

abbrev pub hi : ℕ
hi = 8

abbrev pub ls : ℕ
ls = 9

abbrev pub gt : ℕ
gt = 12

abbrev pub off_tmp : Layout → ℕ → ℕ
off_tmp l i = l.off_tmp0 + i * 8

abbrev pub off_xmm : Layout → ℕ → ℕ
off_xmm l i = l.off_xmm0 + i * 16

-- The test of `rsd_jit_init`: the fields are in reach of the scaled offsets of loads and stores.
unfoldable pub in_reach : Layout → Bool
in_reach l = not (
    leb 32768 (off_r l 15)
    || not (l.off_currip % 8 == 0)
    || leb 32768 l.off_currip
    || leb 4096 (off_tmp l 7)
    || leb 4096 l.off_running
    || not (l.off_as % 8 == 0)
    || leb 32768 l.off_as
    || not (l.off_flags % 4 == 0)
    || leb 16384 l.off_flags
    || not (off_xmm l 0 % 8 == 0)
    || leb 4096 (off_xmm l 15 + 8))

-- Words one after another.
unfoldable pub puts : Buf → List ℕ → Buf
unfolding put
puts b [] = b
puts b (w ∷ ws) = puts (put b w) ws

-- `b->n`
abbrev pub here : Buf → ℕ
here b = length b.out

-- A word at a place that is counted from the oldest.
unfoldable pub replace : List ℕ → ℕ → ℕ → List ℕ
replace [] at word = []
replace (w ∷ ws) at word =
    let rest = replace ws at word in if length ws == at then word ∷ ws else w ∷ rest

unfoldable pub patch : Buf → ℕ → ℕ → Buf
unfolding replace
patch b at word = if b.full then b else record b { out = replace b.out at word }

-- `put_patch_bcond` and `put_patch_b`; the displacement is an int by its pattern.
unfoldable pub put_patch_bcond : Buf → ℕ → ℕ → Buf
unfolding patch
put_patch_bcond b at cond = patch b at (bcond cond (sub64 (here b) at))

unfoldable pub put_patch_b : Buf → ℕ → Buf
unfolding patch
put_patch_b b at = patch b at (Emit.b (sub64 (here b) at))

-- The place of the next word is one to patch, of 256 at most.
unfoldable pub note_fix : Buf → Buf
note_fix b =
    if ltb (length b.fix) 256 && not b.full
    then record b { fix = here b ∷ b.fix }
    else record b { full = true }

unfoldable pub put_fault_check : Layout → Buf → Buf
unfolding put note_fix
put_fault_check l b =
    put (note_fix (put b (transfer Transfer.ldrb 9 cpu_reg l.off_running))) (cbz_w 9 0)

abbrev pub is_add : Routine → Bool
is_add Routine.add = true
is_add Routine.inc = true
is_add _ = false

abbrev pub is_sub : Routine → Bool
is_sub Routine.sub = true
is_sub Routine.dec = true
is_sub _ = false

abbrev pub is_logic : Routine → Bool
is_logic Routine.logic = true
is_logic _ = false

-- One round of the loop over `nzcv`: the flag f at its bit, by a condition.
unfoldable pub put_nzcv : Routine → ℕ → Buf → ℕ → ℕ → ℕ → Buf
unfolding puts
put_nzcv fn need b f at cond =
    if not (has (bit_and need f)) || (is_logic fn && ((f == f_cf) || (f == f_of)))
    then b
    else puts b (cset 11 cond ∷ orr_lsl 10 10 11 at ∷ [])

-- The operation once more, with arm64's flags.
unfoldable pub put_again : Routine → Bool → Buf → Buf
unfolding put
put_again fn w b =
    put b (if is_add fn then adds_zr 1 2 w else if is_sub fn then subs_zr 1 2 w else ands_zr 3 3 w)

abbrev pub parity_words : List ℕ
parity_words =
    eor_lsr 11 3 3 4
    ∷ eor_lsr 11 11 11 2
    ∷ eor_lsr 11 11 11 1
    ∷ ubfx 11 11 0 1
    ∷ eor_bit 11 11 0
    ∷ orr_lsl 10 10 11 2
    ∷ []

abbrev pub adjust_words : List ℕ
adjust_words =
    three_regs ThreeRegs.eor 11 1 2
    ∷ three_regs ThreeRegs.eor 11 11 3
    ∷ ubfx 11 11 4 1
    ∷ orr_lsl 10 10 11 4
    ∷ []

-- `put_flags_inline`; every routine is one of the five that it knows, so that it answers true.
unfoldable pub put_flags_inline : Layout → Buf → Routine → ℕ → Bool → Buf
unfolding put puts put_imm
put_flags_inline l b fn need w =
    let b0 = if has (bit_and need (f_cf + f_zf + f_sf + f_of)) then put_again fn w b else b in
    let b1 = put b0 (movz 10 0 0) in
    let b2 = put_nzcv fn need b1 f_cf 0 (if is_sub fn then cc else cs) in
    let b3 = put_nzcv fn need b2 f_zf 6 eq in
    let b4 = put_nzcv fn need b3 f_sf 7 mi in
    let b5 = put_nzcv fn need b4 f_of 11 vs in
    let b6 = puts b5 (if has (bit_and need f_pf) then parity_words else []) in
    let b7 = puts b6 (if has (bit_and need f_af) then adjust_words else []) in
    let b8 = put_imm (put b7 (transfer Transfer.ldr_w 9 cpu_reg l.off_flags)) 12 need in
    puts b8 (
      three_regs ThreeRegs.bic 9 9 12
      ∷ three_regs ThreeRegs.orr 9 9 10
      ∷ transfer Transfer.str_w 9 cpu_reg l.off_flags
      ∷ [])

-- The arguments of a flag routine, from x1, x2 and x3.
unfoldable pub put_flag_args : Buf → Routine → ℕ → Buf
unfolding put put_imm
put_flag_args b Routine.logic size = put_imm (put b (mov 1 3)) 2 size
put_flag_args b Routine.inc size = put_imm (put b (mov 2 3)) 3 size
put_flag_args b Routine.dec size = put_imm (put b (mov 2 3)) 3 size
put_flag_args b _ size = put_imm b 4 size

-- `put_flags`, for an instruction whose `fneed` is `need`.
unfoldable pub put_flags : Layout → Helpers → Buf → ℕ → Option Routine → ℕ → Buf
unfolding put put_flags_inline put_call
put_flags l h b need none size = b
put_flags l h b need (some fn) size =
    if need == 0
    then b
    else if not (size == 1)
    then put_flags_inline l b fn need (size == 4)
    else put_call (put_flag_args (put b (mov 0 cpu_reg)) fn size) (h.flags fn)

-- The four words that compare the address with one hit.
abbrev pub hit_words : ℕ → List ℕ
hit_words e =
    transfer Transfer.ldr 10 9 e
    ∷ transfer Transfer.ldr 11 9 (e + 8)
    ∷ three_regs ThreeRegs.sub 12 1 10
    ∷ subs_zr 12 11 false
    ∷ []

-- `put_region_check`: the buffer, and the place of the branch to the slow path.
unfoldable pub put_region_check : Layout → Helpers → Buf → Bool → Buf × ℕ
unfolding put puts patch
put_region_check l h b is_write =
    let e = if is_write then h.off_wr else h.off_rd in
    let b1 = puts (put b (transfer Transfer.ldr 9 cpu_reg l.off_as)) (hit_words e) in
    let hit = here b1 in
    let b2 = puts (put b1 (bcond cc 0)) (hit_words (e + 16)) in
    let at = here b2 in (put_patch_bcond (put b2 (bcond cs 0)) hit cc, at)

abbrev pub load_word : ℕ → ℕ
load_word size =
    if size == 1
    then transfer Transfer.ldrb 0 1 0
    else if size == 2
    then transfer Transfer.ldrh 0 1 0
    else if size == 4
    then transfer Transfer.ldr_w 0 1 0
    else transfer Transfer.ldr 0 1 0

abbrev pub store_word : ℕ → ℕ
store_word size =
    if size == 1
    then transfer Transfer.strb 2 1 0
    else if size == 2
    then transfer Transfer.strh 2 1 0
    else if size == 4
    then transfer Transfer.str_w 2 1 0
    else transfer Transfer.str 2 1 0

unfoldable pub put_load : Layout → Helpers → Buf → ℕ → Buf
unfolding put put_region_check patch put_imm put_call put_fault_check
put_load l h b size =
    let (b1, slow) = put_region_check l h b false in
    let b2 = put b1 (load_word size) in
    let done = here b2 in
    let b3 = put_patch_bcond (put b2 (Emit.b 0)) slow cs in
    let b4 = put_call (put_imm (put b3 (mov 0 cpu_reg)) 2 size) h.ld in
    put_patch_b (put_fault_check l b4) done

-- What a store under -J does first.
unfoldable pub put_wlog : Layout → Helpers → Buf → ℕ → Buf
unfolding puts put_imm put_call
put_wlog l h b size =
    let b1 = puts b (
      transfer Transfer.str 1 cpu_reg (off_tmp l 6)
      ∷ transfer Transfer.str 2 cpu_reg (off_tmp l 7)
      ∷ mov 0 cpu_reg
      ∷ []) in
    puts (put_call (put_imm b1 3 size) h.wlog) (
      transfer Transfer.ldr 1 cpu_reg (off_tmp l 6)
      ∷ transfer Transfer.ldr 2 cpu_reg (off_tmp l 7)
      ∷ [])

unfoldable pub put_store : Layout → Helpers → Buf → ℕ → Buf
unfolding put put_region_check patch put_imm put_call put_fault_check put_wlog
put_store l h b size =
    let (b1, slow) = put_region_check l h b true in
    let b2 = put (if b1.check then put_wlog l h b1 size else b1) (store_word size) in
    let done = here b2 in
    let b3 = put_patch_bcond (put b2 (Emit.b 0)) slow cs in
    let b4 = put_call (put_imm (put b3 (mov 0 cpu_reg)) 3 size) h.st in
    put_patch_b (put_fault_check l b4) done
