-- ===== src/Tests/CpuTests.antt =====
-- The theorems on the interpreter (src/cpu.c) at concrete inputs.
use rashid.Base.{
  ℕ, ◌+◌, ◌*◌, ◌%◌, ◌^◌, ◌≤◌, ◌<◌, true, false, not, ◌&&◌, ◌||◌, List, [], ◌∷◌, none, some, ◌≡◌,
  ◌≢◌, refl, inl, inr, ltb, leb, ◌==◌, add64, sub64, arith, ltb_ℤ, leb_ℤ,
}
use rashid.AddressSpace.{prot_r, prot_w, ok, walk, find}
use rashid.AddressSpace.Access.{byte_ok}
use rashid.Cpu.State.{Fault}
use rashid.Cpu.{trunc_sz, sext, signed, extend}
use rashid.Cpu.Flags.{flags_sub, cond}
use rashid.Cpu.Flags.Compare.{cond-flags_sub}
use rashid.Cpu.Memory.{access_ok, ld, st, read, log_write, logged, undo_writes}
use rashid.Cpu.Memory.RoundTrip.{ld-st, st_refused}
use rashid.Cpu.Memory.Undo.{Store, narrow, wide, stores, undone, fits, stores-undone}
use rashid.Cpu.Sse.Lanes.{st128}
use rashid.Cpu.Registers.{getreg, setreg}
use rashid.Cpu.Registers.Parts.{setreg_lem}
use rashid.Cpu.Decode.{dec_rip}
use rashid.Cpu.Exec.{prefix}
use rashid.Cpu.Exec.Flow.{call_rel, ret}
use rashid.Cpu.Exec.Returns.{ret-call_rel}
use rashid.Base.{length}
use rashid.Cpu.Variadic.{Marshal, marshal_format}
use rashid.Cpu.Variadic.Slots.{marshal_format_fits}
use rashid.Cpu.Exec.Groups.{div_pair}
use rashid.Cpu.Exec.Division.{div_pair_lem}
use rashid.Cpu.Sse.Values.{is_nan, comis}
use rashid.Cpu.Sse.Compare.{cond-comis}
use rashid.Tests.Samples.{cpu, dec, floats, space-IsSorted}

-- 0xFF and 1 as bytes: 255 above 1 without a sign, -1 below 1 with one.
cond-flags_sub_example :
    let f = flags_sub 0x202 0xFF 1 (sub64 0xFF 1) 1 in
    let x = trunc_sz 0xFF 1 in
    let y = trunc_sz 1 1 in
    let sx = signed (sext 0xFF 1) in
    let sy = signed (sext 1 1) in
    (cond f 2 ≡ ltb x y)
    × (cond f 3 ≡ not (ltb x y))
    × (cond f 4 ≡ (x == y))
    × (cond f 5 ≡ not (x == y))
    × (cond f 6 ≡ leb x y)
    × (cond f 7 ≡ not (leb x y))
    × (cond f 12 ≡ ltb_ℤ sx sy)
    × (cond f 13 ≡ not (ltb_ℤ sx sy))
    × (cond f 14 ≡ leb_ℤ sx sy)
    × (cond f 15 ≡ not (leb_ℤ sx sy))
cond-flags_sub_example = cond-flags_sub 0x202 0xFF 1 1 (inl refl) (omega arith) (omega arith)

writable : (n : ℕ) → n ≡ 8 → access_ok cpu 0x17F8 n prot_w ≡ true
unfolding access_ok ok walk find
writable n e = rw e refl

readable : (n : ℕ) → n ≡ 8 → access_ok cpu 0x17F8 n prot_r ≡ true
unfolding access_ok ok walk find
readable n e = rw e refl

ld-st_example :
    ld (st cpu 0x17F8 0x1_2345 8) 0x17F8 8 ≡ (0x1_2345 % 256 ^ 8, st cpu 0x17F8 0x1_2345 8)
ld-st_example =
    ld-st cpu 0x17F8 0x1_2345 8 (inr (inr (inr refl))) (writable 8 refl) (readable 8 refl)

-- The code cannot be written.
in_code : (y : ℕ) → 0x2000 ≤ y → y < 0x2004 → byte_ok (λ _. true) cpu.space.reg y ≡ true
unfolding find
in_code y p q = ground arith

st_refused_example :
    ((st cpu 0x2000 7 4).mem ≡ cpu.mem)
    × ((st cpu 0x2000 7 4).running ≡ false)
    × (cpu.fault ≡ none
        → ((st cpu 0x2000 7 4).fault ≡ some Fault.protection)
          × ((st cpu 0x2000 7 4).fault_addr ≡ some 0x2000)
          × ((st cpu 0x2000 7 4).fault_rip ≡ 0x2000))
unfolding find
st_refused_example =
    st_refused cpu 0x2000 7 4 0x2003 space-IsSorted (omega arith) (omega arith) in_code
      (omega arith, omega arith) refl

-- Stores that overlap, at different sizes.
abbrev three_stores : List Store
three_stores =
    narrow 0x1800 0x1234 2 ∷ wide 0x17F9 (record { q0 = 5; q1 = 6 }) ∷ narrow 0x1801 7 8 ∷ []

logged_all : fits (stores cpu three_stores).wlog ≡ true
unfolding stores st st128 access_ok ok walk find log_write logged
logged_all = refl

stores-undone_example :
    (undone (stores cpu three_stores).wlog (stores cpu three_stores).mem ≡ cpu.mem) × (true ≡ true)
unfolding undo_writes
stores-undone_example =
    stores-undone cpu three_stores (inr (inl refl), (tt, (inr (inr (inr refl)), tt))) logged_all

-- eax: the upper half is cleared.
setreg_lem_example :
    (getreg (setreg cpu 0 0xFFFF_FFFF_FFFF 4) 0 4 ≡ trunc_sz 0xFFFF_FFFF_FFFF 4)
    × ((setreg cpu 0 0xFFFF_FFFF_FFFF 4).r 0 ≡ 0xFFFF_FFFF)
    × ((j : ℕ) → 0 ≢ j → (setreg cpu 0 0xFFFF_FFFF_FFFF 4).r j ≡ 0x1800)
setreg_lem_example =
    setreg_lem cpu 0 0xFFFF_FFFF_FFFF 4 (inr (inr (inl refl))) (omega arith) (omega arith)

-- The byte 0x44 is no prefix of this kind.
no_prefix : prefix cpu dec 0x44 ≡ none
unfolding prefix
no_prefix = refl

ret-call_rel_example :
    let back = dec_rip (record dec { p = 0x2005 }) in
    ((call_rel cpu dec).rip ≡ add64 back (extend 32 (read cpu.mem 0x2001 4)))
    × ((ret (call_rel cpu dec)).rip ≡ back)
    × ((i : ℕ) → (ret (call_rel cpu dec)).r i ≡ 0x1800)
ret-call_rel_example = ret-call_rel cpu dec (omega arith) (writable 8 refl) (readable 8 refl)

-- A format string of the letter D throughout, and room for three slots.
abbrev format_start : Marshal
format_start = record {
  reader = record { cpu = cpu; gp = 1; sse = 0; stack = 0x1800 };
  p = 0x1000;
  slots = [];
}

marshal_format_fits_example : length (marshal_format 5 false 3 format_start).1.slots ≤ 3
marshal_format_fits_example = marshal_format_fits 5 false 3 format_start (omega arith)

five_below_nine : trunc_sz 5 4 < trunc_sz 9 4
unfolding trunc_sz
five_below_nine = omega arith

-- edx:eax = 5 * 2 ^ 32 + 7 by 9.
div_pair_lem_example :
    let (q, r) = div_pair 5 7 9 4 in
    (q * trunc_sz 9 4 + r ≡ trunc_sz 5 4 * 2 ^ 32 + trunc_sz 7 4)
    × (r < trunc_sz 9 4)
    × (q < 2 ^ 32)
div_pair_lem_example =
    div_pair_lem 5 7 9 4 (inr (inr (inl refl))) (omega arith) (omega arith) (omega arith)
      five_below_nine

-- 1.0 against 2.0.
cond-comis_example :
    let u = is_nan 0x3FF0_0000_0000_0000 || is_nan 0x4000_0000_0000_0000 in
    let flags' = comis floats 0x202 0x3FF0_0000_0000_0000 0x4000_0000_0000_0000 in
    (cond flags' 2 ≡ (u || true))
    × (cond flags' 4 ≡ (u || false))
    × (cond flags' 7 ≡ (not u && false))
    × (cond flags' 10 ≡ u)
    × (cond flags' 12 ≡ false)
cond-comis_example = cond-comis floats 0x202 0x3FF0_0000_0000_0000 0x4000_0000_0000_0000
