-- ===== src/Tests/CodeTests.antt =====
-- Code generation and the cache of blocks (src/jit.c) at concrete inputs.
use rashid.Base.{
  ℕ, ◌≡◌, ◌==◌, if◌then◌else◌, refl, inr, true, false, [], ◌∷◌, Option, none, some, update, arith,
}
use rashid.AddressSpace.{ok, walk, find}
use rashid.Cpu.Memory.{write}
use rashid.Cpu.Flags.{cond}
use rashid.Stubs.{Stubs, stub_index}
use rashid.Jit.Constant.{Buf, put, put_imm, put_when}
use rashid.Jit.Liveness.{Kind, flag_liveness, live_before, flags_written, flags_read}
use rashid.Jit.Words.{Layout, put_set_rip, put_call, put_leave, put_even, put_cond_even}
use rashid.Jit.Decode.{decode, take_prefixes, decode_op}
use rashid.Jit.Decode.Common.{Decoded, blank}
use rashid.Jit.Code.{
  Helpers, puts, put_load, put_region_check, patch, replace, put_fault_check, note_fix, put_patch_b,
  put_patch_bcond, in_reach,
}
use rashid.Jit.Code.Insns.{put_insn, put_kind, put_ret, odd_cond}
use rashid.Jit.Condition.{Machine, execute, run_words, holds, run_words-put_cond_even}
use rashid.Jit.Code.Good.{Good}
use rashid.Jit.Code.Good.Insns.{put_insn-Good}
use rashid.Jit.Cache.{
  Jit, Entry, Block, slot_of, decode_block, fresh_buf, emit, emit_block, finish, point_at,
  store_words, install, jit_lookup,
}
use rashid.Emit.{transfer, movz, movk, three_regs, bcond}
use rashid.Jit.Cache.Blocks.{emit_block-finish}
use rashid.Jit.Cache.Keeps.{IsSound, IsPlaced}
use rashid.Jit.Cache.Again.{jit_lookup-IsSound, jit_lookup_again}
use rashid.Tests.Samples.{space}

abbrev layout : Layout
layout = record {
  off_r0 = 0;
  off_tmp0 = 512;
  off_xmm0 = 128;
  off_currip = 392;
  off_running = 600;
  off_flags = 400;
  off_as = 616;
}

abbrev helpers : Helpers
helpers = record {
  flags = λ _. 0x5000;
  ld = 0x5100;
  st = 0x5200;
  wlog = 0x5300;
  ld128 = 0x5400;
  st128 = 0x5500;
  comisd = 0x5600;
  comiss = 0x5700;
  cvt2si = 0x5800;
  nan_d = 0x5900;
  nan_s = 0x5A00;
  shift = 0x5B00;
  off_rd = 24;
  off_wr = 56;
}

abbrev stubs : Stubs
stubs = record { base = 0; n = 0 }

abbrev empty : Buf
empty = record { out = []; max = 64; full = false; check = false; fix = [] }

empty-Good : Good 64 empty
empty-Good = record { max = refl; room = omega arith; places = omega arith; inside = inr tt }

-- push rbx
abbrev push_rbx : Decoded
push_rbx = record (blank (record { mand = 0; rex = 0; has_rex = false })) {
  kind = Kind.push;
  reg = 3;
  next = 0x2001;
}

-- The zero flag alone is set, in the word of the flags at 0x1000 + 400.
abbrev zero_set : ℕ → ℕ
zero_set a = if a == 0x1190 then 0x40 else 0

abbrev machine : Machine
machine = record { x = λ _. 0x1000; z = false }

run_words-put_cond_even_example :
    holds (odd_cond 4) (run_words zero_set machine (put_cond_even layout empty 4).out) ≡ true
unfolding run_words execute cond put_cond_even put_even in_reach
run_words-put_cond_even_example =
    run_words-put_cond_even zero_set machine layout empty 4 (omega arith) refl (omega arith)

put_insn-Good_example : Good 64 (put_insn layout helpers empty push_rbx 0x2000 0)
put_insn-Good_example = put_insn-Good layout helpers push_rbx 0x2000 0 empty-Good

emit_block-finish_example :
    (r : Buf × Block) × (emit_block layout helpers false 3 0x2000
        (record { insns = push_rbx ∷ push_rbx ∷ []; ended = false; pc = 0x2002 })
      ≡ some r)
    × ((finish layout r.0 r.1).0.full ≡ false)
    × Good 2048 (finish layout r.0 r.1).0
emit_block-finish_example =
    emit_block-finish layout helpers false 0x2000
      (record { insns = push_rbx ∷ push_rbx ∷ []; ended = false; pc = 0x2002 })

abbrev no_entry : Entry
no_entry = record { tag = 0; code = none; count = 0 }

abbrev jit : Jit
jit = record {
  arena = 0x10_0000;
  size = 0x40_0000;
  used = 0;
  words = λ _. 0;
  cache = λ _. no_entry;
  cache_bits = 12;
  compiled = 0;
  bailed = 0;
}

jit-IsSound : IsSound jit
jit-IsSound = record { fits = omega arith; entries = λ s. tt }

-- nop, nop, ret
abbrev program : ℕ → ℕ
program = write (λ _. 0) 0x2000 0xC3_9090 3

jit_lookup-IsSound_example :
    (r : Option ℕ × Jit) × (jit_lookup layout helpers false stubs program space jit 0x2000 ≡ some r)
    × IsSound r.1
    × IsPlaced 0x2000 jit r
jit_lookup-IsSound_example =
    jit_lookup-IsSound layout helpers false stubs program space jit 0x2000 jit-IsSound

-- What the first lookup leaves: the block at the start of the arena.
abbrev compiled : Jit
compiled = elim (jit_lookup layout helpers false stubs program space jit 0x2000) [
  | none ↦ jit
  | some (_, j) ↦ j
]

jit_lookup-program :
    jit_lookup layout helpers false stubs program space jit 0x2000 ≡ some (some 0x10_0000, compiled)
unfolding jit_lookup slot_of stub_index ok walk find decode_block decode take_prefixes decode_op
    emit_block fresh_buf emit flag_liveness live_before flags_written flags_read put_insn put_kind
    put_ret put_set_rip put_imm put_when put puts put_load put_region_check patch replace put_call
    put_fault_check note_fix put_leave install finish point_at store_words transfer movz movk
    three_regs bcond put_patch_b put_patch_bcond
jit_lookup-program = refl

jit_lookup_again_example :
    jit_lookup layout helpers false stubs (λ _. 0) space compiled 0x2000
    ≡ some (some 0x10_0000, compiled)
jit_lookup_again_example =
    jit_lookup_again layout helpers false stubs stubs program (λ _. 0) space space jit 0x2000
      jit_lookup-program

-- A cache with a block of ten words in slot 7.
abbrev before : Jit
before = record jit {
  used = 40;
  cache = update jit.cache 7 (record { tag = 0x77; code = some 0x10_0000; count = 2 });
}

abbrev after : Jit
after = elim (jit_lookup layout helpers false stubs program space before 0x2000) [
  | none ↦ before
  | some (_, j) ↦ j
]
