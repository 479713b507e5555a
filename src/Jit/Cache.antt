-- ===== src/Jit/Cache.antt =====
-- src/jit.c, "arena and cache": compiling the block at an address, and finding it again.
pub mod Blocks
pub mod Keeps
pub mod Again
use rashid.Base.{
  ℕ, zero, suc, ◌+◌, ◌-◌, ◌*◌, ◌/◌, ◌%◌, ◌^◌, Bool, true, false, not, ◌&&◌, Option, none, some,
  List, [], ◌∷◌, ltb, leb, ◌==◌, if◌then◌else◌, length, take, sub64, update,
}
use rashid.AddressSpace
use rashid.AddressSpace.{AddressSpace, prot_x}
use rashid.Emit.{Transfer, transfer, cbz_w}
use rashid.Emit.Others
use rashid.Stubs.{Stubs, stub_index}
use rashid.Jit.Liveness
use rashid.Jit.Liveness.{Kind, flag_liveness}
use rashid.Jit.Constant.{Buf, put, put_imm}
use rashid.Jit.Words.{Layout, cpu_reg, put_leave}
use rashid.Jit.Decode.{decode}
use rashid.Jit.Decode.Common.{Decoded}
use rashid.Jit.Code.{Helpers, here, replace}
use rashid.Jit.Code.Insns.{put_insn}

abbrev pub max_insns : ℕ
max_insns = 48

abbrev pub max_block : ℕ
max_block = 2048

-- `struct rsd_jit_entry`
pub record Entry : Type 0 where
  pub tag : ℕ
  pub code : Option ℕ
  pub count : ℕ

-- `rsd_jit`, but for the profile: the arena with its words by their addresses, and the cache.
pub record Jit : Type 0 where
  pub arena : ℕ
  pub size : ℕ
  pub used : ℕ
  pub words : ℕ → ℕ
  pub cache : ℕ → Entry
  pub cache_bits : ℕ
  pub compiled : ℕ
  pub bailed : ℕ

unfoldable pub slot_of : Jit → ℕ → ℕ
slot_of j rip = rip * 0x9E37_79B9_7F4A_7C15 % 2 ^ 64 / 2 ^ (64 - j.cache_bits)

-- `rsd_jit_count`
unfoldable pub jit_count : Jit → ℕ → ℕ
unfolding slot_of
jit_count j rip = let e = j.cache (slot_of j rip) in if e.tag == rip then e.count else 0

abbrev pub terminates : Kind → Bool
terminates Kind.jcc = true
terminates Kind.jmp = true
terminates Kind.call = true
terminates Kind.ret = true
terminates Kind.callm = true
terminates Kind.jmpm = true
terminates _ = false

-- A block as far as it is decoded or emitted: its instructions, whether the last of them ends it,
-- and where it goes on.
pub record Block : Type 0 where
  pub insns : List Decoded
  pub ended : Bool
  pub pc : ℕ

-- The loop that decodes, with room for n more instructions.
unfoldable pub decode_block : (ℕ → ℕ) → AddressSpace → ℕ → ℕ → Block
unfolding decode
decode_block mem s zero pc = record { insns = []; ended = false; pc = pc }
decode_block mem s (suc n) pc =
    let stopped : Block = record { insns = []; ended = false; pc = pc } in
    if AddressSpace.ok s pc 16 prot_x
    then elim (decode mem pc) [
      | none ↦ stopped
      | some o ↦
          let rest = decode_block mem s n o.next in
          if terminates o.kind
          then record { insns = o ∷ []; ended = true; pc = o.next }
          else record rest { insns = o ∷ rest.insns }
    ]
    else stopped

-- The fields that the analysis of flags reads.
abbrev pub fields_of : List Decoded → List Liveness.Insn
fields_of [] = []
fields_of (o ∷ os) =
    record { kind = o.kind; op = o.op; size = o.size; imm = o.imm; by_cl = o.by_cl; cc = o.cc }
    ∷ fields_of os

-- The loop that emits: the buffer, how many instructions it took, and the address behind them.
unfoldable pub emit : Layout → Helpers → Buf → ℕ → List Decoded → List ℕ → Buf × ℕ × ℕ
unfolding put_insn
emit l h b at [] needs = (b, 0, at)
emit l h b at (o ∷ os) [] = (b, 0, at)
emit l h b at (o ∷ os) (need ∷ needs) =
    let b' = put_insn l h b o at need in
    let (b'', i, at') = emit l h b' o.next os needs in
    if b'.full then (b', 0, at) else (b'', suc i, at')

-- The buffer that each attempt starts with.
unfoldable pub fresh_buf : Bool → Buf
unfolding put
fresh_buf check =
    put (record { out = []; max = max_block - 24; full = false; check = check; fix = [] })
      (Others.push 30)

-- The loop that emits the block, cut short where it does not fit; none when the fuel runs out.
unfoldable pub emit_block : Layout → Helpers → Bool → ℕ → ℕ → Block → Option (Buf × Block)
unfolding fresh_buf emit flag_liveness
emit_block l h check zero rip k = none
emit_block l h check (suc fuel) rip k =
    let (b, i, at) = emit l h (fresh_buf check) rip k.insns (flag_liveness (fields_of k.insns)) in
    let shorter : Block = record { insns = take i k.insns; ended = false; pc = at } in
    let again = emit_block l h check fuel rip shorter in
    if i == length k.insns then some (b, k) else again

-- What is behind the instructions: going on at pc, and the way out where a helper faulted.
unfoldable pub finish : Layout → Buf → Block → Buf × ℕ
unfolding put put_imm put_leave
finish l b k =
    let b0 = record b { max = max_block } in
    let b1 = if k.ended then b0 else put_leave (put_imm b0 0 k.pc) in
    (put_leave (put b1 (transfer Transfer.ldr 0 cpu_reg l.off_currip)), here b1)

-- The loop over `fix`.
unfoldable pub point_at : ℕ → List ℕ → List ℕ → List ℕ
unfolding replace
point_at exit_at [] out = out
point_at exit_at (at ∷ fix) out = point_at exit_at fix (replace out at (cbz_w 9 (sub64 exit_at at)))

-- The words of a buffer, the newest first, copied to the n words from `code` on.
unfoldable pub store_words : (ℕ → ℕ) → ℕ → List ℕ → ℕ → ℕ
store_words mem code [] = mem
store_words mem code (w ∷ ws) = update (store_words mem code ws) (code + length ws * 4) w

-- An address that is not worth compiling is remembered without code.
abbrev pub declined : Jit → ℕ → Jit
declined j rip =
    let s = slot_of j rip in
    record j {
      cache = update j.cache s (record (j.cache s) { tag = rip; code = none });
      bailed = j.bailed + 1;
    }

-- A block that was emitted, put into the arena and the cache where there is room.
unfoldable pub install : Layout → Jit → ℕ → Buf → Block → Option ℕ × Jit
unfolding slot_of finish point_at store_words
install l j rip b k =
    let (b', exit_at) = finish l b k in
    let words = point_at exit_at b'.fix b'.out in
    let size = length b'.out * 4 in
    let code = j.arena + j.used in
    let count = length k.insns in
    if ltb count 2
    then (none, declined j rip)
    else if b'.full
    then (none, declined j rip)
    else if ltb j.size (j.used + size)
    then (none, j)
    else (
      some code,
      record j {
        used = j.used + size;
        words = store_words j.words code words;
        cache =
            update j.cache (slot_of j rip) (record { tag = rip; code = some code; count = count });
        compiled = j.compiled + 1;
      },
    )

-- `rsd_jit_lookup`: the entry point, none for NULL. Each attempt to emit takes fuel; one more than
-- there are instructions is enough, and none stands for less.
unfoldable pub jit_lookup :
    Layout → Helpers → Bool → Stubs → (ℕ → ℕ) → AddressSpace → Jit → ℕ → Option (Option ℕ × Jit)
unfolding slot_of stub_index decode_block emit_block install
jit_lookup l h check stubs mem s j rip =
    let e = j.cache (slot_of j rip) in
    let k = decode_block mem s max_insns rip in
    let emitted = emit_block l h check (suc (length k.insns)) rip k in
    let compiled : Option (Option ℕ × Jit) = elim emitted [
      | none ↦ none
      | some (b, k') ↦ some (install l j rip b k')
    ] in
    let is_stub : Bool = elim (stub_index stubs rip) [ none ↦ false | some _ ↦ true ] in
    let taken : Bool = elim e.code [ none ↦ false | some _ ↦ true ] in
    if e.tag == rip
    then some (e.code, j)
    else if taken
    then some (none, j)
    else if is_stub
    then some (none, j)
    else if not (AddressSpace.ok s rip 16 prot_x)
    then some (none, j)
    else compiled
