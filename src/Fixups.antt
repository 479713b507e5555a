-- ===== src/Fixups.antt =====
-- src/fixups.c, walk_chain: applying one chain of fixups to the guest's memory.
pub mod Chain
pub mod Imports
pub mod Apply
pub mod Ends
pub mod Reaches
use rashid.Base.{
  ℕ, zero, suc, ◌+◌, ◌*◌, ◌/◌, ◌^◌, bit_or, Bool, true, false, not, ◌&&◌, Option, none, some, ltb,
  ◌==◌, if◌then◌else◌, add64, update,
}
use rashid.AddressSpace
use rashid.AddressSpace.{AddressSpace}
use rashid.Cpu.Memory.{read, write}
use rashid.Stubs.{stub_stride}

-- The bit fields of the two structures of <mach-o/fixup-chains.h>. All that the walk relies on is
-- the width of `next`, and that the ordinal and the addend are fields of their own.
pub record ChainFormat : Type 0 where
  pub bind_next : ℕ → ℕ
  pub ordinal : ℕ → ℕ
  pub addend : ℕ → ℕ
  pub rebase_next : ℕ → ℕ
  pub target : ℕ → ℕ
  pub high8 : ℕ → ℕ

-- `rsd_import`, the fields that the walk reads; `native` is none for NULL.
pub record Import : Type 0 where
  pub native : Option ℕ
  pub is_code : Bool

-- `rsd_image`, the fields that the walk reads, and its pointer format.
pub record Image : Type 0 where
  pub nimports : ℕ
  pub imports : ℕ → Import
  pub pref_base : ℕ
  pub slide : ℕ
  pub stub_base : ℕ
  pub offsets : Bool

-- What a bind writes: data goes straight to the native address, code to a stub.
unfoldable pub bound : ChainFormat → Image → ℕ → ℕ
bound f img raw =
    let o = f.ordinal raw in
    let im = img.imports o in
    let stub = add64 (add64 img.stub_base (o * stub_stride)) (f.addend raw) in
    if ltb o img.nimports
    then elim im.native [
      | none ↦ stub
      | some native ↦ if im.is_code then stub else add64 native (f.addend raw)
    ]
    else 0

-- What a rebase writes.
unfoldable pub rebased : ChainFormat → Image → ℕ → ℕ
rebased f img raw =
    let t =
      if img.offsets
      then add64 (add64 img.pref_base img.slide) (f.target raw)
      else add64 (f.target raw) img.slide in
    bit_or t (f.high8 raw * 2 ^ 56)

-- The state of the walk: memory, and which imports are `used`.
pub record Walk : Type 0 where
  pub mem : ℕ → ℕ
  pub used : ℕ → Bool

-- One fixup: the new state, and the distance to the next.
unfoldable pub fixup : ChainFormat → Image → Walk → ℕ → Walk × ℕ
unfolding bound rebased
fixup f img w addr =
    let raw = read w.mem addr 8 in
    if ltb 0 (raw / 2 ^ 63)
    then (
      record {
        mem = write w.mem addr (bound f img raw) 8;
        used =
            if ltb (f.ordinal raw) img.nimports then update w.used (f.ordinal raw) true else w.used;
      },
      f.bind_next raw,
    )
    else (record { mem = write w.mem addr (rebased f img raw) 8; used = w.used }, f.rebase_next raw)

-- `walk_chain` on fuel; `none` means that the fuel ran out.
unfoldable pub walk_chain : ChainFormat → Image → AddressSpace → ℕ → ℕ → Walk → Option Walk
unfolding fixup
walk_chain f img s zero addr w = none
walk_chain f img s (suc fuel) addr w =
    let (w', next) = fixup f img w addr in
    let rest = walk_chain f img s fuel (add64 addr (next * 4)) w' in
    if AddressSpace.mapped s addr 8 then (if next == 0 then some w' else rest) else some w
