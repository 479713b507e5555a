-- ===== src/Callback.antt =====
-- src/callback.c: the pool of trampolines through which native code calls guest functions.
pub mod RoundTrip
use rashid.Base.{
  ℕ, zero, suc, ◌+◌, ◌*◌, Option, none, some, List, [], ◌∷◌, ◌++◌, ◌==◌, if◌then◌else◌, length,
  get_elem?, add64, ltb,
}
use mathlib.Core.Option

abbrev pub tramp_count : ℕ
tramp_count = 512

-- Where the assembler put the table of trampolines: `rsd_tramp_table` and `rsd_tramp_stride`.
pub record Table : Type 0 where
  pub start : ℕ
  pub stride : ℕ

abbrev pub trampoline : Table → ℕ → ℕ
trampoline t i = add64 t.start (i * t.stride)

-- The search of `rsd_callback_for` through the targets in use.
unfoldable pub index_of : List ℕ → ℕ → Option ℕ
index_of [] g = none
index_of (x ∷ xs) g = if x == g then some 0 else Option.map suc (index_of xs g)

-- `rsd_callback_for`; the pool is `targets` up to `used`.
unfoldable pub callback_for : Table → List ℕ → ℕ → ℕ × List ℕ
unfolding index_of
callback_for t pool g = if g == 0 then (0, pool) else elim (index_of pool g) [
  | some i ↦ (trampoline t i, pool)
  | none ↦
      if length pool == tramp_count
      then (0, pool)
      else (trampoline t (length pool), pool ++ (g ∷ []))
]

-- `rsd_callback_target`
unfoldable pub callback_target : List ℕ → ℕ → ℕ
callback_target pool i = Option.get_or (get_elem? pool i) 0
