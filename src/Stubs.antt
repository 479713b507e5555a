-- ===== src/Stubs.antt =====
-- src/stubs.h: the addresses that stand for imports.
use rashid.Base.{
  ℕ, ◌+◌, ◌*◌, ◌/◌, ◌^◌, ◌≤◌, ◌<◌, ◌≡◌, Option, none, some, ◌||◌, leb, ltb, ◌==◌, if◌then◌else◌,
  sub64, arith,
}

abbrev pub stub_stride : ℕ
stub_stride = 16

-- The part of `rsd_stubs` that places the stubs.
pub record Stubs : Type 0 where
  pub base : ℕ
  pub n : ℕ

-- `rsd_stub_index`; `none` is -1.
unfoldable pub stub_index : Stubs → ℕ → Option ℕ
stub_index s addr =
    if (s.base == 0) || ltb addr s.base
    then none
    else (let off = sub64 addr s.base in
        if leb (s.n * stub_stride) off then none else some (off / stub_stride))

-- For stubs that lie below 2 ^ 64 the address of stub i, and the 15 bytes behind it, belong to
-- import i, for every import; every address outside of the stubs belongs to none.
pub stub_index_lem :
    (s : Stubs) (addr : ℕ)
    → 0 < s.base
    → s.base + s.n * stub_stride < 2 ^ 64
    → addr < 2 ^ 64
    → ((i : ℕ)
        → i < s.n
        → s.base + i * stub_stride ≤ addr
        → addr < s.base + (i + 1) * stub_stride
        → stub_index s addr ≡ some i)
      × (addr < s.base → stub_index s addr ≡ none)
      × (s.base + s.n * stub_stride ≤ addr → stub_index s addr ≡ none)
unfolding stub_index
stub_index_lem s addr p q r = (λ i h lo hi. ground arith, λ h. ground arith, λ h. ground arith)
