-- ===== src/Tests/LinkTests.antt =====
-- The theorems on fixups, stubs and callbacks (src/fixups.c, src/stubs.h, src/callback.c) at
-- concrete inputs.
use rashid.Base.{
  ℕ, ◌/◌, ◌%◌, ◌^◌, ◌≤◌, ◌<◌, true, false, List, [], ◌∷◌, none, ◌≡◌, ◌⊎◌, length, arith,
}
use rashid.Stubs.{Stubs}
use rashid.Fixups.{ChainFormat, Image, Walk}
use rashid.Fixups.Chain.{NextFits}
use rashid.Callback.{Table, tramp_count, trampoline, callback_for, callback_target}
use rashid.Callback.RoundTrip.{callback_for-target}

abbrev stubs : Stubs
stubs = record { base = 0x9000; n = 4 }

-- The fields as <mach-o/fixup-chains.h> lays them out.
abbrev pub format : ChainFormat
format = record {
  bind_next = λ raw. raw / 2 ^ 51 % 2 ^ 12;
  ordinal = λ raw. raw % 2 ^ 24;
  addend = λ raw. raw / 2 ^ 24 % 2 ^ 8;
  rebase_next = λ raw. raw / 2 ^ 51 % 2 ^ 12;
  target = λ raw. raw % 2 ^ 36;
  high8 = λ raw. raw / 2 ^ 36 % 2 ^ 8;
}

pub format-NextFits : NextFits format
format-NextFits raw = (omega arith, omega arith)

abbrev image : Image
image = record {
  nimports = 4;
  imports = λ _. record { native = none; is_code = true };
  pref_base = 0x1000;
  slide = 0;
  stub_base = 0x9000;
  offsets = true;
}

abbrev walk_start : Walk
walk_start = record { mem = λ _. 0; used = λ _. false }

abbrev table : Table
table = record { start = 0x7000; stride = 16 }

abbrev pool : List ℕ
pool = 0x111 ∷ 0x222 ∷ []

callback_for-target_example :
    let (addr, pool') = callback_for table pool 0x333 in
    (addr ≡ 0) × (pool' ≡ pool) × (length pool ≡ tramp_count)
    ⊎ ((i : ℕ) × (addr ≡ trampoline table i)
        × (i < tramp_count)
        × (callback_target pool' i ≡ 0x333)
        × (length pool' ≤ tramp_count))
callback_for-target_example = callback_for-target table pool 0x333 (omega arith) (omega arith)
