-- ===== src/Cpu/Variadic.antt =====
-- src/cpu.c, "thunks": reading variadic arguments out of the layout of System V.
pub mod Slots
use rashid.Base.{
  ℕ, zero, suc, ◌+◌, ◌-◌, ◌*◌, ◌/◌, ◌%◌, ◌^◌, ◌≤◌, ◌<◌, Bool, true, false, not, ◌&&◌, ◌||◌, Option,
  none, some, List, [], ◌∷◌, ltb, leb, ◌==◌, if◌then◌else◌, add64, length, ◌≡◌, refl, Bool-cases,
  inl, inr, arith,
}
use rashid.Cpu.State.{Cpu, rdi, rsi, rdx, rcx}
use rashid.Cpu.Memory.{ld}

-- `sysv_reader`
pub record Reader : Type 0 where
  pub cpu : Cpu
  pub gp : ℕ
  pub sse : ℕ
  pub stack : ℕ

-- The integer registers in the order of the arguments.
abbrev pub order : ℕ → ℕ
order n =
    if n == 0
    then rdi
    else if n == 1
    then rsi
    else if n == 2
    then rdx
    else if n == 3
    then rcx
    else if n == 4
    then 8
    else 9

-- An argument on the stack.
unfoldable pub stack_arg : Reader → ℕ × Reader
unfolding ld
stack_arg a = let (v, c) = ld a.cpu a.stack 8 in (v, record a { cpu = c; stack = add64 a.stack 8 })

unfoldable pub sysv_int : Reader → ℕ × Reader
unfolding stack_arg
sysv_int a = if ltb a.gp 6 then (a.cpu.r (order a.gp), record a { gp = a.gp + 1 }) else stack_arg a

unfoldable pub sysv_sse : Reader → ℕ × Reader
unfolding stack_arg
sysv_sse a =
    if ltb a.sse 8 then ((a.cpu.xmm a.sse).q0, record a { sse = a.sse + 1 }) else stack_arg a

-- The walk of `marshal_format`: the reader, the cursor, and the slots, the newest first.
pub record Marshal : Type 0 where
  pub reader : Reader
  pub p : ℕ
  pub slots : List ℕ

-- How the walk, or one round of it, ends; `unfinished` when the fuel is used up.
pub data Outcome : Type 0 where
  continued collected refused unfinished : Outcome

-- A conversion: its letter, 0 for none, and whether it has a * and an L.
pub record Conversion : Type 0 where
  pub conv : ℕ
  pub star : Bool
  pub long_double : Bool

abbrev pub is_one_of : List ℕ → ℕ → Bool
is_one_of [] ch = false
is_one_of (x ∷ xs) ch = (x == ch) || is_one_of xs ch

-- f F e E g G a A
abbrev pub is_floating : ℕ → Bool
is_floating = is_one_of (102 ∷ 70 ∷ 101 ∷ 69 ∷ 103 ∷ 71 ∷ 97 ∷ 65 ∷ [])

-- The letters of conversions: these, d i o u x X c s p n, @ and %.
abbrev pub is_conversion : ℕ → Bool
is_conversion ch =
    is_floating ch
    || is_one_of (100 ∷ 105 ∷ 111 ∷ 117 ∷ 120 ∷ 88 ∷ 99 ∷ 115 ∷ 112 ∷ 110 ∷ 64 ∷ 37 ∷ []) ch

-- The next character.
abbrev pub next_char : Marshal → ℕ × Marshal
unfolding ld
next_char m =
    let (ch, c) = ld m.reader.cpu m.p 1 in
    (ch, record m { p = add64 m.p 1; reader = record m.reader { cpu = c } })

-- The inner loop, from behind a %, on fuel; `none` when that is used up.
unfoldable pub conversion : ℕ → Marshal → Conversion → Option (Conversion × Marshal)
unfolding next_char
conversion zero m k = none
conversion (suc fuel) m k =
    let (ch, m') = next_char m in
    let k' =
      if ch == 42
      then record k { star = true }
      else if ch == 76
      then record k { long_double = true }
      else k in
    let rest = conversion fuel m' k' in
    if not m'.reader.cpu.running || (ch == 0)
    then some (k, m')
    else if not (ch == 42) && not (ch == 76) && is_conversion ch
    then some (record k { conv = ch }, m')
    else rest

-- One more slot, if there is room.
abbrev pub push_slot : ℕ → Bool → Marshal → Outcome × Marshal
unfolding sysv_int sysv_sse
push_slot max fp m =
    let (v, a) = if fp then sysv_sse m.reader else sysv_int m.reader in
    if leb max (length m.slots)
    then (refused, m)
    else (continued, record m { reader = a; slots = v ∷ m.slots })

abbrev pub then_push : ℕ → Bool → Outcome × Marshal → Outcome × Marshal
unfolding push_slot
then_push max fp (continued, m) = push_slot max fp m
then_push max fp (collected, m) = (collected, m)
then_push max fp (refused, m) = (refused, m)
then_push max fp (unfinished, m) = (unfinished, m)

-- The arguments that one conversion takes.
unfoldable pub take_args : Bool → ℕ → Conversion → Marshal → Outcome × Marshal
unfolding push_slot then_push
take_args scan max k m =
    let fp = not scan && is_floating k.conv in
    if (k.conv == 0) || (k.conv == 37)
    then (continued, m)
    else if k.long_double
    then (refused, m)
    else if not k.star
    then push_slot max fp m
    else if scan
    then (continued, m)
    else then_push max fp (push_slot max false m)

-- One round of the outer loop.
unfoldable pub marshal_round : ℕ → Bool → ℕ → Marshal → Outcome × Marshal
unfolding next_char conversion take_args
marshal_round fuel scan max m =
    let (ch, m') = next_char m in
    let start : Conversion = record { conv = 0; star = false; long_double = false } in
    if not m'.reader.cpu.running
    then (refused, m')
    else if ch == 0
    then (collected, m')
    else if not (ch == 37)
    then (continued, m')
    else elim (conversion fuel m' start) [
      | none ↦ (unfinished, m')
      | some (k, m2) ↦ take_args scan max k m2
    ]

-- `marshal_format`, on fuel; `refused` is -1.
unfoldable pub marshal_format : ℕ → Bool → ℕ → Marshal → Outcome × Marshal
unfolding marshal_round
marshal_format zero scan max m = (unfinished, m)
marshal_format (suc fuel) scan max m =
    let (o, m') = marshal_round fuel scan max m in
    elim o [
      | continued ↦ marshal_format fuel scan max m'
      | collected ↦ (collected, m')
      | refused ↦ (refused, m')
      | unfinished ↦ (unfinished, m')
    ]
