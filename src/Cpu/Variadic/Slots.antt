-- ===== src/Cpu/Variadic/Slots.antt =====
-- src/cpu.c, `marshal_format`: the slots that it fills.
use rashid.Base.{
  if_both, ℕ, zero, suc, ◌≤◌, Bool, false, not, ◌&&◌, ◌||◌, Option, none, some, leb, ◌==◌, length,
  Bool-cases, inl, inr, arith,
}
use rashid.Cpu.Variadic.{
  Marshal, Outcome, Conversion, is_conversion, is_floating, next_char, conversion, push_slot,
  then_push, take_args, marshal_round, marshal_format,
}

-- The slots are within the array.
abbrev pub SlotsFit : ℕ → Marshal → Type 0
SlotsFit max m = length m.slots ≤ max

abbrev ConversionFits : ℕ → Option (Conversion × Marshal) → Type 0
ConversionFits max none = 0 ≤ max
ConversionFits max (some (k, m)) = SlotsFit max m

conversion-fits :
    (fuel max : ℕ) (m : Marshal) (k : Conversion)
    → SlotsFit max m
    → ConversionFits max (conversion fuel m k)
unfolding conversion next_char
conversion-fits zero max m k h = omega arith
conversion-fits (suc fuel) max m k h =
    let (ch, m') = next_char m in
    if_both (ConversionFits max) (not m'.reader.cpu.running || (ch == 0)) h (
      if_both (ConversionFits max) (not (ch == 42) && not (ch == 76) && is_conversion ch) h
        (conversion-fits fuel max m' _ h))

abbrev pub AnswerFits : ℕ → Outcome × Marshal → Type 0
AnswerFits max a = SlotsFit max a.1

push_slot-fits :
    (max : ℕ) (fp : Bool) (m : Marshal) → SlotsFit max m → AnswerFits max (push_slot max fp m)
unfolding push_slot
push_slot-fits max fp m h = elim (Bool-cases (leb max (length m.slots))) [
  | inl e ↦ rw e h
  | inr e ↦ rw e (ground arith)
]

then_push-fits :
    (max : ℕ) (fp : Bool) (a : Outcome × Marshal)
    → AnswerFits max a
    → AnswerFits max (then_push max fp a)
unfolding then_push
then_push-fits max fp (Outcome.continued, m) h = push_slot-fits max fp m h
then_push-fits max fp (Outcome.collected, m) h = h
then_push-fits max fp (Outcome.refused, m) h = h
then_push-fits max fp (Outcome.unfinished, m) h = h

take_args-fits :
    (scan : Bool) (max : ℕ) (k : Conversion) (m : Marshal)
    → SlotsFit max m
    → AnswerFits max (take_args scan max k m)
unfolding take_args
take_args-fits scan max k m h =
    let fp = not scan && is_floating k.conv in
    if_both (AnswerFits max) ((k.conv == 0) || (k.conv == 37)) h (
      if_both (AnswerFits max) k.long_double h (
        if_both (AnswerFits max) (not k.star) (push_slot-fits max fp m h) (
          if_both (AnswerFits max) scan h
            (then_push-fits max fp (push_slot max false m) (push_slot-fits max false m h)))))

marshal_round-fits :
    (fuel : ℕ) (scan : Bool) (max : ℕ) (m : Marshal)
    → SlotsFit max m
    → AnswerFits max (marshal_round fuel scan max m)
unfolding marshal_round next_char
marshal_round-fits fuel scan max m h =
    let (ch, m') = next_char m in
    if_both (AnswerFits max) (not m'.reader.cpu.running) h (
      if_both (AnswerFits max) (ch == 0) h (
        if_both (AnswerFits max) (not (ch == 37)) h
          (converted m' h (conversion fuel m' start) (conversion-fits fuel max m' start h))))
  where
    start : Conversion
    start = record { conv = 0; star = false; long_double = false }

    converted :
        (m' : Marshal)
        → SlotsFit max m'
        → (o : Option (Conversion × Marshal)) → ConversionFits max o
        → AnswerFits max
            (elim o [ none ↦ (Outcome.unfinished, m') | some (k, m2) ↦ take_args scan max k m2 ])
    converted m' h none f = h
    converted m' h (some (k, m2)) f = take_args-fits scan max k m2 f

-- Whatever the format string holds and whenever one looks, `marshal_format` has filled at most the
-- `max` slots of the array that it is given.
pub marshal_format_fits :
    (fuel : ℕ) (scan : Bool) (max : ℕ) (m : Marshal)
    → length m.slots ≤ max
    → length (marshal_format fuel scan max m).1.slots ≤ max
unfolding marshal_format
marshal_format_fits zero scan max m h = h
marshal_format_fits (suc fuel) scan max m h =
    next (λ m' f. marshal_format_fits fuel scan max m' f) (marshal_round fuel scan max m).0
      (marshal_round fuel scan max m).1 (marshal_round-fits fuel scan max m h)
  where
    next :
        ((m' : Marshal) → SlotsFit max m' → AnswerFits max (marshal_format fuel scan max m'))
        → (o : Outcome) (m' : Marshal) → SlotsFit max m'
        → AnswerFits max (elim o [
          | Outcome.continued ↦ marshal_format fuel scan max m'
          | Outcome.collected ↦ (Outcome.collected, m')
          | Outcome.refused ↦ (Outcome.refused, m')
          | Outcome.unfinished ↦ (Outcome.unfinished, m')
        ])
    next later Outcome.continued m' f = later m' f
    next later Outcome.collected m' f = f
    next later Outcome.refused m' f = f
    next later Outcome.unfinished m' f = f
