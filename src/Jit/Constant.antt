-- ===== src/Jit/Constant.antt =====
-- src/jit.c, `put` and `put_imm`: a constant is put together from half-words.
use rashid.Base.{
  ◌≢◌, suc, ℕ, ◌+◌, ◌-◌, ◌*◌, ◌/◌, ◌%◌, ◌^◌, ◌≤◌, ◌<◌, Bool, true, false, List, [], ◌∷◌, leb, ◌==◌,
  if◌then◌else◌, ◌≡◌, refl, ap, ◌∙◌, arith, length, update, add64, sub64, update_self, update_ne,
  Bool-cases, inl, inr,
}
use rashid.Cpu.{has}
use rashid.Cpu.Memory.{read}
use rashid.Emit.{movz, movk}
use rashid.Emit.Fields.{movz_lem, movk_lem}

-- `buf`: the words so far, and the places to patch, the newest first; `n` and `nfix` are their
-- lengths.
pub record Buf : Type 0 where
  pub out : List ℕ
  pub max : ℕ
  pub full : Bool
  pub check : Bool
  pub fix : List ℕ

unfoldable pub put : Buf → ℕ → Buf
put b insn =
    if leb b.max (length b.out) then record b { full = true } else record b { out = insn ∷ b.out }

unfoldable pub put_when : Bool → Buf → ℕ → Buf
unfolding put
put_when test b insn = if test then put b insn else b

-- The half-word k of v.
abbrev pub half : ℕ → ℕ → ℕ
half v k = v / 2 ^ (16 * k) % 2 ^ 16

unfoldable pub put_imm : Buf → ℕ → ℕ → Buf
unfolding put
put_imm b reg v =
    let b0 = put b (movz reg (half v 0) 0) in
    let b1 = put_when (has (v / 2 ^ 16)) b0 (movk reg (half v 1) 1) in
    let b2 = put_when (has (v / 2 ^ 32)) b1 (movk reg (half v 2) 2) in
    put_when (has (v / 2 ^ 48)) b2 (movk reg (half v 3) 3)

-- What the processor does for an instruction that moves a half-word imm to the place hw of
-- register d: movz clears the rest of the register, movk keeps the rest. `other` are the registers
-- behind any other word.
abbrev pub run_wide : (ℕ → ℕ) → (ℕ → ℕ) → ℕ → ℕ → ℕ → ℕ → ℕ → ℕ
run_wide x other op d hw imm =
    let at = 2 ^ (16 * hw) in
    if op == 0x1A5
    then update x d (imm * at)
    else if op == 0x1E5
    then update x d (x d - x d / at % 2 ^ 16 * at + imm * at)
    else other

-- The other words that compute addresses: a load of 64 bits, the sum of a register and of one that
-- is shifted, and a sum and a difference with an immediate.
unfoldable pub run_sum : (ℕ → ℕ) → (ℕ → ℕ) → ℕ → ℕ → ℕ
run_sum mem x w =
    let d = w % 32 in
    let n = x (w / 2 ^ 5 % 32) in
    let imm = w / 2 ^ 10 % 2 ^ 12 in
    if w / 2 ^ 22 == 0x3E5
    then update x d (read mem (n + imm * 8) 8)
    else if w / 2 ^ 21 == 0x458
    then update x d (add64 n (x (w / 2 ^ 16 % 32) * 2 ^ (w / 2 ^ 10 % 64) % 2 ^ 64))
    else if w / 2 ^ 22 == 0x244
    then update x d (add64 n imm)
    else if w / 2 ^ 22 == 0x344
    then update x d (sub64 n imm)
    else x

-- A word, by its fields.
unfoldable pub run_word : (ℕ → ℕ) → (ℕ → ℕ) → ℕ → ℕ → ℕ
unfolding run_sum
run_word mem x w =
    run_wide x (run_sum mem x w) (w / 2 ^ 23) (w % 2 ^ 5) (w / 2 ^ 21 % 4) (w / 2 ^ 5 % 2 ^ 16)

-- The words of a buffer, the oldest first.
unfoldable pub run : (ℕ → ℕ) → (ℕ → ℕ) → List ℕ → ℕ → ℕ
unfolding run_word
run mem x [] = x
run mem x (w ∷ ws) = run_word mem (run mem x ws) w

run_fields :
    (mem x : ℕ → ℕ) (w op d hw imm : ℕ)
    → d < 32
    → imm < 2 ^ 16
    → hw < 4
    → w ≡ op * 2 ^ 23 + hw * 2 ^ 21 + imm * 2 ^ 5 + d
    → run_word mem x w ≡ run_wide x (run_sum mem x w) op d hw imm
unfolding run_word
run_fields mem x w op d hw imm p q r e =
    let e1 : w / 2 ^ 23 ≡ op = omega arith in
    let e2 : w % 2 ^ 5 ≡ d = omega arith in
    let e3 : w / 2 ^ 21 % 4 ≡ hw = omega arith in
    let e4 : w / 2 ^ 5 % 2 ^ 16 ≡ imm = omega arith in
    let z = run_sum mem x w in
    ap (λ t. run_wide x z t (w % 2 ^ 5) (w / 2 ^ 21 % 4) (w / 2 ^ 5 % 2 ^ 16)) e1
    ∙ ap (λ t. run_wide x z op t (w / 2 ^ 21 % 4) (w / 2 ^ 5 % 2 ^ 16)) e2
    ∙ ap (λ t. run_wide x z op d t (w / 2 ^ 5 % 2 ^ 16)) e3
    ∙ ap (run_wide x z op d hw) e4

-- The registers after each of the four words.
first_word :
    (mem : ℕ → ℕ) (x : ℕ → ℕ) (d v : ℕ)
    → d < 32
    → run_word mem x (movz d (half v 0) 0) ≡ update x d (v % 2 ^ 16)
first_word mem x d v p =
    run_fields mem x (movz d (half v 0) 0) 0x1A5 d 0 (half v 0) p (omega arith) (omega arith)
      (movz_lem d (half v 0) 0 p (omega arith) (omega arith))
    ∙ ap (update x d) (omega arith)

-- Register d holds t, every other register what it held in y.
abbrev pub Holds : (ℕ → ℕ) → (ℕ → ℕ) → ℕ → ℕ → Type 0
Holds x y d t = (x d ≡ t) × ((i : ℕ) → d ≢ i → x i ≡ y i)

-- The buffer, run on x, leaves t in d, and it has room for n more words.
Built : (ℕ → ℕ) → (ℕ → ℕ) → (ℕ → ℕ) → ℕ → Bool → ℕ → ℕ → Buf → Type 0
Built mem x y d f t n b = Holds (run mem x b.out) y d t × (length b.out + n ≤ b.max) × (b.full ≡ f)

pub put_room :
    (b : Buf) (w n : ℕ) → length b.out + suc n ≤ b.max → put b w ≡ record b { out = w ∷ b.out }
unfolding put
put_room b w n h = let room : leb b.max (length b.out) ≡ false = ground arith in rw room refl

-- One more movk.
next_word :
    (mem : ℕ → ℕ) (x y : ℕ → ℕ) (d v hw t u : ℕ)
    → d < 32
    → hw < 4
    → t / 2 ^ (16 * hw) ≡ 0
    → t + half v hw * 2 ^ (16 * hw) ≡ u
    → Holds x y d t
    → Holds (run_word mem x (movk d (half v hw) hw)) y d u
next_word mem x y d v hw t u p q small sum (here, others) =
    let word =
      run_fields mem x (movk d (half v hw) hw) 0x1E5 d hw (half v hw) p (omega arith) q
        (movk_lem d (half v hw) hw p (omega arith) q) in
    let value : x d - x d / 2 ^ (16 * hw) % 2 ^ 16 * 2 ^ (16 * hw) + half v hw * 2 ^ (16 * hw) ≡ u =
      ap (λ r. r - r / 2 ^ (16 * hw) % 2 ^ 16 * 2 ^ (16 * hw) + half v hw * 2 ^ (16 * hw)) here
      ∙ ap (λ z. t - z % 2 ^ 16 * 2 ^ (16 * hw) + half v hw * 2 ^ (16 * hw)) small
      ∙ omega (arith, sum) in
    (
      ap (λ f. f d) word ∙ update_self x d _ ∙ value,
      λ i h. ap (λ f. f i) word ∙ update_ne x d i _ h ∙ others i h,
    )

-- A word that is left out because v has no digits from half-word hw on.
next_put :
    (mem : ℕ → ℕ) (x y : ℕ → ℕ) (d v hw t u n : ℕ) (f : Bool) (b : Buf)
    → d < 32
    → hw < 4
    → t / 2 ^ (16 * hw) ≡ 0
    → t + half v hw * 2 ^ (16 * hw) ≡ u
    → (v / 2 ^ (16 * hw) ≡ 0 → t ≡ u)
    → Built mem x y d f t (suc n) b
    → Built mem x y d f u n (put_when (has (v / 2 ^ (16 * hw))) b (movk d (half v hw) hw))
unfolding Built put_when run run_word
next_put mem x y d v hw t u n f b p q small sum none_left ((here, others), room, same) =
    elim (Bool-cases (v / 2 ^ (16 * hw) == 0)) [
      | inl e ↦ rw e ((here ∙ none_left (ground arith), others), omega arith, same)
      | inr e ↦
          rw (e, put_room b (movk d (half v hw) hw) n room)
            (
              next_word mem (run mem x b.out) y d v hw t u p q small sum (here, others),
              omega arith,
              same,
            )
    ]

-- The movz that comes first.
first_put :
    (mem : ℕ → ℕ) (x : ℕ → ℕ) (d v n : ℕ) (b : Buf)
    → d < 32
    → length b.out + suc n ≤ b.max
    → Built mem x (run mem x b.out) d b.full (v % 2 ^ 16) n (put b (movz d (half v 0) 0))
unfolding Built run
first_put mem x d v n b p room =
    let y = run mem x b.out in
    let word = first_word mem y d v p in
    rw (put_room b (movz d (half v 0) 0) n room) (
      (
        ap (λ f. f d) word ∙ update_self y d (v % 2 ^ 16),
        λ i h. ap (λ f. f i) word ∙ update_ne y d i (v % 2 ^ 16) h,
      ),
      omega arith,
      refl,
    )

-- Where the buffer has room for four words, they leave v in the register, whichever of them are
-- left out, and every other register is as it was.
pub run-put_imm :
    (mem : ℕ → ℕ) (x : ℕ → ℕ) (b : Buf) (reg v : ℕ)
    → reg < 32
    → v < 2 ^ 64
    → length b.out + 4 ≤ b.max
    → Holds (run mem x (put_imm b reg v).out) (run mem x b.out) reg v
      × ((put_imm b reg v).full ≡ b.full)
unfolding put_imm Built
run-put_imm mem x b reg v p q room =
    let y = run mem x b.out in
    let b0 = put b (movz reg (half v 0) 0) in
    let start = first_put mem x reg v 3 b p room in
    let one =
      next_put mem x y reg v 1 (v % 2 ^ 16) (v % 2 ^ 32) 2 b.full b0 p (omega arith) (omega arith)
        (omega arith) (λ e. omega arith) start in
    let b1 = put_when (has (v / 2 ^ 16)) b0 (movk reg (half v 1) 1) in
    let two =
      next_put mem x y reg v 2 (v % 2 ^ 32) (v % 2 ^ 48) 1 b.full b1 p (omega arith) (omega arith)
        (omega arith) (λ e. omega arith) one in
    let b2 = put_when (has (v / 2 ^ 32)) b1 (movk reg (half v 2) 2) in
    let (held, _, same) =
      next_put mem x y reg v 3 (v % 2 ^ 48) v 0 b.full b2 p (omega arith) (omega arith)
        (omega arith) (λ e. omega arith) two in
    (held, same)
