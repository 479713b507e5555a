-- ===== src/Jit/Decides.antt =====
-- src/jit.c, put_cond_even: the value that the words leave in x0, and the condition that the code
-- behind them tests.
use rashid.Base.{
  ℕ, zero, suc, ◌/◌, ◌%◌, ◌^◌, ◌<◌, ◌≡◌, ◌∙◌, ap, sym, inl, inr, refl, bit_or, bit_xor, bit_and,
  Bool, true, false, not, ◌&&◌, ◌||◌, ◌==◌, if◌then◌else◌, arith, Bool-cases,
}
use rashid.Bits.{bit_div}
use rashid.Cpu.{has}
use rashid.Cpu.Flags.{cond}
use rashid.Cpu.Flags.Bits.{flag_test}
use rashid.Jit.Code.Insns.{odd_cond}

-- x0 in front of the comparison.
abbrev pub even_value : ℕ → ℕ → ℕ
even_value flags kind =
    let cf = flags / 2 ^ 0 % 2 in
    let pf = flags / 2 ^ 2 % 2 in
    let zf = flags / 2 ^ 6 % 2 in
    let sf = flags / 2 ^ 7 % 2 in
    let of = flags / 2 ^ 11 % 2 in
    if kind == 0
    then of
    else if kind == 1
    then cf
    else if kind == 2
    then zf
    else if kind == 3
    then bit_or cf zf
    else if kind == 4
    then sf
    else if kind == 5
    then pf
    else if kind == 6
    then bit_xor sf of
    else bit_or (bit_xor sf of) zf

-- A flag, by its digit.
flag_is : (k flags : ℕ) → has (bit_and flags (2 ^ k)) ≡ not (flags / 2 ^ k % 2 == 0)
flag_is k flags = elim (Bool-cases (flags / 2 ^ k % 2 == 0)) [
  | inl e ↦ flag_test k flags false (bit_div k flags ∙ ground arith) ∙ rw e refl
  | inr e ↦ flag_test k flags true (bit_div k flags ∙ ground arith) ∙ rw e refl
]

-- `or` and `xor` of two digits.
abbrev Joined : ℕ → ℕ → Type 0
Joined a b =
    ((bit_or a b == 0) ≡ not (not (a == 0) || not (b == 0)))
    × (bit_xor a b < 2)
    × ((bit_xor a b == 0) ≡ (if not (a == 0) then not (b == 0) else not (not (b == 0))))

joined : (a b : ℕ) → a < 2 → b < 2 → Joined a b
joined zero zero p q = (refl, omega arith, refl)
joined zero (suc zero) p q = (refl, omega arith, refl)
joined (suc zero) zero p q = (refl, omega arith, refl)
joined (suc zero) (suc zero) p q = (refl, omega arith, refl)
joined a (suc (suc b)) p q = absurd (omega arith)
joined (suc (suc a)) b p q = absurd (omega arith)

-- The condition that is tested behind the comparison.
abbrev pub Decides : ℕ → ℕ → Type 0
Decides flags cc =
    (if odd_cond cc == 0
      then even_value flags (cc / 2) == 0
      else not (even_value flags (cc / 2) == 0))
    ≡ cond flags cc

not-not : (b : Bool) → not (not b) ≡ b
not-not true = refl
not-not false = refl

-- The last kind: zf, or sf and of that differ.
either_differs :
    (v x zf same : Bool)
    → v ≡ not (not x || zf)
    → x ≡ same
    → (not v ≡ (zf || not same)) × (v ≡ (not zf && same))
either_differs v true true true e f = (ap not e, e)
either_differs v true false true e f = (ap not e, e)
either_differs v false true false e f = (ap not e, e)
either_differs v false false false e f = (ap not e, e)
either_differs v true zf false e f = absurd (ground arith)
either_differs v false zf true e f = absurd (ground arith)

module _ (flags : ℕ) where
  code_0 : Decides flags 0
  unfolding cond
  code_0 = sym (flag_is 11 flags)

  code_1 : Decides flags 1
  unfolding cond
  code_1 = sym (not-not _) ∙ ap not (sym (flag_is 11 flags))

  code_2 : Decides flags 2
  unfolding cond
  code_2 = sym (flag_is 0 flags)

  code_3 : Decides flags 3
  unfolding cond
  code_3 = sym (not-not _) ∙ ap not (sym (flag_is 0 flags))

  code_4 : Decides flags 4
  unfolding cond
  code_4 = sym (flag_is 6 flags)

  code_5 : Decides flags 5
  unfolding cond
  code_5 = sym (not-not _) ∙ ap not (sym (flag_is 6 flags))

  code_6 : Decides flags 6
  unfolding cond
  code_6 =
      rw (flag_is 0 flags, flag_is 6 flags)
        (ap not (joined (flags / 2 ^ 0 % 2) (flags / 2 ^ 6 % 2) (omega arith) (omega arith)).0
          ∙ not-not _)

  code_7 : Decides flags 7
  unfolding cond
  code_7 =
      rw (flag_is 0 flags, flag_is 6 flags)
        ((joined (flags / 2 ^ 0 % 2) (flags / 2 ^ 6 % 2) (omega arith) (omega arith)).0)

  code_8 : Decides flags 8
  unfolding cond
  code_8 = sym (flag_is 7 flags)

  code_9 : Decides flags 9
  unfolding cond
  code_9 = sym (not-not _) ∙ ap not (sym (flag_is 7 flags))

  code_10 : Decides flags 10
  unfolding cond
  code_10 = sym (flag_is 2 flags)

  code_11 : Decides flags 11
  unfolding cond
  code_11 = sym (not-not _) ∙ ap not (sym (flag_is 2 flags))

  code_12 : Decides flags 12
  unfolding cond
  code_12 =
      rw (flag_is 7 flags, flag_is 11 flags)
        (ap not (joined (flags / 2 ^ 7 % 2) (flags / 2 ^ 11 % 2) (omega arith) (omega arith)).2)

  code_13 : Decides flags 13
  unfolding cond
  code_13 =
      rw (flag_is 7 flags, flag_is 11 flags)
        ((joined (flags / 2 ^ 7 % 2) (flags / 2 ^ 11 % 2) (omega arith) (omega arith)).2)

  code_14 : Decides flags 14
  unfolding cond
  code_14 =
      let differ = joined (flags / 2 ^ 7 % 2) (flags / 2 ^ 11 % 2) (omega arith) (omega arith) in
      let both =
        joined (bit_xor (flags / 2 ^ 7 % 2) (flags / 2 ^ 11 % 2)) (flags / 2 ^ 6 % 2) differ.1
          (omega arith) in
      rw (flag_is 6 flags, flag_is 7 flags, flag_is 11 flags)
        (either_differs _ _ _ _ both.0 differ.2).0

  code_15 : Decides flags 15
  unfolding cond
  code_15 =
      let differ = joined (flags / 2 ^ 7 % 2) (flags / 2 ^ 11 % 2) (omega arith) (omega arith) in
      let both =
        joined (bit_xor (flags / 2 ^ 7 % 2) (flags / 2 ^ 11 % 2)) (flags / 2 ^ 6 % 2) differ.1
          (omega arith) in
      rw (flag_is 6 flags, flag_is 7 flags, flag_is 11 flags)
        (either_differs _ _ _ _ both.0 differ.2).1

  pub every_code : (cc : ℕ) → cc < 16 → Decides flags cc
  every_code zero p = code_0
  every_code (suc zero) p = code_1
  every_code (suc (suc zero)) p = code_2
  every_code (suc (suc (suc zero))) p = code_3
  every_code (suc (suc (suc (suc zero)))) p = code_4
  every_code (suc (suc (suc (suc (suc zero))))) p = code_5
  every_code (suc (suc (suc (suc (suc (suc zero)))))) p = code_6
  every_code (suc (suc (suc (suc (suc (suc (suc zero))))))) p = code_7
  every_code (suc (suc (suc (suc (suc (suc (suc (suc zero)))))))) p = code_8
  every_code (suc (suc (suc (suc (suc (suc (suc (suc (suc zero))))))))) p = code_9
  every_code (suc (suc (suc (suc (suc (suc (suc (suc (suc (suc zero)))))))))) p = code_10
  every_code (suc (suc (suc (suc (suc (suc (suc (suc (suc (suc (suc zero))))))))))) p = code_11
  every_code (suc (suc (suc (suc (suc (suc (suc (suc (suc (suc (suc (suc zero)))))))))))) p =
      code_12
  every_code (suc (suc (suc (suc (suc (suc (suc (suc (suc (suc (suc (suc (suc zero))))))))))))) p =
      code_13
  every_code
        (suc (suc (suc (suc (suc (suc (suc (suc (suc (suc (suc (suc (suc (suc zero)))))))))))))) p =
      code_14
  every_code
        (suc
          (suc (suc (suc (suc (suc (suc (suc (suc (suc (suc (suc (suc (suc (suc zero)))))))))))))))
        p =
      code_15
  every_code
        (suc (
          suc
            (suc (suc (suc (suc (suc (suc (suc (suc (suc (suc (suc (suc (suc (suc n))))))))))))))))
        p =
      absurd (omega arith)
