-- ===== src/Jit/Decode/Agrees.antt =====
-- src/jit.c, decode, and src/cpu.c, step: the compiler cuts the guest's code where the interpreter
-- does.
use rashid.Base.{
  ℕ, suc, ◌+◌, ◌-◌, ◌%◌, ◌^◌, ◌<◌, bit_and, Bool, true, false, not, ◌&&◌, ◌||◌, Option, none, some,
  ◌==◌, if◌then◌else◌, by_test, ◌≡◌, refl, sym, ap, ◌∙◌, Bool-cases, inl, inr, arith, if_both,
  at_value, either, clash, ◌⊎◌,
}
use mathlib.Core.Path.{subst, ap₂}
use rashid.AddressSpace.{Host}
use rashid.Cpu.{has}
use rashid.Cpu.State.{Cpu}
use rashid.Cpu.Memory.{read}
use rashid.Cpu.Decode.{Decoder}
use rashid.Cpu.Exec.{Outside, prefix, prefixes, rex_prefix, opcode, execute}
use rashid.Cpu.Exec.Syscall.{Files}
use rashid.Jit.Decode.{decode, decode_op, take_prefixes}
use rashid.Jit.Decode.Common.{Prefixes, Decoded}
use rashid.Jit.Decode.Follows.{prefixes_of}
use rashid.Jit.Decode.Landing.{
  prefix_or_insn, prefix-rex, opcode-LandsAs, Sized, LandsAs, GoesTo, decoded_at, decoded_from,
}

declined :
    (c : Cpu) (d : Decoder)
    → decode_op c.mem (d.p + 1) (prefixes_of d) (read c.mem d.p 1) ≡ none
    → decoded_from c d ≡ none
declined c d e =
    if_both (λ (r : Option Decoded). r ≡ none) (has d.mand && not (read c.mem d.p 1 == 0x0F)) refl
      (rw e refl)

-- Behind at most one more prefix, the loop stops, or the compiler declines.
stops_or_declines :
    (fuel : ℕ) (c : Cpu) (d : Decoder)
    → (decoded_from c (rex_prefix c d) ≡ none) ⊎ (prefixes (suc fuel) c d ≡ some d)
unfolding prefixes rex_prefix
stops_or_declines fuel c d = elim (Bool-cases (c.mem d.p - c.mem d.p % 16 == 0x40)) [
  | inl t ↦ inr (rw (prefix-rex c d (c.mem d.p) t, prefixes) refl)
  | inr t ↦
      let op = read c.mem d.p 1 in
      let same : op ≡ c.mem d.p = omega arith in
      elim (prefix_or_insn c d c.mem (d.p + 1) (prefixes_of d) op) [
        | inl e ↦ inr (rw (ap (prefix c d) (sym same) ∙ e, prefixes) refl)
        | inr e ↦
            let plain : rex_prefix c d ≡ d = rw t refl in
            inl (ap (decoded_from c) plain ∙ declined c d e)
      ]
]

-- The decoder with which `step` starts, and behind a mandatory prefix.
abbrev start_at : ℕ → Decoder
start_at rip = record {
  p = rip;
  rip0 = rip;
  rex = 0;
  has_rex = false;
  opsize = 4;
  addr32 = false;
  seg_base = 0;
  mand = 0;
}

abbrev has_mandatory : ℕ → Bool
has_mandatory b = (b == 0x66) || (b == 0xF2) || (b == 0xF3)

-- One round of the loop at a mandatory prefix.
abbrev marked : Decoder → ℕ → Decoder
marked d b = record d { p = d.p + 1; mand = b; opsize = if b == 0x66 then 2 else d.opsize }

prefix-mandatory :
    (c : Cpu) (d : Decoder) (b : ℕ) → has_mandatory b ≡ true → prefix c d b ≡ some (marked d b)
unfolding prefix
prefix-mandatory c d b h =
    let Q : ℕ → Type 0 = λ n. prefix c d n ≡ some (marked d n) in
    either ((b == 0x66) || (b == 0xF2)) (b == 0xF3) h
      (λ h1.
        either (b == 0x66) (b == 0xF2) h1 (λ e. at_value Q 0x66 e refl)
          (λ e. at_value Q 0xF2 e refl))
      (λ e. at_value Q 0xF3 e refl)

-- The decoder behind all prefixes, as `decode` takes them.
abbrev settled : Cpu → Decoder
settled c =
    let d = start_at c.rip in let b = c.mem c.rip in if has_mandatory b then marked d b else d

abbrev is_rex : ℕ → Bool
is_rex b = b - b % 16 == 0x40

abbrev with_rex : Cpu → Decoder → Decoder
with_rex c d =
    let b = c.mem d.p in
    record d {
      p = d.p + 1;
      rex = b;
      has_rex = true;
      opsize = if has (bit_and b 8) then 8 else d.opsize;
    }

-- Whatever holds of the three fields where REX is taken and where it is not.
by_rex :
    (c : Cpu) (P : Decoder → Type 0) (d : Decoder)
    → (is_rex (c.mem d.p) ≡ true → P (with_rex c d))
    → (is_rex (c.mem d.p) ≡ false → P d)
    → P (rex_prefix c d)
unfolding rex_prefix
by_rex c P d taken plain = by_test P (is_rex (c.mem d.p)) taken plain

take_prefixes-settled :
    (c : Cpu) → let d = rex_prefix c (settled c) in take_prefixes c.mem c.rip ≡ (d.p, prefixes_of d)
unfolding take_prefixes
take_prefixes-settled c =
    let P : Decoder → Type 0 = λ d. take_prefixes c.mem c.rip ≡ (d.p, prefixes_of d) in
    let d = start_at c.rip in
    let b = c.mem c.rip in
    by_test (λ d1. P (rex_prefix c d1)) (has_mandatory b)
      (λ t. by_rex c P (marked d b) (λ s. rw (t, s) refl) (λ s. rw (t, s) refl))
      (λ t. by_rex c P d (λ s. rw (t, s) refl) (λ s. rw (t, s) refl))

rip0-settled : (c : Cpu) → (rex_prefix c (settled c)).rip0 ≡ c.rip
rip0-settled c =
    let P : Decoder → Type 0 = λ d. d.rip0 ≡ c.rip in
    let d = start_at c.rip in
    let b = c.mem c.rip in
    by_test (λ d1. P (rex_prefix c d1)) (has_mandatory b)
      (λ _. by_rex c P (marked d b) (λ _. refl) (λ _. refl))
      (λ _. by_rex c P d (λ _. refl) (λ _. refl))

decode-settled : (c : Cpu) → decode c.mem c.rip ≡ decoded_from c (rex_prefix c (settled c))
unfolding decode
decode-settled c =
    ap₂ (λ (a : ℕ × Prefixes) (rip : ℕ). decoded_at c.mem rip a) (take_prefixes-settled c)
      (sym (rip0-settled c))

-- A byte that is a mandatory prefix is not 0.
mandatory-has : (b : ℕ) → has_mandatory b ≡ true → has b ≡ true
mandatory-has b h = ground arith

settled-Sized : (c : Cpu) → Sized (rex_prefix c (settled c))
settled-Sized c =
    let d = start_at c.rip in
    let b = c.mem c.rip in
    by_test (λ d1. Sized (rex_prefix c d1)) (has_mandatory b)
      (λ t.
        by_rex c Sized (marked d b) (λ _ m. clash (has b) (mandatory-has b t) m)
          (λ _ m. clash (has b) (mandatory-has b t) m))
      (λ t. by_rex c Sized d (λ _ m. refl) (λ _ m. refl))

-- The loop over the prefixes ends there, or the compiler declines.
prefixes-settled :
    (fuel : ℕ) (c : Cpu)
    → (decode c.mem c.rip ≡ none)
      ⊎ (prefixes (suc (suc fuel)) c (start_at c.rip) ≡ some (settled c))
unfolding prefixes
prefixes-settled fuel c =
    let d = start_at c.rip in
    let b = c.mem c.rip in
    let P : Decoder → Type 0 =
      λ d1. (decoded_from c (rex_prefix c d1) ≡ none) ⊎ (prefixes (suc (suc fuel)) c d ≡ some d1) in
    let here : P (settled c) =
      by_test P (has_mandatory b)
        (λ t. elim (stops_or_declines fuel c (marked d b)) [
          | inl e ↦ inl e
          | inr e ↦ inr (rw (prefix-mandatory c d b t, prefixes) e)
        ])
        (λ _. stops_or_declines (suc fuel) c d) in
    elim here [ inl e ↦ inl (decode-settled c ∙ e) | inr e ↦ inr e ]

abbrev is_some : Option Decoded → Bool
is_some none = false
is_some (some _) = true

-- The compiler cuts the guest's code where the interpreter does: where `decode` accepts an
-- instruction, the interpreter, which gives its loop over prefixes two rounds or more, executes one
-- instruction there and stands behind the same bytes or, after a jump or a call, at the same
-- target, a conditional one by the flags; returns, indirect branches and SSE instructions are left
-- open. The registers hold 64 bits.
pub execute-decode :
    (h : Host) (f : Files) (o : Outside) (c : Cpu) (fuel : ℕ) (insn : Decoded)
    → ((i : ℕ) → c.r i < 2 ^ 64)
    → decode c.mem c.rip ≡ some insn
    → (c' : Cpu) × (execute (suc (suc fuel)) h f o c ≡ some c')
      × GoesTo c.flags insn insn.kind c'.rip
unfolding execute
execute-decode h f o c fuel insn words e =
    let c1 : Cpu = record c { cur_rip = c.rip } in
    let d = rex_prefix c1 (settled c1) in
    let c' = opcode h f o c1 d in
    elim (prefixes-settled fuel c1) [
      | inl n ↦ clash (is_some (decode c.mem c.rip)) (ap is_some e) (ap is_some n)
      | inr p ↦ (
        c',
        ap
            (λ (r : Option Decoder). elim r as (λ _. Option Cpu) [
              | none ↦ none
              | some d' ↦ some (opcode h f o c1 (rex_prefix c1 d'))
            ])
            p,
        subst (λ r. LandsAs c1 r c') (sym (decode-settled c1) ∙ e)
            (opcode-LandsAs h f o c1 d words (settled-Sized c1)),
      )
    ]
