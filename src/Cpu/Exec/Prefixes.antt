-- ===== src/Cpu/Exec/Prefixes.antt =====
-- src/cpu.c, `step`: the loop over the prefixes ends.
use rashid.Base.{
  ℕ, zero, suc, ◌+◌, ◌≤◌, Option, none, some, ◌≡◌, refl, Option-cases, inl, inr, ap, ◌∙◌, sym,
  arith,
}
use rashid.Cpu.State.{Cpu}
use rashid.Cpu.Decode.{Decoder}
use rashid.Cpu.Exec.{prefix, prefixes}

-- Where the cursor stands behind a prefix.
abbrev behind : ℕ → Option Decoder → ℕ
behind x none = x
behind x (some d) = d.p

behind-prefix : (c : Cpu) (d : Decoder) (b : ℕ) → behind (d.p + 1) (prefix c d b) ≡ d.p + 1
unfolding prefix
behind-prefix c d b = ground arith

-- Whether a byte is a prefix does not depend on the cursor.
prefix-none : (c : Cpu) (d d' : Decoder) (b : ℕ) → prefix c d b ≡ none → prefix c d' b ≡ none
unfolding prefix
prefix-none c d d' b e = ground arith

prefix-moves : (c : Cpu) (d d' : Decoder) (b : ℕ) → prefix c d b ≡ some d' → d'.p ≡ d.p + 1
prefix-moves c d d' b e = sym (ap (behind (d.p + 1)) e) ∙ behind-prefix c d b

-- The loop ends at the first byte that is no prefix: when the byte k behind the cursor is none,
-- k + 1 rounds are enough, and the cursor stops at most k behind where it stood.
pub prefixes-ends :
    (k : ℕ) (c : Cpu) (d : Decoder)
    → prefix c d (c.mem (d.p + k)) ≡ none
    → (d' : Decoder) × (prefixes (suc k) c d ≡ some d') × (d'.p ≤ d.p + k)
unfolding prefixes
prefixes-ends zero c d e =
    let here : prefix c d (c.mem d.p) ≡ none = ap (λ x. prefix c d (c.mem x)) (omega arith) ∙ e in
    (d, rw (here, prefixes) refl, omega arith)
prefixes-ends (suc k) c d e = elim (Option-cases (prefix c d (c.mem d.p))) [
  | inl stops ↦ (d, rw (stops, prefixes) refl, omega arith)
  | inr (d1, goes) ↦
      let moved : d1.p ≡ d.p + 1 = prefix-moves c d d1 (c.mem d.p) goes in
      let byte : c.mem (d1.p + k) ≡ c.mem (d.p + suc k) = ap c.mem (omega arith) in
      let later : prefix c d1 (c.mem (d1.p + k)) ≡ none =
        ap (prefix c d1) byte ∙ prefix-none c d d1 (c.mem (d.p + suc k)) e in
      let (d2, found, near) = prefixes-ends k c d1 later in
      (d2, rw (goes, prefixes) found, omega arith)
]
