-- ===== src/Cpu/Registers/Stack.antt =====
-- PUSH followed by POP (src/cpu.c, push and pop).
use rashid.Base.{
  ℕ, ◌%◌, ◌^◌, ◌<◌, true, ◌≡◌, refl, ◌==◌, add64, sub64, update, update_self, arith, Bool-cases,
  inl, inr, ap, ◌∙◌,
}
use mathlib.Core.Path.{ap₂}
use rashid.AddressSpace.{prot_r, prot_w}
use rashid.Cpu.State.{Cpu, rsp}
use rashid.Cpu.Memory.{ld, access_ok}
use rashid.Cpu.Memory.RoundTrip.{ld-st, st_keeps}
use rashid.Cpu.Registers.{push, pop}

pop_loaded :
    (c : Cpu) (w : ℕ)
    → ld c (c.r rsp) 8 ≡ (w, c)
    → pop c ≡ (w, record c { r = update c.r rsp (add64 (c.r rsp) 8) })
unfolding pop
pop_loaded c w e =
    ap (λ (p : ℕ × Cpu). (p.0, record (p.1) { r = update p.1.r rsp (add64 (p.1.r rsp) 8) })) e

back :
    (f : ℕ → ℕ) (i : ℕ)
    → f rsp < 2 ^ 64
    → update (update f rsp (sub64 (f rsp) 8)) rsp (add64 (sub64 (f rsp) 8) 8) i ≡ f i
back f i h = elim (Bool-cases (rsp == i)) [
  | inl e ↦
      let here : rsp ≡ i = ground arith in
      let value : add64 (sub64 (f rsp) 8) 8 ≡ f rsp = omega arith in rw e (value ∙ ap f here)
  | inr e ↦ rw e
]

-- Where the stack can be written and read below the stack pointer, POP after PUSH answers the
-- value that was pushed, and every register is as it was before.
pub pop-push :
    (c : Cpu) (v : ℕ)
    → c.r rsp < 2 ^ 64
    → v < 2 ^ 64
    → access_ok c (sub64 (c.r rsp) 8) 8 prot_w ≡ true
    → access_ok c (sub64 (c.r rsp) 8) 8 prot_r ≡ true
    → let (w, c') = pop (push c v) in (w ≡ v) × ((i : ℕ) → c'.r i ≡ c.r i)
unfolding pop push
pop-push c v h p ow or =
    let sp = sub64 (c.r rsp) 8 in
    let c1 : Cpu = record c { r = update c.r rsp sp } in
    let regs : (push c v).r ≡ update c.r rsp sp = (st_keeps c1 sp v 8).0 in
    let top : (push c v).r rsp ≡ sp = ap (λ f. f rsp) regs ∙ update_self c.r rsp sp in
    let low : v % 256 ^ 8 ≡ v = omega arith in
    let loaded : ld (push c v) ((push c v).r rsp) 8 ≡ (v, push c v) =
      ap (λ a. ld (push c v) a 8) top
      ∙ ld-st c1 sp v 8 (inr (inr (inr refl))) ow or
      ∙ ap (λ t. (t, push c v)) low in
    let whole = pop_loaded (push c v) v loaded in
    (
      ap (λ (q : ℕ × Cpu). q.0) whole,
      λ i.
          ap (λ (q : ℕ × Cpu). q.1.r i) whole
          ∙ ap₂ (λ (f : ℕ → ℕ) t. update f rsp (add64 t 8) i) regs top
          ∙ back c.r i h,
    )
