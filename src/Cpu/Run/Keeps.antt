-- ===== src/Cpu/Run/Keeps.antt =====
-- src/cpu.c, `rsd_guest_call`: what a guest function that native code calls finds on its stack.
use rashid.Base.{
  ℕ, ◌+◌, ◌-◌, ◌*◌, ◌/◌, ◌%◌, ◌^◌, ◌≤◌, ◌<◌, true, ◌≡◌, refl, ap, ◌∙◌, sym, sub64, bit_and, arith,
  update_self, Bool-cases, inl, inr,
}
use rashid.AddressSpace.{AddressSpace, prot_r, prot_w}
use rashid.Cpu.Registers.Parts.{aligned}
use rashid.Cpu.State.{Cpu, rsp, rdi}
use rashid.Cpu.Memory.{st, ld, access_ok, read, width}
use rashid.Cpu.Memory.RoundTrip.{st_keeps, ld-st}
use rashid.Cpu.Registers.{not64, pop}
use rashid.Cpu.Exec.{callback_magic}
use rashid.Cpu.Run.{Frame, with_args, with_floats, callback_stack, enter_guest}

callback_stack_lem :
    (s : ℕ)
    → 280 ≤ s
    → s < 2 ^ 64
    → ((callback_stack s + 8) % 16 ≡ 0)
      × (callback_stack s + 264 ≤ s)
      × (s ≤ callback_stack s + 279)
callback_stack_lem s low high =
    let below : sub64 s 256 ≡ s - 256 = omega arith in
    let cut : bit_and (sub64 s 256) (not64 15) ≡ (s - 256) / 16 * 16 =
      ap (λ x. bit_and x (not64 15)) below ∙ aligned (s - 256) (omega arith) in
    let at : callback_stack s ≡ (s - 256) / 16 * 16 - 8 = ap (λ x. sub64 x 8) cut ∙ omega arith in
    (omega arith, omega arith, omega arith)

-- A load depends on memory and on the regions only.
loads : (c c' : Cpu) (a : ℕ) → c.mem ≡ c'.mem → c.space ≡ c'.space → (ld c a 8).0 ≡ (ld c' a 8).0
unfolding ld access_ok
loads c c' a m s =
    let same : access_ok c' a 8 prot_r ≡ access_ok c a 8 prot_r =
      ap (λ (t : AddressSpace). access_ok (record c { space = t }) a 8 prot_r) (sym s) in
    elim (Bool-cases (access_ok c a 8 prot_r)) [
      | inl e ↦ rw (e, same ∙ e) (ap (λ m. read m a (width 8)) m)
      | inr e ↦ rw (e, same ∙ e) refl
    ]

-- The guest function starts with its stack pointer 8 below a multiple of 16, as behind a call, and
-- at least 264 bytes below the caller's, so that the red zone of 128 bytes is kept; its first
-- argument is in rdi, and the return address on its stack is the one at which the loop ends.
-- The caller's stack pointer leaves that room, and the place can be read and written.
pub enter_guest_lem :
    (c : Cpu) (f : Frame) (target : ℕ)
    → 280 ≤ c.r rsp
    → c.r rsp < 2 ^ 64
    → access_ok c (callback_stack (c.r rsp)) 8 prot_w ≡ true
    → access_ok c (callback_stack (c.r rsp)) 8 prot_r ≡ true
    → let g = enter_guest c f target in
      ((g.r rsp + 8) % 16 ≡ 0)
      × (g.r rsp + 264 ≤ c.r rsp)
      × ((g.rip ≡ target) × (g.r rdi ≡ f.x 0))
      × ((pop g).0 ≡ callback_magic)
unfolding enter_guest pop
enter_guest_lem c f target low high w ok =
    let sp = callback_stack (c.r rsp) in
    let c1 : Cpu = record c { r = with_args c.r f.x; xmm = with_floats c.xmm f.d } in
    let g = enter_guest c f target in
    let (even, under, _) = callback_stack_lem (c.r rsp) low high in
    let s = st c1 sp callback_magic 8 in
    let regs : (st c1 sp callback_magic 8).r ≡ c1.r = (st_keeps c1 sp callback_magic 8).0 in
    let same : (ld g sp 8).0 ≡ (ld s sp 8).0 = loads g s sp refl refl in
    let top : g.r rsp ≡ sp = update_self (st c1 sp callback_magic 8).r rsp sp in
    (
      ap (λ (x : ℕ). (x + 8) % 16) top ∙ even,
      omega arith,
      (refl, ap (λ r. r rdi) regs),
      ap (λ x. (ld g x 8).0) top
          ∙ same
          ∙ ap (λ (p : ℕ × Cpu). p.0) (ld-st c1 sp callback_magic 8 (inr (inr (inr refl))) w ok),
    )
