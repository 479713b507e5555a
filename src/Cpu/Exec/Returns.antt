-- ===== src/Cpu/Exec/Returns.antt =====
-- src/cpu.c, `step`: a call and its return.
use rashid.Base.{
  ℕ, ◌+◌, ◌^◌, ◌<◌, true, ◌≡◌, refl, add64, sub64, update, update_self, arith, ap, ◌∙◌,
}
use rashid.AddressSpace.{prot_r, prot_w}
use rashid.Cpu.{extend}
use rashid.Cpu.State.{Cpu, rsp}
use rashid.Cpu.Memory.{ld, read, access_ok}
use rashid.Cpu.Registers.{push, pop}
use rashid.Cpu.Memory.RoundTrip.{st_keeps, access_ok-st}
use rashid.Cpu.Registers.Stack.{pop-push}
use rashid.Cpu.Decode.{Decoder, fetch, dec_rip}
use rashid.Cpu.Exec.Flow.{call_rel, ret}

-- A pop that does not fault answers the same wherever rip stands.
pop-rip :
    (c : Cpu) (t : ℕ)
    → access_ok c (c.r rsp) 8 prot_r ≡ true
    → ((pop (record c { rip = t })).0 ≡ (pop c).0)
      × ((i : ℕ) → (pop (record c { rip = t })).1.r i ≡ (pop c).1.r i)
unfolding pop ld access_ok
pop-rip c t ok = (rw ok refl, λ i. rw ok refl)

-- What PUSH leaves can be read from the stack when the place it writes can be read.
push-access_ok :
    (c : Cpu) (v : ℕ)
    → access_ok c (sub64 (c.r rsp) 8) 8 prot_r ≡ true
    → access_ok (push c v) ((push c v).r rsp) 8 prot_r ≡ true
unfolding push
push-access_ok c v ok =
    let sp = sub64 (c.r rsp) 8 in
    let c1 : Cpu = record c { r = update c.r rsp sp } in
    let top : (push c v).r rsp ≡ sp =
      ap (λ f. f rsp) ((st_keeps c1 sp v 8).0) ∙ update_self c.r rsp sp in
    ap (λ a. access_ok (push c v) a 8 prot_r) top ∙ access_ok-st c1 sp v 8 sp 8 prot_r ∙ ok

-- CALL goes to the displacement behind the instruction, and RET comes back to the end of the CALL
-- with every register as it was, where the stack below the stack pointer can be read and written.
pub ret-call_rel :
    (c : Cpu) (d : Decoder)
    → c.r rsp < 2 ^ 64
    → access_ok c (sub64 (c.r rsp) 8) 8 prot_w ≡ true
    → access_ok c (sub64 (c.r rsp) 8) 8 prot_r ≡ true
    → let back = dec_rip (record d { p = d.p + 4 }) in
      ((call_rel c d).rip ≡ add64 back (extend 32 (read c.mem d.p 4)))
      × ((ret (call_rel c d)).rip ≡ back)
      × ((i : ℕ) → (ret (call_rel c d)).r i ≡ c.r i)
unfolding call_rel ret fetch access_ok push
ret-call_rel c d h w ok =
    let back = dec_rip (record d { p = d.p + 4 }) in
    let c1 : Cpu = record c { rip = back } in
    let target = add64 ((push c1 back).rip) (extend 32 (read c.mem d.p 4)) in
    let (value, regs) = pop-push c1 back h (omega arith) w ok in
    let (same, same_r) = pop-rip (push c1 back) target (push-access_ok c1 back ok) in
    let pushed : Cpu = record c1 { r = update c.r rsp (sub64 (c.r rsp) 8) } in
    let (_, _, _, stays) = st_keeps pushed (sub64 (c.r rsp) 8) back 8 in
    (ap (λ t. add64 t (extend 32 (read c.mem d.p 4))) stays, same ∙ value, λ i. same_r i ∙ regs i)
