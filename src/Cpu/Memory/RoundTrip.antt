-- ===== src/Cpu/Memory/RoundTrip.antt =====
-- A value that was stored is loaded again (src/cpu.c, ld and st).
use native.Mathlib.Nat.{mod_def, div-div-eq-div-mul, pow-suc}
use rashid.Base.{
  ℕ, zero, suc, ◌+◌, ◌*◌, ◌/◌, ◌%◌, ◌^◌, ◌≤◌, ◌<◌, true, false, ◌≡◌, refl, ap, ◌∙◌, ◌⊎◌, inl, inr,
  none, some, arith, Bool-cases, update, clash,
}
use rashid.AddressSpace
use rashid.AddressSpace.{prot_r, prot_w, allows}
use rashid.AddressSpace.Sorted.{IsSorted}
use rashid.AddressSpace.Access.{byte_ok, ok_iff, mapped_iff}
use rashid.Cpu.{IsSize}
use rashid.Cpu.State.{Cpu, Fault}
use rashid.Cpu.Memory.{access_ok, read, write, width, ld, st, memfault, why}

pub write_outside : (n a v x : ℕ) (mem : ℕ → ℕ) → (x < a) ⊎ (a + n ≤ x) → write mem a v n x ≡ mem x
write_outside zero a v x mem o = refl
write_outside (suc n) a v x mem o =
    write_outside n (a + 1) (v / 256) x (update mem a (v % 256)) (omega arith) ∙ ground arith

split_mod : (v m : ℕ) → v % (256 * m) ≡ v % 256 + 256 * (v / 256 % m)
split_mod v m = omega (
  arith,
  mod_def v (256 * m),
  mod_def (v / 256) m,
  ap (λ (t : ℕ). m * t) (div-div-eq-div-mul v 256 m),
)

pub read-write : (n a v : ℕ) (mem : ℕ → ℕ) → read (write mem a v n) a n ≡ v % 256 ^ n
read-write zero a v mem = omega arith
read-write (suc n) a v mem =
    let low = write_outside n (a + 1) (v / 256) a (update mem a (v % 256)) (omega arith) in
    let here : update mem a (v % 256) a ≡ v % 256 = ground arith in
    let rest = read-write n (a + 1) (v / 256) (update mem a (v % 256)) in
    let pow : 256 * 256 ^ n ≡ 256 ^ suc n = omega (arith, pow-suc 256 n) in
    omega (arith, low ∙ here, rest, split_mod v (256 ^ n), ap (λ (t : ℕ). v % t) pow)

pub mem-st :
    (c : Cpu) (a v size : ℕ)
    → access_ok c a size prot_w ≡ true
    → (st c a v size).mem ≡ write c.mem a v (width size)
unfolding st
mem-st c a v size h = rw h

pub st_keeps :
    (c : Cpu) (a v size : ℕ)
    → ((st c a v size).r ≡ c.r)
      × ((st c a v size).space ≡ c.space)
      × ((st c a v size).flags ≡ c.flags)
      × ((st c a v size).rip ≡ c.rip)
unfolding st
st_keeps c a v size = elim (Bool-cases (access_ok c a size prot_w)) [
  | inl e ↦ rw e (refl, refl, refl, refl)
  | inr e ↦ rw e (refl, refl, refl, refl)
]

pub width-size : (size : ℕ) → IsSize size → width size ≡ size
width-size size (inl e) = rw e
width-size size (inr (inl e)) = rw e
width-size size (inr (inr (inl e))) = rw e
width-size size (inr (inr (inr e))) = rw e

pub access_ok-st :
    (c : Cpu) (a v size b n prot : ℕ) → access_ok (st c a v size) b n prot ≡ access_ok c b n prot
unfolding access_ok
access_ok-st c a v size b n prot = rw ((st_keeps c a v size).1)

-- Where both accesses are allowed, a load finds what a store of the same size put there, cut to
-- that size, and it changes nothing more.
pub ld-st :
    (c : Cpu) (a v size : ℕ)
    → IsSize size
    → access_ok c a size prot_w ≡ true
    → access_ok c a size prot_r ≡ true
    → ld (st c a v size) a size ≡ (v % 256 ^ size, st c a v size)
unfolding ld
ld-st c a v size i w h =
    let s = width-size size i in
    let value : read (st c a v size).mem a (width size) ≡ v % 256 ^ size =
      rw (mem-st c a v size w, s) (read-write size a v c.mem) in
    rw (access_ok-st c a v size a size prot_r, h) (ap (λ t. (t, st c a v size)) value)

why-mapped :
    (c : Cpu) (a n : ℕ) → AddressSpace.mapped c.space a n ≡ true → why c a n ≡ Fault.protection
unfolding why
why-mapped c a n e = rw e refl

-- A store of which one byte is not in a region that can be written, though all are in some region,
-- writes nothing and stops the run; unless an earlier fault is there to be reported, it reports a
-- fault of protection at the address. The regions are in order, and the range does not wrap.
pub st_refused :
    (c : Cpu) (a v size x : ℕ)
    → IsSorted 0 c.space.reg
    → 0 < size
    → a + size < 2 ^ 64
    → ((y : ℕ) → a ≤ y → y < a + size → byte_ok (λ _. true) c.space.reg y ≡ true)
    → (a ≤ x) × (x < a + size)
    → byte_ok (λ r. allows r prot_w) c.space.reg x ≡ false
    → ((st c a v size).mem ≡ c.mem)
      × ((st c a v size).running ≡ false)
      × (c.fault ≡ none
          → ((st c a v size).fault ≡ some Fault.protection)
            × ((st c a v size).fault_addr ≡ some a)
            × ((st c a v size).fault_rip ≡ c.cur_rip))
unfolding st memfault access_ok
st_refused c a v size x sorted pos room all (from, to) locked =
    let here : AddressSpace.mapped c.space a size ≡ true =
      (mapped_iff c.space a size sorted (omega arith) pos (omega arith)).1 (room, all) in
    let not_here : AddressSpace.ok c.space a size prot_w ≡ false =
      elim (Bool-cases (AddressSpace.ok c.space a size prot_w)) [
        | inl t ↦
            let (_, each) =
              (ok_iff c.space a size prot_w sorted (omega arith) pos (omega arith)).0 t in
            clash (byte_ok (λ r. allows r prot_w) c.space.reg x) (each x from to) locked
        | inr f ↦ f
      ] in
    rw (not_here, here) (refl, refl, λ e. rw e (ap some (why-mapped c a size here), refl, refl))
