-- ===== src/Cpu/Memory/Undo.antt =====
-- `undo_writes` takes back what a block stored while it was checked (src/cpu.c).
use mathlib.Core.Path.{fun_ext, ap₂}
use rashid.Base.{
  ℕ, zero, suc, ◌+◌, ◌≤◌, ◌<◌, Bool, true, false, not, ◌≡◌, refl, sym, ap, ◌&&◌, ◌∙◌, ◌⊎◌, inl, inr,
  Option, none, some, ltb, leb, ◌==◌, if◌then◌else◌, arith, Bool-cases, update, List, [], ◌∷◌,
  length,
}
use rashid.AddressSpace
use rashid.AddressSpace.{prot_r, prot_w}
use rashid.Cpu.{IsSize}
use rashid.Cpu.State.{Cpu, Xmm, WriteLog}
use rashid.Cpu.Memory.{
  access_ok, write, width, st, logged, next_log, memfault, bytes, put_bytes, undo_writes, wlog_max,
  log_write,
}
use rashid.Cpu.Sse.Lanes.{st128}
use rashid.Cpu.Memory.RoundTrip.{write_outside, width-size}

-- Putting back n bytes of `mem`: outside of them nothing changes, inside they are those of `mem`.
put_bytes_outside :
    (n a x : ℕ) (m mem : ℕ → ℕ) → (x < a) ⊎ (a + n ≤ x) → put_bytes m a (bytes mem a n) x ≡ m x
put_bytes_outside zero a x m mem o = refl
put_bytes_outside (suc n) a x m mem o =
    put_bytes_outside n (a + 1) x (update m a (mem a)) mem (omega arith) ∙ ground arith

put_bytes_inside :
    (n a x : ℕ) (m mem : ℕ → ℕ) → a ≤ x → x < a + n → put_bytes m a (bytes mem a n) x ≡ mem x
put_bytes_inside zero a x m mem p q = absurd (omega arith)
put_bytes_inside (suc n) a x m mem p q = elim (Bool-cases (a == x)) [
  | inl e ↦
      let same : a ≡ x = ground arith in
      put_bytes_outside n (a + 1) x (update m a (mem a)) mem (omega arith) ∙ rw e (ap mem same)
  | inr e ↦ put_bytes_inside n (a + 1) x (update m a (mem a)) mem (ground arith) (omega arith)
]

-- A write of n bytes is taken back by the bytes that stood there before.
put_bytes-write :
    (n span a v : ℕ) (mem : ℕ → ℕ)
    → n ≤ span
    → put_bytes (write mem a v n) a (bytes mem a span) ≡ mem
put_bytes-write n span a v mem h = fun_ext λ x. elim (Bool-cases (leb a x && ltb x (a + span))) [
  | inl e ↦ put_bytes_inside span a x (write mem a v n) mem (ground arith) (ground arith)
  | inr e ↦
      let out : (x < a) ⊎ (a + span ≤ x) = ground arith in
      put_bytes_outside span a x (write mem a v n) mem out ∙ write_outside n a v x mem (omega arith)
]

-- The log of a cpu, and the memory that undoing it gives.
abbrev pub undone : Option WriteLog → (ℕ → ℕ) → ℕ → ℕ
undone none mem = mem
undone (some w) mem = undo_writes w.entries mem

abbrev pub fits : Option WriteLog → Bool
fits none = false
fits (some w) = not w.overflow

-- A store of 1, 2, 4 or 8 bytes, address, value and size, or one of 16 bytes.
pub data Store : Type 0 where
  narrow : ℕ → ℕ → ℕ → Store
  wide : ℕ → Xmm → Store

abbrev pub do_store : Cpu → Store → Cpu
do_store c (narrow a v size) = st c a v size
do_store c (wide a v) = st128 c a v

-- Stores, one after another.
unfoldable pub stores : Cpu → List Store → Cpu
stores c [] = c
stores c (s ∷ rest) = stores (do_store c s) rest

abbrev pub HasSize : Store → Type 0
HasSize (narrow a v size) = IsSize size
HasSize (wide a v) = Unit {0}

abbrev pub AllSizes : List Store → Type 0
AllSizes [] = Unit {0}
AllSizes (s ∷ rest) = HasSize s × AllSizes rest

span-le :
    (c : Cpu) (a size : ℕ)
    → IsSize size
    → width size ≤ (if AddressSpace.ok c.space a 16 prot_r then 16 else size)
span-le c a size i = rw (width-size size i) (cases (AddressSpace.ok c.space a 16 prot_r) i)
  where
    cases : (t : Bool) → IsSize size → size ≤ (if t then 16 else size)
    cases true i' = omega arith
    cases false i' = omega arith

next_log-undone :
    (c : Cpu) (a v size : ℕ) (o : Option WriteLog)
    → IsSize size
    → fits (next_log c a v size o) ≡ true
    → (undone (next_log c a v size o) (write c.mem a v (width size)) ≡ undone o c.mem)
      × (fits o ≡ true)
unfolding logged undo_writes
next_log-undone c a v size none i f = cc
next_log-undone c a v size (some w) i f = elim (Bool-cases (leb wlog_max (length w.entries))) [
  | inl e ↦ absurd (ground arith)
  | inr e ↦ (
    rw e (
        ap (undo_writes w.entries) (put_bytes-write (width size) _ a v c.mem (span-le c a size i))),
    ground arith,
  )
]

st_log :
    (c : Cpu) (a v size : ℕ)
    → ((st c a v size).wlog
        ≡ (if access_ok c a size prot_w then next_log c a v size c.wlog else c.wlog))
      × ((st c a v size).mem
          ≡ (if access_ok c a size prot_w then write c.mem a v (width size) else c.mem))
unfolding st memfault
st_log c a v size = elim (Bool-cases (access_ok c a size prot_w)) [
  | inl e ↦ rw e (refl, refl)
  | inr e ↦ rw e (refl, refl)
]

-- What logs and writes, or leaves both, is undone when what it logs is.
pub record IsUndone (c c' : Cpu) : Type 0 where
  pub before : undone c'.wlog c'.mem ≡ undone c.wlog c.mem
  pub room : fits c.wlog ≡ true

step_undone :
    (c c' : Cpu) (t : Bool) (o : Option WriteLog) (m : ℕ → ℕ)
    → c'.wlog ≡ (if t then o else c.wlog)
    → c'.mem ≡ (if t then m else c.mem)
    → (fits o ≡ true → (undone o m ≡ undone c.wlog c.mem) × (fits c.wlog ≡ true))
    → fits c'.wlog ≡ true
    → IsUndone c c'
step_undone c c' true o m p q h f =
    let both = h (ap fits (sym p) ∙ f) in record { before = ap₂ undone p q ∙ both.0; room = both.1 }
step_undone c c' false o m p q h f = record { before = ap₂ undone p q; room = ap fits (sym p) ∙ f }

st-IsUndone :
    (c : Cpu) (a v size : ℕ)
    → IsSize size
    → fits (st c a v size).wlog ≡ true
    → IsUndone c (st c a v size)
st-IsUndone c a v size i f =
    step_undone c (st c a v size) (access_ok c a size prot_w) _ _ (st_log c a v size).0
      (st_log c a v size).1 (next_log-undone c a v size c.wlog i) f

-- Two writes of 8 bytes side by side are taken back by the bytes that stood there before, the
-- upper ones first.
put_bytes-twice :
    (low high a v v' : ℕ) (mem : ℕ → ℕ)
    → 8 ≤ low
    → 8 ≤ high
    → let m = write (write mem a v 8) (a + 8) v' 8 in
      put_bytes (put_bytes m (a + 8) (bytes mem (a + 8) high)) a (bytes mem a low) ≡ mem
put_bytes-twice low high a v v' mem p q = fun_ext λ x.
    elim (Bool-cases (leb a x && ltb x (a + low))) [
      | inl e ↦ put_bytes_inside low a x _ mem (ground arith) (ground arith)
      | inr e ↦
          let out : (x < a) ⊎ (a + low ≤ x) = ground arith in
          put_bytes_outside low a x _ mem out
          ∙ elim (Bool-cases (leb (a + 8) x && ltb x (a + 8 + high))) [
            | inl e' ↦ put_bytes_inside high (a + 8) x _ mem (ground arith) (ground arith)
            | inr e' ↦
                let out' : (x < a + 8) ⊎ (a + 8 + high ≤ x) = ground arith in
                put_bytes_outside high (a + 8) x _ mem out'
                ∙ write_outside 8 (a + 8) v' x (write mem a v 8) (omega arith)
                ∙ write_outside 8 a v x mem (omega arith)
          ]
    ]

span_wide : (t : Bool) → 8 ≤ (if t then 16 else 8)
span_wide true = omega arith
span_wide false = omega arith

-- Both halves of 16 bytes in the log.
abbrev log_halves : Cpu → ℕ → Xmm → Option WriteLog → Option WriteLog
log_halves c a v o = next_log c (a + 8) v.q1 8 (next_log c a v.q0 8 o)

log_halves-undone :
    (c : Cpu) (a : ℕ) (v : Xmm) (o : Option WriteLog)
    → fits (log_halves c a v o) ≡ true
    → (undone (log_halves c a v o) (write (write c.mem a v.q0 8) (a + 8) v.q1 8) ≡ undone o c.mem)
      × (fits o ≡ true)
unfolding logged undo_writes
log_halves-undone c a v none f = cc
log_halves-undone c a v (some w) f = elim (Bool-cases (leb wlog_max (length w.entries))) [
  | inl e ↦ absurd (ground arith)
  | inr e ↦ elim (Bool-cases (leb wlog_max (suc (length w.entries)))) [
    | inl e' ↦ absurd (ground arith)
    | inr e' ↦ (
      rw (e, e')
          (ap (undo_writes w.entries) (
            put_bytes-twice _ _ a v.q0 v.q1 c.mem (span_wide (AddressSpace.ok c.space a 16 prot_r))
              (span_wide (AddressSpace.ok c.space (a + 8) 16 prot_r)))),
      ground arith,
    )
  ]
]

st128_log :
    (c : Cpu) (a : ℕ) (v : Xmm)
    → ((st128 c a v).wlog ≡ (if access_ok c a 16 prot_w then log_halves c a v c.wlog else c.wlog))
      × ((st128 c a v).mem ≡ (
          if access_ok c a 16 prot_w then write (write c.mem a v.q0 8) (a + 8) v.q1 8 else c.mem))
unfolding st128 memfault log_write logged
st128_log c a v = elim (Bool-cases (access_ok c a 16 prot_w)) [
  | inl e ↦ rw e (refl, refl)
  | inr e ↦ rw e (refl, refl)
]

do_store-IsUndone :
    (c : Cpu) (s : Store) → HasSize s → fits (do_store c s).wlog ≡ true → IsUndone c (do_store c s)
do_store-IsUndone c (narrow a v size) i f = st-IsUndone c a v size i f
do_store-IsUndone c (wide a v) i f =
    step_undone c (st128 c a v) (access_ok c a 16 prot_w) _ _ (st128_log c a v).0
      (st128_log c a v).1 (log_halves-undone c a v c.wlog) f

-- While the log has room, undoing what any sequence of stores of 1, 2, 4, 8 or 16 bytes has logged
-- gives back the memory that undoing the earlier log gives; from an empty log that is the memory
-- before the stores.
pub stores-undone :
    (c : Cpu) (l : List Store)
    → AllSizes l
    → fits (stores c l).wlog ≡ true
    → (undone (stores c l).wlog (stores c l).mem ≡ undone c.wlog c.mem) × (fits c.wlog ≡ true)
unfolding stores
stores-undone c [] i f = (refl, f)
stores-undone c (s ∷ rest) i f =
    let later = stores-undone (do_store c s) rest i.1 f in
    let first = do_store-IsUndone c s i.0 later.1 in (later.0 ∙ first.before, first.room)
