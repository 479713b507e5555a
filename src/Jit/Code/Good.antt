-- ===== src/Jit/Code/Good.antt =====
-- src/jit.c: the generators write inside of their buffer, and note places to patch inside of it.
pub mod Words
pub mod Sse
pub mod Insns
use rashid.Base.{
  ℕ, zero, suc, ◌+◌, ◌≤◌, ◌<◌, ◌≡◌, ◌⊎◌, ◌∙◌, ap, inl, inr, refl, Bool, true, false, not, ◌&&◌,
  ◌||◌, Option, none, some, List, [], ◌∷◌, ltb, leb, ◌==◌, if◌then◌else◌, length, arith, Bool-cases,
  if_both, by_test, sub64, bit_and,
}
use rashid.Cpu.{has}
use rashid.Cpu.Flags.{f_cf, f_pf, f_af, f_zf, f_sf, f_of}
use rashid.Emit
use rashid.Emit.{Transfer, transfer, cbz_w, bcond}
use rashid.Jit.Constant.{Buf, put, put_imm, put_when}
use rashid.Jit.Words.{Layout, cpu_reg, Routine, put_call, put_set_rip, put_leave}
use rashid.Jit.Code.{
  Helpers, puts, here, replace, patch, note_fix, put_fault_check, put_flags_inline, put_nzcv,
  put_flags, put_flag_args, put_again, put_patch_b, put_patch_bcond, put_region_check, put_load,
  put_store, put_wlog,
}

-- Places below n.
abbrev pub Below : ℕ → List ℕ → Type 0
Below n [] = Unit {0}
Below n (x ∷ xs) = (x < n) × Below n xs

Below-weaken : (m n : ℕ) (xs : List ℕ) → m ≤ n → Below m xs → Below n xs
Below-weaken m n [] p h = tt
Below-weaken m n (x ∷ xs) p h = (omega arith, Below-weaken m n xs p h.1)

-- A buffer of at most m words, with 256 places to patch at most; unless it is full, each of them
-- is the place of a word.
pub record Good (m : ℕ) (b : Buf) : Type 0 where
  pub max : b.max ≡ m
  pub room : length b.out ≤ m
  pub places : length b.fix ≤ 256
  pub inside : (b.full ≡ true) ⊎ Below (length b.out) b.fix

-- The same where the place of the next word is noted.
record Near (m : ℕ) (b : Buf) : Type 0 where
  pub max : b.max ≡ m
  pub room : length b.out ≤ m
  pub places : length b.fix ≤ 256
  pub inside : (b.full ≡ true) ⊎ Below (suc (length b.out)) b.fix

-- A word goes behind the last one, or nowhere.
put-Near : {m : ℕ} (b : Buf) (w : ℕ) → Near m b → Good m (put b w)
unfolding put
put-Near {m} b w g =
    by_test (Good m) (leb b.max (length b.out))
      (λ _. record { max = g.max; room = g.room; places = g.places; inside = inl refl })
      (λ e. record {
        max = g.max;
        room = ground (arith, g.max);
        places = g.places;
        inside = g.inside;
      })

wider : {A : Type 0} (n : ℕ) (xs : List ℕ) → A ⊎ Below n xs → A ⊎ Below (suc n) xs
wider n xs (inl e) = inl e
wider n xs (inr h) = inr (Below-weaken n (suc n) xs (omega arith) h)

pub put-Good : {m : ℕ} {b : Buf} (w : ℕ) → Good m b → Good m (put b w)
put-Good {m} {b} w g = put-Near b w (record {
  max = g.max;
  room = g.room;
  places = g.places;
  inside = wider (length b.out) b.fix g.inside;
})

pub puts-Good : {m : ℕ} (ws : List ℕ) {b : Buf} → Good m b → Good m (puts b ws)
unfolding puts
puts-Good [] g = g
puts-Good {m} (w ∷ ws) {b} g = puts-Good {m = m} ws {b = put b w} (put-Good w g)

pub if-Good : {m : ℕ} {a b : Buf} (t : Bool) → Good m a → Good m b → Good m (if t then a else b)
if-Good true ga gb = ga
if-Good false ga gb = gb

put_when-Good : {m : ℕ} {b : Buf} (t : Bool) (w : ℕ) → Good m b → Good m (put_when t b w)
unfolding put_when
put_when-Good true w g = put-Good w g
put_when-Good false w g = g

pub put_imm-Good : {m : ℕ} {b : Buf} (reg v : ℕ) → Good m b → Good m (put_imm b reg v)
unfolding put_imm
put_imm-Good reg v g = search (put_when-Good, put-Good)

pub full-Good : {m : ℕ} {b : Buf} → Good m b → Good m (record b { full = true })
full-Good g = record { max = g.max; room = g.room; places = g.places; inside = inl refl }

length-replace : (ws : List ℕ) (at word : ℕ) → length (replace ws at word) ≡ length ws
unfolding replace
length-replace [] at word = refl
length-replace (w ∷ ws) at word =
    if_both (λ (r : List ℕ). length r ≡ suc (length ws)) (length ws == at) refl
      (ap suc (length-replace ws at word))

pub patch-Good : {m : ℕ} {b : Buf} (at word : ℕ) → Good m b → Good m (patch b at word)
unfolding patch
patch-Good {m} {b} at word g =
    by_test (Good m) b.full (λ _. g)
      (λ _. record {
        max = g.max;
        room = rw (length-replace b.out at word) g.room;
        places = g.places;
        inside = rw (length-replace b.out at word) g.inside;
      })

noted : {A : Type 0} (n : ℕ) (xs : List ℕ) → A ⊎ Below n xs → A ⊎ Below (suc n) (n ∷ xs)
noted n xs (inl e) = inl e
noted n xs (inr h) = inr (omega arith, Below-weaken n (suc n) xs (omega arith) h)

note_fix-Near : {m : ℕ} (b : Buf) → Good m b → Near m (note_fix b)
unfolding note_fix
note_fix-Near {m} b g =
    by_test (Near m) (ltb (length b.fix) 256 && not b.full)
      (λ e. record {
        max = g.max;
        room = g.room;
        places = ground arith;
        inside = noted (length b.out) b.fix g.inside;
      })
      (λ _. record { max = g.max; room = g.room; places = g.places; inside = inl refl })

pub put_fault_check-Good : {m : ℕ} {b : Buf} (l : Layout) → Good m b → Good m (put_fault_check l b)
unfolding put_fault_check
put_fault_check-Good l g = put-Near _ _ (note_fix-Near _ (put-Good _ g))

pub put_call-Good : {m : ℕ} {b : Buf} (fn : ℕ) → Good m b → Good m (put_call b fn)
unfolding put_call
put_call-Good fn g = search (put-Good, put_imm-Good)

pub put_set_rip-Good :
    {m : ℕ} {b : Buf} (l : Layout) (rip : ℕ) → Good m b → Good m (put_set_rip l b rip)
unfolding put_set_rip
put_set_rip-Good l rip g = search (put-Good, put_imm-Good)

pub put_leave-Good : {m : ℕ} {b : Buf} → Good m b → Good m (put_leave b)
unfolding put_leave
put_leave-Good g = search put-Good

pub ruleset put_laws =
    (put-Good, puts-Good, put_imm-Good, patch-Good, put_fault_check-Good, put_call-Good, if-Good)

put_nzcv-Good :
    {m : ℕ} {b : Buf} (fn : Routine) (need f at cond : ℕ)
    → Good m b
    → Good m (put_nzcv fn need b f at cond)
unfolding put_nzcv
put_nzcv-Good fn need f at cond g = search put_laws

put_again-Good : {m : ℕ} {b : Buf} (fn : Routine) (w : Bool) → Good m b → Good m (put_again fn w b)
unfolding put_again
put_again-Good fn w g = search put_laws

put_flags_inline-Good :
    {m : ℕ} {b : Buf} (l : Layout) (fn : Routine) (need : ℕ) (w : Bool)
    → Good m b
    → Good m (put_flags_inline l b fn need w)
unfolding put_flags_inline
put_flags_inline-Good l fn need w g = search (put_laws, put_nzcv-Good, put_again-Good) depth 20

put_flag_args-Good :
    {m : ℕ} {b : Buf} (fn : Routine) (size : ℕ) → Good m b → Good m (put_flag_args b fn size)
unfolding put_flag_args
put_flag_args-Good Routine.logic size g = search put_laws
put_flag_args-Good Routine.inc size g = search put_laws
put_flag_args-Good Routine.dec size g = search put_laws
put_flag_args-Good Routine.add size g = search put_laws
put_flag_args-Good Routine.sub size g = search put_laws

pub put_flags-Good :
    {m : ℕ} {b : Buf} (l : Layout) (h : Helpers) (need : ℕ) (fn : Option Routine) (size : ℕ)
    → Good m b
    → Good m (put_flags l h b need fn size)
unfolding put_flags
put_flags-Good l h need none size g = g
put_flags-Good l h need (some fn) size g =
    search (put_laws, put_flags_inline-Good, put_flag_args-Good)

put_region_check-Good :
    {m : ℕ} {b : Buf} (l : Layout) (h : Helpers) (is_write : Bool)
    → Good m b
    → Good m (put_region_check l h b is_write).0
unfolding put_region_check put_patch_bcond
put_region_check-Good l h is_write g = search put_laws depth 20

pub put_load-Good :
    {m : ℕ} {b : Buf} (l : Layout) (h : Helpers) (size : ℕ)
    → Good m b
    → Good m (put_load l h b size)
unfolding put_load put_patch_bcond put_patch_b
put_load-Good l h size g = search (put_laws, put_region_check-Good) depth 20

put_wlog-Good :
    {m : ℕ} {b : Buf} (l : Layout) (h : Helpers) (size : ℕ)
    → Good m b
    → Good m (put_wlog l h b size)
unfolding put_wlog
put_wlog-Good l h size g = search put_laws

pub put_store-Good :
    {m : ℕ} {b : Buf} (l : Layout) (h : Helpers) (size : ℕ)
    → Good m b
    → Good m (put_store l h b size)
unfolding put_store put_patch_bcond put_patch_b
put_store-Good l h size g = search (put_laws, put_region_check-Good, put_wlog-Good) depth 20
