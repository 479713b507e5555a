-- ===== src/Jit/Cache/Blocks.antt =====
-- src/jit.c, rsd_jit_lookup: a block is emitted after finitely many attempts, and fits.
use rashid.Base.{
  ℕ, zero, suc, ◌+◌, ◌≤◌, ◌<◌, ◌≡◌, ap, inl, inr, refl, Bool, true, false, some, List, [], ◌∷◌, leb,
  ◌==◌, length, take, length-take, arith, Bool-cases, by_test,
}
use rashid.Jit.Liveness.{flag_liveness}
use rashid.Jit.Constant.{Buf, put, put_imm, put_when}
use rashid.Jit.Words.{Layout, put_leave}
use rashid.Jit.Decode.Common.{Decoded}
use rashid.Jit.Code.{Helpers}
use rashid.Jit.Code.Insns.{put_insn}
use rashid.Jit.Code.Good.{Good, put_laws, put_leave-Good}
use rashid.Jit.Code.Good.Insns.{put_insn-Good}
use rashid.Jit.Cache.{Block, max_block, fields_of, emit, fresh_buf, emit_block, finish}

length-flag_liveness : (os : List Decoded) → length (flag_liveness (fields_of os)) ≡ length os
unfolding flag_liveness
length-flag_liveness [] = refl
length-flag_liveness (o ∷ os) = ap suc (length-flag_liveness os)

-- What an attempt leaves: as many instructions as there are at most, and a buffer that is not full
-- and within its bounds.
pub record Attempt (m n : ℕ) (r : Buf × ℕ × ℕ) : Type 0 where
  pub some_of : r.1 ≤ n
  pub whole : r.1 ≡ n → r.0.full ≡ false
  pub good : Good m r.0

emit-Attempt :
    (m : ℕ) (l : Layout) (h : Helpers) (b : Buf) (at : ℕ) (os : List Decoded) (needs : List ℕ)
    → length needs ≡ length os
    → b.full ≡ false
    → Good m b
    → Attempt m (length os) (emit l h b at os needs)
unfolding emit
emit-Attempt m l h b at [] needs e f g = record { some_of = omega arith; whole = λ _. f; good = g }
emit-Attempt m l h b at (o ∷ os) [] e f g = absurd (omega arith)
emit-Attempt m l h b at (o ∷ os) (need ∷ needs) e f g =
    let b' = put_insn l h b o at need in
    let g' = put_insn-Good l h o at need g in
    by_test (Attempt m (length (o ∷ os))) b'.full
      (λ _. record { some_of = omega arith; whole = λ z. absurd (omega arith); good = g' })
      (λ empty.
        let rest = emit-Attempt m l h b' o.next os needs (omega arith) empty g' in
        record {
          some_of = omega (arith, rest.some_of);
          whole = λ z. rest.whole (omega arith);
          good = rest.good;
        })

fresh_buf-Good : (check : Bool) → Good 2024 (fresh_buf check) × ((fresh_buf check).full ≡ false)
unfolding fresh_buf put
fresh_buf-Good check =
    (record { max = refl; room = omega arith; places = omega arith; inside = inr tt }, refl)

-- A block that is emitted: a buffer that is not full, and within its bounds.
abbrev pub Emitted : Buf × Block → Type 0
Emitted (b, k) = Good 2024 b × (b.full ≡ false)

emit_block-Emitted :
    (l : Layout) (h : Helpers) (check : Bool) (fuel rip : ℕ) (k : Block)
    → length k.insns < fuel
    → (r : Buf × Block) × (emit_block l h check fuel rip k ≡ some r) × Emitted r
unfolding emit_block
emit_block-Emitted l h check zero rip k p = absurd (omega arith)
emit_block-Emitted l h check (suc fuel) rip k p =
    let needs = flag_liveness (fields_of k.insns) in
    let (good, room) = fresh_buf-Good check in
    let first =
      emit-Attempt 2024 l h (fresh_buf check) rip k.insns needs (length-flag_liveness k.insns) room
        good in
    let r = emit l h (fresh_buf check) rip k.insns needs in
    elim (Bool-cases (r.1 == length k.insns)) [
      | inl e ↦ ((r.0, k), rw e refl, (first.good, first.whole (ground arith)))
      | inr e ↦
          let shorter : Block = record { insns = take r.1 k.insns; ended = false; pc = r.2 } in
          let (r', eq, done) =
            emit_block-Emitted l h check fuel rip shorter
              (ground (arith, length-take r.1 k.insns, first.some_of)) in
          (r', rw e eq, done)
    ]

-- A buffer that is not full and has room for n more words.
record Room (n : ℕ) (b : Buf) : Type 0 where
  pub empty : b.full ≡ false
  pub left : length b.out + n ≤ b.max

put-Room : {n : ℕ} {b : Buf} (w : ℕ) → Room (suc n) b → Room n (put b w)
unfolding put
put-Room {n} {b} w r =
    by_test (Room n) (leb b.max (length b.out)) (λ e. absurd (ground (arith, r.left)))
      (λ _. record { empty = r.empty; left = omega (arith, r.left) })

put_when-Room : {n : ℕ} {b : Buf} (t : Bool) (w : ℕ) → Room (suc n) b → Room n (put_when t b w)
unfolding put_when
put_when-Room true w r = put-Room w r
put_when-Room false w r = record { empty = r.empty; left = omega (arith, r.left) }

put_imm-Room :
    {n : ℕ} {b : Buf} (reg v : ℕ) → Room (suc (suc (suc (suc n)))) b → Room n (put_imm b reg v)
unfolding put_imm
put_imm-Room reg v r = search (put_when-Room, put-Room)

put_leave-Room : {n : ℕ} {b : Buf} → Room (suc (suc n)) b → Room n (put_leave b)
unfolding put_leave
put_leave-Room r = search put-Room

-- The words behind the instructions: nine at most.
finish-Room :
    (l : Layout) (b : Buf) (k : Block)
    → Room 9 (record b { max = max_block })
    → Room 0 (finish l b k).0
unfolding finish
finish-Room l b k r = put_leave-Room (
    put-Room _ (
      by_test (Room 3) k.ended (λ _. record { empty = r.empty; left = omega (arith, r.left) })
        (λ _. put_leave-Room (put_imm-Room 0 k.pc r))))

finish-Good :
    (l : Layout) (b : Buf) (k : Block)
    → Good max_block (record b { max = max_block })
    → Good max_block (finish l b k).0
unfolding finish
finish-Good l b k g = search (put_laws, put_leave-Good) depth 12

-- Whatever block was decoded, one attempt to emit more than it has instructions is enough, and what
-- comes out fits: the words for leaving the block go behind its code without filling the buffer, so
-- that the last test for a full buffer never fails; there are at most 2048 words, and each place
-- that is patched then is that of a word.
pub emit_block-finish :
    (l : Layout) (h : Helpers) (check : Bool) (rip : ℕ) (k : Block)
    → (r : Buf × Block) × (emit_block l h check (suc (length k.insns)) rip k ≡ some r)
      × ((finish l r.0 r.1).0.full ≡ false)
      × Good max_block (finish l r.0 r.1).0
emit_block-finish l h check rip k =
    let (r, e, done) = emit_block-Emitted l h check (suc (length k.insns)) rip k (omega arith) in
    let g = done.0 in
    let room = finish-Room l r.0 r.1 (record { empty = done.1; left = omega (arith, g.room) }) in
    let good =
      finish-Good l r.0 r.1 (record {
        max = refl;
        room = omega (arith, g.room);
        places = g.places;
        inside = g.inside;
      }) in
    (r, e, room.empty, good)
