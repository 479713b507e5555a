-- ===== src/Jit/Code/Good/Words.antt =====
-- The generators for registers, addresses, conditions and operations (src/jit.c) write inside of
-- their buffer.
use rashid.Base.{ℕ, if◌then◌else◌, Bool, true, false, Option, none, some}
use rashid.Emit.{ThreeRegs}
use rashid.Jit.Address
use rashid.Jit.Constant.{Buf}
use rashid.Jit.Words.{
  Layout, put_even, put_cond_even, put_rd_reg, put_wr_reg, put_disp, put_ea, put_op, flag_to, join,
  put_index, put_based, Routine,
}
use rashid.Jit.Code.Good.{Good, put_laws, put-Good, put_imm-Good, full-Good}

flag_to-Good : {m : ℕ} {b : Buf} (d lsb : ℕ) → Good m b → Good m (flag_to b d lsb)
unfolding flag_to
flag_to-Good d lsb g = search put_laws

join-Good : {m : ℕ} {b : Buf} (o : ThreeRegs) → Good m b → Good m (join b o)
unfolding join
join-Good o g = search put_laws

put_even-Good : {m : ℕ} {b : Buf} (kind : ℕ) → Good m b → Good m (put_even b kind)
unfolding put_even
put_even-Good kind g = search (put_laws, flag_to-Good, join-Good) depth 20

pub put_cond_even-Good :
    {m : ℕ} {b : Buf} (l : Layout) (cc : ℕ) → Good m b → Good m (put_cond_even l b cc)
unfolding put_cond_even
put_cond_even-Good l cc g = search (put_laws, put_even-Good)

pub put_rd_reg-Good :
    {m : ℕ} {b : Buf} (l : Layout) (dst : ℕ) (has_rex : Bool) (i size : ℕ)
    → Good m b
    → Good m (put_rd_reg l b dst has_rex i size)
unfolding put_rd_reg
put_rd_reg-Good l dst has_rex i size g = search put_laws

pub put_wr_reg-Good :
    {m : ℕ} {b : Buf} (l : Layout) (src : ℕ) (has_rex : Bool) (i size : ℕ)
    → Good m b
    → Good m (put_wr_reg l b src has_rex i size)
unfolding put_wr_reg
put_wr_reg-Good l src has_rex i size g = search put_laws depth 8

put_disp-Good : {m : ℕ} {b : Buf} (disp : ℕ) → Good m b → Good m (put_disp b disp)
unfolding put_disp
put_disp-Good disp g = search put_laws depth 8

put_index-Good :
    {m : ℕ} {b : Buf} (l : Layout) (i scale : ℕ) → Good m b → Good m (put_index l b i scale)
unfolding put_index
put_index-Good l i scale g = search put_laws

put_based-Good :
    {m : ℕ} {b : Buf} (l : Layout) (base index : Option ℕ) (scale disp : ℕ)
    → Good m b
    → Good m (put_based l b base index scale disp)
unfolding put_based
put_based-Good l none none scale disp g = put_imm-Good 1 disp g
put_based-Good l none (some i) scale disp g =
    put_disp-Good disp (put_index-Good l i scale (put-Good _ g))
put_based-Good l (some r) none scale disp g = put_disp-Good disp (put-Good _ g)
put_based-Good l (some r) (some i) scale disp g =
    put_disp-Good disp (put_index-Good l i scale (put-Good _ g))

pub put_ea-Good :
    {m : ℕ} {b : Buf} (l : Layout) (next : ℕ) (o : Address.Insn)
    → Good m b
    → Good m (put_ea l b next o)
unfolding put_ea
put_ea-Good l next o g = search (put_laws, put_based-Good)

-- The same of an answer with a flag routine.
record GoodAnswer (m : ℕ) (r : Buf × Option Routine) : Type 0 where
  pub good : Good m r.0

answer-GoodAnswer : {m : ℕ} {b : Buf} {fn : Option Routine} → Good m b → GoodAnswer m (b, fn)
answer-GoodAnswer g = record { good = g }

if-GoodAnswer :
    {m : ℕ} {a b : Buf × Option Routine} (t : Bool)
    → GoodAnswer m a
    → GoodAnswer m b
    → GoodAnswer m (if t then a else b)
if-GoodAnswer true ga gb = ga
if-GoodAnswer false ga gb = gb

put_op-GoodAnswer : {m : ℕ} {b : Buf} (op size : ℕ) → Good m b → GoodAnswer m (put_op b op size)
unfolding put_op
put_op-GoodAnswer op size g =
    search (put_laws, if-GoodAnswer, answer-GoodAnswer, full-Good) depth 20

pub put_op-Good : {m : ℕ} {b : Buf} (op size : ℕ) → Good m b → Good m (put_op b op size).0
put_op-Good op size g = (put_op-GoodAnswer op size g).good
