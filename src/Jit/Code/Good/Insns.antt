-- ===== src/Jit/Code/Good/Insns.antt =====
-- The generators for one instruction (src/jit.c) write inside of their buffer.
use rashid.Base.{ℕ, Bool, true, false, Option, none, some}
use rashid.Jit.Constant.{Buf}
use rashid.Jit.Words.{Layout}
use rashid.Jit.Liveness.{Kind}
use rashid.Jit.Decode.Common.{Decoded, Sse}
use rashid.Jit.Code.{Helpers}
use rashid.Jit.Code.Insns.{
  put_result, put_reg_op, put_reg_mem, put_shifted, put_shift, put_imul, put_setcc, put_movx,
  put_source, put_back, put_mem_op, put_lea, put_push, put_pop, put_jmp, put_jcc, put_push_next,
  put_call_rel, put_ret, put_call_mem, put_jmp_mem, put_fields, put_kind, put_insn,
}
use rashid.Jit.Code.Good.{Good, put_flags-Good, put_set_rip-Good, put_leave-Good, full-Good}
use rashid.Jit.Code.Good.Words.{
  put_op-Good, put_rd_reg-Good, put_wr_reg-Good, put_cond_even-Good, put_ea-Good,
}
use rashid.Jit.Code.Good.Sse.{memory_laws, put_sse-Good}

ruleset insn_laws = (
  memory_laws, put_flags-Good, put_set_rip-Good, put_leave-Good, put_op-Good, put_rd_reg-Good,
  put_wr_reg-Good, put_cond_even-Good, put_ea-Good,
)

module _ (l : Layout) (h : Helpers) (o : Decoded) {m : ℕ} where
  put_result-Good : {b : Buf} (need : ℕ) → Good m b → Good m (put_result l h b o need)
  unfolding put_result
  put_result-Good need g = search insn_laws depth 8

  put_reg_op-Good :
      {b : Buf} (need : ℕ) (is_imm : Bool) → Good m b → Good m (put_reg_op l h b o need is_imm)
  unfolding put_reg_op
  put_reg_op-Good need is_imm g = search (insn_laws, put_result-Good) depth 8

  put_reg_mem-Good : {b : Buf} (rip need : ℕ) → Good m b → Good m (put_reg_mem l h b o rip need)
  unfolding put_reg_mem
  put_reg_mem-Good rip need g = search (insn_laws, put_result-Good) depth 8

  put_shifted-Good : {b : Buf} (rip : ℕ) → Good m b → Good m (put_shifted l h b o rip)
  unfolding put_shifted
  put_shifted-Good rip g = search insn_laws depth 12

  put_shift-Good : {b : Buf} (rip : ℕ) → Good m b → Good m (put_shift l h b o rip)
  unfolding put_shift
  put_shift-Good rip g = search (insn_laws, put_shifted-Good) depth 20

  put_imul-Good : {b : Buf} (rip need : ℕ) → Good m b → Good m (put_imul l h b o rip need)
  unfolding put_imul
  put_imul-Good rip need g = search insn_laws depth 12

  put_setcc-Good : {b : Buf} (rip : ℕ) → Good m b → Good m (put_setcc l h b o rip)
  unfolding put_setcc
  put_setcc-Good rip g = search insn_laws depth 12

  put_movx-Good : {b : Buf} (rip : ℕ) → Good m b → Good m (put_movx l h b o rip)
  unfolding put_movx
  put_movx-Good rip g = search insn_laws depth 8

  put_source-Good : {b : Buf} (is_imm : Bool) → Good m b → Good m (put_source l b o is_imm)
  unfolding put_source
  put_source-Good is_imm g = search insn_laws

  put_back-Good : {b : Buf} (size : ℕ) → Good m b → Good m (put_back l h b size)
  unfolding put_back
  put_back-Good size g = search insn_laws

  put_mem_op-Good :
      {b : Buf} (rip need : ℕ) (is_imm : Bool)
      → Good m b
      → Good m (put_mem_op l h b o rip need is_imm)
  unfolding put_mem_op
  put_mem_op-Good rip need is_imm g = search (insn_laws, put_source-Good, put_back-Good) depth 12

  put_lea-Good : {b : Buf} → Good m b → Good m (put_lea l b o)
  unfolding put_lea
  put_lea-Good g = search insn_laws

  put_push-Good : {b : Buf} (rip : ℕ) → Good m b → Good m (put_push l h b o rip)
  unfolding put_push
  put_push-Good rip g = search insn_laws

  put_pop-Good : {b : Buf} (rip : ℕ) → Good m b → Good m (put_pop l h b o rip)
  unfolding put_pop
  put_pop-Good rip g = search insn_laws

  put_jmp-Good : {b : Buf} → Good m b → Good m (put_jmp b o)
  unfolding put_jmp
  put_jmp-Good g = search insn_laws

  put_jcc-Good : {b : Buf} → Good m b → Good m (put_jcc l b o)
  unfolding put_jcc
  put_jcc-Good g = search insn_laws

  put_push_next-Good : {b : Buf} → Good m b → Good m (put_push_next l h b o)
  unfolding put_push_next
  put_push_next-Good g = search insn_laws

  put_call_rel-Good : {b : Buf} (rip : ℕ) → Good m b → Good m (put_call_rel l h b o rip)
  unfolding put_call_rel
  put_call_rel-Good rip g = search (insn_laws, put_push_next-Good)

  put_ret-Good : {b : Buf} (rip : ℕ) → Good m b → Good m (put_ret l h b o rip)
  unfolding put_ret
  put_ret-Good rip g = search insn_laws depth 12

  put_call_mem-Good : {b : Buf} (rip : ℕ) → Good m b → Good m (put_call_mem l h b o rip)
  unfolding put_call_mem
  put_call_mem-Good rip g = search (insn_laws, put_push_next-Good) depth 12

  put_jmp_mem-Good : {b : Buf} (rip : ℕ) → Good m b → Good m (put_jmp_mem l h b o rip)
  unfolding put_jmp_mem
  put_jmp_mem-Good rip g = search insn_laws depth 8

put_fields-Good :
    {m : ℕ} {b : Buf} (l : Layout) (h : Helpers) (o : Decoded) (rip : ℕ) (x : Option Sse)
    → Good m b
    → Good m (put_fields l h b o rip x)
unfolding put_fields
put_fields-Good l h o rip none g = full-Good g
put_fields-Good l h o rip (some x) g = put_sse-Good l h o x rip g

put_kind-Good :
    {m : ℕ} {b : Buf} (k : Kind) (l : Layout) (h : Helpers) (o : Decoded) (rip need : ℕ)
    → Good m b
    → Good m (put_kind k l h b o rip need)
unfolding put_kind
put_kind-Good Kind.nop l h o rip need g = g
put_kind-Good Kind.sse l h o rip need g = put_fields-Good l h o rip o.sse g
put_kind-Good Kind.rr l h o rip need g = put_reg_op-Good l h o need false g
put_kind-Good Kind.ri l h o rip need g = put_reg_op-Good l h o need true g
put_kind-Good Kind.rm l h o rip need g = put_reg_mem-Good l h o rip need g
put_kind-Good Kind.shift l h o rip need g = put_shift-Good l h o rip g
put_kind-Good Kind.imul l h o rip need g = put_imul-Good l h o rip need g
put_kind-Good Kind.setcc l h o rip need g = put_setcc-Good l h o rip g
put_kind-Good Kind.movx l h o rip need g = put_movx-Good l h o rip g
put_kind-Good Kind.mr l h o rip need g = put_mem_op-Good l h o rip need false g
put_kind-Good Kind.mi l h o rip need g = put_mem_op-Good l h o rip need true g
put_kind-Good Kind.lea l h o rip need g = put_lea-Good l h o g
put_kind-Good Kind.push l h o rip need g = put_push-Good l h o rip g
put_kind-Good Kind.pop l h o rip need g = put_pop-Good l h o rip g
put_kind-Good Kind.jmp l h o rip need g = put_jmp-Good l h o g
put_kind-Good Kind.jcc l h o rip need g = put_jcc-Good l h o g
put_kind-Good Kind.call l h o rip need g = put_call_rel-Good l h o rip g
put_kind-Good Kind.ret l h o rip need g = put_ret-Good l h o rip g
put_kind-Good Kind.callm l h o rip need g = put_call_mem-Good l h o rip g
put_kind-Good Kind.jmpm l h o rip need g = put_jmp_mem-Good l h o rip g

-- Whatever was decoded, the code for one instruction stays inside of the buffer: at most `m` words,
-- at most 256 places to patch, and each place is that of a word, unless the buffer is marked full.
-- The buffer is such a one before.
pub put_insn-Good :
    {m : ℕ} {b : Buf} (l : Layout) (h : Helpers) (o : Decoded) (rip need : ℕ)
    → Good m b
    → Good m (put_insn l h b o rip need)
unfolding put_insn
put_insn-Good l h o rip need g = put_kind-Good o.kind l h o rip need g
