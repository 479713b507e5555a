-- ===== src/Jit/Code/Good/Sse.antt =====
-- The generators for SSE instructions (src/jit.c) write inside of their buffer.
use rashid.Base.{ℕ, Bool}
use rashid.Jit.Constant.{Buf}
use rashid.Jit.Words.{Layout}
use rashid.Jit.Decode.Common.{Decoded, Sse}
use rashid.Jit.Code.{Helpers, put_patch_bcond}
use rashid.Jit.Code.Sse.{
  put_address, put_fsrc, put_scalar_move, put_copy, put_bitwise, put_nan, put_scalar, put_compare,
  put_value, put_comis, put_from_int, put_to_int, put_convert, put_sse,
}
use rashid.Jit.Code.Good.{
  Good, put_laws, put_load-Good, put_store-Good, put_set_rip-Good, full-Good,
}
use rashid.Jit.Code.Good.Words.{put_ea-Good}

pub put_address-Good :
    {m : ℕ} {b : Buf} (l : Layout) (o : Decoded) (rip : ℕ)
    → Good m b
    → Good m (put_address l b o rip)
unfolding put_address
put_address-Good l o rip g = search (put_ea-Good, put_set_rip-Good)

pub ruleset memory_laws = (put_laws, put_address-Good, put_load-Good, put_store-Good)

module _ {m : ℕ} {b : Buf} (l : Layout) (h : Helpers) (o : Decoded) (x : Sse) (rip : ℕ)
    (g : Good m b) where
  put_fsrc-Good : (dbl : Bool) → Good m (put_fsrc l h b o x rip dbl)
  unfolding put_fsrc
  put_fsrc-Good dbl = search memory_laws

  put_scalar_move-Good : Good m (put_scalar_move l h b o x rip)
  unfolding put_scalar_move
  put_scalar_move-Good = search memory_laws depth 8

  put_copy-Good : Good m (put_copy l h b o x rip)
  unfolding put_copy
  put_copy-Good = search memory_laws depth 8

  put_bitwise-Good : Good m (put_bitwise l h b o x rip)
  unfolding put_bitwise
  put_bitwise-Good = search memory_laws depth 12

  put_value-Good : (size d load : ℕ) → Good m (put_value l h b o rip size d load)
  unfolding put_value
  put_value-Good size d load = search memory_laws depth 8

put_nan-Good :
    {m : ℕ} {b : Buf} (h : Helpers) (dbl unary : Bool) → Good m b → Good m (put_nan h b dbl unary)
unfolding put_nan put_patch_bcond
put_nan-Good h dbl unary g = search put_laws depth 12

module _ {m : ℕ} {b : Buf} (l : Layout) (h : Helpers) (o : Decoded) (x : Sse) (rip : ℕ)
    (g : Good m b) where
  put_scalar-Good : Good m (put_scalar l h b o x rip)
  unfolding put_scalar
  put_scalar-Good = search (put_laws, put_fsrc-Good, put_nan-Good) depth 12

  put_compare-Good : Good m (put_compare l h b o x rip)
  unfolding put_compare
  put_compare-Good = search (put_laws, put_fsrc-Good)

  put_comis-Good : Good m (put_comis l h b o x rip)
  unfolding put_comis
  put_comis-Good = search (put_laws, put_value-Good)

  put_from_int-Good : Good m (put_from_int l h b o x rip)
  unfolding put_from_int
  put_from_int-Good = search (put_laws, put_value-Good)

  put_to_int-Good : Good m (put_to_int l h b o x rip)
  unfolding put_to_int
  put_to_int-Good = search (put_laws, put_value-Good) depth 12

  put_convert-Good : Good m (put_convert l h b o x rip)
  unfolding put_convert
  put_convert-Good = search (put_laws, put_fsrc-Good)

ruleset sse_laws = (
  put_laws, put_scalar_move-Good, put_copy-Good, put_bitwise-Good, put_scalar-Good,
  put_compare-Good, put_comis-Good, put_from_int-Good, put_to_int-Good, put_convert-Good, full-Good,
)

pub put_sse-Good :
    {m : ℕ} {b : Buf} (l : Layout) (h : Helpers) (o : Decoded) (x : Sse) (rip : ℕ)
    → Good m b
    → Good m (put_sse l h b o x rip)
unfolding put_sse
put_sse-Good l h o x rip g = search sse_laws depth 20
