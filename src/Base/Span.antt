-- ===== src/Base/Span.antt =====
-- `AstralSpanU8` and the error codes of include/astral_rt.h.
use Prim.Native.Nat.{ℕ}
use mathlib.Core.List.{List, []}
use mathlib.Core.Bool.{Bool, true, false}
use astral_runtime.Base.Lists.{length}

-- The data pointer is null, with some length beside it, or points to the bytes.
pub data Span : Type 0 where
  null : ℕ → Span
  span : List ℕ → Span

abbrev pub span_len : Span → ℕ
span_len (null n) = n
span_len (span bs) = length bs

abbrev pub span_bytes : Span → List ℕ
span_bytes (null n) = []
span_bytes (span bs) = bs

abbrev pub span_null : Span → Bool
span_null (null n) = true
span_null (span bs) = false

-- `AstralErr`.
pub data Err : Type 0 where
  ok invalid nomem busy timeout bad_state backend canceled unsupported not_found : Err
