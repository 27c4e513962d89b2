-- ===== src/Tooling/Json/Bounds.antt =====
-- The scan for the end of an object in src/inference/tooling.cpp moves on, and its fuel is enough.
use astral_runtime.Base.{
  ℕ, zero, suc, ◌+◌, ◌<◌, Bool, true, List, length, leb, if◌then◌else◌, ◌≡◌, refl, arith,
}
use astral_runtime.Tooling.Json.{escape, after, object_end}

pub after-forward : (text : List ℕ) (p : ℕ) → p < after text p
unfolding after escape
after-forward text p = ground arith

-- The search for the end of an object gives the same answer on any two fuels that are more than the bytes
-- left, so that it never runs out of them.
pub object_end-enough :
    (text : List ℕ) (f f' depth : ℕ) (in_string : Bool) (p : ℕ)
    → length text < f + p
    → length text < f' + p
    → object_end text f depth in_string p ≡ object_end text f' depth in_string p
unfolding object_end
object_end-enough text zero zero depth in_string p lt lt' = refl
object_end-enough text zero (suc f') depth in_string p lt lt' = rw (past) refl
  where
    past : leb (length text) p ≡ true
    past = ground (arith, lt)
object_end-enough text (suc f) zero depth in_string p lt lt' = rw (past) refl
  where
    past : leb (length text) p ≡ true
    past = ground (arith, lt')
object_end-enough text (suc f) (suc f') depth in_string p lt lt' =
    rw (object_end-enough text f f' _ _ _ (further f lt) (further f' lt')) refl
  where
    further :
        (n : ℕ)
        → length text < suc n + p
        → length text < n + (if in_string then after text p else p + 1)
    further n h = ground (arith, h, after-forward text p)
