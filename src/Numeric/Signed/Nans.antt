-- ===== src/Numeric/Signed/Nans.antt =====
-- src/pg_type_numeric_def.cpp: what the operators make of `nan`.
use pq_async.Common.{
  ℕ, zero, suc, ◌≡◌, refl, ap, sym, subst, true, ℤ, pos, negsuc, ◌+ℤ◌, ◌-ℤ◌, arith,
}
use pq_async.Numeric.{
  Numeric, Sign, numeric_pos, numeric_neg, numeric_nan, numeric, nan, cmp_abs, cmp_var, add_abs,
  sub_abs,
}
use pq_async.Numeric.Digits.{prefix-nil}
use pq_async.Numeric.Signed.{subtract_signed, add_signs, add_var, plus, eq}
use pq_async.Numeric.Signed.Exact.{value_at, IsNumber, Counts, recount, add_var-Counts}
use pq_async.Numeric.Strip.{places}

-- A zero with a minus sign.
abbrev minus_zero : Numeric
minus_zero = record numeric { sign = numeric_neg }

minus_zero-IsNumber : (k : ℕ) → IsNumber k minus_zero
minus_zero-IsNumber k = record { fits = omega arith; digits = tt; stripped = tt; has_sign = tt }

value-minus_zero : (k : ℕ) → value_at k minus_zero ≡ pos 0
value-minus_zero k = ap (λ (n : ℕ). pos 0 -ℤ pos n) (prefix-nil (places k (pos 0)))

subtract_zero :
    (c : ℤ) (g l : Sign) (a r : Numeric)
    → subtract_signed c g l a nan r ≡ subtract_signed c g l a minus_zero r
unfolding subtract_signed sub_abs
subtract_zero (pos zero) g l a r = refl
subtract_zero (pos (suc n)) g l a r = refl
subtract_zero (negsuc n) g l a r = refl

subtract_from_zero :
    (c : ℤ) (g l : Sign) (a r : Numeric)
    → subtract_signed c g l nan a r ≡ subtract_signed c g l minus_zero a r
unfolding subtract_signed sub_abs
subtract_from_zero (pos zero) g l a r = refl
subtract_from_zero (pos (suc n)) g l a r = refl
subtract_from_zero (negsuc n) g l a r = refl

-- Each branch takes `nan` for that zero.
as_minus_zero :
    (s : Sign) (a r : Numeric)
    → add_signs s numeric_nan a nan r ≡ add_signs s numeric_neg a minus_zero r
unfolding add_signs cmp_abs add_abs
as_minus_zero numeric_pos a r = subtract_zero (cmp_abs a nan) numeric_pos numeric_neg a r
as_minus_zero numeric_neg a r = refl
as_minus_zero numeric_nan a r = refl

from_minus_zero :
    (s : Sign) (a r : Numeric)
    → add_signs numeric_nan s nan a r ≡ add_signs numeric_neg s minus_zero a r
unfolding add_signs cmp_abs add_abs
from_minus_zero numeric_pos a r = subtract_from_zero (cmp_abs nan a) numeric_neg numeric_pos a r
from_minus_zero numeric_neg a r = refl
from_minus_zero numeric_nan a r = refl

right_zero : (x y : ℤ) → y ≡ pos 0 → x +ℤ y ≡ x
right_zero x y e = rw e (ground arith)

left_zero : (x y : ℤ) → y ≡ pos 0 → y +ℤ x ≡ x
left_zero x y e = rw e (ground arith)

-- `nan` is taken for 0: `nan` equals 0, and a sum of a number and `nan`, in either order, is a
-- number again and counts what the number does.
pub nan_sums :
    (k : ℕ) (a : Numeric)
    → IsNumber k a
    → (eq nan numeric ≡ true)
      × Counts k (value_at k a) (plus a nan)
      × Counts k (value_at k a) (plus nan a)
unfolding plus add_var eq cmp_var
nan_sums k a p =
    let z = minus_zero-IsNumber k in
    (
      refl,
      subst (Counts k (value_at k a)) (sym (as_minus_zero a.sign a numeric)) (
          recount (right_zero (value_at k a) (value_at k minus_zero) (value-minus_zero k))
            (add_var-Counts k a minus_zero numeric p z)),
      subst (Counts k (value_at k a)) (sym (from_minus_zero a.sign a numeric)) (
          recount (left_zero (value_at k a) (value_at k minus_zero) (value-minus_zero k))
            (add_var-Counts k minus_zero a numeric z p)),
    )
