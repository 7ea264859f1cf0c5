-- ===== src/Numeric/Signed.antt =====
-- src/pg_type_numeric_def.cpp: add_var, sub_var and the operators of `numeric`.
pub mod Exact
pub mod Ordered
pub mod Laws
pub mod Nans
use pq_async.Common.{ℤ, zero, suc, pos, negsuc, [], ◌∷◌, Bool, not, ltb_ℤ, eqb_ℤ}
use pq_async.Numeric.{
  Numeric, Sign, numeric_pos, numeric_neg, numeric_nan, numeric, zero_var, copy_var_to_var, max_ℤ,
  cmp_abs, cmp_var, add_abs, sub_abs,
}

-- `result->sign = ...`
abbrev pub set_sign : Sign → Numeric → Numeric
set_sign sign var = record var { sign = sign }

-- The signs of a difference of absolute values: where the first is greater, and where it is less.
-- The argument is what `cmp_abs` returns.
unfoldable pub subtract_signed : ℤ → Sign → Sign → Numeric → Numeric → Numeric → Numeric
subtract_signed (pos zero) greater less var1 var2 result = record (zero_var result) {
  dscale = max_ℤ var1.dscale var2.dscale;
}
subtract_signed (pos (suc n)) greater less var1 var2 result =
    set_sign greater (sub_abs var1 var2 result)
subtract_signed (negsuc n) greater less var1 var2 result = set_sign less (sub_abs var2 var1 result)

unfoldable pub add_signs : Sign → Sign → Numeric → Numeric → Numeric → Numeric
add_signs numeric_pos numeric_pos var1 var2 result = set_sign numeric_pos (add_abs var1 var2 result)
add_signs numeric_pos _ var1 var2 result =
    subtract_signed (cmp_abs var1 var2) numeric_pos numeric_neg var1 var2 result
add_signs _ numeric_pos var1 var2 result =
    subtract_signed (cmp_abs var1 var2) numeric_neg numeric_pos var1 var2 result
add_signs _ _ var1 var2 result = set_sign numeric_neg (add_abs var1 var2 result)

unfoldable pub add_var : Numeric → Numeric → Numeric → Numeric
add_var var1 var2 result = add_signs var1.sign var2.sign var1 var2 result

unfoldable pub sub_signs : Sign → Sign → Numeric → Numeric → Numeric → Numeric
sub_signs numeric_pos numeric_neg var1 var2 result = set_sign numeric_pos (add_abs var1 var2 result)
sub_signs numeric_pos _ var1 var2 result =
    subtract_signed (cmp_abs var1 var2) numeric_pos numeric_neg var1 var2 result
sub_signs _ numeric_neg var1 var2 result =
    subtract_signed (cmp_abs var1 var2) numeric_neg numeric_pos var1 var2 result
sub_signs _ _ var1 var2 result = set_sign numeric_neg (add_abs var1 var2 result)

unfoldable pub sub_var : Numeric → Numeric → Numeric → Numeric
sub_var var1 var2 result = sub_signs var1.sign var2.sign var1 var2 result

-- `const_one`
abbrev pub const_one : Numeric
const_one = record numeric { digits = 1 ∷ [] }

-- `operator+` and `operator-`
unfoldable pub plus : Numeric → Numeric → Numeric
plus a b = add_var a b numeric

unfoldable pub minus : Numeric → Numeric → Numeric
minus a b = sub_var a b numeric

-- `operator+=` and `operator-=`
unfoldable pub add_assign : Numeric → Numeric → Numeric
add_assign a b = copy_var_to_var (add_var a b numeric)

unfoldable pub sub_assign : Numeric → Numeric → Numeric
sub_assign a b = copy_var_to_var (sub_var a b numeric)

-- `operator++` and `operator--`
unfoldable pub increment : Numeric → Numeric
increment a = copy_var_to_var (add_var a const_one numeric)

unfoldable pub decrement : Numeric → Numeric
decrement a = copy_var_to_var (sub_var a const_one numeric)

-- `operator==` and the others, by `numeric::cmp`
unfoldable pub eq : Numeric → Numeric → Bool
eq a b = eqb_ℤ (cmp_var a b) (pos 0)

unfoldable pub ne : Numeric → Numeric → Bool
ne a b = not (eqb_ℤ (cmp_var a b) (pos 0))

unfoldable pub lt : Numeric → Numeric → Bool
lt a b = ltb_ℤ (cmp_var a b) (pos 0)

unfoldable pub gt : Numeric → Numeric → Bool
gt a b = ltb_ℤ (pos 0) (cmp_var a b)

unfoldable pub le : Numeric → Numeric → Bool
le a b = not (ltb_ℤ (pos 0) (cmp_var a b))

unfoldable pub ge : Numeric → Numeric → Bool
ge a b = not (ltb_ℤ (cmp_var a b) (pos 0))
