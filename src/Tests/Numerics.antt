-- ===== src/Tests/Numerics.antt =====
-- src/pg_type_numeric_def.cpp: numbers.
use pq_async.Common.{◌≡◌, refl, true, false, pos, negsuc, arith, [], ◌∷◌, ◌+ℤ◌, ◌-ℤ◌}
use pq_async.Numeric.{
  Numeric, numeric_neg, numeric, nan, digit, digit_at, strip_leading, keep_digit, strip_trailing,
  normalize, strip_var, skip_zeros, any_digit, compare_rests, compare_digits, compare_skipped,
  weight_left, cmp_abs_common, cmp_abs, sub_digits, sub_abs, cmp_var,
}
use pq_async.Numeric.Digits.{prefix}
use pq_async.Numeric.Signed.{
  plus, minus, add_assign, sub_assign, increment, decrement, eq, ne, lt, gt, le, ge, add_var,
  add_signs, subtract_signed,
}
use pq_async.Numeric.Signed.Exact.{value_at, IsNumber, Counts}
use pq_async.Numeric.Signed.Laws.{operators_lem, sums_lem, unit_at}
use pq_async.Numeric.Signed.Nans.{nan_sums}
use pq_async.Numeric.Signed.Ordered.{comparisons_lem, order_ℤ}

-- -1.5, 20000.25 and 0.00000007
abbrev debt : Numeric
debt = record numeric { digits = 1 ∷ (5000 ∷ []); sign = numeric_neg; dscale = pos 1 }

abbrev price : Numeric
price = record numeric { digits = 2 ∷ (0 ∷ (2500 ∷ [])); weight = pos 1; dscale = pos 2 }

abbrev tiny : Numeric
tiny = record numeric { digits = 7 ∷ []; weight = negsuc 1; dscale = pos 8 }

debt-IsNumber : IsNumber 2 debt
debt-IsNumber = record {
  fits = omega arith;
  digits = omega arith;
  stripped = omega arith;
  has_sign = tt;
}

price-IsNumber : IsNumber 2 price
price-IsNumber = record {
  fits = omega arith;
  digits = omega arith;
  stripped = omega arith;
  has_sign = tt;
}

tiny-IsNumber : IsNumber 2 tiny
tiny-IsNumber = record {
  fits = omega arith;
  digits = omega arith;
  stripped = omega arith;
  has_sign = tt;
}

operators_lem_example :
    Counts 2 (value_at 2 debt +ℤ value_at 2 price) (plus debt price)
    × Counts 2 (value_at 2 debt -ℤ value_at 2 price) (minus debt price)
    × Counts 2 (value_at 2 debt +ℤ value_at 2 price) (add_assign debt price)
    × Counts 2 (value_at 2 debt -ℤ value_at 2 price) (sub_assign debt price)
    × Counts 2 (value_at 2 debt +ℤ pos (unit_at 2)) (increment debt)
    × Counts 2 (value_at 2 debt -ℤ pos (unit_at 2)) (decrement debt)
operators_lem_example = operators_lem 2 debt price debt-IsNumber price-IsNumber

sums_lem_example :
    (eq (plus debt price) (plus price debt) ≡ true)
    × (eq (plus (plus debt price) tiny) (plus debt (plus price tiny)) ≡ true)
    × (eq (minus (plus debt price) price) debt ≡ true)
sums_lem_example = sums_lem 2 debt price tiny debt-IsNumber price-IsNumber tiny-IsNumber

comparisons_lem_example :
    (cmp_var debt tiny ≡ order_ℤ (value_at 2 debt) (value_at 2 tiny))
    × (eq debt tiny ≡ false)
    × (ne debt tiny ≡ true)
    × (lt debt tiny ≡ true)
    × (gt debt tiny ≡ false)
    × (le debt tiny ≡ true)
    × (ge debt tiny ≡ false)
unfolding digit prefix
comparisons_lem_example = comparisons_lem 2 debt tiny debt-IsNumber tiny-IsNumber

nan_sums_example :
    (eq nan numeric ≡ true)
    × Counts 2 (value_at 2 price) (plus price nan)
    × Counts 2 (value_at 2 price) (plus nan price)
nan_sums_example = nan_sums 2 price price-IsNumber

-- 20000.25 - 1.5 is 19998.75.
added : plus debt price ≡ record price { digits = 1 ∷ (9998 ∷ (7500 ∷ [])) }
unfolding plus add_var add_signs subtract_signed cmp_abs cmp_abs_common skip_zeros compare_skipped
    weight_left compare_digits sub_abs sub_digits digit_at digit strip_var strip_leading
    strip_trailing keep_digit normalize compare_rests any_digit
added = refl
