-- ===== src/Numeric.antt =====
-- src/pg_type_numeric_def.cpp, include/pq-async/pg_type_numeric_def.h: numbers of any length in
-- base 10000, their sums, differences, order, rounding and conversions with 64 bit integers.
pub mod Digits
pub mod Strip
pub mod Align
pub mod Compare
pub mod Order
pub mod Add
pub mod Subtract
pub mod Signed
pub mod Values
use pq_async.Common.{
  ℕ, zero, suc, ◌+◌, ◌-◌, ◌*◌, ◌/◌, ◌%◌, Bool, true, false, ◌&&◌, ◌||◌, List, [], ◌∷◌, ◌++◌, Option,
  none, some, ltb, leb, ◌==◌, if◌then◌else◌, length, take, ℤ, pos, negsuc, ◌+ℤ◌, ◌-ℤ◌, ◌*ℤ◌, ◌/ℤ◌,
  ltb_ℤ, eqb_ℤ, pos_part, abs_ℤ, is_negative, Result, ok, throw,
}
use mathlib.Core.List.{reverse}

-- `NUMERIC_POS`, `NUMERIC_NEG`, `NUMERIC_NAN`
pub data Sign : Type 0 where
  numeric_pos numeric_neg numeric_nan : Sign

-- The first of the `digits` counts 10000 to the `weight`, and their number is `ndigits`. `spare`
-- is `digits[-1]`, which a carry may take: a digit that was stripped, or the first of `buf`.
pub record Numeric : Type 0 where
  pub digits : List ℕ
  pub weight : ℤ
  pub sign : Sign
  pub dscale : ℤ
  pub spare : ℕ

-- `numeric()`
abbrev pub numeric : Numeric
numeric = record { digits = []; weight = pos 0; sign = numeric_pos; dscale = pos 0; spare = 0 }

-- `numeric(const numeric&)`, `operator=` and `copy_var_to_var`
abbrev pub copy_var_to_var : Numeric → Numeric
copy_var_to_var src = record src { spare = 0 }

-- `numeric::nan`
abbrev pub nan : Numeric
nan = record numeric { sign = numeric_nan }

abbrev pub zero_var : Numeric → Numeric
zero_var var = record var { digits = []; weight = pos 0; sign = numeric_pos; spare = 0 }

-- `i--`
abbrev pub pred_ℤ : ℤ → ℤ
pred_ℤ (pos zero) = negsuc 0
pred_ℤ (pos (suc n)) = pos n
pred_ℤ (negsuc n) = negsuc (suc n)

-- `std::max`
abbrev pub max_ℤ : ℤ → ℤ → ℤ
max_ℤ a b = if ltb_ℤ a b then b else a

-- The digit at an index, and 0 out of range.
unfoldable pub digit : List ℕ → ℕ → ℕ
digit [] i = 0
digit (d ∷ ds) zero = d
digit (d ∷ ds) (suc i) = digit ds i

-- `if (i >= 0 && i < ndigits) ... digits[i]`
unfoldable pub digit_at : List ℕ → ℤ → ℕ
digit_at ds (pos i) = digit ds i
digit_at ds (negsuc i) = 0

-- Strip.

unfoldable pub strip_leading : List ℕ → Numeric → Numeric
strip_leading [] var = record var { digits = [] }
strip_leading (zero ∷ ds) var =
    strip_leading ds (record var { weight = pred_ℤ var.weight; spare = 0 })
strip_leading (suc d ∷ ds) var = record var { digits = suc d ∷ ds }

unfoldable pub keep_digit : ℕ → List ℕ → List ℕ
keep_digit zero [] = []
keep_digit d ds = d ∷ ds

unfoldable pub strip_trailing : List ℕ → List ℕ
strip_trailing [] = []
strip_trailing (d ∷ ds) = keep_digit d (strip_trailing ds)

-- "If it's zero, normalize the sign and weight"
unfoldable pub normalize : List ℕ → Numeric → Numeric
normalize [] var = record var { digits = []; sign = numeric_pos; weight = pos 0 }
normalize (d ∷ ds) var = record var { digits = d ∷ ds }

unfoldable pub strip_var : Numeric → Numeric
strip_var var = let led = strip_leading var.digits var in normalize (strip_trailing led.digits) led

-- Comparison.

-- Digits above the weight of the other number: none where one of them is not 0.
unfoldable pub skip_zeros : List ℕ → ℤ → ℤ → Option (List ℕ × ℤ)
skip_zeros [] weight other = some ([], weight)
skip_zeros (d ∷ ds) weight other =
    let rest = skip_zeros ds (pred_ℤ weight) other in
    if ltb_ℤ other weight then (if d == 0 then rest else none) else some (d ∷ ds, weight)

unfoldable pub any_digit : List ℕ → Bool
any_digit [] = false
any_digit (d ∷ ds) = if d == 0 then any_digit ds else true

-- What is left when one side has run out of digits.
unfoldable pub compare_rests : List ℕ → List ℕ → ℤ
compare_rests ds1 ds2 = if any_digit ds1 then pos 1 else if any_digit ds2 then negsuc 0 else pos 0

unfoldable pub compare_digits : List ℕ → List ℕ → ℤ
compare_digits (d1 ∷ ds1) (d2 ∷ ds2) =
    let rest = compare_digits ds1 ds2 in
    if d1 == d2 then rest else if ltb d2 d1 then pos 1 else negsuc 0
compare_digits ds1 ds2 = compare_rests ds1 ds2

unfoldable pub compare_skipped : Option (List ℕ × ℤ) → Option (List ℕ × ℤ) → ℤ
compare_skipped none _ = pos 1
compare_skipped (some _) none = negsuc 0
compare_skipped (some (ds1, w1)) (some (ds2, w2)) =
    if eqb_ℤ w1 w2 then compare_digits ds1 ds2 else compare_rests ds1 ds2

-- The second loop runs on the weight that the first has left.
unfoldable pub weight_left : ℤ → Option (List ℕ × ℤ) → ℤ
weight_left weight none = weight
weight_left weight (some (ds, left)) = left

unfoldable pub cmp_abs_common : List ℕ → ℤ → List ℕ → ℤ → ℤ
cmp_abs_common digits1 weight1 digits2 weight2 =
    let skipped = skip_zeros digits1 weight1 weight2 in
    compare_skipped skipped (skip_zeros digits2 weight2 (weight_left weight1 skipped))

unfoldable pub cmp_abs : Numeric → Numeric → ℤ
cmp_abs var1 var2 = cmp_abs_common var1.digits var1.weight var2.digits var2.weight

-- `sign == NUMERIC_POS`, `sign == NUMERIC_NEG`
abbrev pub is_pos : Sign → Bool
is_pos numeric_pos = true
is_pos _ = false

abbrev pub is_neg : Sign → Bool
is_neg numeric_neg = true
is_neg _ = false

-- `ndigits == 0`
abbrev pub no_digits : List ℕ → Bool
no_digits [] = true
no_digits _ = false

unfoldable pub cmp_signed : Numeric → Numeric → ℤ
cmp_signed var1 var2 =
    if is_pos var1.sign
    then (if is_neg var2.sign then pos 1 else cmp_abs var1 var2)
    else if is_pos var2.sign
    then negsuc 0
    else cmp_abs var2 var1

-- `cmp_var` and `numeric::cmp`, which hand the members to `cmp_var_common`
unfoldable pub cmp_var : Numeric → Numeric → ℤ
cmp_var var1 var2 =
    if no_digits var1.digits
    then if no_digits var2.digits then pos 0 else if is_neg var2.sign then pos 1 else negsuc 0
    else if no_digits var2.digits
    then if is_pos var1.sign then pos 1 else negsuc 0
    else cmp_signed var1 var2

-- Sums and differences of absolute values.

-- `ndigits - weight - 1`
abbrev pub rscale_of : Numeric → ℤ
rscale_of var = pos (length var.digits) -ℤ var.weight -ℤ pos 1

-- The digits of the result, the last one first, and the carry.
unfoldable pub add_digits : List ℕ → List ℕ → ℕ → ℤ → ℤ → ℕ → List ℕ × ℕ
add_digits ds1 ds2 zero i1 i2 carry = ([], carry)
add_digits ds1 ds2 (suc i) i1 i2 carry =
    let sum = carry + digit_at ds1 (pred_ℤ i1) + digit_at ds2 (pred_ℤ i2) in
    let rest = add_digits ds1 ds2 i (pred_ℤ i1) (pred_ℤ i2) (if leb 10000 sum then 1 else 0) in
    ((if leb 10000 sum then sum - 10000 else sum) ∷ rest.0, rest.1)

unfoldable pub sub_digits : List ℕ → List ℕ → ℕ → ℤ → ℤ → ℕ → List ℕ × ℕ
sub_digits ds1 ds2 zero i1 i2 borrow = ([], borrow)
sub_digits ds1 ds2 (suc i) i1 i2 borrow =
    let plus = digit_at ds1 (pred_ℤ i1) in
    let minus = borrow + digit_at ds2 (pred_ℤ i2) in
    let rest = sub_digits ds1 ds2 i (pred_ℤ i1) (pred_ℤ i2) (if ltb plus minus then 1 else 0) in
    ((if ltb plus minus then plus + 10000 - minus else plus - minus) ∷ rest.0, rest.1)

-- `if (res_ndigits <= 0) res_ndigits = 1;`
abbrev pub at_least_one : ℤ → ℕ
at_least_one (pos (suc n)) = suc n
at_least_one _ = 1

unfoldable pub add_abs : Numeric → Numeric → Numeric → Numeric
add_abs var1 var2 result =
    let res_weight = max_ℤ var1.weight var2.weight +ℤ pos 1 in
    let res_rscale = max_ℤ (rscale_of var1) (rscale_of var2) in
    let res_ndigits = at_least_one (res_rscale +ℤ res_weight +ℤ pos 1) in
    let res =
      add_digits var1.digits var2.digits res_ndigits (res_rscale +ℤ var1.weight +ℤ pos 1)
        (res_rscale +ℤ var2.weight +ℤ pos 1) 0 in
    strip_var (record {
      digits = reverse res.0;
      weight = res_weight;
      sign = result.sign;
      dscale = max_ℤ var1.dscale var2.dscale;
      spare = 0;
    })

unfoldable pub sub_abs : Numeric → Numeric → Numeric → Numeric
sub_abs var1 var2 result =
    let res_weight = var1.weight in
    let res_rscale = max_ℤ (rscale_of var1) (rscale_of var2) in
    let res_ndigits = at_least_one (res_rscale +ℤ res_weight +ℤ pos 1) in
    let res =
      sub_digits var1.digits var2.digits res_ndigits (res_rscale +ℤ var1.weight +ℤ pos 1)
        (res_rscale +ℤ var2.weight +ℤ pos 1) 0 in
    strip_var (record {
      digits = reverse res.0;
      weight = res_weight;
      sign = result.sign;
      dscale = max_ℤ var1.dscale var2.dscale;
      spare = 0;
    })
