-- ===== src/Tests/Rounding.antt =====
-- src/pg_type_numeric_def.cpp: rounding, and 64 bit integers.
use pq_async.Common.{◌≡◌, refl, none, ℤ, pos, negsuc, arith, [], ◌∷◌, ok, throw, ◌⊎◌}
use pq_async.Numeric.{
  Numeric, numeric, digit, strip_leading, keep_digit, strip_trailing, normalize, strip_var,
}
use pq_async.Numeric.Signed.Exact.{value_at, Counts}
use pq_async.Numeric.Strip.{abs_at}
use pq_async.Numeric.Values.{
  round_digit, add_carry, carried, round_at, round_var, trunc_var, pg_mul_s64_overflow, accumulate,
  to_int64, numericvar_to_int64, integer_out_of_range, as_int64, numericvar_to_int32,
  int64_to_numericvar,
}
use pq_async.Numeric.Values.Integers.{in_int64, numericvar_to_int64_lem}
use pq_async.Numeric.Values.Lengths.{EndsAt}
use pq_async.Numeric.Values.Rounds.{nearest, cut}
use pq_async.Numeric.Values.Truncates.{round_var_lem}
use pq_async.Numeric.Values.Written.{InInt32, as_int64-int64_to_numericvar}

-- 9999.9996
abbrev nines : Numeric
nines = record numeric { digits = 9999 ∷ (9996 ∷ []); dscale = pos 4 }

-- -2 to the power 63, which has no positive counterpart.
abbrev least : ℤ
least = negsuc 9223372036854775807

-- 10 to the power 20
abbrev huge : Numeric
huge = record numeric { digits = 1 ∷ []; weight = pos 5 }

round_var_lem_example :
    (abs_at 1 (round_var nines (pos 3)) ≡ nearest 3 (abs_at 1 nines))
    × (abs_at 1 (trunc_var nines (pos 3)) ≡ cut 3 (abs_at 1 nines))
    × EndsAt 1 (round_var nines (pos 3))
    × EndsAt 1 (trunc_var nines (pos 3))
round_var_lem_example = round_var_lem 3 nines (omega arith) refl

as_int64-int64_to_numericvar_example :
    Counts 0 least (int64_to_numericvar 7 least)
    × (as_int64 (int64_to_numericvar 7 least) ≡ ok least)
    × ((InInt32 least × (numericvar_to_int32 (int64_to_numericvar 7 least) ≡ ok least))
        ⊎ ((¬ InInt32 least)
            × (numericvar_to_int32 (int64_to_numericvar 7 least) ≡ throw integer_out_of_range)))
as_int64-int64_to_numericvar_example =
    as_int64-int64_to_numericvar 7 least (omega arith, omega arith)

numericvar_to_int64_lem_example : numericvar_to_int64 huge ≡ in_int64 (value_at 0 huge)
numericvar_to_int64_lem_example =
    numericvar_to_int64_lem huge
      (record { fits = omega arith; digits = omega arith; stripped = omega arith; has_sign = tt })

-- The carry makes the number one digit longer.
longer : (round_var nines (pos 3)).digits ≡ 1 ∷ (0 ∷ (0 ∷ []))
unfolding round_var round_at round_digit digit carried add_carry
longer = refl

refused : numericvar_to_int64 huge ≡ none
unfolding numericvar_to_int64 round_var round_at strip_var strip_leading strip_trailing keep_digit
    normalize to_int64 accumulate pg_mul_s64_overflow
refused = refl
