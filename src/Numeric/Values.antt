-- ===== src/Numeric/Values.antt =====
-- src/pg_type_numeric_def.cpp: rounding, and the conversions with 32 and 64 bit integers.
pub mod Integers
pub mod Written
pub mod Carries
pub mod Rounds
pub mod Wanted
pub mod Lengths
pub mod Truncates
use pq_async.Common.{
  ℕ, zero, suc, ◌+◌, ◌-◌, ◌*◌, ◌/◌, ◌%◌, ◌^◌, Bool, true, false, ◌&&◌, ◌||◌, List, [], ◌∷◌, ◌++◌,
  Option, none, some, ltb, leb, ◌==◌, if◌then◌else◌, length, take, ℤ, pos, negsuc, ◌+ℤ◌, ◌-ℤ◌, ◌*ℤ◌,
  ◌/ℤ◌, ltb_ℤ, eqb_ℤ, pos_part, neg_part, abs_ℤ, is_negative, Result, ok, throw,
}
use pq_async.Numeric.{
  Numeric, numeric, numeric_pos, numeric_neg, is_neg, digit, copy_var_to_var, strip_var,
}

-- `round_powers`
abbrev pub round_powers : ℕ → ℕ
round_powers zero = 0
round_powers (suc zero) = 1000
round_powers (suc (suc zero)) = 100
round_powers _ = 10

-- "decimal digits wanted"
abbrev pub wanted : Numeric → ℤ → ℤ
wanted var rscale = (var.weight +ℤ pos 1) *ℤ pos 4 +ℤ rscale

abbrev pub zeroed : Numeric → Numeric
zeroed var = record var { digits = []; weight = pos 0; sign = numeric_pos }

-- "Propagate carry if needed", from the last digit.
abbrev pub put_carry : ℕ → List ℕ × ℕ → List ℕ × ℕ
put_carry d (ds, zero) = (d ∷ ds, 0)
put_carry d (ds, suc c) =
    if leb 10000 (suc c + d) then ((suc c + d - 10000) ∷ ds, 1) else ((suc c + d) ∷ ds, 0)

unfoldable pub add_carry : List ℕ → ℕ → List ℕ × ℕ
add_carry [] carry = ([], carry)
add_carry (d ∷ ds) carry = put_carry d (add_carry ds carry)

-- Rounds within a digit: the digit, and what it carries.
unfoldable pub round_digit : ℕ → ℕ → ℕ × ℕ
round_digit pow10 d =
    let extra = d % pow10 in
    if leb (pow10 / 2) extra
    then if leb 10000 (pow10 + (d - extra))
      then (pow10 + (d - extra) - 10000, 1)
      else (pow10 + (d - extra), 0)
    else (d - extra, 0)

-- A carry out of the first digit goes to the digit before it. What is before that one is not
-- known, and no rounding follows on the same digits.
unfoldable pub carried : Numeric → List ℕ × ℕ → List ℕ → Numeric
carried var (ds, zero) last = record var { digits = ds ++ last }
carried var (ds, suc c) last = record var {
  digits = (var.spare + suc c) ∷ (ds ++ last);
  weight = var.weight +ℤ pos 1;
}

unfoldable pub round_at : Numeric → ℤ → Numeric
round_at var (negsuc n) = zeroed var
round_at var (pos di) =
    let ndigits = (di + 3) / 4 in
    let rest = di % 4 in
    let all = length var.digits in
    let within = round_digit (round_powers rest) (digit var.digits (ndigits - 1)) in
    if ltb ndigits all || (ndigits == all && ltb 0 rest)
    then if rest == 0
      then carried var
          (add_carry (take ndigits var.digits)
            (if leb 5000 (digit var.digits ndigits) then 1 else 0))
          []
      else carried var (add_carry (take (ndigits - 1) var.digits) within.1) (within.0 ∷ [])
    else var

unfoldable pub round_var : Numeric → ℤ → Numeric
round_var var rscale = round_at (record var { dscale = rscale }) (wanted var rscale)

unfoldable pub trunc_at : Numeric → ℤ → Numeric
trunc_at var (negsuc n) = zeroed var
trunc_at var (pos zero) = zeroed var
trunc_at var (pos (suc i)) =
    let ndigits = (suc i + 3) / 4 in
    let rest = suc i % 4 in
    let last = digit var.digits (ndigits - 1) in
    if leb ndigits (length var.digits)
    then if rest == 0 then record var { digits = take ndigits var.digits } else record var {
      digits = take (ndigits - 1) var.digits ++ ((last - last % round_powers rest) ∷ []);
    }
    else var

unfoldable pub trunc_var : Numeric → ℤ → Numeric
trunc_var var rscale = trunc_at (record var { dscale = rscale }) (wanted var rscale)

-- `PG_INT64_MIN`, `PG_INT64_MAX`
abbrev pub int64_min : ℤ
int64_min = negsuc 9223372036854775807

abbrev pub int64_max : ℤ
int64_max = pos 9223372036854775807

unfoldable pub pg_sub_s64_overflow : ℤ → ℤ → Option ℤ
pg_sub_s64_overflow a b =
    if (ltb_ℤ a (pos 0) && ltb_ℤ (pos 0) b && ltb_ℤ a (int64_min +ℤ b))
      || (ltb_ℤ (pos 0) a && ltb_ℤ b (pos 0) && ltb_ℤ (int64_max +ℤ b) a)
    then none
    else some (a -ℤ b)

-- Outside of the range of 32 bits.
abbrev pub wide : ℤ → Bool
wide a = ltb_ℤ (pos 2147483647) a || ltb_ℤ a (negsuc 2147483647)

unfoldable pub pg_mul_s64_overflow : ℤ → ℤ → Option ℤ
pg_mul_s64_overflow a b =
    if (wide a || wide b)
      && (if eqb_ℤ a (pos 0) || eqb_ℤ a (pos 1) || eqb_ℤ b (pos 0) || eqb_ℤ b (pos 1)
          then false
          else true)
      && ((ltb_ℤ (pos 0) a && ltb_ℤ (pos 0) b && ltb_ℤ (int64_max /ℤ b) a)
          || (ltb_ℤ (pos 0) a && ltb_ℤ b (pos 0) && ltb_ℤ b (int64_min /ℤ a))
          || (ltb_ℤ a (pos 0) && ltb_ℤ (pos 0) b && ltb_ℤ a (int64_min /ℤ b))
          || (ltb_ℤ a (pos 0) && ltb_ℤ b (pos 0) && ltb_ℤ a (int64_max /ℤ b)))
    then none
    else some (a *ℤ b)

abbrev pub and_then : Option ℤ → (ℤ → Option ℤ) → Option ℤ
and_then none f = none
and_then (some v) f = f v

-- The loop over the digits behind the first, for each place down to the decimal point.
unfoldable pub accumulate : List ℕ → ℕ → ℤ → Option ℤ
accumulate ds zero val = some val
accumulate [] (suc n) val = and_then (pg_mul_s64_overflow val (pos 10000)) (accumulate [] n)
accumulate (d ∷ ds) (suc n) val =
    and_then (pg_mul_s64_overflow val (pos 10000))
      (λ v. and_then (pg_sub_s64_overflow v (pos d)) (accumulate ds n))

abbrev pub negated : Bool → ℤ → Option ℤ
negated true val = some val
negated false val = if eqb_ℤ val int64_min then none else some (pos 0 -ℤ val)

unfoldable pub to_int64 : List ℕ → Numeric → Option ℤ
to_int64 [] rounded = some (pos 0)
to_int64 (d ∷ ds) rounded =
    and_then (accumulate ds (pos_part rounded.weight) (pos 0 -ℤ pos d))
      (negated (is_neg rounded.sign))

-- `none` is the result `false`.
unfoldable pub numericvar_to_int64 : Numeric → Option ℤ
numericvar_to_int64 var =
    let rounded = strip_var (round_var (copy_var_to_var var) (pos 0)) in
    to_int64 rounded.digits rounded

pub data Refusal : Type 0 where
  unable_to_convert integer_out_of_range : Refusal

-- `operator int64_t`
abbrev pub or_unable : Option ℤ → Result Refusal ℤ
or_unable none = throw unable_to_convert
or_unable (some v) = ok v

unfoldable pub as_int64 : Numeric → Result Refusal ℤ
as_int64 var = or_unable (numericvar_to_int64 var)

-- The cast to 32 bits leaves a value as it was only within their range.
unfoldable pub narrow : ℤ → Result Refusal ℤ
narrow val = if wide val then throw integer_out_of_range else ok val

abbrev pub or_out_of_range : Option ℤ → Result Refusal ℤ
or_out_of_range none = throw integer_out_of_range
or_out_of_range (some v) = narrow v

unfoldable pub numericvar_to_int32 : Numeric → Result Refusal ℤ
numericvar_to_int32 var = or_out_of_range (numericvar_to_int64 var)

-- The digits of a 64 bit integer, which are written from the end of a buffer of 20 / 4 of them.
unfoldable pub write_digits : ℕ → ℕ → List ℕ → List ℕ
write_digits zero uval ds = ds
write_digits (suc room) uval ds =
    let newuval = uval / 10000 in
    let written = (uval - newuval * 10000) ∷ ds in
    let rest = write_digits room newuval written in if newuval == 0 then written else rest

-- `before` stands for the digit before the first where the buffer is not full, which nothing has
-- written.
unfoldable pub int64_to_numericvar : ℕ → ℤ → Numeric
int64_to_numericvar before val =
    let ds = write_digits 5 (abs_ℤ val) [] in
    if eqb_ℤ val (pos 0) then numeric else record numeric {
      digits = ds;
      weight = pos (length ds - 1);
      sign = if is_negative val then numeric_neg else numeric_pos;
      spare = if length ds == 5 then 0 else before;
    }
