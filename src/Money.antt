-- ===== src/Money.antt =====
-- `money` of include/pq-async/pg_type_cash_def.h and src/pg_type_cash_def.cpp: amounts with a count
-- of decimal digits.
--
-- Amounts are integers. An operation is that of `int64_t` where its result and what it computes on
-- the way are within 64 bits, which its theorems ask for; what overflows is undefined. The digits
-- of the locale are the argument `digits`. A division by zero is the result `throw
-- divided_by_zero`, where the program stops.
pub mod Digits
use pq_async.Common.{
  Bytes, codes, List, [], ◌∷◌, ◌++◌, Option, none, some, length, take, zero, suc, ℕ, ◌+◌, ◌-◌, ◌*◌,
  ◌^◌, Bool, true, false, not, Result, ok, throw, ltb, ◌==◌, if◌then◌else◌, ℤ, pos, ◌+ℤ◌, ◌-ℤ◌,
  ◌*ℤ◌, ◌/ℤ◌, ◌%ℤ◌, ltb_ℤ, eqb_ℤ, abs_ℤ, with_sign, is_negative,
}

pub record Money : Type 0 where
  pub val : ℤ
  pub frac_digits : ℕ

pub data Fault : Type 0 where
  divided_by_zero : Fault

-- `std::pow(10L, n)`
abbrev pub get_pow : ℕ → ℤ
get_pow n = pos (10 ^ n)

unfoldable pub to_frac_digits : ℕ → Money → Money
to_frac_digits digits m =
    if digits == m.frac_digits
    then m
    else if ltb m.frac_digits digits
    then record { val = m.val *ℤ get_pow (digits - m.frac_digits); frac_digits = digits }
    else record { val = m.val /ℤ get_pow (m.frac_digits - digits); frac_digits = digits }

-- The whole part and the decimal part, both with the sign.
unfoldable pub decimal_parts_to : Money → ℤ × ℤ
decimal_parts_to m = (
  m.val /ℤ get_pow m.frac_digits,
  with_sign (is_negative m.val) (abs_ℤ (pos (abs_ℤ m.val) %ℤ get_pow m.frac_digits)),
)

-- `==` and `!=`
unfoldable pub eq : Money → Money → Bool
unfolding to_frac_digits
eq a b = eqb_ℤ (to_frac_digits b.frac_digits a).val b.val

unfoldable pub ne : Money → Money → Bool
unfolding to_frac_digits
ne a b = not (eqb_ℤ (to_frac_digits b.frac_digits a).val b.val)

-- The comparisons, with the one of `int64_t` as `compare`.
unfoldable pub by_parts : (ℤ → ℤ → Bool) → Money → Money → Bool
unfolding decimal_parts_to
by_parts compare a b =
    if a.frac_digits == b.frac_digits
    then compare a.val b.val
    else let a_parts = decimal_parts_to a in
      let b_parts = decimal_parts_to b in
      if eqb_ℤ a_parts.0 b_parts.0 then compare a_parts.1 b_parts.1 else compare a_parts.0 b_parts.0

abbrev pub lt : Money → Money → Bool
lt a b = by_parts ltb_ℤ a b

abbrev pub gt : Money → Money → Bool
gt a b = by_parts (λ x y. ltb_ℤ y x) a b

abbrev pub le : Money → Money → Bool
le a b = by_parts (λ x y. not (ltb_ℤ y x)) a b

abbrev pub ge : Money → Money → Bool
ge a b = by_parts (λ x y. not (ltb_ℤ x y)) a b

abbrev pub set_val : Money → ℤ → Money
set_val m v = record m { val = v }

-- The operators, which work in the digits of their right operand.
unfoldable pub add : Money → Money → Money
add a b = let r = to_frac_digits b.frac_digits a in set_val r (r.val +ℤ b.val)

unfoldable pub sub : Money → Money → Money
sub a b = let r = to_frac_digits b.frac_digits a in set_val r (r.val -ℤ b.val)

unfoldable pub mul : Money → Money → Money
mul a b =
    let r = to_frac_digits b.frac_digits a in set_val r ((r.val *ℤ b.val) /ℤ get_pow r.frac_digits)

unfoldable pub div : Money → Money → Result Fault Money
div a b =
    let r = to_frac_digits b.frac_digits a in
    if eqb_ℤ b.val (pos 0)
    then throw divided_by_zero
    else ok (set_val r ((r.val /ℤ b.val) *ℤ get_pow r.frac_digits))

unfoldable pub mod_of : Money → Money → Result Fault Money
mod_of a b =
    let r = to_frac_digits b.frac_digits a in
    if eqb_ℤ b.val (pos 0) then throw divided_by_zero else ok (set_val r (r.val %ℤ b.val))

-- The assignments, which go back to the digits of the left operand.
unfoldable pub add_assign : Money → Money → Money
add_assign a b =
    let tfd = a.frac_digits in
    let r = to_frac_digits b.frac_digits a in to_frac_digits tfd (set_val r (r.val +ℤ b.val))

unfoldable pub sub_assign : Money → Money → Money
sub_assign a b =
    let tfd = a.frac_digits in
    let r = to_frac_digits b.frac_digits a in to_frac_digits tfd (set_val r (r.val -ℤ b.val))

unfoldable pub mul_assign : Money → Money → Money
mul_assign a b =
    let tfd = a.frac_digits in
    let r = to_frac_digits b.frac_digits a in
    to_frac_digits tfd (set_val r ((r.val *ℤ b.val) /ℤ get_pow r.frac_digits))

unfoldable pub div_assign : Money → Money → Result Fault Money
div_assign a b =
    let tfd = a.frac_digits in
    let r = to_frac_digits b.frac_digits a in
    if eqb_ℤ b.val (pos 0)
    then throw divided_by_zero
    else ok (to_frac_digits tfd (set_val r ((r.val /ℤ b.val) *ℤ get_pow r.frac_digits)))

unfoldable pub mod_assign : Money → Money → Result Fault Money
mod_assign a b =
    let tfd = a.frac_digits in
    let r = to_frac_digits b.frac_digits a in
    if eqb_ℤ b.val (pos 0)
    then throw divided_by_zero
    else ok (to_frac_digits tfd (set_val r (r.val %ℤ b.val)))

-- `val_from_num` of an integer, `from_num`, and `to_num` of an integer.
unfoldable pub val_from_num : ℤ → ℕ → ℤ
val_from_num b digits = b *ℤ get_pow digits

unfoldable pub from_num : ℤ → ℕ → Money
from_num b digits = record { val = val_from_num b digits; frac_digits = digits }

unfoldable pub to_num : ℕ → Money → ℤ
to_num digits m = (to_frac_digits digits m).val /ℤ get_pow digits

-- `++` and `--` add one in the digits of the locale.
unfoldable pub increment : ℕ → Money → Money
increment digits m = set_val m (m.val +ℤ val_from_num (pos 1) digits)

unfoldable pub decrement : ℕ → Money → Money
decrement digits m = set_val m (m.val -ℤ val_from_num (pos 1) digits)

-- `md::num_to_str` and `md::str_to_num`, a numeric's text and the numeric as an `int64_t`.
pub record Texts (N : Type 0) : Type 0 where
  pub num_to_str : ℤ → Bytes
  pub str_to_num : Bytes → ℤ
  pub text_of : N → Bytes
  pub int_of : N → ℤ

abbrev zeros : ℕ → Bytes
zeros zero = []
zeros (suc n) = b'0' ∷ zeros n

-- The remainder is that of the member, not of the amount in the digits that are asked for.
unfoldable pub to_string : {N : Type 0} → Texts N → ℕ → Money → Bytes
to_string md digits m =
    let tm = to_frac_digits digits m in
    let n = tm.val /ℤ get_pow digits in
    let d = abs_ℤ (m.val %ℤ get_pow digits) in
    let ds = md.num_to_str (pos d) in
    md.num_to_str n ++ (codes "." ++ (zeros (digits - length ds) ++ ds))

abbrev before : ℕ → Option (Bytes × Bytes) → Option (Bytes × Bytes)
before c none = none
before c (some (nbs, dbs)) = some (c ∷ nbs, dbs)

-- The text before the first point and the text behind it.
unfoldable pub find_point : Bytes → Option (Bytes × Bytes)
find_point [] = none
find_point (c ∷ s) = if c == b'.' then some ([], s) else before c (find_point s)

unfoldable pub from_numeric : {N : Type 0} → Texts N → ℕ → N → Money
unfolding find_point
from_numeric md digits b = elim (find_point (md.text_of b)) [
  | none ↦ record { val = md.int_of b *ℤ get_pow digits; frac_digits = digits }
  | some (nbs, dbs) ↦ record {
    val =
        (md.str_to_num nbs *ℤ get_pow digits)
        +ℤ md.str_to_num (take digits dbs ++ zeros (digits - length dbs));
    frac_digits = digits;
  }
]
