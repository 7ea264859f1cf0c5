-- ===== src/Tests/Amounts.antt =====
-- include/pq-async/pg_type_cash_def.h: amounts.
use pq_async.Common.{
  ◌≡◌, refl, true, Bytes, codes, [], ◌∷◌, ok, ℤ, ◌==◌, if◌then◌else◌, pos, negsuc, ◌+ℤ◌, arith,
}
use pq_async.Money.{
  Money, Texts, to_frac_digits, eq, add, sub, div, from_num, to_num, find_point, from_numeric,
}
use pq_async.Money.Digits.{InInt64, to_frac_digits-to_frac_digits}

-- -1.25, 1.50 and 0.5
abbrev debt : Money
debt = record { val = negsuc 124; frac_digits = 2 }

abbrev price : Money
price = record { val = pos 150; frac_digits = 2 }

abbrev coin : Money
coin = record { val = pos 5; frac_digits = 1 }

sum_within : InInt64 ((to_frac_digits 1 debt).val +ℤ coin.val)
unfolding to_frac_digits
sum_within = (omega arith, omega arith)

to_frac_digits-to_frac_digits_example :
    (to_frac_digits 2 (to_frac_digits 4 debt) ≡ debt)
    × (to_num 2 (from_num (negsuc 6) 2) ≡ negsuc 6)
    × (sub (add debt coin) coin ≡ to_frac_digits 1 debt)
to_frac_digits-to_frac_digits_example =
    to_frac_digits-to_frac_digits debt debt coin 4 2 (negsuc 6) (omega arith)
      (omega arith, omega arith, (omega arith, omega arith), (omega arith, omega arith))
      (omega arith, (omega arith, omega arith), (omega arith, omega arith))
      (
        (omega arith, omega arith, (omega arith, omega arith), (omega arith, omega arith)),
        (omega arith, omega arith),
      )
      sum_within

-- The digits behind those of the right operand are lost: -1.25 + 0.5 is -0.7.
added : add debt coin ≡ record { val = negsuc 6; frac_digits = 1 }
unfolding add to_frac_digits
added = refl

-- 1.50 / 1.00 is 1.00: the quotient is cut before it is scaled.
quotient :
    div price (record { val = pos 100; frac_digits = 2 }) ≡ ok (record price { val = pos 100 })
unfolding div to_frac_digits
quotient = refl

-- Equality is not symmetric: 1.25 == 1.2 in the digits of 1.2.
equal :
    eq (record { val = pos 125; frac_digits = 2 }) (record { val = pos 12; frac_digits = 1 }) ≡ true
unfolding eq to_frac_digits
equal = refl

abbrev read_text : Bytes → ℤ
read_text [] = pos 0
read_text (c ∷ _) = if c == b'-' then negsuc 0 else pos 25

-- The numerics are their texts, and a text of -1 or 25 is read as a number.
abbrev texts : Texts Bytes
texts = record {
  num_to_str = λ n. codes "0";
  str_to_num = read_text;
  text_of = λ s. s;
  int_of = λ s. pos 0;
}

-- -1.25 becomes -0.75.
lost_sign : from_numeric texts 2 (codes "-1.25") ≡ record { val = negsuc 74; frac_digits = 2 }
unfolding from_numeric find_point
lost_sign = refl
