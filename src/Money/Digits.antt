-- ===== src/Money/Digits.antt =====
-- include/pq-async/pg_type_cash_def.h: changes of the digits, and what they cost.
use pq_async.Common.{
  ℕ, zero, suc, ◌+◌, ◌-◌, ◌*◌, ◌/◌, ◌%◌, ◌^◌, ◌≤◌, ◌<◌, true, false, ◌≡◌, refl, ap, ◌∙◌, arith,
  subst, lt→ltb, le→ltb-false, ◌==◌, ◌⊎◌, inl, inr, ℤ, pos, negsuc, pos_part, neg_part, ◌+ℤ◌, ◌-ℤ◌,
  ◌*ℤ◌, ◌/ℤ◌,
}
use native.Mathlib.Nat.{mul-div_cancel}
use pq_async.Money.{
  Money, get_pow, to_frac_digits, by_parts, decimal_parts_to, lt, set_val, add, sub, mul,
  add_assign, sub_assign, mul_assign, val_from_num, from_num, to_num,
}

pow_pos : (n : ℕ) → 0 < 10 ^ n
pow_pos zero = omega arith
pow_pos (suc n) = omega (arith, pow_pos n)

times_pos : (n p : ℕ) → pos n *ℤ pos p ≡ pos (n * p)
times_pos n p = ground arith

times_neg : (n p : ℕ) → 0 < p → negsuc n *ℤ pos p ≡ negsuc (suc n * p - 1)
times_neg n p h = grind arith

suc_over : (n p : ℕ) → 0 < p → suc (suc n * p - 1) / p ≡ suc n
suc_over n p h = grind (arith, mul-div_cancel (suc n) h)

times_over : (a : ℤ) (p : ℕ) → 0 < p → (a *ℤ pos p) /ℤ pos p ≡ a
times_over (pos n) p h = rw (times_pos n p) (ap pos (mul-div_cancel n h))
times_over (negsuc n) p h = rw (times_neg n p h, suc_over n p h) refl

add_cancel : (a b : ℤ) → (a +ℤ b) -ℤ b ≡ a
add_cancel a b = ground arith

eq_same : (a : ℕ) → (a == a) ≡ true
eq_same a = ground arith

lt→ne : (a b : ℕ) → a < b → (b == a) ≡ false
lt→ne a b h = ground arith

gt→ne : (a b : ℕ) → a < b → (a == b) ≡ false
gt→ne a b h = ground arith

same_digits : (m : Money) → to_frac_digits m.frac_digits m ≡ m
unfolding to_frac_digits
same_digits m = rw (eq_same m.frac_digits) refl

abbrev widened : Money → ℕ → Money
widened m n = record { val = m.val *ℤ get_pow (n - m.frac_digits); frac_digits = n }

abbrev narrowed : Money → ℕ → Money
narrowed m n = record { val = m.val /ℤ get_pow (m.frac_digits - n); frac_digits = n }

more_digits : (m : Money) (n : ℕ) → m.frac_digits < n → to_frac_digits n m ≡ widened m n
unfolding to_frac_digits
more_digits m n h = rw (lt→ne m.frac_digits n h, lt→ltb m.frac_digits n h) refl

less_digits : (m : Money) (n : ℕ) → n < m.frac_digits → to_frac_digits n m ≡ narrowed m n
unfolding to_frac_digits
less_digits m n h =
    rw (gt→ne n m.frac_digits h, le→ltb-false m.frac_digits n (omega (arith, h))) refl

le-cases : (a b : ℕ) → a ≤ b → (a ≡ b) ⊎ (a < b)
le-cases a b h = omega (arith, h)

-- An amount that goes to more digits and back is as it was.
there_and_back :
    (m : Money) (n : ℕ) → m.frac_digits ≤ n → to_frac_digits m.frac_digits (to_frac_digits n m) ≡ m
there_and_back m n h = elim (le-cases m.frac_digits n h) [
  | inl e ↦
      subst (λ k. to_frac_digits m.frac_digits (to_frac_digits k m) ≡ m) e
        (rw (same_digits m, same_digits m) refl)
  | inr k ↦
      rw
        (
          more_digits m n k,
          less_digits (widened m n) m.frac_digits k,
          times_over m.val (10 ^ (n - m.frac_digits)) (pow_pos (n - m.frac_digits)),
        )
        refl
]

frac_of : (digits : ℕ) (m : Money) → (to_frac_digits digits m).frac_digits ≡ digits
unfolding to_frac_digits
frac_of digits m = ground arith

to_num-from_num : (i : ℤ) (digits : ℕ) → to_num digits (from_num i digits) ≡ i
unfolding to_num from_num val_from_num
to_num-from_num i digits =
    ap (λ (m : Money). m.val /ℤ get_pow digits) (same_digits (from_num i digits))
    ∙ times_over i (10 ^ digits) (pow_pos digits)

-- A value in the digits of `b` is not changed by going to them.
settled : (b r : Money) → r.frac_digits ≡ b.frac_digits → to_frac_digits b.frac_digits r ≡ r
settled b r e = subst (λ k. to_frac_digits k r ≡ r) e (same_digits r)

sub-add : (a b : Money) → sub (add a b) b ≡ to_frac_digits b.frac_digits a
unfolding add sub
sub-add a b =
    let r = to_frac_digits b.frac_digits a in
    let sum = set_val r (r.val +ℤ b.val) in
    ap (λ (m : Money). set_val m (m.val -ℤ b.val)) (settled b sum (frac_of b.frac_digits a))
    ∙ ap (set_val r) (add_cancel r.val b.val)

-- An `int64_t` holds the value.
abbrev pub InInt64 : ℤ → Type 0
InInt64 v = (neg_part v ≤ 9223372036854775808) × (pos_part v < 9223372036854775808)

-- Nothing overflows where an amount goes to the digits: the power of ten and the amount.
abbrev pub FitsIn : ℕ → Money → Type 0
FitsIn digits m =
    (digits - m.frac_digits ≤ 18)
    × (m.frac_digits - digits ≤ 18)
    × InInt64 m.val
    × InInt64 (m.val *ℤ get_pow (digits - m.frac_digits))

-- An amount is as it was where it goes to more digits and back; an integer is read back from the
-- amount that is made of it; and an amount that is added and taken off again leaves the other in
-- its digits; all where nothing on the way overflows 64 bits.
pub to_frac_digits-to_frac_digits :
    (m a b : Money) (n digits : ℕ) (i : ℤ)
    → m.frac_digits ≤ n
    → FitsIn n m
    → (digits ≤ 18) × InInt64 i × InInt64 (i *ℤ get_pow digits)
    → FitsIn b.frac_digits a × InInt64 b.val
    → InInt64 ((to_frac_digits b.frac_digits a).val +ℤ b.val)
    → (to_frac_digits m.frac_digits (to_frac_digits n m) ≡ m)
      × (to_num digits (from_num i digits) ≡ i)
      × (sub (add a b) b ≡ to_frac_digits b.frac_digits a)
to_frac_digits-to_frac_digits m a b n digits i h fits whole both sum =
    (there_and_back m n h, to_num-from_num i digits, sub-add a b)

-- Each assignment is its operator, taken back to the digits of the left operand.
assigns_lem :
    (a b : Money)
    → (add_assign a b ≡ to_frac_digits a.frac_digits (add a b))
      × (sub_assign a b ≡ to_frac_digits a.frac_digits (sub a b))
      × (mul_assign a b ≡ to_frac_digits a.frac_digits (mul a b))
unfolding add_assign sub_assign mul_assign add sub mul
assigns_lem a b = (refl, refl, refl)

-- An amount of w.5 with one digit, and one of w.25 with two.
abbrev half : ℕ → Money
half w = record { val = pos (w * 10 + 5); frac_digits = 1 }

abbrev quarter : ℕ → Money
quarter w = record { val = pos (w * 100 + 25); frac_digits = 2 }

whole_half : (w : ℕ) → (w * 10 + 5) / 10 ≡ w
whole_half w = omega arith

whole_quarter : (w : ℕ) → (w * 100 + 25) / 100 ≡ w
whole_quarter w = omega arith

part_half : (w : ℕ) → (w * 10 + 5) % 10 ≡ 5
part_half w = omega arith

part_quarter : (w : ℕ) → (w * 100 + 25) % 100 ≡ 25
part_quarter w = omega arith

-- Amounts with different counts of digits are compared by their decimal parts as numbers, whatever
-- their digits are: each w.5 counts as less than w.25, though it is more.
lt_digits : (w : ℕ) → (lt (half w) (quarter w) ≡ true) × (w * 100 + 25 < (w * 10 + 5) * 10)
unfolding by_parts decimal_parts_to
lt_digits w = (
  rw (whole_half w, whole_quarter w, part_half w, part_quarter w, eq_same (w + 0)) refl,
  omega arith,
)
