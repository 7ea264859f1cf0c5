-- ===== src/Numeric/Signed/Laws.antt =====
-- src/pg_type_numeric_def.cpp: the operators of `numeric` for sums and differences.
use pq_async.Common.{ℕ, ◌≡◌, refl, ap, ◌∙◌, true, [], ◌∷◌, ℤ, pos, negsuc, ◌+ℤ◌, ◌-ℤ◌, eqb_ℤ, arith}
use pq_async.Numeric.{Numeric, numeric, copy_var_to_var}
use pq_async.Numeric.Digits.{prefix}
use pq_async.Numeric.Signed.{
  const_one, plus, minus, add_assign, sub_assign, increment, decrement, eq,
}
use pq_async.Numeric.Signed.Exact.{
  value_at, IsNumber, Counts, recount, add_var-Counts, sub_var-Counts,
}
use pq_async.Numeric.Signed.Ordered.{comparisons_lem}
use pq_async.Numeric.Strip.{places}

-- 1 in units of 10000 to the power -K.
abbrev pub unit_at : ℕ → ℕ
unit_at k = prefix (1 ∷ []) (places k (pos 0))

one-IsNumber : (k : ℕ) → IsNumber k const_one
one-IsNumber k = record {
  fits = omega arith;
  digits = (omega arith, tt);
  stripped = omega arith;
  has_sign = tt;
}

copied : {k : ℕ} {v : ℤ} (var : Numeric) → Counts k v var → Counts k v (copy_var_to_var var)
copied var c = record {
  is = record {
    fits = c.is.fits;
    digits = c.is.digits;
    stripped = c.is.stripped;
    has_sign = c.is.has_sign;
  };
  value = c.value;
}

-- On numbers that are not `nan`, `+`, `-`, `+=`, `-=`, `++` and `--` are exact: the result is
-- again such a number, with no zeros in front, and counts the sum or the difference of what the
-- operands count, in every unit below their digits.
pub operators_lem :
    (k : ℕ) (a b : Numeric)
    → IsNumber k a
    → IsNumber k b
    → Counts k (value_at k a +ℤ value_at k b) (plus a b)
      × Counts k (value_at k a -ℤ value_at k b) (minus a b)
      × Counts k (value_at k a +ℤ value_at k b) (add_assign a b)
      × Counts k (value_at k a -ℤ value_at k b) (sub_assign a b)
      × Counts k (value_at k a +ℤ pos (unit_at k)) (increment a)
      × Counts k (value_at k a -ℤ pos (unit_at k)) (decrement a)
unfolding plus minus add_assign sub_assign increment decrement
operators_lem k a b p q = (
  add_var-Counts k a b numeric p q,
  sub_var-Counts k a b numeric p q,
  copied _ (add_var-Counts k a b numeric p q),
  copied _ (sub_var-Counts k a b numeric p q),
  copied _ (add_var-Counts k a const_one numeric p (one-IsNumber k)),
  copied _ (sub_var-Counts k a const_one numeric p (one-IsNumber k)),
)

equal : (k : ℕ) (x y : ℤ) (a b : Numeric) → Counts k x a → Counts k y b → x ≡ y → eq a b ≡ true
equal k x y a b p q e = (comparisons_lem k a b p.is q.is).1 ∙ (rw (p.value, q.value, e) (same y))
  where
    same : (z : ℤ) → eqb_ℤ z z ≡ true
    same z = ground arith

add_comm_ℤ : (x y : ℤ) → x +ℤ y ≡ y +ℤ x
add_comm_ℤ x y = ground arith

add_back : (x y : ℤ) → (x +ℤ y) -ℤ y ≡ x
add_back x y = ground arith

add_assoc_ℤ : (x y z : ℤ) → (x +ℤ y) +ℤ z ≡ x +ℤ (y +ℤ z)
add_assoc_ℤ (pos x) y z = ground arith
add_assoc_ℤ (negsuc x) y z = ground arith

self-Counts : (k : ℕ) (a : Numeric) → IsNumber k a → Counts k (value_at k a) a
self-Counts k a p = record { is = p; value = refl }

-- Up to `==`, sums of numbers that are not `nan` do not depend on the order or the grouping, and a
-- number that is added and taken off again changes nothing.
pub sums_lem :
    (k : ℕ) (a b c : Numeric)
    → IsNumber k a
    → IsNumber k b
    → IsNumber k c
    → (eq (plus a b) (plus b a) ≡ true)
      × (eq (plus (plus a b) c) (plus a (plus b c)) ≡ true)
      × (eq (minus (plus a b) b) a ≡ true)
sums_lem k a b c p q r =
    let ab = (operators_lem k a b p q).0 in
    let ba = (operators_lem k b a q p).0 in
    let bc = (operators_lem k b c q r).0 in
    let left = (operators_lem k (plus a b) c ab.is r).0 in
    let right = (operators_lem k a (plus b c) p bc.is).0 in
    let back = (operators_lem k (plus a b) b ab.is q).1 in
    let x = value_at k a in
    let y = value_at k b in
    let z = value_at k c in
    (
      equal k (x +ℤ y) (y +ℤ x) (plus a b) (plus b a) ab ba (add_comm_ℤ x y),
      equal k ((x +ℤ y) +ℤ z) (x +ℤ (y +ℤ z)) (plus (plus a b) c) (plus a (plus b c))
          (recount (ap (λ t. t +ℤ z) ab.value) left) (recount (ap (λ t. x +ℤ t) bc.value) right)
          (add_assoc_ℤ x y z),
      equal k ((x +ℤ y) -ℤ y) x (minus (plus a b) b) a (recount (ap (λ t. t -ℤ y) ab.value) back)
          (self-Counts k a p) (add_back x y),
    )
