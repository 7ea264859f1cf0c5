-- ===== src/Numeric/Subtract.antt =====
-- src/pg_type_numeric_def.cpp: sub_abs is exact.
use pq_async.Common.{
  ℕ, zero, suc, ◌+◌, ◌-◌, ◌*◌, ◌≤◌, ◌<◌, ◌≡◌, ◌⊎◌, inl, inr, refl, ap, ◌∙◌, subst, List, Bool-cases,
  length, ℤ, pos, ◌+ℤ◌, ◌-ℤ◌, pos_part, neg_part, arith, ltb, if◌then◌else◌,
}
use mathlib.Core.List.{reverse}
use pq_async.Numeric.{
  Numeric, Sign, pred_ℤ, max_ℤ, digit_at, sub_digits, rscale_of, at_least_one, sub_abs,
}
use pq_async.Numeric.Add.{
  digit_at_bound, at_most_one, reverse-AreDigits, finish, stripped_of, aligned, suc-cases,
}
use pq_async.Numeric.Align.{
  LeZ, Has, le_max, max_le, le_rscale, index_of, index_lem, places_lem, fits_result, rscale_fits,
}
use pq_async.Numeric.Digits.{
  prefix, shift, reversed_value, window, AreDigits, shift-le, shift-zero, prefix_bound, window_all,
  window_split, prefix-reverse,
}
use pq_async.Numeric.Strip.{places, Fits, abs_at, Same}

-- One digit of a difference, with its borrow.
borrow_once :
    (plus minus : ℕ)
    → minus ≤ 10000
    → (if ltb plus minus then plus + 10000 - minus else plus - minus) + minus
      ≡ plus + 10000 * (if ltb plus minus then 1 else 0)
borrow_once plus minus h = ground arith

borrow_digit :
    (plus minus : ℕ)
    → plus < 10000
    → (if ltb plus minus then plus + 10000 - minus else plus - minus) < 10000
borrow_digit plus minus h = ground arith

module _ (ds1 ds2 : List ℕ) (a1 : AreDigits ds1) (a2 : AreDigits ds2) where
  sub_digits-value :
      (n : ℕ) (i1 i2 : ℤ) (borrow : ℕ)
      → borrow ≤ 1
      → reversed_value (sub_digits ds1 ds2 n i1 i2 borrow).0 + (borrow + window ds2 i2 n)
        ≡ shift n (sub_digits ds1 ds2 n i1 i2 borrow).1 + window ds1 i1 n
  unfolding sub_digits reversed_value shift window
  sub_digits-value zero i1 i2 borrow h = omega arith
  sub_digits-value (suc n) i1 i2 borrow h =
      let plus = digit_at ds1 (pred_ℤ i1) in
      let minus = borrow + digit_at ds2 (pred_ℤ i2) in
      omega (
        arith,
        borrow_once plus minus (omega (arith, h, digit_at_bound ds2 (pred_ℤ i2) a2)),
        sub_digits-value n (pred_ℤ i1) (pred_ℤ i2) (if ltb plus minus then 1 else 0)
            (at_most_one (ltb plus minus)),
      )

  sub_digits-length :
      (n : ℕ) (i1 i2 : ℤ) (borrow : ℕ) → length (sub_digits ds1 ds2 n i1 i2 borrow).0 ≡ n
  unfolding sub_digits
  sub_digits-length zero i1 i2 borrow = refl
  sub_digits-length (suc n) i1 i2 borrow = ap suc (
      sub_digits-length n (pred_ℤ i1) (pred_ℤ i2)
        (if ltb (digit_at ds1 (pred_ℤ i1)) (borrow + digit_at ds2 (pred_ℤ i2)) then 1 else 0))

  sub_digits-AreDigits :
      (n : ℕ) (i1 i2 : ℤ) (borrow : ℕ) → AreDigits (sub_digits ds1 ds2 n i1 i2 borrow).0
  unfolding sub_digits
  sub_digits-AreDigits zero i1 i2 borrow = tt
  sub_digits-AreDigits (suc n) i1 i2 borrow =
      let plus = digit_at ds1 (pred_ℤ i1) in
      let minus = borrow + digit_at ds2 (pred_ℤ i2) in
      (
        borrow_digit plus minus (digit_at_bound ds1 (pred_ℤ i1) a1),
        sub_digits-AreDigits n (pred_ℤ i1) (pred_ℤ i2) (if ltb plus minus then 1 else 0),
      )

reversed_value_bound : (ds : List ℕ) → AreDigits ds → reversed_value ds < shift (length ds) 1
reversed_value_bound ds a =
    omega (arith, prefix-reverse ds, prefix_bound (reverse ds) (length ds) (reverse-AreDigits ds a))

no_borrow : (n borrow v x y : ℕ) → v + y ≡ shift n borrow + x → y ≤ x → v < shift n 1 → v ≡ x - y
no_borrow n zero v x y e h k = omega (arith, e, h, shift-zero n)
no_borrow n (suc c) v x y e h k =
    absurd (omega (arith, e, h, k, shift-le n 1 (suc c) (omega arith)))

-- Digits above the window are 0 where the whole is less than what the window can count.
window_whole : (ds : List ℕ) (b n : ℕ) → prefix ds b < shift n 1 → window ds (pos b) n ≡ prefix ds b
window_whole ds b n h = elim (le-or b n) [
  | inl le ↦ window_all ds b n le
  | inr (p, e) ↦
      nothing_above (prefix ds p) (omega (arith, h, window_split ds p n b e))
        (window_split ds p n b e)
]
  where
    le-or : (x y : ℕ) → (x ≤ y) ⊎ ((p : ℕ) × (x ≡ p + y))
    le-or x y = elim (Bool-cases (ltb y x)) [
      | inl e ↦ inr (x - y, ground arith)
      | inr e ↦ inl (ground arith)
    ]

    nothing_above :
        (v : ℕ)
        → shift n v < shift n 1
        → prefix ds b ≡ window ds (pos b) n + shift n v
        → window ds (pos b) n ≡ prefix ds b
    nothing_above zero h e = omega (arith, e, shift-zero n)
    nothing_above (suc v) h e = absurd (omega (arith, h, shift-le n 1 (suc v) (omega arith)))

difference_aligned :
    (k p n b : ℕ) (ds1 ds2 : List ℕ) (w1 w2 : ℤ) (sign : Sign) (dscale : ℤ)
    → places k w1 ≡ n + p
    → length ds1 ≤ n
    → AreDigits ds1
    → places k w2 ≡ b + p
    → length ds2 ≤ b
    → AreDigits ds2
    → prefix ds2 b ≤ prefix ds1 n
    → neg_part w1 + n ≤ k + 1 + pos_part w1
    → Same k
        (shift p (prefix ds1 n - prefix ds2 b))
        (stripped_of (sub_digits ds1 ds2 n (pos n) (pos b) 0).0 w1 sign dscale)
difference_aligned k p n b ds1 ds2 w1 w2 sign dscale e1 l1 d1 e2 l2 d2 le f =
    let res = sub_digits ds1 ds2 n (pos n) (pos b) 0 in
    let len : length res.0 ≡ n = sub_digits-length ds1 ds2 d1 d2 n (pos n) (pos b) 0 in
    let are : AreDigits res.0 = sub_digits-AreDigits ds1 ds2 d1 d2 n (pos n) (pos b) 0 in
    finish k p n (prefix ds1 n - prefix ds2 b) res.0 w1 sign dscale len
      (no_borrow n res.1 (reversed_value res.0) (prefix ds1 n) (prefix ds2 b)
        (omega (
          arith,
          sub_digits-value ds1 ds2 d1 d2 n (pos n) (pos b) 0 (omega arith),
          window_all ds1 n n (omega arith),
          window_whole ds2 b n (omega (arith, le, prefix_bound ds1 n d1)),
        ))
        le
        (subst (λ (m : ℕ). reversed_value res.0 < shift m 1) len (reversed_value_bound res.0 are)))
      e1 f are

prefix-zero : (ds : List ℕ) → prefix ds 0 ≡ 0
unfolding prefix
prefix-zero ds = refl

-- A number that is not 0 has a digit in the result.
index_pos :
    (k : ℕ) (ds : List ℕ) (w r : ℤ)
    → LeZ r (pos k)
    → Has (length ds) w r
    → 0 < prefix ds (places k w)
    → 1 ≤ index_of r w
index_pos k ds w r hk h p = nonzero (index_of r w) (
    aligned k (pos_part (pos k -ℤ r)) (index_of r w) ds w (places_lem k (length ds) w r hk h)
      (index_lem (length ds) w r h).1)
  where
    nonzero : (n : ℕ) → prefix ds (places k w) ≡ shift (pos_part (pos k -ℤ r)) (prefix ds n) → 1 ≤ n
    nonzero zero e = absurd (
        omega (
          arith,
          p,
          e ∙ ap (shift (pos_part (pos k -ℤ r))) (prefix-zero ds),
          shift-zero (pos_part (pos k -ℤ r)),
        ))
    nonzero (suc n) e = omega arith

shift-sub : (p a b : ℕ) → shift p (a - b) ≡ shift p a - shift p b
unfolding shift
shift-sub zero a b = refl
shift-sub (suc p) a b = omega (arith, shift-sub p a b)

shift-le_inv : (p a b : ℕ) → shift p a ≤ shift p b → a ≤ b
unfolding shift
shift-le_inv zero a b h = h
shift-le_inv (suc p) a b h = shift-le_inv p a b (omega (arith, h))

difference_of :
    (k : ℕ) (ds1 ds2 : List ℕ) (w1 w2 r : ℤ) (sign : Sign) (dscale : ℤ)
    → LeZ r (pos k)
    → Has (length ds1) w1 r
    → AreDigits ds1
    → Has (length ds2) w2 r
    → AreDigits ds2
    → prefix ds2 (places k w2) < prefix ds1 (places k w1)
    → (n : ℕ) → index_of r w1 ≡ suc n
    → Same k (prefix ds1 (places k w1) - prefix ds2 (places k w2)) (
        stripped_of
          (sub_digits ds1 ds2
            (at_least_one (r +ℤ w1 +ℤ pos 1))
            (r +ℤ w1 +ℤ pos 1)
            (r +ℤ w2 +ℤ pos 1)
            0).0
          w1
          sign
          dscale)
difference_of k ds1 ds2 w1 w2 r sign dscale hk h1 d1 h2 d2 lt n e =
    let p = pos_part (pos k -ℤ r) in
    let b = index_of r w2 in
    let e1 : places k w1 ≡ suc n + p = omega (arith, e, places_lem k (length ds1) w1 r hk h1) in
    let e2 = places_lem k (length ds2) w2 r hk h2 in
    let l1 : length ds1 ≤ suc n = omega (arith, e, (index_lem (length ds1) w1 r h1).1) in
    let l2 = (index_lem (length ds2) w2 r h2).1 in
    let s1 = aligned k p (suc n) ds1 w1 e1 l1 in
    let s2 = aligned k p b ds2 w2 e2 l2 in
    rw ((index_lem (length ds1) w1 r h1).0 ∙ ap pos e, (index_lem (length ds2) w2 r h2).0)
      (subst
        (λ v.
          Same k v
            (stripped_of (sub_digits ds1 ds2 (suc n) (pos (suc n)) (pos b) 0).0 w1 sign dscale))
        (omega (arith, s1, s2, shift-sub p (prefix ds1 (suc n)) (prefix ds2 b)))
        (difference_aligned k p (suc n) b ds1 ds2 w1 w2 sign dscale e1 l1 d1 e2 l2 d2
          (shift-le_inv p (prefix ds2 b) (prefix ds1 (suc n)) (omega (arith, s1, s2, lt)))
          (omega (arith, fits_result k (length ds1) w1 r hk h1, e))))

-- The difference of the absolute values, where the first is the greater.
pub sub_abs-Same :
    (k : ℕ) (var1 var2 result : Numeric)
    → Fits k var1
    → Fits k var2
    → AreDigits var1.digits
    → AreDigits var2.digits
    → abs_at k var2 < abs_at k var1
    → Same k (abs_at k var1 - abs_at k var2) (sub_abs var1 var2 result)
unfolding sub_abs
sub_abs-Same k var1 var2 result f1 f2 a1 a2 lt =
    let w1 = var1.weight in
    let w2 = var2.weight in
    let r = max_ℤ (rscale_of var1) (rscale_of var2) in
    let h1 : Has (length var1.digits) w1 r =
      le_rscale (length var1.digits) w1 r (le_max (rscale_of var1) (rscale_of var2)).0 in
    let h2 : Has (length var2.digits) w2 r =
      le_rscale (length var2.digits) w2 r (le_max (rscale_of var1) (rscale_of var2)).1 in
    let hk : LeZ r (pos k) =
      max_le (rscale_of var1) (rscale_of var2) (pos k) (rscale_fits k (length var1.digits) w1 f1)
        (rscale_fits k (length var2.digits) w2 f2) in
    let n = suc-cases 0 (index_of r w1) (index_pos k var1.digits w1 r hk h1 (omega (arith, lt))) in
    difference_of k var1.digits var2.digits w1 w2 r result.sign (max_ℤ var1.dscale var2.dscale) hk
      h1 a1 h2 a2 lt n.0 n.1
