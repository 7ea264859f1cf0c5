-- ===== src/Numeric/Order.antt =====
-- src/pg_type_numeric_def.cpp: cmp_abs compares absolute values.
use pq_async.Common.{
  ℕ, zero, suc, ◌≤◌, ◌≡◌, ◌⊎◌, inl, inr, refl, ap, ◌∙◌, sym, subst, List, [], ◌∷◌, true, false,
  Bool-cases, Option, none, some, length, ℤ, pos, negsuc, ltb_ℤ, eqb_ℤ, arith, ◌==◌,
}
use pq_async.Numeric.{
  Numeric, pred_ℤ, skip_zeros, compare_rests, compare_digits, compare_skipped, weight_left,
  cmp_abs_common, cmp_abs,
}
use pq_async.Numeric.Align.{LeZ}
use pq_async.Numeric.Compare.{order_of, order-gt, order-lt, rests_left, rests_right, digits-order}
use pq_async.Numeric.Digits.{
  prefix, shift, AreDigits, shift-le, prefix-cons, prefix-nil, prefix_bound,
}
use pq_async.Numeric.Add.{shift_longer}
use pq_async.Numeric.Strip.{
  places, Fits, FitsAt, abs_at, length-le-places, places-pred, Fits-pred, prefix_zero,
}

not_above : (o w : ℤ) → ltb_ℤ o w ≡ false → LeZ w o
not_above o w h = ground arith

above_pred : (o w : ℤ) → ltb_ℤ o w ≡ true → LeZ o (pred_ℤ w)
above_pred o (pos zero) h = ground arith
above_pred o (pos (suc n)) h = ground arith
above_pred o (negsuc n) h = ground arith

places_le : (k : ℕ) (o w : ℤ) → LeZ o w → places k o ≤ places k w
places_le k (pos o) (pos w) h = ground arith
places_le k (pos o) (negsuc w) h = ground arith
places_le k (negsuc o) (pos w) h = ground arith
places_le k (negsuc o) (negsuc w) h = ground arith

same_weight : (a b : ℤ) → eqb_ℤ a b ≡ true → a ≡ b
same_weight (pos a) (pos b) h = ground arith
same_weight (pos a) (negsuc b) h = ground arith
same_weight (negsuc a) (pos b) h = ground arith
same_weight (negsuc a) (negsuc b) h = ground arith

other_weight : (a b : ℤ) → eqb_ℤ a b ≡ false → LeZ a b → LeZ b a → ⊥
other_weight a b h f g = ground arith

-- What is left of digits when those above a weight are skipped.
record Left (k : ℕ) (ds : List ℕ) (w o : ℤ) (left : List ℕ) (at : ℤ) : Type 0 where
  value : prefix left (places k at) ≡ prefix ds (places k w)
  fits : FitsAt k left at
  digits : AreDigits left
  stop : (left ≡ []) ⊎ LeZ at o
  low : (at ≡ w) ⊎ LeZ o at

abbrev Skipped : ℕ → List ℕ → ℤ → ℤ → Option (List ℕ × ℤ) → Type 0
Skipped k ds w o none = shift (places k o) 1 ≤ prefix ds (places k w)
Skipped k ds w o (some (left, at)) = Left k ds w o left at

suc_nonzero : (d : ℕ) → (suc d == 0) ≡ false
suc_nonzero d = ground arith

nonzero_above :
    (k d : ℕ) (ds : List ℕ) (w o : ℤ)
    → FitsAt k (d ∷ ds) w
    → ltb_ℤ o w ≡ true
    → (d == 0) ≡ false
    → shift (places k o) 1 ≤ prefix (d ∷ ds) (places k w)
nonzero_above k d ds w o f h e =
    let m = places k (pred_ℤ w) in
    subst (λ n. shift (places k o) 1 ≤ prefix (d ∷ ds) n) (sym (places-pred k d ds w f))
      (omega (
        arith,
        prefix-cons d ds m,
        shift_longer (places k o) m (places_le k o (pred_ℤ w) (above_pred o w h)),
        shift-le m 1 d (ground arith),
      ))

stay :
    (k : ℕ) (ds : List ℕ) (w o : ℤ)
    → FitsAt k ds w
    → AreDigits ds
    → (ds ≡ []) ⊎ LeZ w o
    → Left k ds w o ds w
stay k ds w o f a s = record { value = refl; fits = f; digits = a; stop = s; low = inl refl }

skip_one :
    (k : ℕ) (ds : List ℕ) (w o : ℤ) (r : Option (List ℕ × ℤ))
    → FitsAt k (0 ∷ ds) w
    → ltb_ℤ o w ≡ true
    → Skipped k ds (pred_ℤ w) o r
    → Skipped k (0 ∷ ds) w o r
skip_one k ds w o none f h s = omega (arith, s, prefix_zero k ds w f)
skip_one k ds w o (some (left, at)) f h s = record {
  value = s.value ∙ sym (prefix_zero k ds w f);
  fits = s.fits;
  digits = s.digits;
  stop = s.stop;
  low = elim s.low [
    | inl e ↦ inr (subst (λ x. LeZ o x) (sym e) (above_pred o w h))
    | inr g ↦ inr g
  ];
}

skip-Skipped :
    (k : ℕ) (ds : List ℕ) (w o : ℤ)
    → FitsAt k ds w
    → AreDigits ds
    → Skipped k ds w o (skip_zeros ds w o)
unfolding skip_zeros
skip-Skipped k [] w o f a = stay k [] w o f tt (inl refl)
skip-Skipped k (zero ∷ ds) w o f (b, a) = elim (Bool-cases (ltb_ℤ o w)) [
  | inr e ↦ rw e (stay k (0 ∷ ds) w o f (b, a) (inr (not_above o w e)))
  | inl e ↦ rw e (
      skip_one k ds w o (skip_zeros ds (pred_ℤ w) o) f e
        (skip-Skipped k ds (pred_ℤ w) o (Fits-pred k 0 ds w f) a))
]
skip-Skipped k (suc d ∷ ds) w o f (b, a) = elim (Bool-cases (ltb_ℤ o w)) [
  | inr e ↦ rw e (stay k (suc d ∷ ds) w o f (b, a) (inr (not_above o w e)))
  | inl e ↦ rw (e, suc_nonzero d) (nonzero_above k (suc d) ds w o f e (suc_nonzero d))
]

le_trans : (a b c : ℤ) → LeZ a b → LeZ b c → LeZ a c
le_trans a b c h k = omega (arith, h, k)

-- Where the weights that are left differ, one side has no digits.
one_empty :
    (k : ℕ) (ds1 ds2 l1 l2 : List ℕ) (w1 w2 a1 a2 : ℤ)
    → Left k ds1 w1 w2 l1 a1
    → Left k ds2 w2 a1 l2 a2
    → eqb_ℤ a1 a2 ≡ false
    → (l1 ≡ []) ⊎ (l2 ≡ [])
one_empty k ds1 ds2 l1 l2 w1 w2 a1 a2 s t h = elim s.stop [
  | inl e ↦ inl e
  | inr le1 ↦ elim t.stop [
    | inl e ↦ inr e
    | inr le2 ↦ absurd (
        other_weight a1 a2 h (elim t.low [ inl e ↦ subst (λ x. LeZ a1 x) (sym e) le1 | inr g ↦ g ])
          le2)
  ]
]

rests-order :
    (l1 l2 : List ℕ) (n m : ℕ)
    → length l1 ≤ n
    → length l2 ≤ m
    → (l1 ≡ []) ⊎ (l2 ≡ [])
    → compare_rests l1 l2 ≡ order_of (prefix l1 n) (prefix l2 m)
rests-order [] l2 n m h1 h2 e =
    rests_right l2 m h2 ∙ ap (λ (t : ℕ). order_of t (prefix l2 m)) (sym (prefix-nil n))
rests-order (x ∷ l1) [] n m h1 h2 e =
    rests_left (x ∷ l1) n h1 ∙ ap (order_of (prefix (x ∷ l1) n)) (sym (prefix-nil m))
rests-order (x ∷ l1) (y ∷ l2) n m h1 h2 (inl e) = absurd (omega (arith, ap length e))
rests-order (x ∷ l1) (y ∷ l2) n m h1 h2 (inr e) = absurd (omega (arith, ap length e))

leftover_order :
    (k : ℕ) (ds1 ds2 l1 l2 : List ℕ) (w1 w2 a1 a2 : ℤ)
    → Left k ds1 w1 w2 l1 a1
    → Left k ds2 w2 a1 l2 a2
    → compare_skipped (some (l1, a1)) (some (l2, a2))
      ≡ order_of (prefix ds1 (places k w1)) (prefix ds2 (places k w2))
unfolding compare_skipped
leftover_order k ds1 ds2 l1 l2 w1 w2 a1 a2 s t =
    rw (sym s.value, sym t.value)
      (elim (Bool-cases (eqb_ℤ a1 a2)) [
        | inl e ↦ rw e (
            subst
              (λ b.
                compare_digits l1 l2 ≡ order_of (prefix l1 (places k a1)) (prefix l2 (places k b)))
              (same_weight a1 a2 e)
              (digits-order l1 l2 (places k a1) s.digits t.digits (length-le-places k l1 a1 s.fits)
                (subst (λ b. length l2 ≤ places k b) (sym (same_weight a1 a2 e))
                  (length-le-places k l2 a2 t.fits))))
        | inr e ↦ rw e (
            rests-order l1 l2 (places k a1) (places k a2) (length-le-places k l1 a1 s.fits)
              (length-le-places k l2 a2 t.fits) (one_empty k ds1 ds2 l1 l2 w1 w2 a1 a2 s t e))
      ])

module _ (k : ℕ) (ds1 ds2 : List ℕ) (w1 w2 : ℤ) (d1 : AreDigits ds1) (d2 : AreDigits ds2) where
  second_order :
      (l1 : List ℕ) (a1 : ℤ) (r : Option (List ℕ × ℤ))
      → Left k ds1 w1 w2 l1 a1
      → Skipped k ds2 w2 a1 r
      → compare_skipped (some (l1, a1)) r
        ≡ order_of (prefix ds1 (places k w1)) (prefix ds2 (places k w2))
  unfolding compare_skipped
  second_order l1 a1 none s t = sym (
      order-lt (prefix ds1 (places k w1)) (prefix ds2 (places k w2))
        (omega (arith, t, s.value, prefix_bound l1 (places k a1) s.digits)))
  second_order l1 a1 (some (l2, a2)) s t = leftover_order k ds1 ds2 l1 l2 w1 w2 a1 a2 s t

  both_order :
      (r : Option (List ℕ × ℤ))
      → Skipped k ds1 w1 w2 r
      → FitsAt k ds2 w2
      → compare_skipped r (skip_zeros ds2 w2 (weight_left w1 r))
        ≡ order_of (prefix ds1 (places k w1)) (prefix ds2 (places k w2))
  unfolding compare_skipped weight_left
  both_order none s f = sym (
      order-gt (prefix ds1 (places k w1)) (prefix ds2 (places k w2))
        (omega (arith, s, prefix_bound ds2 (places k w2) d2)))
  both_order (some (l1, a1)) s f =
      second_order l1 a1 (skip_zeros ds2 w2 a1) s (skip-Skipped k ds2 w2 a1 f d2)

-- `cmp_abs` compares what the numbers count, whatever zeros are in front or behind.
pub cmp_abs-order :
    (k : ℕ) (var1 var2 : Numeric)
    → Fits k var1
    → Fits k var2
    → AreDigits var1.digits
    → AreDigits var2.digits
    → cmp_abs var1 var2 ≡ order_of (abs_at k var1) (abs_at k var2)
unfolding cmp_abs cmp_abs_common
cmp_abs-order k var1 var2 f1 f2 d1 d2 =
    both_order k var1.digits var2.digits var1.weight var2.weight d1 d2
      (skip_zeros var1.digits var1.weight var2.weight)
      (skip-Skipped k var1.digits var1.weight var2.weight f1 d1) f2
