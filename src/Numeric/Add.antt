-- ===== src/Numeric/Add.antt =====
-- src/pg_type_numeric_def.cpp: add_abs is exact.
use pq_async.Common.{
  ℕ, zero, suc, ◌+◌, ◌-◌, ◌≤◌, ◌<◌, ◌≡◌, refl, ap, ◌∙◌, subst, List, [], ◌∷◌, ◌++◌, Bool, true,
  false, length, ℤ, pos, negsuc, ◌+ℤ◌, ◌-ℤ◌, pos_part, neg_part, arith, leb, if◌then◌else◌,
}
use mathlib.Core.List.{reverse, reverse-append}
use pq_async.Numeric.{
  Numeric, Sign, pred_ℤ, max_ℤ, digit_at, add_digits, rscale_of, at_least_one, strip_var, add_abs,
}
use pq_async.Numeric.Digits.{
  prefix, shift, reversed_value, window, AreDigits, shift-le, shift-add, shift-zero, digit_bound,
  prefix_bound, prefix_behind, window_all, length-reverse, prefix-reverse,
}
use pq_async.Numeric.Align.{
  LeZ, Has, le_max, max_le, le_rscale, index_of, index_lem, places_lem, above, above_lem,
  index_above, fits_result, rscale_fits,
}
use pq_async.Numeric.Strip.{places, Fits, abs_at, Same, strip_var-Same}

pub digit_at_bound : (ds : List ℕ) (i : ℤ) → AreDigits ds → digit_at ds i < 10000
unfolding digit_at
digit_at_bound ds (pos i) h = digit_bound ds i h
digit_at_bound ds (negsuc i) h = omega arith

one_carry :
    (carry a b : ℕ)
    → carry ≤ 1
    → a < 10000
    → b < 10000
    → (if leb 10000 (carry + a + b) then (carry + a + b) - 10000 else carry + a + b) < 10000
one_carry carry a b c h k = ground arith

pub at_most_one : (b : Bool) → (◌≤◌ (if b then 1 else 0) 1)
at_most_one true = omega arith
at_most_one false = omega arith

AreDigits-append-one : (ds : List ℕ) (d : ℕ) → AreDigits ds → d < 10000 → AreDigits (ds ++ (d ∷ []))
AreDigits-append-one [] d a h = (h, tt)
AreDigits-append-one (x ∷ ds) d (hx, a) h = (hx, AreDigits-append-one ds d a h)

pub reverse-AreDigits : (ds : List ℕ) → AreDigits ds → AreDigits (reverse ds)
reverse-AreDigits [] a = tt
reverse-AreDigits (d ∷ ds) (h, a) =
    rw (reverse-append (d ∷ []) ds) (AreDigits-append-one (reverse ds) d (reverse-AreDigits ds a) h)

module _ (ds1 ds2 : List ℕ) where
  -- The digits of a sum, with the carry on top, count what the operands count.
  add_digits-value :
      (n : ℕ) (i1 i2 : ℤ) (carry : ℕ)
      → reversed_value (add_digits ds1 ds2 n i1 i2 carry).0
          + shift n (add_digits ds1 ds2 n i1 i2 carry).1
        ≡ carry + window ds1 i1 n + window ds2 i2 n
  unfolding add_digits reversed_value shift window
  add_digits-value zero i1 i2 carry = omega arith
  add_digits-value (suc n) i1 i2 carry =
      let sum = carry + digit_at ds1 (pred_ℤ i1) + digit_at ds2 (pred_ℤ i2) in
      ground (arith, add_digits-value n (pred_ℤ i1) (pred_ℤ i2) (if leb 10000 sum then 1 else 0))

  add_digits-length :
      (n : ℕ) (i1 i2 : ℤ) (carry : ℕ) → length (add_digits ds1 ds2 n i1 i2 carry).0 ≡ n
  unfolding add_digits
  add_digits-length zero i1 i2 carry = refl
  add_digits-length (suc n) i1 i2 carry =
      let sum = carry + digit_at ds1 (pred_ℤ i1) + digit_at ds2 (pred_ℤ i2) in
      ap suc (add_digits-length n (pred_ℤ i1) (pred_ℤ i2) (if leb 10000 sum then 1 else 0))

  add_digits-AreDigits :
      (n : ℕ) (i1 i2 : ℤ) (carry : ℕ)
      → AreDigits ds1
      → AreDigits ds2
      → carry ≤ 1
      → AreDigits (add_digits ds1 ds2 n i1 i2 carry).0
  unfolding add_digits
  add_digits-AreDigits zero i1 i2 carry h1 h2 c = tt
  add_digits-AreDigits (suc n) i1 i2 carry h1 h2 c =
      let sum = carry + digit_at ds1 (pred_ℤ i1) + digit_at ds2 (pred_ℤ i2) in
      (
        one_carry carry (digit_at ds1 (pred_ℤ i1)) (digit_at ds2 (pred_ℤ i2)) c
            (digit_at_bound ds1 (pred_ℤ i1) h1) (digit_at_bound ds2 (pred_ℤ i2) h2),
        add_digits-AreDigits n (pred_ℤ i1) (pred_ℤ i2) (if leb 10000 sum then 1 else 0) h1 h2
            (at_most_one (leb 10000 sum)),
      )

abbrev pub stripped_of : List ℕ → ℤ → Sign → ℤ → Numeric
stripped_of ds w sign dscale =
    strip_var (record { digits = reverse ds; weight = w; sign = sign; dscale = dscale; spare = 0 })

-- A number whose digits come from a loop, and are then stripped.
pub finish :
    (k p n v : ℕ) (ds : List ℕ) (w : ℤ) (sign : Sign) (dscale : ℤ)
    → length ds ≡ n
    → reversed_value ds ≡ v
    → places k w ≡ n + p
    → neg_part w + n ≤ k + 1 + pos_part w
    → AreDigits ds
    → Same k (shift p v) (stripped_of ds w sign dscale)
finish k p n v ds w sign dscale l e pl f a =
    subst (λ t. Same k t (stripped_of ds w sign dscale))
      (prefix_behind (reverse ds) (length ds) p (places k w) (omega (arith, length-reverse ds))
          (omega (arith, pl, l))
        ∙ ap (shift p) (prefix-reverse ds ∙ e))
      (strip_var-Same k _ (omega (arith, f, l, length-reverse ds)) (reverse-AreDigits ds a))

pub shift_longer : (a n : ℕ) → a ≤ n → shift a 1 ≤ shift n 1
unfolding shift
shift_longer zero zero h = omega arith
shift_longer zero (suc n) h = omega (arith, shift_longer 0 n (omega arith))
shift_longer (suc a) zero h = absurd (omega (arith, h))
shift_longer (suc a) (suc n) h = omega (arith, shift_longer a n (omega (arith, h)))

-- A carry on top of the digits would count more than both operands.
no_carry :
    (n carry v x y : ℕ)
    → v + shift (suc n) carry ≡ x + y
    → x < shift n 1
    → y < shift n 1
    → v ≡ x + y
unfolding shift
no_carry n zero v x y e h k = omega (arith, e, shift-zero n)
no_carry n (suc c) v x y e h k = absurd (omega (arith, e, h, k, shift-le n 1 (suc c) (omega arith)))

-- What the operands count down to the end of the result.
pub aligned :
    (k p a : ℕ) (ds : List ℕ) (w : ℤ)
    → places k w ≡ a + p
    → length ds ≤ a
    → prefix ds (places k w) ≡ shift p (prefix ds a)
aligned k p a ds w e h = prefix_behind ds a p (places k w) h e

sum_aligned :
    (k p n a b : ℕ) (ds1 ds2 : List ℕ) (w1 w2 w : ℤ) (sign : Sign) (dscale : ℤ)
    → places k w1 ≡ a + p
    → length ds1 ≤ a
    → suc a ≤ suc n
    → AreDigits ds1
    → places k w2 ≡ b + p
    → length ds2 ≤ b
    → suc b ≤ suc n
    → AreDigits ds2
    → places k w ≡ suc n + p
    → neg_part w + suc n ≤ k + 1 + pos_part w
    → Same k
        (prefix ds1 (places k w1) + prefix ds2 (places k w2))
        (stripped_of (add_digits ds1 ds2 (suc n) (pos a) (pos b) 0).0 w sign dscale)
sum_aligned k p n a b ds1 ds2 w1 w2 w sign dscale e1 l1 h1 d1 e2 l2 h2 d2 e f =
    subst
      (λ v. Same k v (stripped_of (add_digits ds1 ds2 (suc n) (pos a) (pos b) 0).0 w sign dscale))
      (shift-add p (prefix ds1 a) (prefix ds2 b)
        ∙ rw (aligned k p a ds1 w1 e1 l1, aligned k p b ds2 w2 e2 l2) refl)
      (finish k p (suc n) (prefix ds1 a + prefix ds2 b)
        (add_digits ds1 ds2 (suc n) (pos a) (pos b) 0).0 w sign dscale
        (add_digits-length ds1 ds2 (suc n) (pos a) (pos b) 0)
        (no_carry n (add_digits ds1 ds2 (suc n) (pos a) (pos b) 0).1
          (reversed_value (add_digits ds1 ds2 (suc n) (pos a) (pos b) 0).0) (prefix ds1 a)
          (prefix ds2 b)
          (add_digits-value ds1 ds2 (suc n) (pos a) (pos b) 0
            ∙ omega (
              arith,
              window_all ds1 a (suc n) (omega (arith, h1)),
              window_all ds2 b (suc n) (omega (arith, h2)),
            ))
          (omega (arith, prefix_bound ds1 a d1, shift_longer a n (omega (arith, h1))))
          (omega (arith, prefix_bound ds2 b d2, shift_longer b n (omega (arith, h2)))))
        e f (add_digits-AreDigits ds1 ds2 (suc n) (pos a) (pos b) 0 d1 d2 (omega arith)))

sum_of :
    (k : ℕ) (ds1 ds2 : List ℕ) (w1 w2 w r : ℤ) (sign : Sign) (dscale : ℤ)
    → LeZ r (pos k)
    → Has (length ds1) w1 r
    → pos_part w1 + 1 + neg_part w ≤ pos_part w + neg_part w1
    → AreDigits ds1
    → Has (length ds2) w2 r
    → pos_part w2 + 1 + neg_part w ≤ pos_part w + neg_part w2
    → AreDigits ds2
    → (n : ℕ) → index_of r w ≡ suc n
    → Same k (prefix ds1 (places k w1) + prefix ds2 (places k w2)) (
        stripped_of
          (add_digits ds1 ds2
            (at_least_one (r +ℤ w +ℤ pos 1))
            (r +ℤ w1 +ℤ pos 1)
            (r +ℤ w2 +ℤ pos 1)
            0).0
          w
          sign
          dscale)
sum_of k ds1 ds2 w1 w2 w r sign dscale hk h1 g1 d1 h2 g2 d2 n e =
    let t1 = index_above r w1 w (length ds1) h1 g1 in
    let t2 = index_above r w2 w (length ds2) h2 g2 in
    rw
      (
        (index_lem (suc (length ds1)) w r t1.1).0 ∙ ap pos e,
        (index_lem (length ds1) w1 r h1).0,
        (index_lem (length ds2) w2 r h2).0,
      )
      (sum_aligned k (pos_part (pos k -ℤ r)) n (index_of r w1) (index_of r w2) ds1 ds2 w1 w2 w sign
        dscale (places_lem k (length ds1) w1 r hk h1) (index_lem (length ds1) w1 r h1).1
        (omega (arith, t1.0, e)) d1 (places_lem k (length ds2) w2 r hk h2)
        (index_lem (length ds2) w2 r h2).1 (omega (arith, t2.0, e)) d2
        (omega (arith, places_lem k (suc (length ds1)) w r hk t1.1, e))
        (omega (arith, fits_result k (suc (length ds1)) w r hk t1.1, e)))

pub suc-cases : (a n : ℕ) → suc a ≤ n → (m : ℕ) × (n ≡ suc m)
suc-cases a zero h = absurd (omega (arith, h))
suc-cases a (suc n) h = (n, refl)

-- The sum of the absolute values.
pub add_abs-Same :
    (k : ℕ) (var1 var2 result : Numeric)
    → Fits k var1
    → Fits k var2
    → AreDigits var1.digits
    → AreDigits var2.digits
    → Same k (abs_at k var1 + abs_at k var2) (add_abs var1 var2 result)
unfolding add_abs above
add_abs-Same k var1 var2 result f1 f2 a1 a2 =
    let w1 = var1.weight in
    let w2 = var2.weight in
    let r = max_ℤ (rscale_of var1) (rscale_of var2) in
    let m = max_ℤ w1 w2 in
    let h1 : Has (length var1.digits) w1 r =
      le_rscale (length var1.digits) w1 r (le_max (rscale_of var1) (rscale_of var2)).0 in
    let h2 : Has (length var2.digits) w2 r =
      le_rscale (length var2.digits) w2 r (le_max (rscale_of var1) (rscale_of var2)).1 in
    let hk : LeZ r (pos k) =
      max_le (rscale_of var1) (rscale_of var2) (pos k) (rscale_fits k (length var1.digits) w1 f1)
        (rscale_fits k (length var2.digits) w2 f2) in
    let g1 = above_lem w1 m (le_max w1 w2).0 in
    let g2 = above_lem w2 m (le_max w1 w2).1 in
    let n =
      suc-cases (index_of r w1) (index_of r (above m))
        (index_above r w1 (above m) (length var1.digits) h1 g1).0 in
    sum_of k var1.digits var2.digits w1 w2 (above m) r result.sign (max_ℤ var1.dscale var2.dscale)
      hk h1 g1 a1 h2 g2 a2 n.0 n.1
