-- ===== src/Numeric/Signed/Ordered.antt =====
-- src/pg_type_numeric_def.cpp: cmp_var_common and the comparisons of `numeric`.
use pq_async.Common.{
  ℕ, zero, suc, ◌≤◌, ◌<◌, ◌≡◌, refl, ap, List, [], ◌∷◌, not, length, ℤ, pos, negsuc, ltb_ℤ, eqb_ℤ,
  arith, if◌then◌else◌,
}
use pq_async.Numeric.{
  Numeric, Sign, numeric_pos, numeric_neg, numeric_nan, is_pos, is_neg, cmp_abs, cmp_signed,
  cmp_var,
}
use pq_async.Numeric.Compare.{order_of}
use pq_async.Numeric.Digits.{prefix, prefix-cons, prefix-nil, shift_pos}
use pq_async.Numeric.Order.{cmp_abs-order}
use pq_async.Numeric.Signed.{eq, ne, lt, gt, le, ge}
use pq_async.Numeric.Signed.Exact.{signed, value_at, IsNumber, IsSigned}
use pq_async.Numeric.Strip.{places, FitsAt, abs_at, IsStripped, length-le-places}

-- 1, -1 or 0, as one integer is greater, less or the same.
abbrev pub order_ℤ : ℤ → ℤ → ℤ
order_ℤ a b = if ltb_ℤ b a then pos 1 else if ltb_ℤ a b then negsuc 0 else pos 0

-- A number with digits and no zeros in front is not 0.
digits_count :
    (k d : ℕ) (ds : List ℕ) (w : ℤ)
    → FitsAt k (d ∷ ds) w
    → IsStripped (d ∷ ds)
    → 0 < prefix (d ∷ ds) (places k w)
digits_count k d ds w f s = positive (places k w) (length-le-places k (d ∷ ds) w f)
  where
    positive : (n : ℕ) → suc (length ds) ≤ n → 0 < prefix (d ∷ ds) n
    positive zero h = absurd (omega (arith, h))
    positive (suc n) h = omega (arith, prefix-cons d ds n, shift_pos n d s)

value-nil : (k : ℕ) (w : ℤ) → prefix [] (places k w) ≡ 0
value-nil k w = prefix-nil (places k w)

signed_order :
    (s t : Sign) (x y : ℕ) (c d : ℤ)
    → IsSigned s
    → IsSigned t
    → 0 < x
    → 0 < y
    → c ≡ order_of x y
    → d ≡ order_of y x
    → (if is_pos s then (if is_neg t then pos 1 else c) else if is_pos t then negsuc 0 else d)
      ≡ order_ℤ (signed s x) (signed t y)
unfolding order_of
signed_order numeric_pos numeric_pos x y c d hs ht h g e f = ground arith
signed_order numeric_pos numeric_neg x y c d hs ht h g e f = ground arith
signed_order numeric_neg numeric_pos x y c d hs ht h g e f = ground arith
signed_order numeric_neg numeric_neg x y c d hs ht h g e f = ground arith
signed_order numeric_nan t x y c d hs ht h g e f = elim hs [ ]
signed_order numeric_pos numeric_nan x y c d hs ht h g e f = elim ht [ ]
signed_order numeric_neg numeric_nan x y c d hs ht h g e f = elim ht [ ]

none_left :
    (t : Sign) (x y : ℕ)
    → IsSigned t
    → x ≡ 0
    → 0 < y
    → (if is_neg t then pos 1 else negsuc 0) ≡ order_ℤ (pos 0) (signed t y)
none_left numeric_pos x y h e g = ground arith
none_left numeric_neg x y h e g = ground arith
none_left numeric_nan x y h e g = elim h [ ]

none_right :
    (s : Sign) (x : ℕ)
    → IsSigned s
    → 0 < x
    → (if is_pos s then pos 1 else negsuc 0) ≡ order_ℤ (signed s x) (pos 0)
none_right numeric_pos x h g = ground arith
none_right numeric_neg x h g = ground arith
none_right numeric_nan x h g = elim h [ ]

signed-zero : (s : Sign) (x : ℕ) → x ≡ 0 → signed s x ≡ pos 0
signed-zero numeric_pos x e = ground arith
signed-zero numeric_neg x e = ground arith
signed-zero numeric_nan x e = refl

module _ (k : ℕ) (w1 w2 c1 c2 : ℤ) (s1 s2 : Sign) (p1 p2 : ℕ) where
  abbrev left : List ℕ → Numeric
  left ds = record { digits = ds; weight = w1; sign = s1; dscale = c1; spare = p1 }

  abbrev right : List ℕ → Numeric
  right ds = record { digits = ds; weight = w2; sign = s2; dscale = c2; spare = p2 }

  parts_order :
      (ds1 ds2 : List ℕ)
      → IsNumber k (left ds1)
      → IsNumber k (right ds2)
      → cmp_var (left ds1) (right ds2)
        ≡ order_ℤ (signed s1 (prefix ds1 (places k w1))) (signed s2 (prefix ds2 (places k w2)))
  unfolding cmp_var cmp_signed
  parts_order [] [] a b =
      rw (signed-zero s1 _ (value-nil k w1), signed-zero s2 _ (value-nil k w2)) refl
  parts_order [] (y ∷ ys) a b = rw (signed-zero s1 _ (value-nil k w1)) (
      none_left s2 0 (prefix (y ∷ ys) (places k w2)) b.has_sign refl
        (digits_count k y ys w2 b.fits b.stripped))
  parts_order (x ∷ xs) [] a b = rw (signed-zero s2 _ (value-nil k w2)) (
      none_right s1 (prefix (x ∷ xs) (places k w1)) a.has_sign
        (digits_count k x xs w1 a.fits a.stripped))
  parts_order (x ∷ xs) (y ∷ ys) a b =
      let v = left (x ∷ xs) in
      let w = right (y ∷ ys) in
      signed_order s1 s2 (abs_at k v) (abs_at k w) (cmp_abs v w) (cmp_abs w v) a.has_sign b.has_sign
        (digits_count k x xs w1 a.fits a.stripped) (digits_count k y ys w2 b.fits b.stripped)
        (cmp_abs-order k v w a.fits b.fits a.digits b.digits)
        (cmp_abs-order k w v b.fits a.fits b.digits a.digits)

-- The order of numbers is that of what they count.
pub cmp_var-order :
    (k : ℕ) (a b : Numeric)
    → IsNumber k a
    → IsNumber k b
    → cmp_var a b ≡ order_ℤ (value_at k a) (value_at k b)
cmp_var-order k a b p q =
    parts_order k a.weight b.weight a.dscale b.dscale a.sign b.sign a.spare b.spare a.digits
      b.digits p q

order_tests :
    (c x y : ℤ)
    → c ≡ order_ℤ x y
    → (eqb_ℤ c (pos 0) ≡ eqb_ℤ x y) × (ltb_ℤ c (pos 0) ≡ ltb_ℤ x y) × (ltb_ℤ (pos 0) c ≡ ltb_ℤ y x)
order_tests c x y e = rw e (eq_test x y, lt_test x y, gt_test x y)
  where
    eq_test : (x y : ℤ) → eqb_ℤ (order_ℤ x y) (pos 0) ≡ eqb_ℤ x y
    eq_test x y = ground arith

    lt_test : (x y : ℤ) → ltb_ℤ (order_ℤ x y) (pos 0) ≡ ltb_ℤ x y
    lt_test x y = ground arith

    gt_test : (x y : ℤ) → ltb_ℤ (pos 0) (order_ℤ x y) ≡ ltb_ℤ y x
    gt_test x y = ground arith

-- On numbers that start with no digit 0 and are not `nan`, `numeric::cmp` and the six comparisons
-- are those of what the numbers count, in any unit below their digits, whatever zeros
-- they have behind and whatever their display scales are.
pub comparisons_lem :
    (k : ℕ) (a b : Numeric)
    → IsNumber k a
    → IsNumber k b
    → (cmp_var a b ≡ order_ℤ (value_at k a) (value_at k b))
      × (eq a b ≡ eqb_ℤ (value_at k a) (value_at k b))
      × (ne a b ≡ not (eqb_ℤ (value_at k a) (value_at k b)))
      × (lt a b ≡ ltb_ℤ (value_at k a) (value_at k b))
      × (gt a b ≡ ltb_ℤ (value_at k b) (value_at k a))
      × (le a b ≡ not (ltb_ℤ (value_at k b) (value_at k a)))
      × (ge a b ≡ not (ltb_ℤ (value_at k a) (value_at k b)))
unfolding eq ne lt gt le ge
comparisons_lem k a b p q =
    let e = cmp_var-order k a b p q in
    let (x, y, z) = order_tests (cmp_var a b) (value_at k a) (value_at k b) e in
    (e, x, ap not x, y, z, ap not z, ap not y)
