-- ===== src/Numeric/Strip.antt =====
-- src/pg_type_numeric_def.cpp: strip_var.
use pq_async.Common.{
  ℕ, zero, suc, ◌+◌, ◌≤◌, ◌<◌, ◌≡◌, refl, ap, ◌∙◌, sym, subst, List, [], ◌∷◌, length, ℤ, pos,
  negsuc, ◌+ℤ◌, pos_part, neg_part, arith,
}
use pq_async.Numeric.{
  Numeric, pred_ℤ, digit, strip_leading, keep_digit, strip_trailing, normalize, strip_var,
}
use pq_async.Numeric.Digits.{prefix, AreDigits, prefix-cons, prefix-nil, shift-zero}

-- The digits down to 10000 to the power -K, the first of them at a weight.
abbrev pub places : ℕ → ℤ → ℕ
places k weight = pos_part (pos k +ℤ weight +ℤ pos 1)

-- A number has no digit below 10000 to the power -K.
abbrev pub FitsAt : ℕ → List ℕ → ℤ → Type 0
FitsAt k ds weight = neg_part weight + length ds ≤ k + 1 + pos_part weight

abbrev pub Fits : ℕ → Numeric → Type 0
Fits k var = FitsAt k var.digits var.weight

-- The absolute value of a number, in units of 10000 to the power -K.
abbrev pub abs_at : ℕ → Numeric → ℕ
abs_at k var = prefix var.digits (places k var.weight)

-- Zero has no digits, and no other number starts with a digit of 0.
abbrev pub IsStripped : List ℕ → Type 0
IsStripped [] = Unit
IsStripped (d ∷ ds) = 0 < d

pub length-le-places : (k : ℕ) (ds : List ℕ) (w : ℤ) → FitsAt k ds w → length ds ≤ places k w
length-le-places k ds (pos n) h = ground arith
length-le-places k ds (negsuc n) h = ground arith

pub places-pred :
    (k : ℕ) (d : ℕ) (ds : List ℕ) (w : ℤ)
    → FitsAt k (d ∷ ds) w
    → places k w ≡ suc (places k (pred_ℤ w))
places-pred k d ds (pos zero) h = ground arith
places-pred k d ds (pos (suc n)) h = ground arith
places-pred k d ds (negsuc n) h = ground arith

pub Fits-pred : (k : ℕ) (d : ℕ) (ds : List ℕ) (w : ℤ) → FitsAt k (d ∷ ds) w → FitsAt k ds (pred_ℤ w)
Fits-pred k d ds (pos zero) h = ground arith
Fits-pred k d ds (pos (suc n)) h = ground arith
Fits-pred k d ds (negsuc n) h = ground arith

-- A digit of 0 in front counts nothing.
pub prefix_zero :
    (k : ℕ) (ds : List ℕ) (w : ℤ)
    → FitsAt k (0 ∷ ds) w
    → prefix (0 ∷ ds) (places k w) ≡ prefix ds (places k (pred_ℤ w))
prefix_zero k ds w h =
    ap (prefix (0 ∷ ds)) (places-pred k 0 ds w h)
    ∙ (prefix-cons 0 ds (places k (pred_ℤ w)) ∙ omega (arith, shift-zero (places k (pred_ℤ w))))

-- What stripping keeps: the value, the unit it fits, and that its digits are digits.
pub record Same (k : ℕ) (v : ℕ) (var : Numeric) : Type 0 where
  pub value : abs_at k var ≡ v
  pub fits : Fits k var
  pub digits : AreDigits var.digits
  pub stripped : IsStripped var.digits

led :
    (k : ℕ) (ds : List ℕ) (var : Numeric)
    → FitsAt k ds var.weight
    → AreDigits ds
    → Same k (prefix ds (places k var.weight)) (strip_leading ds var)
unfolding strip_leading
led k [] var h a = record { value = refl; fits = h; digits = tt; stripped = tt }
led k (zero ∷ ds) var h (_, a) =
    subst (λ v. Same k v (strip_leading (0 ∷ ds) var)) (sym (prefix_zero k ds var.weight h))
      (led k ds (record var { weight = pred_ℤ var.weight; spare = 0 })
        (Fits-pred k 0 ds var.weight h) a)
led k (suc d ∷ ds) var h a = record { value = refl; fits = h; digits = a; stripped = omega arith }

pub prefix_ext :
    (a b : List ℕ) (n : ℕ) → ((i : ℕ) → digit a i ≡ digit b i) → prefix a n ≡ prefix b n
unfolding prefix
prefix_ext a b zero h = refl
prefix_ext a b (suc n) h = omega (arith, h n, prefix_ext a b n h)

digit-keep : (d : ℕ) (ds : List ℕ) (i : ℕ) → digit (keep_digit d ds) i ≡ digit (d ∷ ds) i
unfolding keep_digit digit
digit-keep zero [] zero = refl
digit-keep zero [] (suc i) = refl
digit-keep zero (x ∷ ds) i = refl
digit-keep (suc d) ds i = refl

digit-cons :
    (d : ℕ) (a b : List ℕ)
    → ((i : ℕ) → digit a i ≡ digit b i)
    → (i : ℕ) → digit (d ∷ a) i ≡ digit (d ∷ b) i
unfolding digit
digit-cons d a b h zero = refl
digit-cons d a b h (suc i) = h i

pub digit-strip : (ds : List ℕ) (i : ℕ) → digit (strip_trailing ds) i ≡ digit ds i
unfolding strip_trailing
digit-strip [] i = refl
digit-strip (d ∷ ds) i =
    digit-keep d (strip_trailing ds) i ∙ digit-cons d (strip_trailing ds) ds (digit-strip ds) i

length-keep : (d : ℕ) (ds : List ℕ) → length (keep_digit d ds) ≤ suc (length ds)
unfolding keep_digit
length-keep zero [] = omega arith
length-keep zero (x ∷ ds) = omega arith
length-keep (suc d) ds = omega arith

pub length-strip : (ds : List ℕ) → length (strip_trailing ds) ≤ length ds
unfolding strip_trailing
length-strip [] = omega arith
length-strip (d ∷ ds) = omega (arith, length-keep d (strip_trailing ds), length-strip ds)

digits-keep : (d : ℕ) (ds : List ℕ) → d < 10000 → AreDigits ds → AreDigits (keep_digit d ds)
unfolding keep_digit
digits-keep zero [] h a = tt
digits-keep zero (x ∷ ds) h a = (h, a)
digits-keep (suc d) ds h a = (h, a)

pub digits-strip : (ds : List ℕ) → AreDigits ds → AreDigits (strip_trailing ds)
unfolding strip_trailing
digits-strip [] a = tt
digits-strip (d ∷ ds) (h, a) = digits-keep d (strip_trailing ds) h (digits-strip ds a)

IsStripped-strip_trailing : (ds : List ℕ) → IsStripped ds → IsStripped (strip_trailing ds)
unfolding strip_trailing keep_digit
IsStripped-strip_trailing [] h = tt
IsStripped-strip_trailing (zero ∷ ds) h = absurd (omega (arith, h))
IsStripped-strip_trailing (suc d ∷ ds) h = h

normal :
    (k : ℕ) (ds : List ℕ) (var : Numeric)
    → FitsAt k ds var.weight
    → AreDigits ds
    → IsStripped ds
    → Same k (prefix ds (places k var.weight)) (normalize ds var)
unfolding normalize
normal k [] var h a s = record {
  value = prefix-nil (places k (pos 0)) ∙ sym (prefix-nil (places k var.weight));
  fits = omega arith;
  digits = tt;
  stripped = tt;
}
normal k (d ∷ ds) var h a s = record { value = refl; fits = h; digits = a; stripped = s }

pub fits-shorter :
    (k : ℕ) (a b : List ℕ) (w : ℤ) → length a ≤ length b → FitsAt k b w → FitsAt k a w
fits-shorter k a b w l h = omega (arith, l, h)

pub strip_var-Same :
    (k : ℕ) (var : Numeric)
    → Fits k var
    → AreDigits var.digits
    → Same k (abs_at k var) (strip_var var)
unfolding strip_var
strip_var-Same k var h a =
    let l = led k var.digits var h a in
    let ds = (strip_leading var.digits var).digits in
    subst (λ v. Same k v (strip_var var))
      (prefix_ext (strip_trailing ds) ds (places k (strip_leading var.digits var).weight)
          (digit-strip ds)
        ∙ l.value)
      (normal k (strip_trailing ds) (strip_leading var.digits var)
        (fits-shorter k (strip_trailing ds) ds (strip_leading var.digits var).weight
          (length-strip ds) l.fits)
        (digits-strip ds l.digits) (IsStripped-strip_trailing ds l.stripped))
