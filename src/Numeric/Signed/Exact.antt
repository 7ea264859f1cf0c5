-- ===== src/Numeric/Signed/Exact.antt =====
-- src/pg_type_numeric_def.cpp: sums and differences of numbers with a sign.
use pq_async.Common.{
  ℕ, ◌+◌, ◌-◌, ◌<◌, ◌≡◌, inl, inr, ap, ◌∙◌, subst, ℤ, pos, ◌+ℤ◌, ◌-ℤ◌, arith, ltb, if◌then◌else◌,
}
use pq_async.Numeric.{
  Numeric, Sign, numeric_pos, numeric_neg, numeric_nan, numeric, max_ℤ, cmp_abs, add_abs, sub_abs,
}
use pq_async.Numeric.Add.{add_abs-Same}
use pq_async.Numeric.Compare.{order-gt, order-lt, order-eq, trichotomy}
use pq_async.Numeric.Digits.{AreDigits, prefix-nil}
use pq_async.Numeric.Order.{cmp_abs-order}
use pq_async.Numeric.Signed.{set_sign, subtract_signed, add_signs, add_var, sub_signs, sub_var}
use pq_async.Numeric.Strip.{places, Fits, abs_at, IsStripped, Same}
use pq_async.Numeric.Subtract.{sub_abs-Same}

abbrev pub signed : Sign → ℕ → ℤ
signed numeric_pos n = pos n
signed numeric_neg n = pos 0 -ℤ pos n
signed numeric_nan n = pos 0

-- What a number counts, in units of 10000 to the power -K.
abbrev pub value_at : ℕ → Numeric → ℤ
value_at k var = signed var.sign (abs_at k var)

abbrev pub IsSigned : Sign → Type 0
IsSigned numeric_nan = ⊥
IsSigned _ = Unit

-- A number without digits below the unit, and not `nan`.
pub record IsNumber (k : ℕ) (var : Numeric) : Type 0 where
  pub fits : Fits k var
  pub digits : AreDigits var.digits
  pub stripped : IsStripped var.digits
  pub has_sign : IsSigned var.sign

-- A number of a value.
pub record Counts (k : ℕ) (v : ℤ) (var : Numeric) : Type 0 where
  pub is : IsNumber k var
  pub value : value_at k var ≡ v

counts :
    (k v : ℕ) (sign : Sign) (var : Numeric)
    → Same k v var
    → IsSigned sign
    → Counts k (signed sign v) (set_sign sign var)
counts k v sign var s h = record {
  is = record { fits = s.fits; digits = s.digits; stripped = s.stripped; has_sign = h };
  value = ap (signed sign) s.value;
}

pub recount : {k : ℕ} {v w : ℤ} {var : Numeric} → v ≡ w → Counts k v var → Counts k w var
recount e c = record { is = c.is; value = c.value ∙ e }

abbrev difference : Sign → Sign → ℕ → ℕ → ℤ
difference greater less a b =
    if ltb b a then signed greater (a - b) else if ltb a b then signed less (b - a) else pos 0

difference-gt : (g l : Sign) (a b : ℕ) → b < a → signed g (a - b) ≡ difference g l a b
difference-gt g l a b h = ground arith

difference-lt : (g l : Sign) (a b : ℕ) → a < b → signed l (b - a) ≡ difference g l a b
difference-lt g l a b h = ground arith

difference-eq : (g l : Sign) (a b : ℕ) → a ≡ b → pos 0 ≡ difference g l a b
difference-eq g l a b h = ground arith

zero-Counts : (k : ℕ) (d : ℤ) (s : ℕ) → Counts k (pos 0) (record numeric { dscale = d; spare = s })
zero-Counts k d s = record {
  is = record { fits = omega arith; digits = tt; stripped = tt; has_sign = tt };
  value = ap pos (prefix-nil (places k (pos 0)));
}

pos_pos : (x y : ℕ) → signed numeric_pos (x + y) ≡ signed numeric_pos x +ℤ signed numeric_pos y
pos_pos x y = ground arith

neg_neg : (x y : ℕ) → signed numeric_neg (x + y) ≡ signed numeric_neg x +ℤ signed numeric_neg y
neg_neg x y = ground arith

pos_neg :
    (x y : ℕ)
    → difference numeric_pos numeric_neg x y ≡ signed numeric_pos x +ℤ signed numeric_neg y
pos_neg x y = ground arith

neg_pos :
    (x y : ℕ)
    → difference numeric_neg numeric_pos x y ≡ signed numeric_neg x +ℤ signed numeric_pos y
neg_pos x y = ground arith

pos_minus_neg :
    (x y : ℕ) → signed numeric_pos (x + y) ≡ signed numeric_pos x -ℤ signed numeric_neg y
pos_minus_neg x y = ground arith

neg_minus_pos :
    (x y : ℕ) → signed numeric_neg (x + y) ≡ signed numeric_neg x -ℤ signed numeric_pos y
neg_minus_pos x y = ground arith

pos_minus_pos :
    (x y : ℕ)
    → difference numeric_pos numeric_neg x y ≡ signed numeric_pos x -ℤ signed numeric_pos y
pos_minus_pos x y = ground arith

neg_minus_neg :
    (x y : ℕ)
    → difference numeric_neg numeric_pos x y ≡ signed numeric_neg x -ℤ signed numeric_neg y
neg_minus_neg x y = ground arith

module _ (k : ℕ) (a b result : Numeric) (p : IsNumber k a) (q : IsNumber k b) where
  subtract_signed-Counts :
      (g l : Sign)
      → IsSigned g
      → IsSigned l
      → Counts k
          (difference g l (abs_at k a) (abs_at k b))
          (subtract_signed (cmp_abs a b) g l a b result)
  unfolding subtract_signed
  subtract_signed-Counts g l hg hl =
      let x = abs_at k a in
      let y = abs_at k b in
      let c = cmp_abs-order k a b p.fits q.fits p.digits q.digits in
      elim (trichotomy x y) [
        | inl h ↦ rw (c ∙ order-lt x y h) (
            subst (λ v. Counts k v (set_sign l (sub_abs b a result))) (difference-lt g l x y h)
              (counts k (y - x) l (sub_abs b a result)
                (sub_abs-Same k b a result q.fits p.fits q.digits p.digits h) hl))
        | inr (inl e) ↦
            rw (c ∙ order-eq x y e)
              (recount (difference-eq g l x y e) (zero-Counts k (max_ℤ a.dscale b.dscale) 0))
        | inr (inr h) ↦ rw (c ∙ order-gt x y h) (
            subst (λ v. Counts k v (set_sign g (sub_abs a b result))) (difference-gt g l x y h)
              (counts k (x - y) g (sub_abs a b result)
                (sub_abs-Same k a b result p.fits q.fits p.digits q.digits h) hg))
      ]

  sum-Counts :
      (s : Sign)
      → IsSigned s
      → Counts k (signed s (abs_at k a + abs_at k b)) (set_sign s (add_abs a b result))
  sum-Counts s h =
      counts k (abs_at k a + abs_at k b) s (add_abs a b result)
        (add_abs-Same k a b result p.fits q.fits p.digits q.digits) h

  -- What the branches of `add_var` and `sub_var` count is the sum and the difference.
  add_signs-Counts :
      (s t : Sign)
      → IsSigned s
      → IsSigned t
      → Counts k (signed s (abs_at k a) +ℤ signed t (abs_at k b)) (add_signs s t a b result)
  unfolding add_signs
  add_signs-Counts numeric_pos numeric_pos hs ht =
      recount (pos_pos (abs_at k a) (abs_at k b)) (sum-Counts numeric_pos tt)
  add_signs-Counts numeric_pos numeric_neg hs ht =
      recount (pos_neg (abs_at k a) (abs_at k b))
        (subtract_signed-Counts numeric_pos numeric_neg tt tt)
  add_signs-Counts numeric_neg numeric_pos hs ht =
      recount (neg_pos (abs_at k a) (abs_at k b))
        (subtract_signed-Counts numeric_neg numeric_pos tt tt)
  add_signs-Counts numeric_neg numeric_neg hs ht =
      recount (neg_neg (abs_at k a) (abs_at k b)) (sum-Counts numeric_neg tt)
  add_signs-Counts numeric_nan t hs ht = elim hs [ ]
  add_signs-Counts s numeric_nan hs ht = elim ht [ ]

  sub_signs-Counts :
      (s t : Sign)
      → IsSigned s
      → IsSigned t
      → Counts k (signed s (abs_at k a) -ℤ signed t (abs_at k b)) (sub_signs s t a b result)
  unfolding sub_signs
  sub_signs-Counts numeric_pos numeric_neg hs ht =
      recount (pos_minus_neg (abs_at k a) (abs_at k b)) (sum-Counts numeric_pos tt)
  sub_signs-Counts numeric_pos numeric_pos hs ht =
      recount (pos_minus_pos (abs_at k a) (abs_at k b))
        (subtract_signed-Counts numeric_pos numeric_neg tt tt)
  sub_signs-Counts numeric_neg numeric_neg hs ht =
      recount (neg_minus_neg (abs_at k a) (abs_at k b))
        (subtract_signed-Counts numeric_neg numeric_pos tt tt)
  sub_signs-Counts numeric_neg numeric_pos hs ht =
      recount (neg_minus_pos (abs_at k a) (abs_at k b)) (sum-Counts numeric_neg tt)
  sub_signs-Counts numeric_nan t hs ht = elim hs [ ]
  sub_signs-Counts s numeric_nan hs ht = elim ht [ ]

-- The sum of two numbers is exact, without zeros in front, and no operand matters beyond its value.
pub add_var-Counts :
    (k : ℕ) (a b result : Numeric)
    → IsNumber k a
    → IsNumber k b
    → Counts k (value_at k a +ℤ value_at k b) (add_var a b result)
unfolding add_var
add_var-Counts k a b result p q =
    add_signs-Counts k a b result p q a.sign b.sign p.has_sign q.has_sign

pub sub_var-Counts :
    (k : ℕ) (a b result : Numeric)
    → IsNumber k a
    → IsNumber k b
    → Counts k (value_at k a -ℤ value_at k b) (sub_var a b result)
unfolding sub_var
sub_var-Counts k a b result p q =
    sub_signs-Counts k a b result p q a.sign b.sign p.has_sign q.has_sign
