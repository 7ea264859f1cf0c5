-- ===== src/Numeric/Compare.antt =====
-- src/pg_type_numeric_def.cpp: the order of digits of the same weight.
use pq_async.Common.{
  ℕ, zero, suc, ◌+◌, ◌≤◌, ◌<◌, ◌≡◌, ◌⊎◌, inl, inr, ap, ◌∙◌, sym, List, [], ◌∷◌, true, false,
  Bool-cases, length, ℤ, pos, negsuc, arith, ltb, ◌==◌, if◌then◌else◌,
}
use pq_async.Numeric.{any_digit, compare_rests, compare_digits}
use pq_async.Numeric.Digits.{
  prefix, shift, AreDigits, shift-le, shift-add, shift-zero, shift_pos, prefix-cons, prefix-nil,
  prefix_bound,
}

-- 1, -1 or 0, as one number is greater, less or the same.
unfoldable pub order_of : ℕ → ℕ → ℤ
order_of a b = if ltb b a then pos 1 else if ltb a b then negsuc 0 else pos 0

pub order-gt : (a b : ℕ) → b < a → order_of a b ≡ pos 1
unfolding order_of
order-gt a b h = ground arith

pub order-lt : (a b : ℕ) → a < b → order_of a b ≡ negsuc 0
unfolding order_of
order-lt a b h = ground arith

pub order-eq : (a b : ℕ) → a ≡ b → order_of a b ≡ pos 0
unfolding order_of
order-eq a b h = ground arith

-- A digit that is not 0 in the first `n` places counts.
any-pos : (ds : List ℕ) (n : ℕ) → length ds ≤ n → any_digit ds ≡ true → 0 < prefix ds n
unfolding any_digit
any-pos [] n h e = absurd (cc)
any-pos (d ∷ ds) zero h e = absurd (omega (arith, h))
any-pos (zero ∷ ds) (suc n) h e =
    omega (arith, prefix-cons 0 ds n, any-pos ds n (omega (arith, h)) e)
any-pos (suc d ∷ ds) (suc n) h e =
    omega (arith, prefix-cons (suc d) ds n, shift_pos n (suc d) (omega arith))

any-zero : (ds : List ℕ) (n : ℕ) → length ds ≤ n → any_digit ds ≡ false → prefix ds n ≡ 0
unfolding any_digit
any-zero [] n h e = prefix-nil n
any-zero (d ∷ ds) zero h e = absurd (omega (arith, h))
any-zero (zero ∷ ds) (suc n) h e =
    omega (arith, prefix-cons 0 ds n, shift-zero n, any-zero ds n (omega (arith, h)) e)
any-zero (suc d ∷ ds) (suc n) h e = absurd (ground arith)

pub rests_left :
    (ds : List ℕ) (n : ℕ) → length ds ≤ n → compare_rests ds [] ≡ order_of (prefix ds n) 0
unfolding compare_rests any_digit
rests_left ds n h = elim (Bool-cases (any_digit ds)) [
  | inl e ↦ rw e (sym (order-gt (prefix ds n) 0 (any-pos ds n h e)))
  | inr e ↦ rw e (sym (order-eq (prefix ds n) 0 (any-zero ds n h e)))
]

pub rests_right :
    (ds : List ℕ) (n : ℕ) → length ds ≤ n → compare_rests [] ds ≡ order_of 0 (prefix ds n)
unfolding compare_rests any_digit
rests_right ds n h = elim (Bool-cases (any_digit ds)) [
  | inl e ↦ rw e (sym (order-lt 0 (prefix ds n) (any-pos ds n h e)))
  | inr e ↦ rw e (sym (order-eq 0 (prefix ds n) (sym (any-zero ds n h e))))
]

-- A greater first digit decides.
first_decides : (n x y a b : ℕ) → x < y → a < shift n 1 → shift n x + a < shift n y + b
first_decides n x y a b h k =
    omega (arith, k, shift-add n x 1, shift-le n (x + 1) y (omega (arith, h)))

pub trichotomy : (x y : ℕ) → (x < y) ⊎ ((x ≡ y) ⊎ (y < x))
trichotomy x y = elim (Bool-cases (ltb x y)) [
  | inl e ↦ inl (ground arith)
  | inr e ↦ elim (Bool-cases (ltb y x)) [
    | inl f ↦ inr (inr (ground arith))
    | inr f ↦ inr (inl (ground arith))
  ]
]

chosen : ℕ → ℕ → ℤ → ℤ
chosen x y rest = if x == y then rest else if ltb y x then pos 1 else negsuc 0

chosen-eq : (x y : ℕ) (rest : ℤ) → x ≡ y → chosen x y rest ≡ rest
unfolding chosen
chosen-eq x y rest e = ground arith

chosen-lt : (x y : ℕ) (rest : ℤ) → x < y → chosen x y rest ≡ negsuc 0
unfolding chosen
chosen-lt x y rest e = ground arith

chosen-gt : (x y : ℕ) (rest : ℤ) → y < x → chosen x y rest ≡ pos 1
unfolding chosen
chosen-gt x y rest e = ground arith

order-add : (c d a b : ℕ) → c ≡ d → order_of a b ≡ order_of (c + a) (d + b)
unfolding order_of
order-add c d a b e = ground arith

first_digit :
    (n x y a b : ℕ) (rest : ℤ)
    → a < shift n 1
    → b < shift n 1
    → rest ≡ order_of a b
    → chosen x y rest ≡ order_of (shift n x + a) (shift n y + b)
first_digit n x y a b rest h k e = elim (trichotomy x y) [
  | inl l ↦
      chosen-lt x y rest l
      ∙ sym (order-lt (shift n x + a) (shift n y + b) (first_decides n x y a b l h))
  | inr (inl q) ↦
      chosen-eq x y rest q ∙ (e ∙ order-add (shift n x) (shift n y) a b (ap (shift n) q))
  | inr (inr g) ↦
      chosen-gt x y rest g
      ∙ sym (order-gt (shift n x + a) (shift n y + b) (first_decides n y x b a g k))
]

pub digits-order :
    (ds1 ds2 : List ℕ) (n : ℕ)
    → AreDigits ds1
    → AreDigits ds2
    → length ds1 ≤ n
    → length ds2 ≤ n
    → compare_digits ds1 ds2 ≡ order_of (prefix ds1 n) (prefix ds2 n)
unfolding compare_digits chosen
digits-order [] [] n a1 a2 h1 h2 =
    rests_left [] n h1 ∙ ap (order_of (prefix [] n)) (sym (prefix-nil n))
digits-order [] (y ∷ ys) n a1 a2 h1 h2 =
    rests_right (y ∷ ys) n h2 ∙ ap (λ (t : ℕ). order_of t (prefix (y ∷ ys) n)) (sym (prefix-nil n))
digits-order (x ∷ xs) [] n a1 a2 h1 h2 =
    rests_left (x ∷ xs) n h1 ∙ ap (order_of (prefix (x ∷ xs) n)) (sym (prefix-nil n))
digits-order (x ∷ xs) (y ∷ ys) zero a1 a2 h1 h2 = absurd (omega (arith, h1))
digits-order (x ∷ xs) (y ∷ ys) (suc n) (b1, a1) (b2, a2) h1 h2 =
    rw (prefix-cons x xs n, prefix-cons y ys n)
      (first_digit n x y (prefix xs n) (prefix ys n) (compare_digits xs ys) (prefix_bound xs n a1)
        (prefix_bound ys n a2) (digits-order xs ys n a1 a2 (omega (arith, h1)) (omega (arith, h2))))
