-- ===== src/Numeric/Values/Lengths.antt =====
-- src/pg_type_numeric_def.cpp: round_var and trunc_var keep no digit behind the last that is
-- wanted.
use pq_async.Common.{
  ℕ, zero, suc, ◌+◌, ◌-◌, ◌/◌, ◌%◌, ◌≤◌, ◌<◌, ◌≡◌, refl, ap, ◌∙◌, Bool, true, false, ◌&&◌, ◌||◌,
  List, [], ◌∷◌, ◌++◌, ltb, leb, ◌==◌, if◌then◌else◌, length, length-append, take, pos, negsuc,
  arith,
}
use pq_async.Numeric.{Numeric, digit}
use pq_async.Numeric.Strip.{places}
use pq_async.Numeric.Values.{
  put_carry, add_carry, carried, round_digit, round_powers, round_at, trunc_at,
}
use pq_async.Numeric.Values.Carries.{places-above}

-- No digit stands below 10000 to the power -K.
abbrev pub EndsAt : ℕ → Numeric → Type 0
EndsAt k var = length var.digits ≤ places k var.weight

length-put_carry : (d : ℕ) (r : List ℕ × ℕ) → length (put_carry d r).0 ≡ suc (length r.0)
length-put_carry d (ds, zero) = refl
length-put_carry d (ds, suc c) = ground arith

length-add_carry : (ds : List ℕ) (c : ℕ) → length (add_carry ds c).0 ≡ length ds
unfolding add_carry
length-add_carry [] c = refl
length-add_carry (d ∷ ds) c = length-put_carry d (add_carry ds c) ∙ ap suc (length-add_carry ds c)

length-take-le : (n : ℕ) (ds : List ℕ) → length (take n ds) ≤ n
length-take-le zero ds = omega arith
length-take-le (suc n) [] = omega arith
length-take-le (suc n) (d ∷ ds) = omega (arith, length-take-le n ds)

carried-EndsAt :
    (k m : ℕ) (var : Numeric) (r : List ℕ × ℕ) (last : List ℕ)
    → places k var.weight ≡ suc m
    → length r.0 + length last ≤ suc m
    → EndsAt k (carried var r last)
unfolding carried
carried-EndsAt k m var (ds, zero) last pl h = rw (pl, length-append ds last) h
carried-EndsAt k m var (ds, suc c) last pl h =
    rw (places-above k m var.weight pl, length-append ds last) (omega (arith, h))

-- What is cut off, or as it was where nothing is.
choice-EndsAt :
    (k : ℕ) (b : Bool) (x y : Numeric)
    → EndsAt k x
    → (b ≡ false → EndsAt k y)
    → EndsAt k (if b then x else y)
choice-EndsAt k true x y h g = h
choice-EndsAt k false x y h g = g refl

both-EndsAt :
    (k : ℕ) (b : Bool) (x y : Numeric) → EndsAt k x → EndsAt k y → EndsAt k (if b then x else y)
both-EndsAt k true x y h g = h
both-EndsAt k false x y h g = g

module _ (k m di : ℕ) (var : Numeric) (few : (di + 3) / 4 ≤ suc m)
    (pl : places k var.weight ≡ suc m) where
  pub round_at-EndsAt : EndsAt k (round_at var (pos di))
  unfolding round_at
  round_at-EndsAt =
      let n = (di + 3) / 4 in
      let within = round_digit (round_powers (di % 4)) (digit var.digits (n - 1)) in
      let one = if leb 5000 (digit var.digits n) then 1 else 0 in
      choice-EndsAt k (ltb n (length var.digits) || (n == length var.digits && ltb 0 (di % 4)))
        (if di % 4 == 0
          then carried var (add_carry (take n var.digits) one) []
          else carried var (add_carry (take (n - 1) var.digits) within.1) (within.0 ∷ []))
        var
        (both-EndsAt k (di % 4 == 0) (carried var (add_carry (take n var.digits) one) [])
          (carried var (add_carry (take (n - 1) var.digits) within.1) (within.0 ∷ []))
          (carried-EndsAt k m var (add_carry (take n var.digits) one) [] pl (
            omega
              (arith, few, length-add_carry (take n var.digits) one, length-take-le n var.digits)))
          (carried-EndsAt k m var (add_carry (take (n - 1) var.digits) within.1) (within.0 ∷ []) pl
            (omega (
              arith,
              few,
              length-add_carry (take (n - 1) var.digits) within.1,
              length-take-le (n - 1) var.digits,
            ))))
        (λ e. rw pl (not_longer n (length var.digits) (ltb 0 (di % 4)) few e))
    where
      not_longer : (n l : ℕ) (b : Bool) → n ≤ suc m → (ltb n l || (n == l && b)) ≡ false → l ≤ suc m
      not_longer n l b h e = ground arith

few_digits : (m n l : ℕ) → leb n l ≡ false → n ≤ suc m → l ≤ suc m
few_digits m n l e h = ground arith

one_more : (m n l : ℕ) → l ≤ n - 1 → 0 < n → n ≤ suc m → l + 1 ≤ suc m
one_more m n l e g h = omega (arith, e, g, h)

pub trunc_at-EndsAt :
    (k m di : ℕ) (var : Numeric)
    → (di + 3) / 4 ≤ suc m
    → places k var.weight ≡ suc m
    → EndsAt k (trunc_at var (pos di))
unfolding trunc_at
trunc_at-EndsAt k m zero var few pl = omega arith
trunc_at-EndsAt k m (suc i) var few pl =
    let n = (suc i + 3) / 4 in
    let last = digit var.digits (n - 1) - digit var.digits (n - 1) % round_powers (suc i % 4) in
    choice-EndsAt k (leb n (length var.digits))
      (if suc i % 4 == 0
        then record var { digits = take n var.digits }
        else record var { digits = take (n - 1) var.digits ++ (last ∷ []) })
      var
      (both-EndsAt k (suc i % 4 == 0) (record var { digits = take n var.digits })
        (record var { digits = take (n - 1) var.digits ++ (last ∷ []) })
        (rw pl (omega (arith, few, length-take-le n var.digits)))
        (rw (pl, length-append (take (n - 1) var.digits) (last ∷ []))
          (one_more m n (length (take (n - 1) var.digits)) (length-take-le (n - 1) var.digits)
            (omega arith) few)))
      (λ e. rw pl (few_digits m n (length var.digits) e few))

pub none_left-EndsAt :
    (k n : ℕ) (v : Numeric) → EndsAt k (round_at v (negsuc n)) × EndsAt k (trunc_at v (negsuc n))
unfolding round_at trunc_at
none_left-EndsAt k n v = (omega arith, omega arith)
