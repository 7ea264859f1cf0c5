-- ===== src/Numeric/Values/Written.antt =====
-- src/pg_type_numeric_def.cpp: 64 bit integers become numbers, and are read back from them.
use pq_async.Common.{
  ℕ, zero, suc, ◌+◌, ◌-◌, ◌*◌, ◌/◌, ◌≤◌, ◌<◌, ◌≡◌, inl, inr, ap, ◌∙◌, subst, true, false,
  Bool-cases, List, [], ◌∷◌, some, ◌==◌, if◌then◌else◌, length, ℤ, pos, negsuc, eqb_ℤ, pos_part,
  neg_part, ok, throw, Result, ltb, ◌⊎◌, arith,
}
use pq_async.Numeric.{Numeric, Sign, numeric_pos, numeric_neg, numeric}
use pq_async.Numeric.Digits.{prefix, shift, AreDigits, shift-add, prefix-cons, prefix-nil}
use pq_async.Numeric.Signed.Exact.{signed, IsSigned, Counts, recount}
use pq_async.Numeric.Strip.{places, IsStripped}
use pq_async.Numeric.Values.{
  Refusal, integer_out_of_range, or_unable, or_out_of_range, as_int64, narrow, numericvar_to_int32,
  write_digits, int64_to_numericvar,
}
use pq_async.Numeric.Values.Integers.{
  limit, in_int64, shift-times, shift-suc, shift-none, numericvar_to_int64_lem,
}

-- Digits that count a value, with no 0 in front.
record Written (v : ℕ) (ds : List ℕ) : Type 0 where
  value : prefix ds (length ds) ≡ v
  digits : AreDigits ds
  stripped : IsStripped ds

shift-div : (n u : ℕ) → shift n (u - u / 10000 * 10000) + 10000 * shift n (u / 10000) ≡ shift n u
shift-div n u = omega (
  arith,
  shift-times n (u / 10000),
  shift-add n (u / 10000 * 10000) (u - u / 10000 * 10000),
  ap (shift n) (whole_part u),
)
  where
    whole_part : (u : ℕ) → u / 10000 * 10000 + (u - u / 10000 * 10000) ≡ u
    whole_part u = omega arith

last_digit : (u : ℕ) → u / 10000 ≡ 0 → u - u / 10000 * 10000 ≡ u
last_digit u e = omega (arith, e)

is_zero : (u : ℕ) → (u == 0) ≡ true → u ≡ 0
is_zero u e = ground arith

is_more : (u : ℕ) → (u == 0) ≡ false → 0 < u
is_more u e = ground arith

write_lem :
    (room u : ℕ) (ds : List ℕ)
    → 0 < u
    → u < shift room 1
    → AreDigits ds
    → Written (shift (length ds) u + prefix ds (length ds)) (write_digits room u ds)
unfolding write_digits
write_lem zero u ds h k a = absurd (omega (arith, h, k, shift-none 1))
write_lem (suc room) u ds h k a =
    let d = u - u / 10000 * 10000 in
    let n = length ds in
    elim (Bool-cases (u / 10000 == 0)) [
      | inl e ↦ rw e (record {
        value =
            prefix-cons d ds n
            ∙ ap (λ t. shift n t + prefix ds n) (last_digit u (is_zero (u / 10000) e));
        digits = (omega arith, a);
        stripped = omega (arith, h, is_zero (u / 10000) e);
      })
      | inr e ↦ rw e (
          subst (λ v. Written v (write_digits room (u / 10000) (d ∷ ds)))
            (omega (arith, shift-suc n (u / 10000), prefix-cons d ds n, shift-div n u))
            (write_lem room (u / 10000) (d ∷ ds) (is_more (u / 10000) e)
              (omega (arith, k, shift-suc room 1)) (omega arith, a)))
    ]

five_digits : (m : ℕ) → m ≤ limit → m < shift 5 1
unfolding shift
five_digits m h = omega (arith, h)

magnitude : (m : ℕ) → 0 < m → m ≤ limit → Written m (write_digits 5 m [])
magnitude m h k =
    subst (λ v. Written v (write_digits 5 m [])) (omega (arith, shift-none m, prefix-nil 0))
      (write_lem 5 m [] h (five_digits m k) tt)

-- Digits that count something.
abbrev number_of : List ℕ → Sign → ℕ → Numeric
number_of ds s before = record numeric {
  digits = ds;
  weight = pos (length ds - 1);
  sign = s;
  spare = if length ds == 5 then 0 else before;
}

number_places : (n : ℕ) → places 0 (pos (suc n - 1)) ≡ suc n
number_places n = ground arith

number_Counts :
    (m : ℕ) (ds : List ℕ) (s : Sign) (before : ℕ)
    → 0 < m
    → Written m ds
    → IsSigned s
    → Counts 0 (signed s m) (number_of ds s before)
number_Counts m [] s before h w hs = absurd (omega (arith, h, w.value, prefix-nil 0))
number_Counts m (d ∷ ds) s before h w hs = record {
  is = record { fits = omega arith; digits = w.digits; stripped = w.stripped; has_sign = hs };
  value = ap (signed s) (ap (prefix (d ∷ ds)) (number_places (length ds)) ∙ w.value);
}

abbrev pub InInt64 : ℤ → Type 0
InInt64 v = (neg_part v ≤ limit) × (pos_part v < limit)

int64_to_numericvar-Counts :
    (before : ℕ) (v : ℤ) → InInt64 v → Counts 0 v (int64_to_numericvar before v)
unfolding int64_to_numericvar
int64_to_numericvar-Counts before (pos zero) h = record {
  is = record { fits = omega arith; digits = tt; stripped = tt; has_sign = tt };
  value = ap pos (prefix-nil (places 0 (pos 0)));
}
int64_to_numericvar-Counts before (pos (suc m)) h = rw (nonzero_pos m) (
    number_Counts (suc m) (write_digits 5 (suc m) []) numeric_pos before (omega arith)
      (magnitude (suc m) (omega arith) (omega (arith, h))) tt)
  where
    nonzero_pos : (m : ℕ) → eqb_ℤ (pos (suc m)) (pos 0) ≡ false
    nonzero_pos m = ground arith
int64_to_numericvar-Counts before (negsuc m) h = rw (nonzero_neg m) (
    recount (minus_suc m) (
      number_Counts (suc m) (write_digits 5 (suc m) []) numeric_neg before (omega arith)
        (magnitude (suc m) (omega arith) (omega (arith, h))) tt))
  where
    nonzero_neg : (m : ℕ) → eqb_ℤ (negsuc m) (pos 0) ≡ false
    nonzero_neg m = ground arith

    minus_suc : (m : ℕ) → signed numeric_neg (suc m) ≡ negsuc m
    minus_suc m = ground arith

in_range : (v : ℤ) → InInt64 v → in_int64 v ≡ some v
in_range v h = ground arith

-- From -2^31 up to 2^31 - 1.
abbrev pub InInt32 : ℤ → Type 0
InInt32 v = (neg_part v ≤ 2147483648) × (pos_part v < 2147483648)

-- A 32 bit integer is handed on, and anything else refused.
narrow_lem :
    (v : ℤ)
    → (InInt32 v × (narrow v ≡ ok v)) ⊎ ((¬ InInt32 v) × (narrow v ≡ throw integer_out_of_range))
unfolding narrow
narrow_lem (pos n) = elim (Bool-cases (ltb 2147483647 n)) [
  | inl e ↦ inr (λ h. omega (arith, h.1, above n e), ground arith)
  | inr e ↦ inl ((omega arith, within n e), ground arith)
]
  where
    above : (n : ℕ) → ltb 2147483647 n ≡ true → 2147483648 ≤ n
    above n e = ground arith

    within : (n : ℕ) → ltb 2147483647 n ≡ false → n < 2147483648
    within n e = ground arith
narrow_lem (negsuc n) = elim (Bool-cases (ltb 2147483647 n)) [
  | inl e ↦ inr (λ h. omega (arith, h.0, above n e), ground arith)
  | inr e ↦ inl ((within n e, omega arith), ground arith)
]
  where
    above : (n : ℕ) → ltb 2147483647 n ≡ true → 2147483648 < suc n
    above n e = ground arith

    within : (n : ℕ) → ltb 2147483647 n ≡ false → suc n ≤ 2147483648
    within n e = ground arith

-- A 64 bit integer becomes a number without decimals that counts it, whatever stands before its
-- digits in the buffer, and this number is read back as the integer in 64 bits; in 32 bits it is
-- read back where it is from -2^31 up to 2^31 - 1, and is refused with the error for an integer out
-- of range everywhere else.
pub as_int64-int64_to_numericvar :
    (before : ℕ) (v : ℤ)
    → InInt64 v
    → Counts 0 v (int64_to_numericvar before v)
      × (as_int64 (int64_to_numericvar before v) ≡ ok v)
      × ((InInt32 v × (numericvar_to_int32 (int64_to_numericvar before v) ≡ ok v))
          ⊎ ((¬ InInt32 v)
              × (numericvar_to_int32 (int64_to_numericvar before v) ≡ throw integer_out_of_range)))
unfolding as_int64 numericvar_to_int32
as_int64-int64_to_numericvar before v h =
    let c = int64_to_numericvar-Counts before v h in
    let e =
      numericvar_to_int64_lem (int64_to_numericvar before v) c.is
      ∙ (ap in_int64 c.value ∙ in_range v h) in
    (
      c,
      ap or_unable e,
      by_range (numericvar_to_int32 (int64_to_numericvar before v)) (ap or_out_of_range e),
    )
  where
    by_range :
        (r : Result Refusal ℤ)
        → r ≡ narrow v
        → (InInt32 v × (r ≡ ok v)) ⊎ ((¬ InInt32 v) × (r ≡ throw integer_out_of_range))
    by_range r e = elim (narrow_lem v) [ inl (h, f) ↦ inl (h, e ∙ f) | inr (h, f) ↦ inr (h, e ∙ f) ]
