-- ===== src/Numeric/Values/Integers.antt =====
-- src/pg_type_numeric_def.cpp: whole numbers become 64 bit integers and back.
use pq_async.Common.{
  ℕ, zero, suc, ◌+◌, ◌*◌, ◌/◌, ◌%◌, ◌≤◌, ◌<◌, ◌≡◌, inl, inr, refl, ap, ◌∙◌, sym, true, false,
  Bool-cases, ◌&&◌, ◌||◌, List, [], ◌∷◌, Option, none, some, ltb, leb, ◌==◌, if◌then◌else◌, length,
  ℤ, pos, negsuc, ◌+ℤ◌, ◌-ℤ◌, ◌*ℤ◌, pos_part, neg_part, arith,
}
use pq_async.Numeric.{
  Numeric, Sign, numeric_pos, numeric_neg, numeric_nan, is_neg, strip_leading, strip_trailing,
  normalize, strip_var,
}
use pq_async.Numeric.Digits.{prefix, shift, AreDigits, shift-add, prefix-cons, prefix-nil}
use pq_async.Numeric.Signed.Exact.{signed, value_at, IsNumber, IsSigned}
use pq_async.Numeric.Strip.{
  places, FitsAt, IsStripped, prefix_ext, digit-strip, length-strip, digits-strip, fits-shorter,
}
use pq_async.Numeric.Values.{
  round_at, round_var, pg_sub_s64_overflow, pg_mul_s64_overflow, accumulate, and_then, negated,
  to_int64, numericvar_to_int64,
}

-- 2 to the power 63
abbrev pub limit : ℕ
limit = 9223372036854775808

abbrev minus : ℕ → ℤ
minus m = pos 0 -ℤ pos m

mul_minus :
    (m : ℕ)
    → m ≤ limit
    → pg_mul_s64_overflow (minus m) (pos 10000)
      ≡ (if leb (m * 10000) limit then some (minus (m * 10000)) else none)
unfolding pg_mul_s64_overflow
mul_minus zero h = refl
mul_minus (suc m) h = ground arith

sub_minus :
    (m d : ℕ)
    → m ≤ limit
    → d < 10000
    → pg_sub_s64_overflow (minus m) (pos d)
      ≡ (if leb (m + d) limit then some (minus (m + d)) else none)
unfolding pg_sub_s64_overflow
sub_minus m d h k = ground arith

-- A magnitude, where it is in the range of the negative numbers.
abbrev within : ℕ → Option ℤ
within m = if leb m limit then some (minus m) else none

within-none : (m : ℕ) → limit < m → within m ≡ none
within-none m h = ground arith

pub shift-times : (n m : ℕ) → shift n (m * 10000) ≡ 10000 * shift n m
unfolding shift
shift-times zero m = omega arith
shift-times (suc n) m = omega (arith, shift-times n m)

pub shift-suc : (n m : ℕ) → shift (suc n) m ≡ 10000 * shift n m
unfolding shift
shift-suc n m = refl

le-shift : (n m : ℕ) → m ≤ shift n m
unfolding shift
le-shift zero m = omega arith
le-shift (suc n) m = omega (arith, le-shift n m)

over : (a : ℕ) → leb a limit ≡ false → limit < a
over a h = ground arith

under : (a : ℕ) → leb a limit ≡ true → a ≤ limit
under a h = ground arith

-- A place behind the digits only multiplies.
empty_place :
    (m n v : ℕ) (f : ℤ → Option ℤ)
    → m ≤ limit
    → shift n (m * 10000) ≤ v
    → (m * 10000 ≤ limit → f (minus (m * 10000)) ≡ within v)
    → and_then (pg_mul_s64_overflow (minus m) (pos 10000)) f ≡ within v
empty_place m n v f h le e = rw (mul_minus m h) (elim (Bool-cases (leb (m * 10000) limit)) [
  | inr a ↦
      rw a (sym (within-none v (omega (arith, le, le-shift n (m * 10000), over (m * 10000) a))))
  | inl a ↦ rw a (e (under (m * 10000) a))
])

-- One place: the value goes up by a factor, and a digit is taken off.
place :
    (m d n v : ℕ) (f : ℤ → Option ℤ)
    → m ≤ limit
    → d < 10000
    → shift n (m * 10000 + d) ≤ v
    → (m * 10000 + d ≤ limit → f (minus (m * 10000 + d)) ≡ within v)
    → and_then
        (pg_mul_s64_overflow (minus m) (pos 10000))
        (λ x. and_then (pg_sub_s64_overflow x (pos d)) f)
      ≡ within v
place m d n v f h k le e = rw (mul_minus m h) (elim (Bool-cases (leb (m * 10000) limit)) [
  | inr a ↦
      rw a (sym (within-none v (omega (arith, le, le-shift n (m * 10000 + d), over (m * 10000) a))))
  | inl a ↦
      rw (a, sub_minus (m * 10000) d (under (m * 10000) a) k)
        (elim (Bool-cases (leb (m * 10000 + d) limit)) [
          | inr b ↦ rw b (
              sym (
                within-none v
                  (omega (arith, le, le-shift n (m * 10000 + d), over (m * 10000 + d) b))))
          | inl b ↦ rw b (e (under (m * 10000 + d) b))
        ])
])

within-some : (m : ℕ) → m ≤ limit → some (minus m) ≡ within m
within-some m h = ground arith

pub shift-none : (m : ℕ) → shift 0 m ≡ m
unfolding shift
shift-none m = refl

accumulate_lem :
    (ds : List ℕ) (n m : ℕ)
    → AreDigits ds
    → length ds ≤ n
    → m ≤ limit
    → accumulate ds n (minus m) ≡ within (shift n m + prefix ds n)
unfolding accumulate
accumulate_lem [] zero m a l h =
    within-some m h ∙ ap within (omega (arith, prefix-nil 0, shift-none m))
accumulate_lem (d ∷ ds) zero m a l h = absurd (omega (arith, l))
accumulate_lem [] (suc n) m a l h =
    empty_place m n (shift (suc n) m + prefix [] (suc n)) (accumulate [] n) h
      (omega (arith, shift-times n m, shift-suc n m))
      (λ g.
        accumulate_lem [] n (m * 10000) a (omega arith) g
        ∙ ap within
            (omega (arith, shift-times n m, shift-suc n m, prefix-nil n, prefix-nil (suc n))))
accumulate_lem (d ∷ ds) (suc n) m (b, a) l h =
    place m d n (shift (suc n) m + prefix (d ∷ ds) (suc n)) (accumulate ds n) h b
      (omega (arith, shift-add n (m * 10000) d, shift-times n m, shift-suc n m, prefix-cons d ds n))
      (λ g.
        accumulate_lem ds n (m * 10000 + d) a (omega (arith, l)) g
        ∙ ap within (
            omega (
              arith,
              shift-add n (m * 10000) d,
              shift-times n m,
              shift-suc n m,
              prefix-cons d ds n,
            )))

all_digits :
    (n l : ℕ)
    → l ≤ suc n
    → (ltb ((suc n * 4 + 3) / 4) l || ((suc n * 4 + 3) / 4 == l && ltb 0 (suc n * 4 % 4))) ≡ false
all_digits n l h = ground arith

wanted_pos : (n : ℕ) → (pos n +ℤ pos 1) *ℤ pos 4 +ℤ pos 0 ≡ pos (suc n * 4)
wanted_pos n = ground arith

-- A whole number is not changed by rounding to no decimals.
round_whole :
    (var : Numeric) (w : ℤ)
    → var.weight ≡ w
    → FitsAt 0 var.digits w
    → round_var var (pos 0) ≡ record var { dscale = pos 0 }
unfolding round_var round_at
round_whole var (pos n) e f =
    rw (e, wanted_pos n, all_digits n (length var.digits) (omega (arith, f))) refl
round_whole var (negsuc zero) e f = rw (e, nothing (length var.digits) (omega (arith, f))) refl
  where
    nothing : (l : ℕ) → l ≤ 0 → l ≡ 0
    nothing l h = omega (arith, h)
round_whole var (negsuc (suc n)) e f = absurd (omega (arith, f))

not_led :
    (ds : List ℕ) (var : Numeric)
    → IsStripped ds
    → strip_leading ds var ≡ record var { digits = ds }
unfolding strip_leading
not_led [] var h = refl
not_led (zero ∷ ds) var h = absurd (omega (arith, h))
not_led (suc d ∷ ds) var h = refl

-- The integer, where 64 bits hold it.
abbrev pub in_int64 : ℤ → Option ℤ
in_int64 z = if leb (neg_part z) limit && ltb (pos_part z) limit then some z else none

and_sign :
    (s : Sign) (m : ℕ)
    → IsSigned s
    → and_then (within m) (negated (is_neg s)) ≡ in_int64 (signed s m)
and_sign numeric_pos m h = ground arith
and_sign numeric_neg m h = ground arith
and_sign numeric_nan m h = elim h [ ]

places_whole : (n : ℕ) → places 0 (pos n) ≡ suc n
places_whole n = ground arith

in_zero : (s : Sign) (m : ℕ) → IsSigned s → m ≡ 0 → some (pos 0) ≡ in_int64 (signed s m)
in_zero numeric_pos m h e = ground arith
in_zero numeric_neg m h e = ground arith
in_zero numeric_nan m h e = elim h [ ]

whole :
    (ds : List ℕ) (var : Numeric) (w : ℤ)
    → var.weight ≡ w
    → FitsAt 0 ds w
    → AreDigits ds
    → IsSigned var.sign
    → to_int64 (normalize ds var).digits (normalize ds var)
      ≡ in_int64 (signed var.sign (prefix ds (places 0 w)))
unfolding normalize to_int64
whole [] var w e f a h = in_zero var.sign (prefix [] (places 0 w)) h (prefix-nil (places 0 w))
whole (d ∷ ds) var (negsuc n) e f a h = absurd (omega (arith, f))
whole (d ∷ ds) var (pos n) e f (b, a) h =
    rw
      (
        e,
        places_whole n,
        accumulate_lem ds n d a (omega (arith, f)) (omega (arith, b)),
        sym (prefix-cons d ds n),
      )
      (and_sign var.sign (prefix (d ∷ ds) (suc n)) h)

-- A whole number becomes the integer that it counts where 64 bits hold it, and is refused where
-- they do not.
pub numericvar_to_int64_lem :
    (var : Numeric) → IsNumber 0 var → numericvar_to_int64 var ≡ in_int64 (value_at 0 var)
unfolding numericvar_to_int64 strip_var
numericvar_to_int64_lem var p =
    let copied = record var { spare = 0 } in
    let rounded = record copied { dscale = pos 0 } in
    let ds = strip_trailing var.digits in
    rw
      (
        round_whole copied var.weight refl p.fits,
        not_led var.digits rounded p.stripped,
        sym (prefix_ext ds var.digits (places 0 var.weight) (digit-strip var.digits)),
      )
      (whole ds rounded var.weight refl
        (fits-shorter 0 ds var.digits var.weight (length-strip var.digits) p.fits)
        (digits-strip var.digits p.digits) p.has_sign)
