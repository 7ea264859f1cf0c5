-- ===== src/Numeric/Digits.antt =====
-- src/pg_type_numeric_def.cpp: what digits count, and what stripping leaves of them.
use pq_async.Common.{
  ℕ, zero, suc, ◌+◌, ◌*◌, ◌≤◌, ◌<◌, ◌≡◌, refl, ap, ◌∙◌, sym, subst, List, [], ◌∷◌, ◌++◌, length,
  length-append, ℤ, pos, negsuc, arith,
}
use mathlib.Core.List.{reverse, reverse-append}
use pq_async.Numeric.{pred_ℤ, digit, digit_at}

-- What the first `n` digits count, with zeros behind the last.
unfoldable pub prefix : List ℕ → ℕ → ℕ
prefix ds zero = 0
prefix ds (suc n) = digit ds n + 10000 * prefix ds n

-- `v` with `n` digits of 0 behind it.
unfoldable pub shift : ℕ → ℕ → ℕ
shift zero v = v
shift (suc n) v = 10000 * shift n v

-- What digits count with the last one first.
unfoldable pub reversed_value : List ℕ → ℕ
reversed_value [] = 0
reversed_value (d ∷ ds) = d + 10000 * reversed_value ds

-- What the `n` digits before an index count.
unfoldable pub window : List ℕ → ℤ → ℕ → ℕ
window ds i zero = 0
window ds i (suc n) = digit_at ds (pred_ℤ i) + 10000 * window ds (pred_ℤ i) n

abbrev pub AreDigits : List ℕ → Type 0
AreDigits [] = Unit
AreDigits (d ∷ ds) = (d < 10000) × AreDigits ds

pub shift-le : (n a b : ℕ) → a ≤ b → shift n a ≤ shift n b
unfolding shift
shift-le zero a b h = h
shift-le (suc n) a b h = omega (arith, shift-le n a b h)

pub shift-add : (n a b : ℕ) → shift n (a + b) ≡ shift n a + shift n b
unfolding shift
shift-add zero a b = refl
shift-add (suc n) a b = omega (arith, shift-add n a b)

pub shift_pos : (n a : ℕ) → 0 < a → 0 < shift n a
unfolding shift
shift_pos zero a h = h
shift_pos (suc n) a h = omega (arith, shift_pos n a h)

pub shift-zero : (n : ℕ) → shift n 0 ≡ 0
unfolding shift
shift-zero zero = refl
shift-zero (suc n) = omega (arith, shift-zero n)

pub digit_bound : (ds : List ℕ) (i : ℕ) → AreDigits ds → digit ds i < 10000
unfolding digit
digit_bound [] i h = omega arith
digit_bound (d ∷ ds) zero (h, hs) = h
digit_bound (d ∷ ds) (suc i) (h, hs) = digit_bound ds i hs

pub digit_out : (ds : List ℕ) (i : ℕ) → length ds ≤ i → digit ds i ≡ 0
unfolding digit
digit_out [] i h = refl
digit_out (d ∷ ds) zero h = absurd (omega (arith, h))
digit_out (d ∷ ds) (suc i) h = digit_out ds i (omega (arith, h))

pub prefix_bound : (ds : List ℕ) (n : ℕ) → AreDigits ds → prefix ds n < shift n 1
unfolding prefix shift
prefix_bound ds zero h = omega arith
prefix_bound ds (suc n) h = omega (arith, prefix_bound ds n h, digit_bound ds n h)

-- Behind the last digit the prefix is only shifted.
pub prefix_behind :
    (ds : List ℕ) (n p m : ℕ) → length ds ≤ n → m ≡ n + p → prefix ds m ≡ shift p (prefix ds n)
unfolding prefix shift
prefix_behind ds n zero m h e = ap (prefix ds) (omega (arith, e))
prefix_behind ds n (suc p) zero h e = absurd (omega (arith, e))
prefix_behind ds n (suc p) (suc m) h e =
    omega (arith, prefix_behind ds n p m h (omega (arith, e)), digit_out ds m (omega (arith, h, e)))

pub prefix-cons : (d : ℕ) (ds : List ℕ) (n : ℕ) → prefix (d ∷ ds) (suc n) ≡ shift n d + prefix ds n
unfolding prefix shift digit
prefix-cons d ds zero = omega arith
prefix-cons d ds (suc n) = omega (arith, prefix-cons d ds n)

pub prefix-nil : (n : ℕ) → prefix [] n ≡ 0
unfolding prefix digit
prefix-nil zero = refl
prefix-nil (suc n) = omega (arith, prefix-nil n)

pub window_below : (ds : List ℕ) (i n : ℕ) → window ds (negsuc i) n ≡ 0
unfolding window digit_at
window_below ds i zero = refl
window_below ds i (suc n) = omega (arith, window_below ds (suc i) n)

-- The window of all digits before an index is the prefix.
pub window_all : (ds : List ℕ) (i n : ℕ) → i ≤ n → window ds (pos i) n ≡ prefix ds i
unfolding window prefix digit_at
window_all ds zero zero h = refl
window_all ds zero (suc n) h = omega (arith, window_below ds 0 n)
window_all ds (suc i) zero h = absurd (omega (arith, h))
window_all ds (suc i) (suc n) h = omega (arith, window_all ds i n (omega (arith, h)))

same_prefix : (ds : List ℕ) (m p : ℕ) → m ≡ p → prefix ds m ≡ prefix ds p
same_prefix ds m p e = ap (prefix ds) e

-- The digits before the window come on top of it.
pub window_split :
    (ds : List ℕ) (p n m : ℕ)
    → m ≡ p + n
    → prefix ds m ≡ window ds (pos m) n + shift n (prefix ds p)
unfolding window prefix digit_at shift
window_split ds p zero m e = omega (arith, same_prefix ds m p (omega (arith, e)))
window_split ds p (suc n) zero e = absurd (omega (arith, e))
window_split ds p (suc n) (suc m) e = omega (arith, window_split ds p n m (omega (arith, e)))

prefix-append-one :
    (ds : List ℕ) (d n : ℕ) → length ds ≡ n → prefix (ds ++ (d ∷ [])) n ≡ prefix ds n
unfolding prefix
prefix-append-one [] d zero h = refl
prefix-append-one [] d (suc n) h = absurd (omega (arith, h))
prefix-append-one (x ∷ ds) d zero h = refl
prefix-append-one (x ∷ ds) d (suc n) h =
    prefix-cons x (ds ++ (d ∷ [])) n
    ∙ (ap (λ (t : ℕ). shift n x + t) (prefix-append-one ds d n (omega (arith, h)))
        ∙ sym (prefix-cons x ds n))

digit-append-one : (ds : List ℕ) (d : ℕ) → digit (ds ++ (d ∷ [])) (length ds) ≡ d
unfolding digit
digit-append-one [] d = refl
digit-append-one (x ∷ ds) d = digit-append-one ds d

pub length-reverse : (ds : List ℕ) → length (reverse ds) ≡ length ds
length-reverse [] = refl
length-reverse (d ∷ ds) =
    rw (reverse-append (d ∷ []) ds)
      (omega (arith, length-append (reverse ds) (d ∷ []), length-reverse ds))

pub value-append-one :
    (ds : List ℕ) (d : ℕ)
    → prefix (ds ++ (d ∷ [])) (suc (length ds)) ≡ d + 10000 * prefix ds (length ds)
unfolding prefix
value-append-one ds d =
    omega (arith, prefix-append-one ds d (length ds) refl, digit-append-one ds d)

pub prefix-reverse : (ds : List ℕ) → prefix (reverse ds) (length ds) ≡ reversed_value ds
unfolding reversed_value
prefix-reverse [] = prefix-nil 0
prefix-reverse (d ∷ ds) =
    subst (λ xs. prefix xs (suc (length ds)) ≡ d + 10000 * reversed_value ds)
      (sym (reverse-append (d ∷ []) ds))
      (subst (λ n. prefix (reverse ds ++ (d ∷ [])) (suc n) ≡ d + 10000 * reversed_value ds)
        (length-reverse ds)
        (value-append-one (reverse ds) d
          ∙ ap (λ (t : ℕ). d + 10000 * t)
              (subst (λ n. prefix (reverse ds) n ≡ reversed_value ds) (sym (length-reverse ds))
                (prefix-reverse ds))))
