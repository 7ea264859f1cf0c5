-- ===== src/Numeric/Values/Truncates.antt =====
-- src/pg_type_numeric_def.cpp: what round_var and trunc_var leave of a number.
use pq_async.Common.{
  ℕ, zero, suc, ◌+◌, ◌-◌, ◌*◌, ◌/◌, ◌%◌, ◌≤◌, ◌<◌, ◌≡◌, inl, inr, refl, ap, ◌∙◌, sym, true, false,
  Bool-cases, [], ◌∷◌, ◌++◌, leb, if◌then◌else◌, length, take, pos, negsuc, arith,
}
use pq_async.Numeric.{Numeric, digit}
use pq_async.Numeric.Digits.{prefix, AreDigits, digit_bound, digit_out, prefix-nil}
use pq_async.Numeric.Strip.{places, abs_at}
use pq_async.Numeric.Values.{round_at, round_var, trunc_at, trunc_var}
use pq_async.Numeric.Values.Carries.{prefix-take, length-taken, behind, one_last, one_digit}
use pq_async.Numeric.Values.Rounds.{
  cut, nearest, Unit10, thousand, hundred, ten, rest, whole, part, less, by_four,
}
use pq_async.Numeric.Values.Lengths.{EndsAt, round_at-EndsAt, trunc_at-EndsAt, none_left-EndsAt}
use pq_async.Numeric.Values.Wanted.{by_weight, for_weight, cut-zero, prefix-none}

trunc_within :
    (k m p : ℕ) (var : Numeric)
    → Unit10 p
    → ((d : ℕ) → d - d % p ≡ d / p * p)
    → places k var.weight ≡ suc m
    → abs_at k (
        if leb (suc m) (length var.digits)
        then record var {
          digits = take m var.digits ++ ((digit var.digits m - digit var.digits m % p) ∷ []);
        }
        else var)
      ≡ prefix var.digits (suc m) / p * p
trunc_within k m p var u c pl =
    let d = digit var.digits m in
    let q = prefix var.digits m in
    elim (Bool-cases (leb (suc m) (length var.digits))) [
      | inl e ↦
          rw (e, one_digit var.digits m)
            (ap (prefix (take m var.digits ++ ((d - d % p) ∷ []))) pl
              ∙ (one_last (take m var.digits) (d - d % p) m
                    (length-taken m var.digits (le_of m (length var.digits) e))
                  ∙ omega (arith, prefix-take var.digits m m (omega arith), c d, u.cuts d q)))
      | inr e ↦ rw e (
          ap (prefix var.digits) pl
          ∙ (one_digit var.digits m
              ∙ (zero_digit d q (digit_out var.digits m (ge_of m (length var.digits) e))
                  ∙ ap (λ (t : ℕ). t / p * p) (sym (one_digit var.digits m)))))
    ]
  where
    le_of : (m l : ℕ) → leb (suc m) l ≡ true → m ≤ l
    le_of m l e = ground arith

    ge_of : (m l : ℕ) → leb (suc m) l ≡ false → l ≤ m
    ge_of m l e = ground arith

    zero_digit : (d q : ℕ) → d ≡ 0 → d + 10000 * q ≡ (d + 10000 * q) / p * p
    zero_digit d q e = rw e (omega (arith, u.none, u.cuts 0 q))

trunc_whole :
    (k m : ℕ) (var : Numeric)
    → places k var.weight ≡ suc m
    → AreDigits var.digits
    → abs_at k
        (if leb m (length var.digits) then record var { digits = take m var.digits } else var)
      ≡ prefix var.digits (suc m) / 10000 * 10000
trunc_whole k m var pl a =
    let d = digit var.digits m in
    let q = prefix var.digits m in
    elim (Bool-cases (leb m (length var.digits))) [
      | inl e ↦
          rw (e, one_digit var.digits m)
            (ap (prefix (take m var.digits)) pl
              ∙ (behind (take m var.digits) m (
                    digit_out (take m var.digits) m
                      (omega (arith, length-taken m var.digits (le_of m (length var.digits) e))))
                  ∙ omega (
                    arith,
                    prefix-take var.digits m m (omega arith),
                    digit_bound var.digits m a,
                  )))
      | inr e ↦ rw e (
          ap (prefix var.digits) pl
          ∙ omega
              (arith, behind var.digits m (digit_out var.digits m (ge_of m (length var.digits) e))))
    ]
  where
    le_of : (m l : ℕ) → leb m l ≡ true → m ≤ l
    le_of m l e = ground arith

    ge_of : (m l : ℕ) → leb m l ≡ false → l ≤ m
    ge_of m l e = ground arith

trunc_by_four :
    (r k m z di : ℕ) (var : Numeric)
    → di ≡ m * 4 + z
    → r % 4 ≡ z
    → z < 4
    → places k var.weight ≡ suc m
    → AreDigits var.digits
    → abs_at k (trunc_at var (pos di)) ≡ cut r (prefix var.digits (suc m))
unfolding trunc_at
trunc_by_four r k zero zero zero var e f h pl a = rw f (prefix-nil (places k (pos 0)) ∙ none_kept)
  where
    none_kept : 0 ≡ prefix var.digits 1 / 10000 * 10000
    none_kept =
        omega (arith, one_digit var.digits 0, digit_bound var.digits 0 a, prefix-none var.digits)
trunc_by_four r k (suc m) zero zero var e f h pl a = absurd (omega (arith, e))
trunc_by_four r k m (suc z) zero var e f h pl a = absurd (omega (arith, e))
trunc_by_four r k m zero (suc i) var e f h pl a =
    rw (f, whole m (suc i) e, rest m 0 (suc i) e h) (trunc_whole k m var pl a)
trunc_by_four r k m (suc zero) (suc i) var e f h pl a =
    rw (f, part m 1 (suc i) e (omega arith) h, rest m 1 (suc i) e h, less m)
      (trunc_within k m 1000 var thousand (λ d. omega arith) pl)
trunc_by_four r k m (suc (suc zero)) (suc i) var e f h pl a =
    rw (f, part m 2 (suc i) e (omega arith) h, rest m 2 (suc i) e h, less m)
      (trunc_within k m 100 var hundred (λ d. omega arith) pl)
trunc_by_four r k m (suc (suc (suc zero))) (suc i) var e f h pl a =
    rw (f, part m 3 (suc i) e (omega arith) h, rest m 3 (suc i) e h, less m)
      (trunc_within k m 10 var ten (λ d. omega arith) pl)
trunc_by_four r k m (suc (suc (suc (suc z)))) (suc i) var e f h pl a = absurd (omega (arith, h))

negative_none :
    (k n : ℕ) (v : Numeric)
    → (abs_at k (round_at v (negsuc n)) ≡ 0) × (abs_at k (trunc_at v (negsuc n)) ≡ 0)
unfolding round_at trunc_at
negative_none k n v = (prefix-nil (places k (pos 0)), prefix-nil (places k (pos 0)))

three_left : (r : ℕ) → r % 4 < 4
three_left r = omega arith

-- The digits that `di` decimals take.
ends_by_weight : (r m di : ℕ) → di ≡ m * 4 + r % 4 → (di + 3) / 4 ≤ suc m
ends_by_weight r m di e = omega (arith, e)

-- `round_var` to `r` decimals rounds the absolute value of a number to the nearest multiple of 10
-- to the power -r, half a unit upwards, and `trunc_var` cuts it to the multiple below; whatever
-- digits the number has behind or in front, and also where a carry makes it longer. The values are
-- in units of 10000 to the power -(r / 4 + 1), and neither result keeps a digit below this unit.
-- The number has digits below 10000, it has a digit 0 before its first, and `r` is not negative.
pub round_var_lem :
    (r : ℕ) (var : Numeric)
    → AreDigits var.digits
    → var.spare ≡ 0
    → (abs_at (suc (r / 4)) (round_var var (pos r)) ≡ nearest r (abs_at (suc (r / 4)) var))
      × (abs_at (suc (r / 4)) (trunc_var var (pos r)) ≡ cut r (abs_at (suc (r / 4)) var))
      × EndsAt (suc (r / 4)) (round_var var (pos r))
      × EndsAt (suc (r / 4)) (trunc_var var (pos r))
unfolding round_var trunc_var
round_var_lem r var a s =
    let scaled = record var { dscale = pos r } in
    (
      by_weight r scaled (nearest r) round_at var.weight refl
          (λ m di e pl. by_four r (suc (r / 4)) m (r % 4) di scaled e refl (three_left r) s pl a)
          (λ n. (negative_none (suc (r / 4)) n scaled).0) (cut-zero r).1,
      by_weight r scaled (cut r) trunc_at var.weight refl
          (λ m di e pl.
            trunc_by_four r (suc (r / 4)) m (r % 4) di scaled e refl (three_left r) pl a)
          (λ n. (negative_none (suc (r / 4)) n scaled).1) (cut-zero r).0,
      for_weight r (λ di. EndsAt (suc (r / 4)) (round_at scaled di)) var.weight
          (λ m di e pl. round_at-EndsAt (suc (r / 4)) m di scaled (ends_by_weight r m di e) pl)
          (λ n. (none_left-EndsAt (suc (r / 4)) n scaled).0),
      for_weight r (λ di. EndsAt (suc (r / 4)) (trunc_at scaled di)) var.weight
          (λ m di e pl. trunc_at-EndsAt (suc (r / 4)) m di scaled (ends_by_weight r m di e) pl)
          (λ n. (none_left-EndsAt (suc (r / 4)) n scaled).1),
    )
