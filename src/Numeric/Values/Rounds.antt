-- ===== src/Numeric/Values/Rounds.antt =====
-- src/pg_type_numeric_def.cpp: how round_var rounds the last digit that it keeps.
use pq_async.Common.{
  ℕ, zero, suc, ◌+◌, ◌-◌, ◌*◌, ◌/◌, ◌%◌, ◌≤◌, ◌<◌, ◌≡◌, ◌⊎◌, inl, inr, refl, ap, ◌∙◌, Bool, true,
  false, Bool-cases, ◌&&◌, ◌||◌, [], ◌∷◌, ltb, leb, ◌==◌, if◌then◌else◌, length, take, pos, arith,
}
use pq_async.Numeric.{Numeric, digit}
use pq_async.Numeric.Digits.{prefix, AreDigits, digit_bound, digit_out}
use pq_async.Numeric.Strip.{places, abs_at}
use pq_async.Numeric.Values.{round_powers, add_carry, round_digit, carried, round_at}
use pq_async.Numeric.Values.Carries.{into, behind, no_last, one_last, one_digit}

-- 10 to the power of the decimals that a digit loses, where `r` decimals are kept behind the point.
abbrev pub unit_of : ℕ → ℕ
unit_of zero = 10000
unit_of r = round_powers r

-- A value that is cut to a multiple of a unit, and one that is rounded to it.
abbrev pub cut : ℕ → ℕ → ℕ
cut r v = v / unit_of (r % 4) * unit_of (r % 4)

abbrev pub nearest : ℕ → ℕ → ℕ
nearest r v = cut r (v + unit_of (r % 4) / 2)

pub four : (r : ℕ) → (r % 4 ≡ 0) ⊎ ((r % 4 ≡ 1) ⊎ ((r % 4 ≡ 2) ⊎ (r % 4 ≡ 3)))
four r = omega arith

-- Where the last digit that is kept is kept whole.
round_whole_digit :
    (k m : ℕ) (var : Numeric)
    → var.spare ≡ 0
    → places k var.weight ≡ suc m
    → AreDigits var.digits
    → abs_at k (
        if ltb m (length var.digits) || (m == length var.digits && false)
        then carried var
            (add_carry (take m var.digits) (if leb 5000 (digit var.digits m) then 1 else 0))
            []
        else var)
      ≡ (prefix var.digits (suc m) + 5000) / 10000 * 10000
round_whole_digit k m var s pl a = elim (Bool-cases (ltb m (length var.digits))) [
  | inl e ↦
      rw (e, one_digit var.digits m)
        (into k m 0 (if leb 5000 (digit var.digits m) then 1 else 0) var [] s pl a
            (le_of m (length var.digits) e) (one_or_none (leb 5000 (digit var.digits m)))
            (λ ds h. no_last ds m h)
          ∙ half_up (digit var.digits m) (prefix var.digits m) (digit_bound var.digits m a))
  | inr e ↦ rw (outside m (length var.digits) e) (
      ap (prefix var.digits) pl
      ∙ kept (prefix var.digits (suc m)) (prefix var.digits m)
          (behind var.digits m (digit_out var.digits m (ge_of m (length var.digits) e))))
]
  where
    le_of : (m l : ℕ) → ltb m l ≡ true → m ≤ l
    le_of m l e = ground arith

    ge_of : (m l : ℕ) → ltb m l ≡ false → l ≤ m
    ge_of m l e = ground arith

    outside : (m l : ℕ) → ltb m l ≡ false → (ltb m l || (m == l && false)) ≡ false
    outside m l e = ground arith

    one_or_none : (b : Bool) → ◌≤◌ (if b then 1 else 0) 1
    one_or_none true = omega arith
    one_or_none false = omega arith

    half_up :
        (d q : ℕ)
        → d < 10000
        → 0 + 10000 * (q + (if leb 5000 d then 1 else 0)) ≡ (d + 10000 * q + 5000) / 10000 * 10000
    half_up d q h = ground arith

    kept : (v q : ℕ) → v ≡ 0 + 10000 * q → v ≡ (v + 5000) / 10000 * 10000
    kept v q e = omega (arith, e)

-- What a unit below 10000 does to a digit.
pub record Unit10 (p : ℕ) : Type 0 where
  pub rounds :
      (d : ℕ)
      → d < 10000
      → ((round_digit p d).0 + 10000 * (round_digit p d).1 ≡ (d + p / 2) / p * p)
        × ((round_digit p d).1 ≤ 1)
  pub cuts : (d q : ℕ) → (d + 10000 * q) / p * p ≡ d / p * p + 10000 * q
  pub nothing : p / 2 / p * p ≡ 0
  pub none : 0 / p * p ≡ 0

pub thousand : Unit10 1000
unfolding round_digit
thousand = record {
  rounds = λ d h. ground arith;
  cuts = λ d q. omega arith;
  nothing = refl;
  none = refl;
}

pub hundred : Unit10 100
unfolding round_digit
hundred = record {
  rounds = λ d h. ground arith;
  cuts = λ d q. omega arith;
  nothing = refl;
  none = refl;
}

pub ten : Unit10 10
unfolding round_digit
ten = record {
  rounds = λ d h. ground arith;
  cuts = λ d q. omega arith;
  nothing = refl;
  none = refl;
}

-- Where the last digit that is kept is rounded within.
round_within :
    (k m p : ℕ) (var : Numeric)
    → Unit10 p
    → var.spare ≡ 0
    → places k var.weight ≡ suc m
    → AreDigits var.digits
    → abs_at k (
        if ltb (suc m) (length var.digits) || (suc m == length var.digits && true)
        then carried var
            (add_carry (take m var.digits) (round_digit p (digit var.digits m)).1)
            ((round_digit p (digit var.digits m)).0 ∷ [])
        else var)
      ≡ (prefix var.digits (suc m) + p / 2) / p * p
round_within k m p var u s pl a =
    let d = digit var.digits m in
    let q = prefix var.digits m in
    let (v, o) = u.rounds d (digit_bound var.digits m a) in
    elim (Bool-cases (ltb m (length var.digits))) [
      | inl e ↦
          rw (inside m (length var.digits) e, one_digit var.digits m)
            (into k m (round_digit p d).0 (round_digit p d).1 var ((round_digit p d).0 ∷ []) s pl a
                (le_of m (length var.digits) e) o (λ ds h. one_last ds (round_digit p d).0 m h)
              ∙ (omega (arith, v, u.cuts (d + p / 2) q)
                  ∙ ap (λ (t : ℕ). t / p * p) (swapped d q (p / 2))))
      | inr e ↦ rw (outside m (length var.digits) e) (
          ap (prefix var.digits) pl
          ∙ kept (prefix var.digits (suc m)) q
              (behind var.digits m (digit_out var.digits m (ge_of m (length var.digits) e))))
    ]
  where
    le_of : (m l : ℕ) → ltb m l ≡ true → m ≤ l
    le_of m l e = ground arith

    ge_of : (m l : ℕ) → ltb m l ≡ false → l ≤ m
    ge_of m l e = ground arith

    inside : (m l : ℕ) → ltb m l ≡ true → (ltb (suc m) l || (suc m == l && true)) ≡ true
    inside m l e = ground arith

    outside : (m l : ℕ) → ltb m l ≡ false → (ltb (suc m) l || (suc m == l && true)) ≡ false
    outside m l e = ground arith

    swapped : (d q h : ℕ) → d + h + 10000 * q ≡ d + 10000 * q + h
    swapped d q h = omega arith

    kept : (v q : ℕ) → v ≡ 0 + 10000 * q → v ≡ (v + p / 2) / p * p
    kept v q e =
        let g : p / 2 + 10000 * q ≡ v + p / 2 = omega (arith, e) in
        omega (arith, e, u.nothing, u.cuts (p / 2) q) ∙ ap (λ (t : ℕ). t / p * p) g

pub rest : (m z di : ℕ) → di ≡ m * 4 + z → z < 4 → di % 4 ≡ z
rest m z di e h = omega (arith, e, h)

pub whole : (m di : ℕ) → di ≡ m * 4 + 0 → (di + 3) / 4 ≡ m
whole m di e = omega (arith, e)

pub part : (m z di : ℕ) → di ≡ m * 4 + z → 0 < z → z < 4 → (di + 3) / 4 ≡ suc m
part m z di e g h = omega (arith, e, g, h)

pub less : (m : ℕ) → suc m - 1 ≡ m
less m = omega arith

-- The digits that are wanted, by what is left over by four.
pub by_four :
    (r k m z di : ℕ) (var : Numeric)
    → di ≡ m * 4 + z
    → r % 4 ≡ z
    → z < 4
    → var.spare ≡ 0
    → places k var.weight ≡ suc m
    → AreDigits var.digits
    → abs_at k (round_at var (pos di)) ≡ nearest r (prefix var.digits (suc m))
unfolding round_at
by_four r k m zero di var e f h s pl a =
    rw (f, whole m di e, rest m 0 di e h) (round_whole_digit k m var s pl a)
by_four r k m (suc zero) di var e f h s pl a =
    rw (f, part m 1 di e (omega arith) h, rest m 1 di e h, less m)
      (round_within k m 1000 var thousand s pl a)
by_four r k m (suc (suc zero)) di var e f h s pl a =
    rw (f, part m 2 di e (omega arith) h, rest m 2 di e h, less m)
      (round_within k m 100 var hundred s pl a)
by_four r k m (suc (suc (suc zero))) di var e f h s pl a =
    rw (f, part m 3 di e (omega arith) h, rest m 3 di e h, less m)
      (round_within k m 10 var ten s pl a)
by_four r k m (suc (suc (suc (suc z)))) di var e f h s pl a = absurd (omega (arith, h))
