-- ===== src/Numeric/Values/Wanted.antt =====
-- src/pg_type_numeric_def.cpp: how many decimals round_var and trunc_var keep.
use pq_async.Common.{
  ℕ, zero, suc, ◌+◌, ◌-◌, ◌*◌, ◌/◌, ◌%◌, ◌≤◌, ◌<◌, ◌≡◌, inl, inr, refl, ap, ◌∙◌, sym, true, false,
  Bool-cases, List, leb, ℤ, pos, negsuc, ◌+ℤ◌, ◌*ℤ◌, arith,
}
use pq_async.Numeric.{Numeric}
use pq_async.Numeric.Digits.{prefix}
use pq_async.Numeric.Strip.{places, abs_at}
use pq_async.Numeric.Values.Rounds.{cut, nearest, four}

-- Decimals wanted, by the weight.
wanted_above : (r n : ℕ) → (pos n +ℤ pos 1) *ℤ pos 4 +ℤ pos r ≡ pos (suc n * 4 + r)
wanted_above r n = ground arith

wanted_below : (r n : ℕ) → n * 4 ≤ r → (negsuc n +ℤ pos 1) *ℤ pos 4 +ℤ pos r ≡ pos (r - n * 4)
wanted_below r zero h = ground arith
wanted_below r (suc n) h = ground arith

wanted_none : (r n : ℕ) → r < n * 4 → (negsuc n +ℤ pos 1) *ℤ pos 4 +ℤ pos r ≡ negsuc (n * 4 - r - 1)
wanted_none r zero h = absurd (omega (arith, h))
wanted_none r (suc n) h = ground arith

places_above : (r n : ℕ) → places (suc (r / 4)) (pos n) ≡ suc (n + 1 + r / 4)
places_above r n = ground arith

places_below : (r n : ℕ) → n * 4 ≤ r → places (suc (r / 4)) (negsuc n) ≡ suc (r / 4 - n)
places_below r n h = ground arith

places_none : (r n : ℕ) → r < n * 4 → places (suc (r / 4)) (negsuc n) ≡ 0
places_none r n h = ground arith

pub cut-zero : (r : ℕ) → (cut r 0 ≡ 0) × (nearest r 0 ≡ 0)
cut-zero r = elim (four r) [
  | inl e ↦ rw e (refl, refl)
  | inr (inl e) ↦ rw e (refl, refl)
  | inr (inr (inl e)) ↦ rw e (refl, refl)
  | inr (inr (inr e)) ↦ rw e (refl, refl)
]

pub prefix-none : (ds : List ℕ) → prefix ds 0 ≡ 0
unfolding prefix
prefix-none ds = refl

-- What an operation leaves, whatever the weight is.
pub for_weight :
    (r : ℕ) (P : ℤ → Type 0) (w : ℤ)
    → ((m di : ℕ) → di ≡ m * 4 + r % 4 → places (suc (r / 4)) w ≡ suc m → P (pos di))
    → ((n : ℕ) → P (negsuc n))
    → P ((w +ℤ pos 1) *ℤ pos 4 +ℤ pos r)
for_weight r P (pos n) h g =
    rw (wanted_above r n) (h (n + 1 + r / 4) (suc n * 4 + r) (omega arith) (places_above r n))
for_weight r P (negsuc n) h g = elim (Bool-cases (leb (n * 4) r)) [
  | inl b ↦ rw (wanted_below r n (le_of (n * 4) r b)) (
      h (r / 4 - n) (r - n * 4) (omega (arith, le_of (n * 4) r b))
        (places_below r n (le_of (n * 4) r b)))
  | inr b ↦ rw (wanted_none r n (gt_of (n * 4) r b)) (g (n * 4 - r - 1))
]
  where
    le_of : (a b : ℕ) → leb a b ≡ true → a ≤ b
    le_of a b e = ground arith

    gt_of : (a b : ℕ) → leb a b ≡ false → b < a
    gt_of a b e = ground arith

module _ (r : ℕ) (var : Numeric) (f : ℕ → ℕ) (op : Numeric → ℤ → Numeric) where
  -- An operation by the decimals that are wanted, from what it does where there are any.
  pub by_weight :
      (w : ℤ)
      → var.weight ≡ w
      → ((m di : ℕ)
          → di ≡ m * 4 + r % 4
          → places (suc (r / 4)) w ≡ suc m
          → abs_at (suc (r / 4)) (op var (pos di)) ≡ f (prefix var.digits (suc m)))
      → ((n : ℕ) → abs_at (suc (r / 4)) (op var (negsuc n)) ≡ 0)
      → f 0 ≡ 0
      → abs_at (suc (r / 4)) (op var ((w +ℤ pos 1) *ℤ pos 4 +ℤ pos r))
        ≡ f (prefix var.digits (places (suc (r / 4)) w))
  by_weight (pos n) e h g z =
      rw (wanted_above r n, places_above r n)
        (h (n + 1 + r / 4) (suc n * 4 + r) (omega arith) (places_above r n))
  by_weight (negsuc n) e h g z = elim (Bool-cases (leb (n * 4) r)) [
    | inl b ↦
        rw (wanted_below r n (le_of (n * 4) r b), places_below r n (le_of (n * 4) r b))
          (h (r / 4 - n) (r - n * 4) (omega (arith, le_of (n * 4) r b))
            (places_below r n (le_of (n * 4) r b)))
    | inr b ↦
        rw (wanted_none r n (gt_of (n * 4) r b), places_none r n (gt_of (n * 4) r b))
          (g (n * 4 - r - 1) ∙ (sym z ∙ ap f (sym (prefix-none var.digits))))
  ]
    where
      le_of : (a b : ℕ) → leb a b ≡ true → a ≤ b
      le_of a b e = ground arith

      gt_of : (a b : ℕ) → leb a b ≡ false → b < a
      gt_of a b e = ground arith
