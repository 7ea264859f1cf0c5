-- ===== src/Numeric/Align.antt =====
-- src/pg_type_numeric_def.cpp: how add_abs and sub_abs align the digits of their operands.
use pq_async.Common.{
  ℕ, suc, ◌+◌, ◌-◌, ◌≤◌, ◌≡◌, ℤ, pos, negsuc, ◌+ℤ◌, ◌-ℤ◌, pos_part, neg_part, arith,
}
use pq_async.Numeric.{max_ℤ}

-- a ≤ b
abbrev pub LeZ : ℤ → ℤ → Type 0
LeZ a b = pos_part a + neg_part b ≤ pos_part b + neg_part a

pub le_max : (a b : ℤ) → LeZ a (max_ℤ a b) × LeZ b (max_ℤ a b)
le_max (pos a) (pos b) = ground arith
le_max (pos a) (negsuc b) = ground arith
le_max (negsuc a) (pos b) = ground arith
le_max (negsuc a) (negsuc b) = ground arith

pub max_le : (a b c : ℤ) → LeZ a c → LeZ b c → LeZ (max_ℤ a b) c
max_le a b c h k = ground arith

-- `l` digits at weight `w` end no later than the digits behind the point that `r` counts.
abbrev pub Has : ℕ → ℤ → ℤ → Type 0
Has l w r = l + neg_part w + neg_part r ≤ pos_part r + pos_part w + 1

pub le_rscale : (l : ℕ) (w r : ℤ) → LeZ (pos l -ℤ w -ℤ pos 1) r → Has l w r
le_rscale l (pos w) r h = ground arith
le_rscale l (negsuc w) r h = ground arith

pub place_eq :
    (r w : ℤ)
    → pos_part (r +ℤ w +ℤ pos 1) ≡ (pos_part r + pos_part w + 1) - (neg_part r + neg_part w)
place_eq (pos r) (pos w) = ground arith
place_eq (pos r) (negsuc w) = ground arith
place_eq (negsuc r) (pos w) = ground arith
place_eq (negsuc r) (negsuc w) = ground arith

extra_eq : (k : ℕ) (r : ℤ) → pos_part (pos k -ℤ r) ≡ (k + neg_part r) - pos_part r
extra_eq k (pos r) = ground arith
extra_eq k (negsuc r) = ground arith

pos_eq : (r w : ℤ) (l : ℕ) → Has l w r → r +ℤ w +ℤ pos 1 ≡ pos (pos_part (r +ℤ w +ℤ pos 1))
pos_eq (pos r) (pos w) l h = ground arith
pos_eq (pos r) (negsuc w) l h = ground arith
pos_eq (negsuc r) (pos w) l h = ground arith
pos_eq (negsuc r) (negsuc w) l h = ground arith

-- An operand of `l` digits at weight `w`, where the result has `r` digits behind the point: the
-- index behind its last digit in the result, which has at least its digits before it.
unfoldable pub index_of : ℤ → ℤ → ℕ
index_of r w = pos_part (r +ℤ w +ℤ pos 1)

pub index_lem :
    (l : ℕ) (w r : ℤ) → Has l w r → (r +ℤ w +ℤ pos 1 ≡ pos (index_of r w)) × (l ≤ index_of r w)
unfolding index_of
index_lem l w r h = (pos_eq r w l h, omega (arith, h, place_eq r w))

pub places_lem :
    (k l : ℕ) (w r : ℤ)
    → LeZ r (pos k)
    → Has l w r
    → pos_part (pos k +ℤ w +ℤ pos 1) ≡ index_of r w + pos_part (pos k -ℤ r)
unfolding index_of
places_lem k l w r h g = omega (arith, g, place_eq (pos k) w, place_eq r w, extra_eq k r)

-- The weight of a sum is above the weight of an operand.
unfoldable pub above : ℤ → ℤ
above w = w +ℤ pos 1

pub above_lem :
    (w m : ℤ) → LeZ w m → pos_part w + 1 + neg_part (above m) ≤ pos_part (above m) + neg_part w
unfolding above
above_lem w (pos m) h = ground arith
above_lem w (negsuc m) h = ground arith

pub index_above :
    (r w v : ℤ) (l : ℕ)
    → Has l w r
    → pos_part w + 1 + neg_part v ≤ pos_part v + neg_part w
    → (suc (index_of r w) ≤ index_of r v) × Has (suc l) v r
unfolding index_of
index_above r w v l h g = (omega (arith, h, g, place_eq r w, place_eq r v), omega (arith, h, g))

-- The digits of a result fit where those of the operands do.
pub fits_result :
    (k l : ℕ) (w r : ℤ) → LeZ r (pos k) → Has l w r → neg_part w + index_of r w ≤ k + 1 + pos_part w
unfolding index_of
fits_result k l w r h g = omega (arith, h, g, place_eq r w)

-- A number that fits has no more digits behind the point than its unit.
pub rscale_fits :
    (k l : ℕ) (w : ℤ) → neg_part w + l ≤ k + 1 + pos_part w → LeZ (pos l -ℤ w -ℤ pos 1) (pos k)
rscale_fits k l (pos w) h = ground arith
rscale_fits k l (negsuc w) h = ground arith
