-- ===== src/Numeric/Values/Carries.antt =====
-- src/pg_type_numeric_def.cpp: what a carry into digits leaves of them.
use pq_async.Common.{
  ℕ, zero, suc, ◌+◌, ◌-◌, ◌*◌, ◌≤◌, ◌<◌, ◌≡◌, inl, inr, refl, ap, ◌∙◌, sym, subst, true, Bool-cases,
  List, [], ◌∷◌, ◌++◌, append-nil, leb, length, take, ℤ, pos, negsuc, ◌+ℤ◌, arith, length-take,
}
use pq_async.Numeric.{Numeric, digit}
use pq_async.Numeric.Digits.{
  prefix, shift, AreDigits, shift-zero, shift-add, digit_out, prefix-cons, value-append-one,
}
use pq_async.Numeric.Strip.{places, abs_at}
use pq_async.Numeric.Values.Integers.{shift-times, shift-suc, shift-none}
use pq_async.Numeric.Values.{put_carry, add_carry, carried}

-- What a carry out of digits leaves of them.
abbrev Carries : List ℕ → ℕ → List ℕ × ℕ → Type 0
Carries ds c r =
    (prefix r.0 (length ds) + shift (length ds) r.1 ≡ prefix ds (length ds) + c)
    × (length r.0 ≡ length ds)
    × (r.1 ≤ 1)

ten_thousand :
    (n d : ℕ) → d < 10000 → leb 10000 (1 + d) ≡ true → shift n (1 + d) ≡ 10000 * shift n 1
ten_thousand n d h e = ap (shift n) (full d h e) ∙ shift-times n 1
  where
    full : (d : ℕ) → d < 10000 → leb 10000 (1 + d) ≡ true → 1 + d ≡ 1 * 10000
    full d h e = ground arith

none_over : (d : ℕ) → d < 10000 → 1 + d - 10000 ≡ 0
none_over d h = omega (arith, h)

put_carry-Carries :
    (d : ℕ) (r : List ℕ × ℕ) (ds : List ℕ) (c : ℕ)
    → d < 10000
    → Carries ds c r
    → Carries (d ∷ ds) c (put_carry d r)
put_carry-Carries d (rs, zero) ds c b (v, l, o) = (
  omega (
    arith,
    v,
    prefix-cons d rs (length ds),
    prefix-cons d ds (length ds),
    shift-zero (length ds),
    shift-zero (suc (length ds)),
  ),
  ap suc l,
  omega arith,
)
put_carry-Carries d (rs, suc (suc c1)) ds c b (v, l, o) = absurd (omega (arith, o))
put_carry-Carries d (rs, suc zero) ds c b (v, l, o) =
    let n = length ds in
    elim (Bool-cases (leb 10000 (1 + d))) [
      | inl e ↦
          rw (e, none_over d b)
            (
              omega (
                arith,
                v,
                prefix-cons 0 rs n,
                prefix-cons d ds n,
                shift-zero n,
                shift-suc n 1,
                shift-add n 1 d,
                ten_thousand n d b e,
              ),
              ap suc l,
              omega arith,
            )
      | inr e ↦ rw e (
        omega (
          arith,
          v,
          prefix-cons (1 + d) rs n,
          prefix-cons d ds n,
          shift-add n 1 d,
          shift-zero (suc n),
        ),
        ap suc l,
        omega arith,
      )
    ]

add_carry-Carries : (ds : List ℕ) (c : ℕ) → c ≤ 1 → AreDigits ds → Carries ds c (add_carry ds c)
unfolding add_carry
add_carry-Carries [] c h a = (omega (arith, shift-none c), refl, h)
add_carry-Carries (d ∷ ds) c h (b, a) =
    put_carry-Carries d (add_carry ds c) ds c b (add_carry-Carries ds c h a)

pub prefix-take : (ds : List ℕ) (n m : ℕ) → m ≤ n → prefix (take n ds) m ≡ prefix ds m
unfolding prefix
prefix-take [] zero m h = refl
prefix-take [] (suc n) m h = refl
prefix-take (d ∷ ds) zero zero h = refl
prefix-take (d ∷ ds) zero (suc m) h = absurd (omega (arith, h))
prefix-take (d ∷ ds) (suc n) zero h = refl
prefix-take (d ∷ ds) (suc n) (suc m) h =
    prefix-cons d (take n ds) m
    ∙ (ap (λ (t : ℕ). shift m d + t) (prefix-take ds n m (omega (arith, h)))
        ∙ sym (prefix-cons d ds m))

pub places-above : (k m : ℕ) (w : ℤ) → places k w ≡ suc m → places k (w +ℤ pos 1) ≡ suc (suc m)
places-above k m (pos w) h = ground arith
places-above k m (negsuc w) h = ground arith

-- The value of digits behind which a carry went in.
carried_lem :
    (k m e q c : ℕ) (var : Numeric) (r : List ℕ × ℕ) (last : List ℕ)
    → var.spare ≡ 0
    → places k var.weight ≡ suc m
    → prefix r.0 m + shift m r.1 ≡ q + c
    → r.1 ≤ 1
    → prefix (r.0 ++ last) (suc m) ≡ e + 10000 * prefix r.0 m
    → abs_at k (carried var r last) ≡ e + 10000 * (q + c)
unfolding carried
carried_lem k m e q c var (ds, zero) last s pl v o h =
    ap (prefix (ds ++ last)) pl ∙ omega (arith, h, v, shift-zero m)
carried_lem k m e q c var (ds, suc (suc n)) last s pl v o h = absurd (omega (arith, o))
carried_lem k m e q c var (ds, suc zero) last s pl v o h = rw s (
    ap (prefix (1 ∷ (ds ++ last))) (places-above k m var.weight pl)
    ∙ (prefix-cons 1 (ds ++ last) (suc m) ∙ omega (arith, h, v, shift-suc m 1)))

pub length-taken : (n : ℕ) (ds : List ℕ) → n ≤ length ds → length (take n ds) ≡ n
length-taken n ds h = length-take n ds ∙ omega (arith, h)

take-AreDigits : (n : ℕ) (ds : List ℕ) → AreDigits ds → AreDigits (take n ds)
take-AreDigits zero ds a = tt
take-AreDigits (suc n) [] a = tt
take-AreDigits (suc n) (d ∷ ds) (h, a) = (h, take-AreDigits n ds a)

-- A carry into the first digits.
pub into :
    (k m e c : ℕ) (var : Numeric) (last : List ℕ)
    → var.spare ≡ 0
    → places k var.weight ≡ suc m
    → AreDigits var.digits
    → m ≤ length var.digits
    → c ≤ 1
    → ((ds : List ℕ) → length ds ≡ m → prefix (ds ++ last) (suc m) ≡ e + 10000 * prefix ds m)
    → abs_at k (carried var (add_carry (take m var.digits) c) last)
      ≡ e + 10000 * (prefix var.digits m + c)
into k m e c var last s pl a l o h =
    let t = take m var.digits in
    let len : length t ≡ m = length-taken m var.digits l in
    let (v, ln, one) = add_carry-Carries t c o (take-AreDigits m var.digits a) in
    carried_lem k m e (prefix var.digits m) c var (add_carry t c) last s pl
      (subst (λ n. prefix (add_carry t c).0 n + shift n (add_carry t c).1 ≡ prefix t n + c) len v
        ∙ ap (λ (x : ℕ). x + c) (prefix-take var.digits m m (omega arith)))
      one (h (add_carry t c).0 (ln ∙ len))

pub behind : (ds : List ℕ) (m : ℕ) → digit ds m ≡ 0 → prefix ds (suc m) ≡ 0 + 10000 * prefix ds m
unfolding prefix
behind ds m h = omega (arith, h)

pub no_last :
    (ds : List ℕ) (m : ℕ) → length ds ≡ m → prefix (ds ++ []) (suc m) ≡ 0 + 10000 * prefix ds m
no_last ds m h =
    ap (λ (xs : List ℕ). prefix xs (suc m)) (append-nil ds)
    ∙ behind ds m (digit_out ds m (omega (arith, h)))

pub one_last :
    (ds : List ℕ) (d m : ℕ)
    → length ds ≡ m
    → prefix (ds ++ (d ∷ [])) (suc m) ≡ d + 10000 * prefix ds m
one_last ds d m h =
    subst (λ n. prefix (ds ++ (d ∷ [])) (suc n) ≡ d + 10000 * prefix ds n) h (value-append-one ds d)

pub one_digit : (ds : List ℕ) (m : ℕ) → prefix ds (suc m) ≡ digit ds m + 10000 * prefix ds m
unfolding prefix
one_digit ds m = refl
