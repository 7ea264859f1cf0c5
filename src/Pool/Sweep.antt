-- ===== src/Pool/Sweep.antt =====
-- The clean up of dead connections against its specification.
use pq_async.Common.{
  ℕ, zero, suc, ◌-◌, ◌≤◌, ◌≡◌, refl, sym, subst, ap, ◌∙◌, Bool, false, ◌&&◌, ◌||◌, List, [], ◌∷◌,
  ◌++◌, Option, none, some, arith, length, get_elem?, erase_idx, if◌then◌else◌, ltb, ◌==◌,
  append_assoc, append-nil, length-append, Bool-cases, inl, inr,
}
use pq_async.Connection.{Connection, is_dead}
use pq_async.Pool.{Attached, detach, sweep_at, sweep_down, sweep}

-- The first `k` connections, and the others that are not dead, in order.
abbrev pub survivors : ℕ → ℕ → List Connection → List Connection
survivors now k [] = []
survivors now zero (c ∷ cs) =
    if is_dead now c then survivors now zero cs else c ∷ survivors now zero cs
survivors now (suc k) (c ∷ cs) = c ∷ survivors now k cs

abbrev pub is_owned_by : ℕ → Option ℕ → Bool
is_owned_by db none = false
is_owned_by db (some owner) = db == owner

-- A connection behind the first `k` is dead and belongs to the database.
abbrev pub loses : ℕ → ℕ → ℕ → List Connection → Bool
loses now db k [] = false
loses now db zero (c ∷ cs) = is_dead now c && is_owned_by db c.owner || loses now db zero cs
loses now db (suc k) (c ∷ cs) = loses now db k cs

survivors-snoc :
    (now k : ℕ) (xs : List Connection) (c : Connection)
    → k ≤ length xs
    → survivors now k (xs ++ c ∷ []) ≡ survivors now k xs ++ (if is_dead now c then [] else c ∷ [])
survivors-snoc now zero [] c h = refl
survivors-snoc now (suc k) [] c h = absurd (omega arith)
survivors-snoc now zero (x ∷ xs) c h = ground (arith, survivors-snoc now zero xs c)
survivors-snoc now (suc k) (x ∷ xs) c h = ap (◌∷◌ x) (survivors-snoc now k xs c (omega arith))

survivors_short : (now k : ℕ) (xs : List Connection) → length xs ≤ k → survivors now k xs ≡ xs
survivors_short now k [] h = refl
survivors_short now zero (x ∷ xs) h = absurd (omega arith)
survivors_short now (suc k) (x ∷ xs) h = ap (◌∷◌ x) (survivors_short now k xs (omega arith))

loses-snoc :
    (now db k : ℕ) (xs : List Connection) (c : Connection)
    → k ≤ length xs
    → loses now db k (xs ++ c ∷ []) ≡ (is_dead now c && is_owned_by db c.owner || loses now db k xs)
loses-snoc now db zero [] c h = refl
loses-snoc now db (suc k) [] c h = absurd (omega arith)
loses-snoc now db zero (x ∷ xs) c h = ground (arith, loses-snoc now db zero xs c)
loses-snoc now db (suc k) (x ∷ xs) c h = loses-snoc now db k xs c (omega arith)

loses_short : (now db k : ℕ) (xs : List Connection) → length xs ≤ k → loses now db k xs ≡ false
loses_short now db k [] h = refl
loses_short now db zero (x ∷ xs) h = absurd (omega arith)
loses_short now db (suc k) (x ∷ xs) h = loses_short now db k xs (omega arith)

pub get_elem?-middle :
    (i : ℕ) (xs ys : List Connection) (c : Connection)
    → length xs ≡ i
    → (get_elem? (xs ++ (c ∷ ys)) i ≡ some c) × (erase_idx (xs ++ (c ∷ ys)) i ≡ xs ++ ys)
get_elem?-middle zero [] ys c h = (refl, refl)
get_elem?-middle (suc i) [] ys c h = absurd (omega arith)
get_elem?-middle zero (x ∷ xs) ys c h = absurd (omega arith)
get_elem?-middle (suc i) (x ∷ xs) ys c h =
    let r = get_elem?-middle i xs ys c (omega arith) in (r.0, ap (◌∷◌ x) r.1)

sweep_at_lem :
    (now i : ℕ) (xs ys : List Connection) (c : Connection) (at : Attached)
    → length xs ≡ i
    → sweep_at now i (xs ++ (c ∷ ys)) at
      ≡ (if is_dead now c then (xs ++ ys, detach c.owner at) else (xs ++ (c ∷ ys), at))
unfolding sweep_at
sweep_at_lem now i xs ys c at h = ground (arith, get_elem?-middle i xs ys c h)

abbrev SplitLast : List Connection → Type 0
SplitLast l = (xs : List Connection) × (c : Connection) × (l ≡ xs ++ c ∷ [])

snoc_view : (x : Connection) (l : List Connection) → SplitLast (x ∷ l)
snoc_view x [] = ([], x, refl)
snoc_view x (y ∷ l) = let (xs, c, e) = snoc_view y l in (x ∷ xs, c, ap (◌∷◌ x) e)

-- One step of the induction: the last of the connections that are still to be visited.
sweep_down_step :
    (now i : ℕ) (xs ys : List Connection) (c : Connection) (at : Attached)
    → length xs ≡ suc i
    → 4 ≤ i
    → sweep_down now (suc i) (xs ++ (c ∷ ys)) at ≡ (
        if is_dead now c
        then sweep_down now i (xs ++ ys) (detach c.owner at)
        else sweep_down now i (xs ++ (c ∷ ys)) at)
unfolding sweep_down
sweep_down_step now i xs ys c at h le = ground (arith, sweep_at_lem now (suc i) xs ys c at h)

detach_lem :
    (db : ℕ) (owner : Option ℕ) (at : Attached)
    → detach owner at db ≡ (if is_owned_by db owner then none else at db)
unfolding detach
detach_lem db none at = refl
detach_lem db (some owner) at = refl

abbrev Swept : ℕ → ℕ → List Connection → List Connection → Attached → Type 0
Swept now i xs ys at =
    ((sweep_down now i (xs ++ ys) at).0 ≡ survivors now 5 xs ++ ys)
    × ((db : ℕ)
        → (sweep_down now i (xs ++ ys) at).1 db ≡ (if loses now db 5 xs then none else at db))

sweep_down_stop :
    (now i : ℕ) (cons : List Connection) (at : Attached)
    → i ≤ 4
    → sweep_down now i cons at ≡ (cons, at)
unfolding sweep_down
sweep_down_stop now zero cons at h = refl
sweep_down_stop now (suc i) cons at h = ground arith

Swept-short :
    (now i : ℕ) (l ys : List Connection) (at : Attached)
    → length l ≤ 5
    → i ≤ 4
    → Swept now i l ys at
Swept-short now i l ys at h le =
    rw (sweep_down_stop now i (l ++ ys) at le)
      (rw (survivors_short now 5 l h), λ db. rw (loses_short now db 5 l h))

Swept-snoc :
    (now i : ℕ) (xs ys : List Connection) (c : Connection) (at : Attached)
    → length xs ≡ suc i
    → 4 ≤ i
    → ((zs : List Connection) (bt : Attached) → Swept now i xs zs bt)
    → Swept now (suc i) (xs ++ c ∷ []) ys at
Swept-snoc now i xs ys c at h le ih =
    rw
      (
        append_assoc xs (c ∷ []) ys,
        sweep_down_step now i xs ys c at h le,
        survivors-snoc now 5 xs c (omega arith),
      )
      (elim (Bool-cases (is_dead now c)) [
        | inl dead ↦ rw dead (
          (ih ys (detach c.owner at)).0 ∙ rw append-nil,
          λ db. ground (
            arith,
            dead,
            loses-snoc now db 5 xs c,
            detach_lem db c.owner at,
            (ih ys (detach c.owner at)).1 db,
          ),
        )
        | inr live ↦ rw live (
          (ih (c ∷ ys) at).0 ∙ sym (append_assoc (survivors now 5 xs) (c ∷ []) ys),
          λ db. ground (arith, live, loses-snoc now db 5 xs c, (ih (c ∷ ys) at).1 db),
        )
      ])

sweep_down-Swept :
    (i now : ℕ) (l ys : List Connection) (at : Attached) → length l ≡ suc i → Swept now i l ys at
sweep_down-Swept zero now l ys at h = Swept-short now zero l ys at (omega arith) (omega arith)
sweep_down-Swept (suc i) now [] ys at h = absurd (omega arith)
sweep_down-Swept (suc i) now (x ∷ l) ys at h = elim (Bool-cases (ltb 4 (suc i))) [
  | inr small ↦ Swept-short now (suc i) (x ∷ l) ys at (ground arith) (ground arith)
  | inl large ↦
      let (xs, c, e) = snoc_view x l in
      let n : length xs ≡ suc i = omega (arith, ap length e, length-append xs (c ∷ [])) in
      subst (λ z. Swept now (suc i) z ys at) (sym e)
        (Swept-snoc now i xs ys c at n (ground arith) (λ zs bt. sweep_down-Swept i now xs zs bt n))
]

-- The clean up keeps the first five connections and those of the others that are not dead, in
-- order; and it clears `_conn` of exactly the databases that own a connection which it removes.
pub sweep_lem :
    (now : ℕ) (cons : List Connection) (at : Attached) (db : ℕ)
    → ((sweep now cons at).0 ≡ survivors now 5 cons)
      × ((sweep now cons at).1 db ≡ (if loses now db 5 cons then none else at db))
unfolding sweep
sweep_lem now [] at db = (refl, refl)
sweep_lem now (x ∷ l) at db = elim (Bool-cases (ltb 4 (length (x ∷ l)))) [
  | inr small ↦
      let n : length (x ∷ l) ≤ 5 = ground arith in
      rw small (sym (survivors_short now 5 (x ∷ l) n), rw (loses_short now db 5 (x ∷ l) n))
  | inl large ↦
      let n : length (x ∷ l) ≡ suc (length l) = refl in
      let m : length (x ∷ l) - 1 ≡ length l = omega arith in
      let done = simp append-nil at (sweep_down-Swept (length l) now (x ∷ l) [] at n) in
      rw (large, m) (done.0, done.1 db)
]
