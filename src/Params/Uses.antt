-- ===== src/Params/Uses.antt =====
-- include/pq-async/data_parameters.h: from the first parameter to the destructor.
use pq_async.Common.{
  ℕ, zero, suc, ◌+◌, ◌≤◌, ◌≡◌, ◌==◌, refl, ap, ◌∙◌, List, [], ◌∷◌, ◌++◌, Option, some, none,
  set-missing, count_if-append, map-set, if◌then◌else◌, arith,
}
use mathlib.Core.List.{map-append}
use pq_async.Params.{
  Entry, Parameter, Arrays, Parameters, Event, makes, deletes, hands_over, Step, entries_of,
  new_parameters, deletes_all, destroy, get_arrays, push_back, replace,
}
use pq_async.Params.Builds.{
  Build, pushes, replaces, build, build_all, apply, spec, is_make, is_delete, made, deleted, owned,
  IsBuilding, IsBalanced, build_all-IsBalanced,
}

-- What a step and what a program make of the entries.
build-apply :
    (b : Build) (self : Parameters) (next : ℕ)
    → entries_of (build b self next).0 ≡ apply b (entries_of self)
unfolding push_back replace
build-apply (pushes e) self next = map-append (λ q. q.entry) self.p _
build-apply (replaces i e) self next =
    let v : Parameter = record { address = next; entry = e } in
    ground (arith, set-missing self.p i v, map-set (λ (q : Parameter). q.entry) self.p i v)

build_all-spec :
    (bs : List Build) (self : Parameters) (next : ℕ)
    → entries_of (build_all bs self next).0 ≡ spec bs (entries_of self)
build_all-spec [] self next = refl
build_all-spec (b ∷ bs) self next =
    let s = build b self next in build_all-spec bs s.0 s.1 ∙ ap (spec bs) (build-apply b self next)

-- The arrays handed to libpq a number of times.
abbrev pub use_all : ℕ → Parameters → ℕ → List (Option Arrays) × Step
use_all zero self next = ([], (self, next, []))
use_all (suc k) self next =
    let r = get_arrays self next in
    let rest = use_all k r.1.0 r.1.1 in (r.0 ∷ rest.0, (rest.1.0, rest.1.1, r.1.2 ++ rest.1.2))

abbrev pub repeated {ℓ} : {A : Type ℓ} → ℕ → A → List A
repeated zero x = []
repeated (suc n) x = x ∷ repeated n x

use_all-again :
    (k : ℕ) (a : Arrays) (self : Parameters) (next : ℕ)
    → self.arrays ≡ some a
    → use_all k self next ≡ (repeated k (some a), (self, next, repeated k (hands_over a.address)))
unfolding get_arrays
use_all-again zero a self next e = refl
use_all-again (suc k) a self next e = ground (arith, use_all-again k a self next e)

made-repeated : (a n k : ℕ) → made a (repeated k (hands_over n)) ≡ 0
made-repeated a n zero = refl
made-repeated a n (suc k) = omega (arith, made-repeated a n k)

deleted-repeated : (a n k : ℕ) → deleted a (repeated k (hands_over n)) ≡ 0
deleted-repeated a n zero = refl
deleted-repeated a n (suc k) = omega (arith, deleted-repeated a n k)

made-deletes_all : (a : ℕ) (ps : List Parameter) → made a (deletes_all ps) ≡ 0
made-deletes_all a [] = refl
made-deletes_all a (q ∷ ps) = omega (arith, made-deletes_all a ps)

pub deleted-deletes_all : (a : ℕ) (ps : List Parameter) → deleted a (deletes_all ps) ≡ owned a ps
deleted-deletes_all a [] = refl
deleted-deletes_all a (q ∷ ps) = omega (arith, deleted-deletes_all a ps)

new-IsBuilding : IsBuilding new_parameters 0
unfolding new_parameters
new-IsBuilding = record { no_arrays = refl; single = λ a. omega arith; below = λ a h. refl }

-- The arrays that the first use makes.
abbrev pub arrays_of : Parameters → ℕ → Arrays
arrays_of self next = record { address = next; entries = entries_of self }

abbrev with_arrays : Parameters → ℕ → Parameters
with_arrays self next = record self { arrays = some (arrays_of self next) }

get_arrays-first :
    (self : Parameters) (next : ℕ)
    → self.arrays ≡ none
    → get_arrays self next ≡ (
      some (arrays_of self next),
      (with_arrays self next, suc next, makes next ∷ hands_over next ∷ []),
    )
unfolding get_arrays
get_arrays-first self next e = ground (arith, e)

use_all-first :
    (k : ℕ) (self : Parameters) (next : ℕ)
    → self.arrays ≡ none
    → use_all (suc k) self next ≡ (
      repeated (suc k) (some (arrays_of self next)),
      (with_arrays self next, suc next, makes next ∷ repeated (suc k) (hands_over next)),
    )
use_all-first k self next e = rw (
  get_arrays-first self next e,
  use_all-again k (arrays_of self next) (with_arrays self next) (suc next) refl,
)

-- All that is done to memory: by the program, by the uses, and by the destructor.
abbrev pub lifetime : List Build → ℕ → List Event
lifetime bs k =
    let b = build_all bs new_parameters 0 in
    let u = use_all k b.0 b.1 in b.2 ++ (u.1.2 ++ destroy u.1.0)

module _ (bs : List Build) (k : ℕ) where
  abbrev built : Step
  built = build_all bs new_parameters 0

  balanced : IsBalanced new_parameters 0 built
  balanced = build_all-IsBalanced bs new_parameters 0 new-IsBuilding

  lifetime_lem :
      lifetime bs (suc k)
      ≡ built.2
        ++ ((makes built.1 ∷ repeated (suc k) (hands_over built.1))
            ++ (deletes built.1 ∷ deletes_all built.0.p))
  unfolding destroy
  lifetime_lem =
      ap (λ (u : List (Option Arrays) × Step). built.2 ++ (u.1.2 ++ destroy u.1.0))
        (use_all-first k built.0 built.1 balanced.building.no_arrays)

  first_uses : use_all (suc k) built.0 built.1 ≡ (
    repeated (suc k) (some (arrays_of built.0 built.1)),
    (
      with_arrays built.0 built.1,
      suc built.1,
      makes built.1 ∷ repeated (suc k) (hands_over built.1),
    ),
  )
  first_uses = use_all-first k built.0 built.1 balanced.building.no_arrays

  seen : entries_of built.0 ≡ spec bs []
  unfolding new_parameters
  seen = build_all-spec bs new_parameters 0

  -- The events of the uses.
  abbrev uses : List Event
  uses = makes built.1 ∷ repeated (suc k) (hands_over built.1)

  made-lifetime :
      (a : ℕ) → made a (lifetime bs (suc k)) ≡ made a built.2 + (if a == built.1 then 1 else 0)
  made-lifetime a = rw lifetime_lem (
      omega (
        arith,
        count_if-append (is_make a) built.2 (uses ++ (deletes built.1 ∷ deletes_all built.0.p)),
        count_if-append (is_make a) uses (deletes built.1 ∷ deletes_all built.0.p),
        made-repeated a built.1 (suc k),
        made-deletes_all a built.0.p,
      ))

  deleted-lifetime :
      (a : ℕ)
      → deleted a (lifetime bs (suc k))
        ≡ deleted a built.2 + (if a == built.1 then 1 else 0) + owned a built.0.p
  deleted-lifetime a = rw lifetime_lem (
      omega (
        arith,
        count_if-append (is_delete a) built.2 (uses ++ (deletes built.1 ∷ deletes_all built.0.p)),
        count_if-append (is_delete a) uses (deletes built.1 ∷ deletes_all built.0.p),
        deleted-repeated a built.1 (suc k),
        deleted-deletes_all a built.0.p,
      ))

  counts :
      (a : ℕ)
      → (made a (lifetime bs (suc k)) ≡ deleted a (lifetime bs (suc k)))
        × (made a (lifetime bs (suc k)) ≤ 1)
  unfolding new_parameters
  counts a = ground (
    arith,
    made-lifetime a,
    deleted-lifetime a,
    balanced.balance a,
    balanced.once a,
    balanced.bounded a,
  )

  -- Parameters that are pushed and replaced, and then used, give libpq at each use the entries of
  -- the plain list; no arrays are deleted before the destructor; and over their lifetime each
  -- address is deleted as often as it is made, and at most once.
  pub lifetime-balanced :
      ((use_all (suc k) built.0 built.1).0
        ≡ repeated (suc k) (some (record { address = built.1; entries = spec bs [] })))
      × ((a : ℕ) → deleted a (use_all (suc k) built.0 built.1).1.2 ≡ 0)
      × ((a : ℕ)
          → (made a (lifetime bs (suc k)) ≡ deleted a (lifetime bs (suc k)))
            × (made a (lifetime bs (suc k)) ≤ 1))
  lifetime-balanced = (
    ap (λ u. u.0) first_uses
        ∙ ap
            (λ (es : List Entry).
              repeated (suc k) (some (record { address = built.1; entries = es })))
            seen,
    λ a.
        ap (λ (u : List (Option Arrays) × Step). deleted a u.1.2) first_uses
        ∙ omega (arith, deleted-repeated a built.1 (suc k)),
    counts,
  )
