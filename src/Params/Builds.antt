-- ===== src/Params/Builds.antt =====
-- include/pq-async/data_parameters.h: parameters that are built, used and destroyed.
use pq_async.Common.{
  ℕ, zero, suc, ◌+◌, ◌≤◌, ◌<◌, ◌≡◌, ◌==◌, refl, Bool, false, List, [], ◌∷◌, ◌++◌, some, none,
  Result, ok, throw, get_elem?, set, count_if, count_if-append, if◌then◌else◌, arith, Option-cases,
  inl, inr,
}
use pq_async.Params.{
  Entry, Parameter, Parameters, Event, makes, deletes, Step, cleanup, push_back, replace,
}

-- What a program does to the parameters before it runs a command.
pub data Build : Type 0 where
  pushes : Entry → Build
  replaces : ℕ → Entry → Build

-- A refused call changes nothing.
abbrev pub step_or : Parameters → ℕ → {E : Type 0} → Result E Step → Step
step_or self next (ok s) = s
step_or self next (throw e) = (self, next, [])

abbrev pub build : Build → Parameters → ℕ → Step
build (pushes e) self next = push_back e self next
build (replaces i e) self next = step_or self next (replace i e self next)

abbrev pub build_all : List Build → Parameters → ℕ → Step
build_all [] self next = (self, next, [])
build_all (b ∷ bs) self next =
    let first = build b self next in
    let rest = build_all bs first.0 first.1 in (rest.0, rest.1, first.2 ++ rest.2)

-- The same on the plain list of what libpq is to see; a replacement beyond the end changes nothing.
abbrev pub apply : Build → List Entry → List Entry
apply (pushes e) xs = xs ++ (e ∷ [])
apply (replaces i e) xs = set xs i e

abbrev pub spec : List Build → List Entry → List Entry
spec [] xs = xs
spec (b ∷ bs) xs = spec bs (apply b xs)

abbrev pub is_make : ℕ → Event → Bool
is_make a (makes b) = a == b
is_make a _ = false

abbrev pub is_delete : ℕ → Event → Bool
is_delete a (deletes b) = a == b
is_delete a _ = false

abbrev pub made : ℕ → List Event → ℕ
made a es = count_if (is_make a) es

abbrev pub deleted : ℕ → List Event → ℕ
deleted a es = count_if (is_delete a) es

abbrev pub owned : ℕ → List Parameter → ℕ
owned a ps = count_if (λ q. a == q.address) ps

owned-append : (a : ℕ) (ps qs : List Parameter) → owned a (ps ++ qs) ≡ owned a ps + owned a qs
owned-append a ps qs = count_if-append (λ q. a == q.address) ps qs

owned-set :
    (a : ℕ) (ps : List Parameter) (i : ℕ) (q v : Parameter)
    → get_elem? ps i ≡ some q
    → owned a (set ps i v) + (if a == q.address then 1 else 0)
      ≡ owned a ps + (if a == v.address then 1 else 0)
owned-set a [] i q v e = ground arith
owned-set a (p ∷ ps) zero q v e = ground arith
owned-set a (p ∷ ps) (suc i) q v e = omega (arith, owned-set a ps i q v e)

-- Parameters without arrays; at most one stands at an address, and none from `next` on.
pub record IsBuilding (self : Parameters) (next : ℕ) : Type 0 where
  pub no_arrays : self.arrays ≡ none
  pub single : (a : ℕ) → owned a self.p ≤ 1
  pub below : (a : ℕ) → next ≤ a → owned a self.p ≡ 0

-- What a step makes is deleted or owned behind it, and is new.
pub record IsBalanced (self : Parameters) (next : ℕ) (s : Step) : Type 0 where
  pub building : IsBuilding s.0 s.1
  pub grows : next ≤ s.1
  pub balance : (a : ℕ) → made a s.2 + owned a self.p ≡ deleted a s.2 + owned a s.0.p
  pub once : (a : ℕ) → made a s.2 ≤ 1
  pub new : (a : ℕ) → a < next → made a s.2 ≡ 0
  pub bounded : (a : ℕ) → s.1 ≤ a → made a s.2 ≡ 0

same-IsBalanced :
    (self : Parameters) (next : ℕ) → IsBuilding self next → IsBalanced self next (self, next, [])
same-IsBalanced self next i = record {
  building = i;
  grows = omega arith;
  balance = λ a. omega arith;
  once = λ a. omega arith;
  new = λ a h. refl;
  bounded = λ a h. refl;
}

push_back-IsBalanced :
    (e : Entry) (self : Parameters) (next : ℕ)
    → IsBuilding self next
    → IsBalanced self next (push_back e self next)
unfolding push_back cleanup
push_back-IsBalanced e self next i = record {
  building = record {
    no_arrays = i.no_arrays;
    single = λ a. ground (
      arith,
      i.single a,
      i.below a,
      owned-append a self.p (record { address = next; entry = e } ∷ []),
    );
    below = λ a h.
        ground
          (arith, i.below a, owned-append a self.p (record { address = next; entry = e } ∷ []));
  };
  grows = omega arith;
  balance = λ a.
      ground
        (arith, i.no_arrays, owned-append a self.p (record { address = next; entry = e } ∷ []));
  once = λ a. ground (arith, i.no_arrays);
  new = λ a h. ground (arith, i.no_arrays);
  bounded = λ a h. ground (arith, i.no_arrays);
}

replace-none :
    (i : ℕ) (e : Entry) (self : Parameters) (next : ℕ)
    → get_elem? self.p i ≡ none
    → step_or self next (replace i e self next) ≡ (self, next, [])
unfolding replace
replace-none i e self next missing = rw (missing, replace, step_or)

replaced : ℕ → Entry → Parameters → ℕ → Parameter → Step
replaced i e self next q = (
  record self { p = set self.p i (record { address = next; entry = e }) },
  suc next,
  deletes q.address ∷ makes next ∷ [],
)

replace-some :
    (i : ℕ) (e : Entry) (self : Parameters) (next : ℕ) (q : Parameter)
    → self.arrays ≡ none
    → get_elem? self.p i ≡ some q
    → step_or self next (replace i e self next) ≡ replaced i e self next q
unfolding replace cleanup replaced
replace-some i e self next q empty found = rw (found, replace, step_or, empty)

replaced-IsBalanced :
    (i : ℕ) (e : Entry) (self : Parameters) (next : ℕ) (q : Parameter)
    → IsBuilding self next
    → get_elem? self.p i ≡ some q
    → IsBalanced self next (replaced i e self next q)
unfolding replaced
replaced-IsBalanced i e self next q b found =
    let v : Parameter = record { address = next; entry = e } in
    record {
      building = record {
        no_arrays = b.no_arrays;
        single = λ a. ground (arith, b.single a, b.below a, owned-set a self.p i q v found);
        below = λ a h. ground (arith, b.below a, owned-set a self.p i q v found);
      };
      grows = omega arith;
      balance = λ a. ground (arith, owned-set a self.p i q v found);
      once = λ a. ground arith;
      new = λ a h. ground arith;
      bounded = λ a h. ground arith;
    }

replace-IsBalanced :
    (i : ℕ) (e : Entry) (self : Parameters) (next : ℕ)
    → IsBuilding self next
    → IsBalanced self next (step_or self next (replace i e self next))
replace-IsBalanced i e self next b = elim (Option-cases (get_elem? self.p i)) [
  | inl missing ↦ rw (replace-none i e self next missing) (same-IsBalanced self next b)
  | inr (q, found) ↦
      rw (replace-some i e self next q b.no_arrays found)
        (replaced-IsBalanced i e self next q b found)
]

build-IsBalanced :
    (b : Build) (self : Parameters) (next : ℕ)
    → IsBuilding self next
    → IsBalanced self next (build b self next)
build-IsBalanced (pushes e) self next i = push_back-IsBalanced e self next i
build-IsBalanced (replaces k e) self next i = replace-IsBalanced k e self next i

pub build_all-IsBalanced :
    (bs : List Build) (self : Parameters) (next : ℕ)
    → IsBuilding self next
    → IsBalanced self next (build_all bs self next)
build_all-IsBalanced [] self next i = same-IsBalanced self next i
build_all-IsBalanced (b ∷ bs) self next i =
    let s = build b self next in
    let x = build-IsBalanced b self next i in
    let r = build_all bs s.0 s.1 in
    let y = build_all-IsBalanced bs s.0 s.1 x.building in
    let joined = λ (a : ℕ). count_if-append (is_make a) s.2 r.2 in
    record {
      building = y.building;
      grows = omega (arith, x.grows, y.grows);
      balance = λ a. omega (
        arith,
        x.balance a,
        y.balance a,
        count_if-append (is_make a) s.2 r.2,
        count_if-append (is_delete a) s.2 r.2,
      );
      once = λ a. ground (arith, x.once a, x.bounded a, y.new a, y.once a, joined a);
      new = λ a h. ground (arith, x.new a, y.new a, x.grows, joined a);
      bounded = λ a h. ground (arith, x.bounded a, y.bounded a, y.grows, joined a);
    }
