-- ===== src/Pool/Steal.antt =====
-- Which connection is stolen, and how long the pool tries.
use pq_async.Common.{
  ℕ, ◌+◌, ◌≤◌, ◌≡◌, refl, subst, Bool, true, false, not, List, [], ◌∷◌, ◌++◌, none, some, Bytes,
  bytes_lt, keep_if, arith, if◌then◌else◌, Bool-cases, inl, inr, ◌⊎◌,
}
use pq_async.Connection.{Connection, can_be_stolen}
use pq_async.Pool.{first_stealable, steal_loop, steal_order, timeout_ns}

-- No connection of the list can be stolen.
abbrev pub NoneStealable : List Connection → Type 0
NoneStealable [] = Unit {0}
NoneStealable (c ∷ cs) = (can_be_stolen c ≡ false) × NoneStealable cs

-- The connection is in the list, at the front or later.
pub data Member (c : Connection) : List Connection → Type 0 where
  here : {d : Connection} {cs : List Connection} → d ≡ c → Member c (d ∷ cs)
  there : {d : Connection} {cs : List Connection} → Member c cs → Member c (d ∷ cs)

-- A pass finds nothing exactly where nothing can be stolen.
pub first_stealable-none : (cs : List Connection) → first_stealable cs ≡ none → NoneStealable cs
unfolding first_stealable
first_stealable-none [] h = tt
first_stealable-none (c ∷ cs) h = ground (arith, first_stealable-none cs)

pub NoneStealable-first : (cs : List Connection) → NoneStealable cs → first_stealable cs ≡ none
unfolding first_stealable
NoneStealable-first [] h = refl
NoneStealable-first (c ∷ cs) h = ground (arith, NoneStealable-first cs h.1)

pub first_stealable-some :
    (cs : List Connection) {c : Connection}
    → first_stealable cs ≡ some c
    → (can_be_stolen c ≡ true) × Member c cs
unfolding first_stealable
first_stealable-some [] h = cc
first_stealable-some (d ∷ cs) h = elim (Bool-cases (can_be_stolen d)) [
  | inl free ↦ (ground arith, here (ground arith))
  | inr busy ↦ let (a, m) = first_stealable-some cs (ground arith) in (a, there m)
]

Member-append :
    {c : Connection} (xs ys : List Connection) → Member c (xs ++ ys) → Member c xs ⊎ Member c ys
Member-append [] ys m = inr m
Member-append (x ∷ xs) ys (here e) = inl (here e)
Member-append (x ∷ xs) ys (there m) = elim (Member-append xs ys m) [
  | inl a ↦ inl (there a)
  | inr b ↦ inr b
]

Member-cons :
    {c x : Connection} {xs ys : List Connection}
    → (Member c xs → Member c ys)
    → Member c (x ∷ xs)
    → Member c (x ∷ ys)
Member-cons f (here e) = here e
Member-cons f (there m) = there (f m)

Member-keep_if :
    {c : Connection} (p : Connection → Bool) (xs : List Connection)
    → Member c (keep_if p xs)
    → Member c xs
Member-keep_if p [] m = m
Member-keep_if {c} p (x ∷ xs) m = elim (Bool-cases (p x)) [
  | inl kept ↦
      Member-cons (Member-keep_if p xs)
        (subst (λ b. Member c (if b then x ∷ keep_if p xs else keep_if p xs)) kept m)
  | inr dropped ↦ there (
      Member-keep_if p xs
        (subst (λ b. Member c (if b then x ∷ keep_if p xs else keep_if p xs)) dropped m))
]

-- The order of stealing holds the connections of the pool and no others.
pub Member-steal_order :
    {c : Connection} (last : Bytes) (cons : List Connection)
    → Member c (steal_order last cons)
    → Member c cons
unfolding steal_order
Member-steal_order last cons m =
    let p : Connection → Bool = λ d. bytes_lt last d.id in
    elim (Member-append (keep_if p cons) (keep_if (λ d. not (p d)) cons) m) [
      | inl a ↦ Member-keep_if p cons a
      | inr b ↦ Member-keep_if (λ d. not (p d)) cons b
    ]

NoneStealable-append :
    (xs ys : List Connection)
    → (NoneStealable (xs ++ ys) → NoneStealable xs × NoneStealable ys)
      × (NoneStealable xs × NoneStealable ys → NoneStealable (xs ++ ys))
NoneStealable-append [] ys = (λ h. (tt, h), λ h. h.1)
NoneStealable-append (x ∷ xs) ys =
    let r = NoneStealable-append xs ys in
    (λ h. ((h.0, (r.0 h.1).0), (r.0 h.1).1), λ h. (h.0.0, r.1 (h.0.1, h.1)))

NoneStealable-keep_if :
    (p : Connection → Bool) (xs : List Connection)
    → NoneStealable (keep_if p xs)
    → NoneStealable (keep_if (λ c. not (p c)) xs)
    → NoneStealable xs
NoneStealable-keep_if p [] a b = tt
NoneStealable-keep_if p (x ∷ xs) a b = ground (arith, NoneStealable-keep_if p xs)

keep_if-NoneStealable :
    (p : Connection → Bool) (xs : List Connection) → NoneStealable xs → NoneStealable (keep_if p xs)
keep_if-NoneStealable p [] a = tt
keep_if-NoneStealable p (x ∷ xs) a = ground (arith, keep_if-NoneStealable p xs a.1)

-- Both halves of the order together miss no connection.
pub NoneStealable-steal_order :
    (last : Bytes) (cons : List Connection)
    → (NoneStealable (steal_order last cons) → NoneStealable cons)
      × (NoneStealable cons → NoneStealable (steal_order last cons))
unfolding steal_order
NoneStealable-steal_order last cons =
    let p : Connection → Bool = λ c. bytes_lt last c.id in
    let r = NoneStealable-append (keep_if p cons) (keep_if (λ c. not (p c)) cons) in
    (
      λ h. NoneStealable-keep_if p cons (r.0 h).0 (r.0 h).1,
      λ h. r.1 (keep_if-NoneStealable p cons h, keep_if-NoneStealable (λ c. not (p c)) cons h),
    )

-- Further passes find what the first would find.
pub steal_loop-first :
    (start timeout_ms : ℕ) (scons : List Connection) (ts : List ℕ)
    → (steal_loop start timeout_ms scons ts).0 ≡ first_stealable scons
unfolding steal_loop
steal_loop-first start timeout_ms scons [] = ground arith
steal_loop-first start timeout_ms scons (t ∷ ts) =
    ground (arith, steal_loop-first start timeout_ms scons ts)

-- The pool does not wait for its timeout: where no connection can be stolen, and the clock does not
-- fall back by the whole timeout while it sleeps, the loop sleeps once for ten milliseconds and
-- gives up, whatever the timeout and the later readings are.
pub steal_loop_once :
    (start timeout_ms t : ℕ) (scons : List Connection) (ts : List ℕ)
    → NoneStealable scons
    → start ≤ t + timeout_ns timeout_ms
    → steal_loop start timeout_ms scons (t ∷ ts) ≡ (none, 10_000)
unfolding steal_loop
steal_loop_once start timeout_ms t scons ts none_free h =
    ground (arith, NoneStealable-first scons none_free)
