-- ===== src/Pool/Outcome.antt =====
-- What `get_connection` may return, and when it throws.
use pq_async.Common.{
  ℕ, ◌≤◌, ◌<◌, ◌≡◌, refl, subst, true, List, [], ◌∷◌, none, some, Bytes, ok, throw, ◌==◌, arith,
  length, ltb, ltb→lt, ltb-false→le, Bool-cases, Option-cases, inl, inr,
}
use pq_async.Connection.{Connection, Env, can_be_stolen}
use pq_async.Pool.{
  Pool, Attached, Assigned, Exception, try_lock, find_pool, sweep, reuse, steal_order, steal,
  assign_sized, get_connection, first_stealable,
}
use pq_async.Pool.Steal.{
  Member, here, there, NoneStealable, first_stealable-none, first_stealable-some,
  Member-steal_order, NoneStealable-steal_order, steal_loop-first,
}
use pq_async.Pool.Bounds.{create_lem, assign_first_lem}

-- No connection of the list is free.
abbrev pub NoneFree : List Connection → Type 0
NoneFree [] = Unit {0}
NoneFree (c ∷ cs) = (0 < c.res) × NoneFree cs

-- A connection of the list has the id and the property.
pub record Some (P : Connection → Type 0) (id : Bytes) (cons : List Connection) : Type 0 where
  pub which : Connection
  pub member : Member which cons
  pub id_is : which.id ≡ id
  pub holds : P which

Some-cons :
    {P : Connection → Type 0} {id : Bytes} {cons : List Connection} (c : Connection)
    → Some P id cons
    → Some P id (c ∷ cons)
Some-cons c s = record {
  which = s.which;
  member = there s.member;
  id_is = s.id_is;
  holds = s.holds;
}

try_lock-some :
    (env : Env) (c d : Connection) → try_lock env c ≡ some d → (c.res ≡ 0) × (d.id ≡ c.id)
unfolding try_lock
try_lock-some env c d h = ground arith

try_lock-none : (env : Env) (c : Connection) → try_lock env c ≡ none → 0 < c.res
unfolding try_lock
try_lock-none env c h = ground arith

reuse-none :
    (env : Env) (owner : ℕ) (cons : List Connection) → reuse env owner cons ≡ none → NoneFree cons
unfolding reuse
reuse-none env owner [] h = tt
reuse-none env owner (c ∷ cs) h = ground (arith, try_lock-none env c, reuse-none env owner cs)

pub NoneFree-reuse :
    (env : Env) (owner : ℕ) (cons : List Connection) → NoneFree cons → reuse env owner cons ≡ none
unfolding reuse try_lock
NoneFree-reuse env owner [] h = refl
NoneFree-reuse env owner (c ∷ cs) h = ground (arith, NoneFree-reuse env owner cs h.1)

reuse-some :
    (env : Env) (owner : ℕ) (cons : List Connection) {id : Bytes} {ds : List Connection}
    → reuse env owner cons ≡ some (id, ds)
    → Some (λ c. c.res ≡ 0) id cons
unfolding reuse
reuse-some env owner [] h = absurd cc
reuse-some env owner (c ∷ cs) {id} h = elim (Option-cases (try_lock env c)) [
  | inl e ↦ elim (Option-cases (reuse env owner cs)) [
    | inl f ↦ absurd (ground arith)
    | inr ((id', ds'), f) ↦
        let same : id' ≡ id = ground arith in
        subst (λ k. Some (λ x. x.res ≡ 0) k (c ∷ cs)) same (Some-cons c (reuse-some env owner cs f))
  ]
  | inr (d, e) ↦ record {
    which = c;
    member = here refl;
    id_is = ground (arith, try_lock-some env c d e);
    holds = (try_lock-some env c d e).0;
  }
]

-- What a call may answer, with the connections `cons` that are left by the clean up: the id of a
-- new connection, where there is none or all are held and the limit is not reached; that of a free
-- connection, below the limit; that of a connection without work and transaction, at the limit; and
-- an exception, at the limit where no connection is without work and transaction.
pub data Answer (num_to_str : ℕ → Bytes) (p : Pool) (cons : List Connection)
    : Assigned → Type 0 where
  first : {q : Pool} → cons ≡ [] → Answer num_to_str p cons (ok (num_to_str p.next_id), q)
  created :
      {q : Pool}
      → length cons < p.max_conn
      → NoneFree cons
      → Answer num_to_str p cons (ok (num_to_str p.next_id), q)
  reused :
      {id : Bytes} {q : Pool}
      → length cons < p.max_conn
      → Some (λ c. c.res ≡ 0) id cons
      → Answer num_to_str p cons (ok id, q)
  stolen :
      {id : Bytes} {q : Pool}
      → p.max_conn ≤ length cons
      → Some (λ c. can_be_stolen c ≡ true) id cons
      → Answer num_to_str p cons (ok id, q)
  refused :
      {e : Exception} {q : Pool}
      → p.max_conn ≤ length cons
      → NoneStealable cons
      → Answer num_to_str p cons (throw e, q)

steal-Answer :
    (num_to_str : ℕ → Bytes) (env : Env) (owner : ℕ) (cs : Bytes) (timeout : ℕ) (readings : List ℕ)
    (cons : List Connection) (at : Attached) (p : Pool)
    → p.max_conn ≤ length cons
    → Answer num_to_str p cons (steal env owner cs timeout readings cons at p)
unfolding steal
steal-Answer num_to_str env owner cs timeout readings cons at p full =
    let order = steal_order p.last_stolen_conn_id cons in
    let same = steal_loop-first env.now timeout order readings in
    elim (Option-cases (first_stealable order)) [
      | inl e ↦
          rw (same, e, steal)
            (refused full (
              (NoneStealable-steal_order p.last_stolen_conn_id cons).0
                (first_stealable-none order e)))
      | inr (c, e) ↦
          let (idle, m) = first_stealable-some order e in
          rw (same, e, steal)
            (stolen full (record {
              which = c;
              member = Member-steal_order p.last_stolen_conn_id cons m;
              id_is = refl;
              holds = idle;
            }))
    ]

module _ (num_to_str : ℕ → Bytes) where
  assign_sized-Answer :
      (env : Env) (owner : ℕ) (cs : Bytes) (timeout_ms : ℕ) (readings : List ℕ)
      (cons : List Connection) (at : Attached) (p : Pool)
      → Answer num_to_str p cons
          (assign_sized num_to_str env owner cs timeout_ms readings (length cons) cons at p)
  unfolding assign_sized
  assign_sized-Answer env owner cs timeout_ms readings cons at p =
      elim (Bool-cases (ltb (length cons) p.max_conn)) [
        | inr full ↦ rw full (
            steal-Answer num_to_str env owner cs timeout_ms readings cons at p
              (ltb-false→le (length cons) p.max_conn full))
        | inl room ↦ elim (Option-cases (reuse env owner cons)) [
          | inl e ↦
              rw (room, e, create_lem num_to_str env cs cons at p)
                (created (ltb→lt (length cons) p.max_conn room) (reuse-none env owner cons e))
          | inr ((id, ds), e) ↦
              rw (room, e)
                (reused (ltb→lt (length cons) p.max_conn room) (reuse-some env owner cons e))
        ]
      ]

  -- `get_connection` answers in one of five ways, each under its own condition on the connections
  -- that the clean up leaves. With a new connection: there is none, or all are held and they are
  -- fewer than the limit. With a connection that nobody holds: they are fewer than the limit. With
  -- one that has neither work running nor a transaction open: the limit is reached. And with an
  -- exception: the limit is reached, and each connection has work running or a transaction open.
  pub get_connection-Answer :
      (env : Env) (owner : ℕ) (cs : Bytes) (timeout_ms : ℕ) (readings : List ℕ) (p : Pool)
      → Answer num_to_str p
          (sweep env.now (find_pool cs p.pools) p.attached).0
          (get_connection num_to_str env owner cs timeout_ms readings p)
  unfolding get_connection
  get_connection-Answer env owner cs timeout_ms readings p =
      let swept = sweep env.now (find_pool cs p.pools) p.attached in
      elim (Bool-cases (length swept.0 == 0)) [
        | inl empty ↦
            rw (empty, assign_first_lem num_to_str env owner cs timeout_ms readings swept.1 p)
              (first (ground arith))
        | inr left ↦
            rw left (assign_sized-Answer env owner cs timeout_ms readings swept.0 swept.1 p)
      ]
