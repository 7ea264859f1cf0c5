-- ===== src/Pool/Handover.antt =====
-- What stealing does to a connection, to its former owner and to the pool.
use pq_async.Common.{
  ℕ, ◌≤◌, ◌≡◌, ◌≢◌, refl, ◌∙◌, true, false, Bool-cases, List, [], ◌∷◌, Option, none, some,
  Option-cases, Bytes, bytes_eq, bytes_eq_iff, ok, throw, arith, ◌⊎◌, inl, inr, ◌==◌,
}
use pq_async.Connection.{Connection, Env, is_dead, can_be_stolen}
use pq_async.Pool.{
  Pool, Attached, find_pool, steal, steal_order, first_stealable, stolen_by, try_lock, update_conn,
  detach, max_connection_count, opened_connection_count, store_pool,
}
use pq_async.Pool.Steal.{
  Member, NoneStealable, first_stealable-none, first_stealable-some, Member-steal_order,
  NoneStealable-steal_order, steal_loop-first,
}
use pq_async.Pool.Find.{find_pool-put_pool_self}

-- One vector of connections from another: those with the id belong to the owner and are reserved,
-- which shields them from another theft, and every other is as it was.
abbrev pub HandedOver : ℕ → Bytes → List Connection → List Connection → Type 0
HandedOver owner id [] [] = Unit {0}
HandedOver owner id [] (y ∷ ys) = ⊥
HandedOver owner id (x ∷ xs) [] = ⊥
HandedOver owner id (x ∷ xs) (y ∷ ys) =
    (((x.id ≡ id) × (y.id ≡ id) × (y.owner ≡ some owner) × (can_be_stolen y ≡ false))
      ⊎ ((x.id ≢ id) × (y ≡ x)))
    × HandedOver owner id xs ys

stolen_by-id :
    (env : Env) (owner : ℕ) (c : Connection)
    → ((stolen_by env owner c).id ≡ c.id)
      × ((stolen_by env owner c).owner ≡ some owner)
      × (can_be_stolen (stolen_by env owner c) ≡ false)
unfolding stolen_by can_be_stolen
stolen_by-id env owner c = (refl, refl, ground arith)

update_conn-HandedOver :
    (env : Env) (owner : ℕ) (id : Bytes) (cons : List Connection)
    → HandedOver owner id cons (update_conn id (stolen_by env owner) cons)
unfolding update_conn
update_conn-HandedOver env owner id [] = tt
update_conn-HandedOver env owner id (x ∷ xs) = elim (Bool-cases (bytes_eq x.id id)) [
  | inl e ↦ rw e (
      let same = (bytes_eq_iff x.id id).0 e in
      let (i, o, n) = stolen_by-id env owner x in
      (inl (same, i ∙ same, o, n), update_conn-HandedOver env owner id xs))
  | inr e ↦ rw e ((inr (λ same. other x.id e same, refl), update_conn-HandedOver env owner id xs))
]
  where
    other : (j : Bytes) → bytes_eq j id ≡ false → j ≢ id
    other j e same = ground (arith, bytes_eq_iff j id)

detach_lem :
    (o : Option ℕ) (at : Attached) (d : ℕ)
    → ((o ≡ some d) × (detach o at d ≡ none)) ⊎ ((o ≢ some d) × (detach o at d ≡ at d))
unfolding detach
detach_lem none at d = inr (λ e. cc, refl)
detach_lem (some o) at d = elim (Bool-cases (d == o)) [
  | inl e ↦ inl (ground arith, rw e refl)
  | inr e ↦ inr (λ same. ground arith, rw e refl)
]

-- What stealing does, on all its ways out. Either no connection can be stolen and an error with
-- a count of connections is thrown. Or a connection
-- of the vector that can be stolen changes hands in full: its id is returned and remembered, the
-- pointer of its owner, if it has one, is cleared and that of every other database is kept, and in
-- the vector that is stored each connection with this id belongs to the new owner and is reserved,
-- while each other is as it was.
pub steal_handover :
    (env : Env) (owner d : ℕ) (cs : Bytes) (timeout_ms : ℕ) (readings : List ℕ)
    (cons : List Connection) (at : Attached) (p : Pool)
    → let r = steal env owner cs timeout_ms readings cons at p in
      (NoneStealable cons × ((n : ℕ) × (r.0 ≡ throw (max_connection_count n))))
      ⊎ ((c : Connection) × Member c cons
          × (can_be_stolen c ≡ true)
          × (r.0 ≡ ok c.id)
          × (r.1.last_stolen_conn_id ≡ c.id)
          × (((c.owner ≡ some d) × (r.1.attached d ≡ none))
              ⊎ ((c.owner ≢ some d) × (r.1.attached d ≡ at d)))
          × HandedOver owner c.id cons (find_pool cs r.1.pools))
unfolding steal
steal_handover env owner d cs timeout_ms readings cons at p =
    let order = steal_order p.last_stolen_conn_id cons in
    let same = steal_loop-first env.now timeout_ms order readings in
    elim (Option-cases (first_stealable order)) [
      | inl e ↦
          let count = opened_connection_count env.now cs (store_pool cs cons at p) in
          inl (
            (NoneStealable-steal_order p.last_stolen_conn_id cons).0 (first_stealable-none order e),
            (count.0, rw (same, e, steal) refl),
          )
      | inr (c, e) ↦
          let (idle, m) = first_stealable-some order e in
          let found =
            find_pool-put_pool_self cs (update_conn c.id (stolen_by env owner) cons) p.pools in
          inr (
            c,
            Member-steal_order p.last_stolen_conn_id cons m,
            idle,
            rw (same, e, steal) refl,
            rw (same, e, steal) refl,
            rw (same, e, steal) (detach_lem c.owner at d),
            rw (same, e, steal) (rw found (update_conn-HandedOver env owner c.id cons)),
          )
    ]

-- Stealing does not mark the connection as held. One that was free when it was stolen can be locked
-- for somebody else at once, and however soon it is dead to the clean up, though it is reserved.
pub stolen_by_free :
    (env again : Env) (owner later : ℕ) (c : Connection)
    → c.res ≡ 0
    → can_be_stolen c ≡ true
    → env.now ≤ later
    → let s = stolen_by env owner c in
      (s.running ≡ 2)
      × (is_dead later s ≡ true)
      × (try_lock again s
          ≡ some (record s { res = 1; running = 0; last_modification_date = again.now }))
unfolding stolen_by is_dead try_lock can_be_stolen
stolen_by_free env again owner later c free idle h = ground arith
