-- ===== src/Pool/Bounds.antt =====
-- No call lets a vector of connections outgrow the limit of the pool.
use Prim.Native.Nat.{max}
use pq_async.Common.{
  ℕ, zero, suc, ◌+◌, ◌≤◌, ◌≡◌, refl, List, ok, ◌==◌, [], ◌∷◌, ◌++◌, some, Bytes, arith, length, ltb,
  ltb→lt, length-append, Bool-cases, Option-cases, inl, inr,
}
use pq_async.Connection.{Connection, Env, connection}
use pq_async.Pool.{
  Pool, Attached, try_lock, find_pool, sweep, reuse, opened_connection_count, steal_loop,
  steal_order, steal, create, assign_sized, assign_first, get_connection, store_pool, update_conn,
  stolen_by, detach,
}
use pq_async.Pool.Sweep.{survivors, sweep_lem}
use pq_async.Pool.Find.{find_pool-put_pool, length-update_conn}

-- A pool makes its first connection whatever its limit.
abbrev pub IsBounded : Pool → Type 0
IsBounded p = (k : Bytes) → length (find_pool k p.pools) ≤ max 1 p.max_conn

length-survivors-le : (now k : ℕ) (l : List Connection) → length (survivors now k l) ≤ length l
length-survivors-le now k [] = omega arith
length-survivors-le now zero (x ∷ l) = ground (arith, length-survivors-le now zero l)
length-survivors-le now (suc k) (x ∷ l) = omega (arith, length-survivors-le now k l)

pub length-sweep-le :
    (now : ℕ) (cons : List Connection) (at : Attached) → length (sweep now cons at).0 ≤ length cons
length-sweep-le now cons at = rw ((sweep_lem now cons at 0).0) (length-survivors-le now 5 cons)

pub length-reuse :
    (env : Env) (owner : ℕ) (cons : List Connection) {id : Bytes} {ds : List Connection}
    → reuse env owner cons ≡ some (id, ds)
    → length ds ≡ length cons
unfolding reuse
length-reuse env owner [] h = cc
length-reuse env owner (c ∷ cs) h = elim (Option-cases (reuse env owner cs)) [
  | inl e ↦ ground (arith, e)
  | inr ((id, ds), e) ↦ ground (arith, e, length-reuse env owner cs e)
]

store_pool-IsBounded :
    (cs : Bytes) (cons : List Connection) (at : Attached) (p : Pool)
    → IsBounded p
    → length cons ≤ max 1 p.max_conn
    → IsBounded (store_pool cs cons at p)
store_pool-IsBounded cs cons at p b h k = ground (arith, find_pool-put_pool k cs cons p.pools, b k)

opened_connection_count-IsBounded :
    (now : ℕ) (cs : Bytes) (p : Pool) → IsBounded p → IsBounded (opened_connection_count now cs p).1
unfolding opened_connection_count
opened_connection_count-IsBounded now cs p b =
    let l = length-sweep-le now (find_pool cs p.pools) p.attached in
    let c = b cs in
    let swept = sweep now (find_pool cs p.pools) p.attached in
    store_pool-IsBounded cs swept.0 swept.1 p b (omega arith)

steal-IsBounded :
    (env : Env) (owner : ℕ) (cs : Bytes) (timeout : ℕ) (readings : List ℕ) (cons : List Connection)
    (at : Attached) (p : Pool)
    → IsBounded p
    → length cons ≤ max 1 p.max_conn
    → IsBounded (steal env owner cs timeout readings cons at p).1
unfolding steal
steal-IsBounded env owner cs timeout readings cons at p b h =
    elim (Option-cases
      (steal_loop env.now timeout (steal_order p.last_stolen_conn_id cons) readings).0) [
        | inl e ↦
            rw (e, steal)
              (opened_connection_count-IsBounded env.now cs _
                (store_pool-IsBounded cs cons at p b h))
        | inr (c, e) ↦
            let l = length-update_conn c.id (stolen_by env owner) cons in
            rw (e, steal)
              (store_pool-IsBounded cs (update_conn c.id (stolen_by env owner) cons)
                (detach c.owner at) p b (omega arith))
      ]

abbrev pub count_up : Pool → Pool
count_up p = record p { next_id = p.next_id + 1 }

module _ (num_to_str : ℕ → Bytes) where
  -- A new connection, as `lock` leaves it.
  abbrev pub locked_new : Env → Bytes → Pool → Connection
  locked_new env cs p = record (connection env.now (num_to_str p.next_id) cs) { res = 1 }

  -- The lock of a new connection succeeds, so creating one never throws.
  pub create_lem :
      (env : Env) (cs : Bytes) (cons : List Connection) (at : Attached) (p : Pool)
      → create num_to_str env cs cons at p ≡ (
        ok (num_to_str p.next_id),
        store_pool cs (cons ++ locked_new env cs p ∷ []) at (count_up p),
      )
  unfolding create try_lock connection
  create_lem env cs cons at p = refl

  pub assign_first_lem :
      (env : Env) (owner : ℕ) (cs : Bytes) (timeout_ms : ℕ) (readings : List ℕ) (at : Attached)
      (p : Pool)
      → assign_first num_to_str env owner cs timeout_ms readings at p ≡ (
        ok (num_to_str p.next_id),
        store_pool cs (record (locked_new env cs p) { owner = some owner } ∷ []) at (count_up p),
      )
  unfolding assign_first try_lock connection
  assign_first_lem env owner cs timeout_ms readings at p = refl

  assign_sized-IsBounded :
      (env : Env) (owner : ℕ) (cs : Bytes) (timeout_ms : ℕ) (readings : List ℕ)
      (cons : List Connection) (at : Attached) (p : Pool)
      → IsBounded p
      → length cons ≤ max 1 p.max_conn
      → IsBounded
          (assign_sized num_to_str env owner cs timeout_ms readings (length cons) cons at p).1
  unfolding assign_sized
  assign_sized-IsBounded env owner cs timeout_ms readings cons at p b h =
      elim (Bool-cases (ltb (length cons) p.max_conn)) [
        | inr full ↦ rw full (steal-IsBounded env owner cs timeout_ms readings cons at p b h)
        | inl room ↦ elim (Option-cases (reuse env owner cons)) [
          | inl e ↦
              let more = length-append cons (locked_new env cs p ∷ []) in
              let few = ltb→lt _ _ room in
              rw (room, e, create_lem env cs cons at p)
                (store_pool-IsBounded cs (cons ++ locked_new env cs p ∷ []) at (count_up p) b
                  (omega arith))
          | inr ((id, ds), e) ↦
              rw (room, e)
                (store_pool-IsBounded cs ds at p b (omega (arith, length-reuse env owner cons e)))
        ]
      ]

  pub get_connection-IsBounded :
      (env : Env) (owner : ℕ) (cs : Bytes) (timeout_ms : ℕ) (readings : List ℕ) (p : Pool)
      → IsBounded p
      → IsBounded (get_connection num_to_str env owner cs timeout_ms readings p).1
  unfolding get_connection
  get_connection-IsBounded env owner cs timeout_ms readings p b =
      let swept = sweep env.now (find_pool cs p.pools) p.attached in
      let l = length-sweep-le env.now (find_pool cs p.pools) p.attached in
      let c = b cs in
      elim (Bool-cases (length swept.0 == 0)) [
        | inl empty ↦
            rw (empty, assign_first_lem env owner cs timeout_ms readings swept.1 p)
              (store_pool-IsBounded cs _ swept.1 (count_up p) b (omega arith))
        | inr some_left ↦ rw some_left (
            assign_sized-IsBounded env owner cs timeout_ms readings swept.0 swept.1 p b
              (omega arith))
      ]

-- What happens to a pool: calls of `get_connection` and of `get_opened_connection_count`, and
-- whatever the users of a connection do to its members.
pub data Event : Type 0 where
  gets : Env → ℕ → Bytes → ℕ → List ℕ → Event
  counts : ℕ → Bytes → Event
  uses : Bytes → Bytes → (Connection → Connection) → Event

module _ (num_to_str : ℕ → Bytes) where
  unfoldable pub happen : Event → Pool → Pool
  happen (gets env owner cs timeout_ms readings) p =
      (get_connection num_to_str env owner cs timeout_ms readings p).1
  happen (counts now cs) p = (opened_connection_count now cs p).1
  happen (uses cs id f) p = store_pool cs (update_conn id f (find_pool cs p.pools)) p.attached p

  unfoldable pub history : List Event → Pool → Pool
  history [] p = p
  history (e ∷ es) p = history es (happen e p)

  happen-IsBounded : (e : Event) (p : Pool) → IsBounded p → IsBounded (happen e p)
  unfolding happen
  happen-IsBounded (gets env owner cs timeout_ms readings) p b =
      get_connection-IsBounded num_to_str env owner cs timeout_ms readings p b
  happen-IsBounded (counts now cs) p b = opened_connection_count-IsBounded now cs p b
  happen-IsBounded (uses cs id f) p b =
      let n = length-update_conn id f (find_pool cs p.pools) in
      let c = b cs in
      store_pool-IsBounded cs (update_conn id f (find_pool cs p.pools)) p.attached p b (omega arith)

  -- Whatever happens to a pool, in whatever order, for whatever databases, connection strings and
  -- readings of the clock: if no connection string has more connections than the limit (or one, if
  -- the limit is 0), then none ever has.
  pub history-IsBounded : (es : List Event) (p : Pool) → IsBounded p → IsBounded (history es p)
  unfolding history
  history-IsBounded [] p b = b
  history-IsBounded (e ∷ es) p b = history-IsBounded es (happen e p) (happen-IsBounded e p b)
