-- ===== src/Pool.antt =====
-- `connection_pool` of src/data_connection_pool.cpp and include/pq-async/data_connection_pool.h.
--
-- A vector of connections is a list, and a pointer to a connection is its id, which the pool never
-- gives twice. `attached` is the member `_conn` of every `database_t`, which the pool clears when
-- it takes a connection away. One call runs under `conn_pool_mutex` and reads the clock once, but
-- for the loop that steals, whose readings are an argument. `num_to_str` is of the md library.
pub mod Sweep
pub mod Find
pub mod Bounds
pub mod Steal
pub mod Outcome
pub mod Unowned
pub mod Sharing
pub mod Handover
pub mod Destroy
use pq_async.Common.{
  ℕ, zero, suc, ◌+◌, ◌-◌, ◌*◌, Bool, true, false, not, List, [], ◌∷◌, ◌++◌, map, Option, none, some,
  Bytes, bytes_eq, bytes_lt, Result, ok, throw, length, get_elem?, erase_idx, keep_if, count_if,
  ltb, ◌==◌, if◌then◌else◌,
}
use pq_async.Connection.{
  Connection, Env, Session, connection, reserve, lock, is_dead, can_be_stolen,
}

abbrev pub Attached : Type 0
Attached = ℕ → Option Bytes

pub record Pool : Type 0 where
  pub max_conn : ℕ
  pub pools : List (Bytes × List Connection)
  pub last_stolen_conn_id : Bytes
  -- one more than `s_next_id`
  pub next_id : ℕ
  pub attached : Attached

pub data Exception : Type 0 where
  unable_to_assign : Exception
  -- `connection_pool_assign_exception`, with the count in its text
  max_connection_count : ℕ → Exception

abbrev pub alone : Connection → Session
alone c = record { self = c; calls = [] }

-- `conn->lock()`: the connection locked, or nothing.
unfoldable pub try_lock : Env → Connection → Option Connection
unfolding lock
try_lock env c =
    let (r, s) = lock env (alone c) in
    elim r [ ok taken ↦ if taken then some s.self else none | throw e ↦ none ]

-- `if(con->_owner) con->_owner->_conn = NULL;`
unfoldable pub detach : Option ℕ → Attached → Attached
detach none at db = at db
detach (some owner) at db = if db == owner then none else at db

-- `_pools[connection_string]`, made empty if it is missing.
unfoldable pub find_pool : Bytes → List (Bytes × List Connection) → List Connection
find_pool cs [] = []
find_pool cs ((k, cons) ∷ rest) = if bytes_eq k cs then cons else find_pool cs rest

unfoldable pub put_pool :
    Bytes → List Connection → List (Bytes × List Connection) → List (Bytes × List Connection)
put_pool cs cons [] = (cs, cons) ∷ []
put_pool cs cons ((k, old) ∷ rest) =
    if bytes_eq k cs then (k, cons) ∷ rest else (k, old) ∷ put_pool cs cons rest

-- One round of the clean up, at index `i`.
unfoldable pub sweep_at : ℕ → ℕ → List Connection → Attached → List Connection × Attached
sweep_at now i cons at = elim (get_elem? cons i) [
  | none ↦ (cons, at)
  | some c ↦ if is_dead now c then (erase_idx cons i, detach c.owner at) else (cons, at)
]

-- `for(i = cons->size() - 1; i > 4; --i)`
unfoldable pub sweep_down : ℕ → ℕ → List Connection → Attached → List Connection × Attached
sweep_down now zero cons at = (cons, at)
sweep_down now (suc i) cons at = elim (ltb 4 (suc i)) [
  | false ↦ (cons, at)
  | true ↦ sweep_down now i (sweep_at now (suc i) cons at).0 (sweep_at now (suc i) cons at).1
]

unfoldable pub sweep : ℕ → List Connection → Attached → List Connection × Attached
sweep now cons at =
    if ltb 4 (length cons) then sweep_down now (length cons - 1) cons at else (cons, at)

-- `_get_opened_connection_count`
unfoldable pub opened_connection_count : ℕ → Bytes → Pool → ℕ × Pool
opened_connection_count now cs p =
    let swept = sweep now (find_pool cs p.pools) p.attached in
    (
      count_if (λ c. c.res == 1) swept.0,
      record p { pools = put_pool cs swept.0 p.pools; attached = swept.1 },
    )

-- The first connection that can be locked, with its new owner.
unfoldable pub reuse : Env → ℕ → List Connection → Option (Bytes × List Connection)
reuse env owner [] = none
reuse env owner (c ∷ cs) = elim (try_lock env c) [
  | some d ↦ some (d.id, record d { owner = some owner } ∷ cs)
  | none ↦ elim (reuse env owner cs) [ none ↦ none | some (id, ds) ↦ some (id, c ∷ ds) ]
]

-- Those with an id above the last one stolen, then the others.
unfoldable pub steal_order : Bytes → List Connection → List Connection
steal_order last cons =
    keep_if (λ c. bytes_lt last c.id) cons ++ keep_if (λ c. not (bytes_lt last c.id)) cons

unfoldable pub first_stealable : List Connection → Option Connection
first_stealable [] = none
first_stealable (c ∷ cs) = if can_be_stolen c then some c else first_stealable cs

-- `INT32_MAX` for a timeout that is not positive, in nanoseconds.
unfoldable pub timeout_ns : ℕ → ℕ
timeout_ns ms = (if ms == 0 then 2_147_483_647 else ms) * 1_000_000

-- `do { .. usleep(10000); } while(timeout_date > now())` with `timeout_date = start - timeout`;
-- each reading of the clock is one test of the loop, behind a sleep. The result has the
-- microseconds that were slept with it. The connections are taken to stay as they are while the
-- loop sleeps.
unfoldable pub steal_loop : ℕ → ℕ → List Connection → List ℕ → Option Connection × ℕ
steal_loop start timeout scons [] = elim (first_stealable scons) [
  | some c ↦ (some c, 0)
  | none ↦ (none, 10_000)
]
steal_loop start timeout scons (t ∷ ts) =
    let again = steal_loop start timeout scons ts in
    elim (first_stealable scons) [
      | some c ↦ (some c, 0)
      | none ↦
          if ltb (t + timeout_ns timeout) start then (again.0, 10_000 + again.1) else (none, 10_000)
    ]

-- A write through a pointer.
unfoldable pub update_conn : Bytes → (Connection → Connection) → List Connection → List Connection
update_conn id f = map (λ c. if bytes_eq c.id id then f c else c)

-- What stealing does to the connection.
unfoldable pub stolen_by : Env → ℕ → Connection → Connection
unfolding reserve
stolen_by env owner c = (reserve env (alone (record c { owner = some owner }))).1.self

abbrev pub Assigned : Type 0
Assigned = Result Exception Bytes × Pool

abbrev pub store_pool : Bytes → List Connection → Attached → Pool → Pool
store_pool cs cons at p = record p { pools = put_pool cs cons p.pools; attached = at }

-- The part of `_get_connection` that steals, on the vector after the clean up.
unfoldable pub steal : Env → ℕ → Bytes → ℕ → List ℕ → List Connection → Attached → Pool → Assigned
steal env owner cs timeout_ms readings cons at p =
    elim (steal_loop env.now timeout_ms (steal_order p.last_stolen_conn_id cons) readings).0 [
      | some c ↦ (
        ok c.id,
        record (store_pool cs (update_conn c.id (stolen_by env owner) cons) (detach c.owner at) p) {
          last_stolen_conn_id = c.id;
        },
      )
      | none ↦
          let (count, q) = opened_connection_count env.now cs (store_pool cs cons at p) in
          (throw (max_connection_count count), q)
    ]

module _ (num_to_str : ℕ → Bytes) where
  -- `new connection(this, connection_string)`
  unfoldable pub new_connection : Env → Bytes → Pool → Connection
  unfolding connection
  new_connection env cs p = connection env.now (num_to_str p.next_id) cs

  -- "if we have room for more, just create it": the new connection gets no owner.
  unfoldable pub create : Env → Bytes → List Connection → Attached → Pool → Assigned
  unfolding new_connection
  create env cs cons at p =
      let c = new_connection env cs p in
      let q = record p { next_id = p.next_id + 1 } in
      elim (try_lock env c) [
        | some d ↦ (ok d.id, store_pool cs (cons ++ d ∷ []) at q)
        | none ↦ (throw unable_to_assign, store_pool cs (cons ++ c ∷ []) at q)
      ]

  -- `_get_connection` behind the creation of the first connection; `con_size` was read before it.
  unfoldable pub assign_sized :
      Env → ℕ → Bytes → ℕ → List ℕ → ℕ → List Connection → Attached → Pool → Assigned
  assign_sized env owner cs timeout_ms readings con_size cons at p =
      if ltb con_size p.max_conn
      then (elim (reuse env owner cons) [
        | some (id, ds) ↦ (ok id, store_pool cs ds at p)
        | none ↦ create env cs cons at p
      ])
      else steal env owner cs timeout_ms readings cons at p

  -- "init first conns if it doesn't exist"
  unfoldable pub assign_first : Env → ℕ → Bytes → ℕ → List ℕ → Attached → Pool → Assigned
  unfolding new_connection
  assign_first env owner cs timeout_ms readings at p =
      let c = new_connection env cs p in
      let q = record p { next_id = p.next_id + 1 } in
      elim (try_lock env c) [
        | some d ↦ (ok d.id, store_pool cs (record d { owner = some owner } ∷ []) at q)
        | none ↦ assign_sized env owner cs timeout_ms readings 0 (c ∷ []) at q
      ]

  -- `_get_connection`
  unfoldable pub get_connection : Env → ℕ → Bytes → ℕ → List ℕ → Pool → Assigned
  get_connection env owner cs timeout_ms readings p =
      let swept = sweep env.now (find_pool cs p.pools) p.attached in
      if length swept.0 == 0
      then assign_first env owner cs timeout_ms readings swept.1 p
      else assign_sized env owner cs timeout_ms readings (length swept.0) swept.0 swept.1 p

  -- `if(_conn == NULL) _conn = connection_pool::get_connection(this, ..)`, as in
  -- `database_t::open_connection` and `connection_task_t::_connect`.
  unfoldable pub attach : Env → ℕ → Bytes → ℕ → List ℕ → Pool → Assigned
  attach env owner cs timeout_ms readings p = elim (p.attached owner) [
    | some id ↦ (ok id, p)
    | none ↦
        let (r, q) = get_connection env owner cs timeout_ms readings p in
        elim r [
          | ok id ↦
              (ok id, record q { attached = λ db. if db == owner then some id else q.attached db })
          | throw e ↦ (throw e, q)
        ]
  ]
