-- ===== src/Tests/Pools.antt =====
-- src/data_connection_pool.cpp: the pool.
use pq_async.Common.{
  ℕ, ◌+◌, ◌≡◌, ◌≢◌, throw, refl, true, false, [], ◌∷◌, List, none, some, Bytes, codes, ok, ◌⊎◌,
  arith, bytes_lt, bytes_eq, if◌then◌else◌,
}
use pq_async.Connection.{Connection, Env, connection, is_dead, can_be_stolen}
use pq_async.Pool.{
  Pool, Attached, max_connection_count, find_pool, put_pool, sweep, sweep_down, reuse, steal,
  steal_loop, steal_order, first_stealable, update_conn, stolen_by, try_lock, attach,
  get_connection, opened_connection_count, timeout_ns, detach, assign_sized, create,
}
use pq_async.Pool.Unowned.{IsUnowned}
use pq_async.Pool.Sweep.{survivors, loses, sweep_lem}
use pq_async.Pool.Bounds.{Event, gets, counts, uses, history, IsBounded, history-IsBounded}
use pq_async.Pool.Steal.{NoneStealable, Member, steal_loop_once}
use pq_async.Pool.Outcome.{Answer, get_connection-Answer}
use pq_async.Pool.Sharing.{attach_shared}
use pq_async.Pool.Handover.{HandedOver, steal_handover, stolen_by_free}
use pq_async.Pool.Destroy.{destroy_pool, destroy_pool_lem, evens, odds}

abbrev env : Env
env = record {
  now = 100;
  status_ok = true;
  connect_ok = true;
  nonblocking_ok = true;
  command_ok = true;
}

abbrev digit : ℕ → Bytes
digit n = (b'0' + n) ∷ []

abbrev host : Bytes
host = codes "host=a"

abbrev conn : ℕ → ℕ → ℕ → Connection
conn n res running = record {
  res = res;
  running = running;
  id = digit n;
  connection_string = host;
  is_in_transaction = false;
  has_conn = true;
  owner = some n;
  last_modification_date = 50;
}

abbrev pool_of : List Connection → Pool
pool_of cons = record {
  max_conn = 2;
  pools = (host, cons) ∷ [];
  last_stolen_conn_id = [];
  next_id = 1;
  attached = λ db. none;
}

-- One connection, at work for database 7; there is room for one more.
abbrev one_busy : Pool
one_busy = pool_of (record (conn 0 1 1) { owner = some 7 } ∷ [])

abbrev six : List Connection
six = conn 0 0 0 ∷ conn 1 0 0 ∷ conn 2 0 0 ∷ conn 3 0 0 ∷ conn 4 0 0 ∷ conn 5 0 2 ∷ conn 6 1 0 ∷ []

swept_six :
    (sweep 100 six (λ db. some (digit db))).0
    ≡ conn 0 0 0 ∷ conn 1 0 0 ∷ conn 2 0 0 ∷ conn 3 0 0 ∷ conn 4 0 0 ∷ conn 6 1 0 ∷ []
unfolding sweep pq_async.Pool.sweep_down pq_async.Pool.sweep_at is_dead
swept_six = refl

sweep_lem_example :
    ((sweep 100 six (λ db. some (digit db))).0 ≡ survivors 100 5 six)
    × ((sweep 100 six (λ db. some (digit db))).1 5
        ≡ (if loses 100 5 5 six then none else some (digit 5)))
sweep_lem_example = sweep_lem 100 six (λ db. some (digit db)) 5

abbrev busy_day : List Event
busy_day =
    gets env 0 host 0 []
    ∷ counts 200 host
    ∷ uses host (digit 1) (λ c. record c { running = 1 })
    ∷ gets env 3 host 5 (130 ∷ [])
    ∷ []

one_busy-IsBounded : IsBounded one_busy
unfolding find_pool
one_busy-IsBounded k = ground arith

history-IsBounded_example : IsBounded (history digit busy_day one_busy)
history-IsBounded_example = history-IsBounded digit busy_day one_busy one_busy-IsBounded

get_connection-Answer_example :
    Answer digit one_busy
      (sweep 100 (find_pool host one_busy.pools) one_busy.attached).0
      (get_connection digit env 3 host 1 [] one_busy)
get_connection-Answer_example = get_connection-Answer digit env 3 host 1 [] one_busy

steal_loop_once_run : steal_loop 100 5000 (conn 0 1 1 ∷ []) (120 ∷ 130 ∷ []) ≡ (none, 10_000)
unfolding can_be_stolen
steal_loop_once_run =
    steal_loop_once 100 5000 120 (conn 0 1 1 ∷ []) (130 ∷ []) (refl, tt) (omega arith)

abbrev first_attached : Pool
first_attached = (attach digit env 0 host 1 [] one_busy).1

abbrev second_attached : Pool
second_attached = (attach digit env 5 host 1 [] first_attached).1

one_busy-IsUnowned : IsUnowned 0 one_busy
unfolding find_pool
one_busy-IsUnowned k = ground arith

-- Database 0 is given the new connection "1"; database 5, at the limit, is given it as well.
attach_shared_example :
    (second_attached.attached 0 ≡ some (digit 1)) × (second_attached.attached 5 ≡ some (digit 1))
unfolding attach get_connection sweep find_pool put_pool assign_sized reuse create steal steal_loop
    first_stealable steal_order bytes_lt bytes_eq can_be_stolen update_conn stolen_by detach
    connection try_lock history
attach_shared_example =
    attach_shared digit 0 env env 5 host 1 [] [] one_busy refl one_busy-IsUnowned (omega arith)
      (omega arith) (omega arith) refl tt refl refl refl

abbrev two : List Connection
two = conn 0 1 1 ∷ conn 1 1 0 ∷ []

-- Database 1 loses its connection to database 8.
steal_handover_example :
    let r = steal env 8 host 1 [] two (λ db. some (digit db)) (pool_of two) in
    (NoneStealable two × ((n : ℕ) × (r.0 ≡ throw (max_connection_count n))))
    ⊎ ((c : Connection) × Member c two
        × (can_be_stolen c ≡ true)
        × (r.0 ≡ ok c.id)
        × (r.1.last_stolen_conn_id ≡ c.id)
        × (((c.owner ≡ some 1) × (r.1.attached 1 ≡ none))
            ⊎ ((c.owner ≢ some 1) × (r.1.attached 1 ≡ some (digit 1))))
        × HandedOver 8 c.id two (find_pool host r.1.pools))
steal_handover_example = steal_handover env 8 1 host 1 [] two (λ db. some (digit db)) (pool_of two)

stolen_by_free_run :
    ((stolen_by env 8 (conn 1 0 0)).running ≡ 2)
    × (is_dead 101 (stolen_by env 8 (conn 1 0 0)) ≡ true)
    × (try_lock env (stolen_by env 8 (conn 1 0 0))
        ≡ some (record (stolen_by env 8 (conn 1 0 0)) {
          res = 1;
          running = 0;
          last_modification_date = 100;
        }))
unfolding can_be_stolen
stolen_by_free_run = stolen_by_free env env 8 101 (conn 1 0 0) refl refl (omega arith)

destroy_pool_lem_run :
    ((destroy_pool six (λ db. none)).deleted ≡ evens six)
    × ((destroy_pool six (λ db. none)).left ≡ odds six)
destroy_pool_lem_run = destroy_pool_lem six (λ db. none)
