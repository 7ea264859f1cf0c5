-- ===== src/Tests/Connections.antt =====
-- include/pq-async/data_connection_pool.h: one connection.
use pq_async.Common.{
  ◌<◌, ◌≡◌, refl, true, false, not, ◌&&◌, [], ◌∷◌, List, none, some, codes, ok, throw, ◌⊎◌, arith,
  ◌==◌,
}
use pq_async.Connection.{
  Env, Session, server_error, connection, begin, exec, connect, lock, release, is_dead,
  can_be_stolen, already_locked, begin_transaction,
}
use pq_async.Connection.Transaction.{
  Method, does_begin, does_commit, does_release, does_set_savepoint, fresh, run_all, IsConsistent,
  run_all-fresh-IsConsistent,
}
use pq_async.Connection.Reservation.{lock_lem, lock-run_all-lock, release_lem, is_dead-not_late}
use pq_async.Connection.WorkLock.{
  lock_work, unlock_work, reserve_and_lock_work, lock_work_lem, reserve_and_lock_work_overlap,
}

-- libpq answers well, or the server refuses the command.
abbrev well : Env
well = record {
  now = 100;
  status_ok = true;
  connect_ok = true;
  nonblocking_ok = true;
  command_ok = true;
}

abbrev refuses : Env
refuses = record well { now = 200; command_ok = false }

abbrev start : Session
start = fresh 50 (codes "0") (codes "host=a")

abbrev ordinary_day : List (Env × Method)
ordinary_day =
    (well, does_begin)
    ∷ (refuses, does_commit)
    ∷ (well, does_begin)
    ∷ (well, does_set_savepoint (codes "s"))
    ∷ (well, does_release)
    ∷ []

begins : begin_transaction well start ≡ (
  ok tt,
  record {
    self = record start.self {
      is_in_transaction = true;
      has_conn = true;
      last_modification_date = 100;
    };
    calls = exec begin true ∷ connect ∷ [];
  },
)
unfolding begin_transaction connection
begins = refl

run_all-fresh-IsConsistent_example : IsConsistent (run_all ordinary_day start)
run_all-fresh-IsConsistent_example =
    run_all-fresh-IsConsistent ordinary_day 50 (codes "0") (codes "host=a")

lock_lem_example :
    ((start.self.res ≡ 0)
      × (lock well start ≡ (
        ok true,
        record start {
          self = record start.self { res = 1; running = 0; last_modification_date = 100 };
        },
      )))
    ⊎ ((0 < start.self.res) × (lock well start ≡ (ok false, start)))
lock_lem_example = lock_lem well start

abbrev used : Session
used = run_all ((well, does_begin) ∷ (refuses, does_commit) ∷ []) (lock well start).1

lock-run_all-lock_example : lock refuses used ≡ (ok false, used)
unfolding connection
lock-run_all-lock_example =
    lock-run_all-lock well refuses ((well, does_begin) ∷ (refuses, does_commit) ∷ []) start refl
      (refl, (refl, tt))

-- In a transaction, held and owned.
abbrev busy : Session
busy = record {
  self = record start.self {
    res = 1;
    running = 1;
    is_in_transaction = true;
    has_conn = true;
    owner = some 3;
  };
  calls = [];
}

release_lem_run :
    (((release refuses busy).0 ≡ ok tt)
      × ((release refuses busy).1.self.res ≡ 0)
      × ((release refuses busy).1.self.owner ≡ none)
      × ((release refuses busy).1.self.is_in_transaction ≡ false)
      × ((release refuses busy).1.self.running ≡ 0))
    ⊎ ((busy.self.is_in_transaction ≡ true)
        × (refuses.command_ok ≡ false)
        × ((release refuses busy).0 ≡ throw server_error)
        × ((release refuses busy).1.self ≡ record busy.self { owner = none })
        × (can_be_stolen (release refuses busy).1.self ≡ false)
        × (is_dead 900 (release refuses busy).1.self ≡ false))
release_lem_run = release_lem refuses 900 busy

is_dead-not_late_run :
    is_dead 60 start.self ≡ (not start.self.is_in_transaction && start.self.res == 0)
unfolding connection
is_dead-not_late_run = is_dead-not_late 60 start.self (omega arith)

lock_work_lem_run :
    ((start.self.running ≡ 1) × (lock_work well start ≡ (throw already_locked, start)))
    ⊎ (((lock_work well start).0 ≡ ok tt)
        × (lock_work refuses (lock_work well start).1
            ≡ (throw already_locked, (lock_work well start).1))
        × (can_be_stolen (lock_work well start).1.self ≡ false)
        × ((unlock_work refuses (lock_work well start).1).1.self.running ≡ 0))
unfolding connection
lock_work_lem_run = lock_work_lem well refuses start (omega arith)

abbrev one_lock : Session
one_lock = (reserve_and_lock_work well start).1

abbrev two_locks : Session
two_locks = (reserve_and_lock_work well one_lock).1

reserve_and_lock_work_overlap_run :
    ((reserve_and_lock_work well start).0 ≡ ok tt)
    × ((reserve_and_lock_work well one_lock).0 ≡ ok tt)
    × (can_be_stolen two_locks.self ≡ false)
    × (can_be_stolen (unlock_work well two_locks).1.self ≡ not start.self.is_in_transaction)
reserve_and_lock_work_overlap_run = reserve_and_lock_work_overlap well well well start
