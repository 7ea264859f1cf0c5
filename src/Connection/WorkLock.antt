-- ===== src/Connection/WorkLock.antt =====
-- `connection_lock_t` of include/pq-async/data_connection_pool.h: its constructor and destructor on
-- a connection, and how `database_t::open_connection` takes one.
use pq_async.Common.{not, ◌≤◌, ◌≡◌, false, ok, throw, ◌==◌, ◌⊎◌, if◌then◌else◌, arith}
use pq_async.Connection.{
  Env, Session, M, ◌>>=◌, ◌>>◌, throws, this, already_locked, reserve, start_work, stop_work,
  can_be_stolen,
}

-- The constructor; `_conn` is not null.
unfoldable pub lock_work : Env → M (Unit {0})
unfolding start_work
lock_work env = do c ← this; if c.running == 1 then throws already_locked else start_work env

-- The destructor.
unfoldable pub unlock_work : Env → M (Unit {0})
unfolding stop_work
unlock_work env = stop_work env

-- `_conn->reserve()` and then a new lock, as in `open_connection` and `_connect`.
unfoldable pub reserve_and_lock_work : Env → M (Unit {0})
unfolding reserve lock_work
reserve_and_lock_work env = do reserve env; lock_work env

-- A lock is refused exactly where work is running. Where none is (`_running` is 0 or 2), the lock
-- marks work as running, so that a second lock is refused and the connection cannot be stolen, and
-- destroying the lock leaves no work running.
pub lock_work_lem :
    (env later : Env) (s : Session)
    → s.self.running ≤ 2
    → let t = (lock_work env s).1 in
      ((s.self.running ≡ 1) × (lock_work env s ≡ (throw already_locked, s)))
      ⊎ (((lock_work env s).0 ≡ ok tt)
          × (lock_work later t ≡ (throw already_locked, t))
          × (can_be_stolen t.self ≡ false)
          × ((unlock_work later t).1.self.running ≡ 0))
unfolding lock_work unlock_work can_be_stolen
lock_work_lem env later s h = ground arith

-- The guard of the constructor never refuses a lock that follows `reserve`, whatever runs on the
-- connection; and when two locks taken this way overlap, the connection cannot be stolen until the
-- first ends, and from then on it can be while the second still stands, unless it is in a
-- transaction.
pub reserve_and_lock_work_overlap :
    (first second ended : Env) (s : Session)
    → let t = (reserve_and_lock_work first s).1 in
      let u = (reserve_and_lock_work second t).1 in
      ((reserve_and_lock_work first s).0 ≡ ok tt)
      × ((reserve_and_lock_work second t).0 ≡ ok tt)
      × (can_be_stolen u.self ≡ false)
      × (can_be_stolen (unlock_work ended u).1.self ≡ not s.self.is_in_transaction)
unfolding reserve_and_lock_work unlock_work can_be_stolen
reserve_and_lock_work_overlap first second ended s = ground arith
