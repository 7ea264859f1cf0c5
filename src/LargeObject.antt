-- ===== src/LargeObject.antt =====
-- src/data_large_object.cpp, include/pq-async/data_large_object.h: large objects, which are open
-- within a transaction of their database.
--
-- The database and its connection are those of `Exec` and `Connection`. What libpq answers to the
-- function for large objects that an operation calls is an argument: `none` stands for -1. The data
-- that is read and written is left out.
pub mod Steps
pub mod Histories
pub mod Stuck
use pq_async.Common.{
  ℕ, Bool, true, false, not, ◌||◌, List, [], ◌∷◌, ◌++◌, Option, none, some, Result, ok, throw,
  if◌then◌else◌,
}
use pq_async.Connection.{Env, open_connection, rollback_transaction}
use pq_async.Connection.WorkLock.{lock_work, unlock_work}
use pq_async.Exec.{Sent, Error, Db, Outcome, in_conn, then_do, take_lock, begin, commit}

pub data LoMode : Type 0 where
  read_mode write_mode : LoMode

pub data LoError : Type 0 where
  already_opened closed must_be_closed server_failed : LoError
  database_failed : Error → LoError

-- The members of `data_large_object_t`; `_fd` is `none` for -1.
pub record LargeObject : Type 0 where
  pub opened_read : Bool
  pub opened_write : Bool
  pub fd : Option ℕ

-- The object with its database, and what the database has sent, oldest first.
pub record State : Type 0 where
  pub object : LargeObject
  pub db : Db
  pub sent : List Sent

-- What libpq and the clock answer during one operation.
pub record Answers : Type 0 where
  pub at_open : Env
  pub at_lock : Env
  pub at_begin : Env
  pub at_end : Env
  pub at_unlock : Env
  pub lo : Option ℕ

abbrev pub Step : Type 0
Step = Result LoError ℕ × State

-- The constructor.
abbrev pub large_object : LargeObject
large_object = record { opened_read = false; opened_write = false; fd = none }

unfoldable pub opened : LargeObject → Bool
opened o = o.opened_read || o.opened_write

-- `rollback` of the database.
unfoldable pub rollback : Env → Db → Outcome
rollback env db = then_do (in_conn (rollback_transaction env) db) (λ d.
    if d.has_lock
    then in_conn (unlock_work env) (record d { has_lock = false })
    else (ok tt, (d, [])))

-- `open_connection`, whose lock nobody keeps: it ends at once if it is new.
unfoldable pub open_for_now : Env → Db → Outcome
open_for_now env db =
    if db.has_lock
    then (ok tt, (db, []))
    else then_do (take_lock env db) (λ d. in_conn (unlock_work env) (record d { has_lock = false }))

-- `connection_lock_t conn_lock(_db->_conn)`
abbrev pub conn_lock : Answers → Db → Outcome
conn_lock a db = in_conn (lock_work a.at_lock) db

-- The lock's destructor, at the end of an operation or where it throws.
unfoldable pub unlocking : Answers → Step → Step
unlocking a r = (r.0, record r.1 { db = (in_conn (unlock_work a.at_unlock) r.1.db).1.0 })

-- An error of the database ends an operation.
abbrev pub proceed : Result Error (Unit {0}) → State → (State → Step) → Step
proceed (throw e) t next = (throw (database_failed e), t)
proceed (ok u) t next = next t

-- The state after a call of the database.
abbrev pub called : State → Outcome → State
called s r = record s { db = r.1.0; sent = s.sent ++ r.1.1 }

-- A call of the database, and what comes after it.
unfoldable pub and_then : State → (Db → Outcome) → (State → Step) → Step
and_then s f next = proceed (f s.db).0 (called s (f s.db)) next

abbrev pub opened_by : LoMode → ℕ → LargeObject
opened_by read_mode n = record { opened_read = true; opened_write = false; fd = some n }
opened_by write_mode n = record { opened_read = false; opened_write = true; fd = some n }

-- `lo_open`, and the rollback if it fails.
unfoldable pub lo_opened : LoMode → Answers → Option ℕ → State → Step
lo_opened m a none s =
    and_then (record s { object = record (s.object) { fd = none } }) (rollback a.at_end)
      (λ t. (throw server_failed, t))
lo_opened m a (some n) s = (ok 0, record s { object = opened_by m n })

unfoldable pub open_object : LoMode → Answers → State → Step
open_object m a s =
    if opened s.object
    then (throw already_opened, s)
    else and_then s (open_for_now a.at_open) (λ t.
      and_then t (conn_lock a)
        (λ u. unlocking a (and_then u (begin a.at_begin) (lo_opened m a a.lo))))

abbrev pub lo_answer : Option ℕ → State → Step
lo_answer none s = (throw server_failed, s)
lo_answer (some n) s = (ok n, s)

-- One call of libpq on an open object.
unfoldable pub use_opened : Answers → State → Step
use_opened a s =
    if opened s.object
    then and_then s (conn_lock a) (λ t. unlocking a (lo_answer a.lo t))
    else (throw closed, s)

-- They differ in the function of libpq that they call.
abbrev pub read : Answers → State → Step
read a s = use_opened a s

abbrev pub write : Answers → State → Step
write a s = use_opened a s

abbrev pub tell : Answers → State → Step
tell a s = use_opened a s

abbrev pub seek : Answers → State → Step
seek a s = use_opened a s

abbrev pub resize : Answers → State → Step
resize a s = use_opened a s

-- `lo_close`, after which the object is closed in any case.
unfoldable pub lo_closed : Answers → Option ℕ → State → Step
lo_closed a none s = and_then s (rollback a.at_end) (λ t. (throw server_failed, t))
lo_closed a (some n) s = and_then s (commit a.at_end) (λ t. (ok 0, t))

unfoldable pub close : Answers → State → Step
close a s =
    if opened s.object
    then and_then s (conn_lock a)
        (λ t. unlocking a (lo_closed a a.lo (record t { object = large_object })))
    else (ok 0, s)

-- The result of `lo_unlink` is not looked at.
unfoldable pub unlink : Answers → State → Step
unlink a s =
    if opened s.object
    then (throw must_be_closed, s)
    else and_then s (open_for_now a.at_open)
        (λ t. and_then t (conn_lock a) (λ u. unlocking a (ok 0, u)))

pub data Operation : Type 0 where
  opens : LoMode → Operation
  reads writes tells seeks resizes closes unlinks : Operation

unfoldable pub operate : Operation → Answers → State → Step
operate (opens m) a s = open_object m a s
operate reads a s = read a s
operate writes a s = write a s
operate tells a s = tell a s
operate seeks a s = seek a s
operate resizes a s = resize a s
operate closes a s = close a s
operate unlinks a s = unlink a s

-- The operations in order, each with what libpq answers; the results, in order.
unfoldable pub operate_all : List (Operation × Answers) → State → List (Result LoError ℕ) × State
operate_all [] s = ([], s)
operate_all ((op, a) ∷ rest) s =
    let r = operate op a s in let later = operate_all rest r.1 in (r.0 ∷ later.0, later.1)
