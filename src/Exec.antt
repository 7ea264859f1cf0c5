-- ===== src/Exec.antt =====
-- `database_t::exec_queries` of src/database.cpp, with `begin`, `commit` and `open_connection` of
-- include/pq-async/database.h: a script runs in one transaction, query by query.
--
-- The database has its connection. What libpq answers to a query is an argument, and so is what it
-- answers to the methods of the connection (`Env`). `wait_for_sync`, which runs the other tasks of
-- the database, and the log are left out.

pub mod Runs
pub mod Transaction
pub mod Scripts
use pq_async.Common.{
  ℕ, zero, suc, ◌+◌, ◌/◌, ◌%◌, Bool, true, false, not, ◌&&◌, ◌||◌, List, [], ◌∷◌, ◌++◌, Result, ok,
  throw, Bytes, ◌==◌, if◌then◌else◌,
}
use pq_async.Connection.{
  Connection, Call, Env, Exception, M, open_connection, begin_transaction, commit_transaction,
}
use pq_async.Connection.WorkLock.{reserve_and_lock_work, unlock_work}
use pq_async.Script.{Strings, is_copy_stdin, split_queries}

-- `ExecStatusType`
pub data Status : Type 0 where
  empty_query command_ok tuples_ok copy_out copy_in bad_response nonfatal_error : Status
  fatal_error copy_both single_tuple : Status

-- The values that libpq gives the names.
unfoldable pub status_number : Status → ℕ
status_number empty_query = 0
status_number command_ok = 1
status_number tuples_ok = 2
status_number copy_out = 3
status_number copy_in = 4
status_number bad_response = 5
status_number nonfatal_error = 6
status_number fatal_error = 7
status_number copy_both = 8
status_number single_tuple = 9

-- The answers of libpq to one query or one text of data.
pub record Answer : Type 0 where
  pub status : Status
  -- `PQputCopyData` and `PQputCopyEnd` do not return -1
  pub put_ok : Bool
  pub end_ok : Bool

-- What goes to libpq: `PQexec` of a query, `PQputCopyData`, `PQputCopyEnd`, a call on the handle
-- by the connection, `PQsetnonblocking`.
pub data Sent : Type 0 where
  runs puts : Bytes → Sent
  ends : Sent
  calls : Call → Sent
  sets_nonblocking : Bool → Sent

pub data Error : Type 0 where
  put_failed end_failed : Error
  query_failed : Status → Error
  connection_failed : Exception → Error

pub record Db : Type 0 where
  pub conn : Connection
  -- `_lock` is set
  pub has_lock : Bool
  -- `PQisnonblocking(conn) == 1`
  pub nonblocking : Bool

abbrev pub Outcome : Type 0
Outcome = Result Error (Unit {0}) × (Db × List Sent)

-- The statuses after which the loop goes on.
unfoldable pub is_accepted : Status → Bool
is_accepted command_ok = true
is_accepted tuples_ok = true
is_accepted empty_query = true
is_accepted nonfatal_error = true
is_accepted _ = false

-- `(result_status & PGRES_COPY_IN) == PGRES_COPY_IN`
unfoldable pub has_copy_in_bit : Status → Bool
unfolding status_number
has_copy_in_bit status = status_number status / 4 % 2 == 1

unfoldable pub check_status : Status → List Sent → Result Error Bool × List Sent
unfolding is_accepted
check_status status sent =
    if is_accepted status then (ok false, sent) else (throw (query_failed status), sent)

-- Oldest first.
abbrev pub oldest_first : List Call → List Sent → List Sent
oldest_first [] later = later
oldest_first (k ∷ earlier) later = oldest_first earlier (calls k ∷ later)

-- A method of the connection, called by the database.
unfoldable pub in_conn : M (Unit {0}) → Db → Outcome
in_conn m db =
    let r = m (record { self = db.conn; calls = [] }) in
    (
      elim r.0 [ ok a ↦ ok a | throw e ↦ throw (connection_failed e) ],
      (record db { conn = r.1.self }, oldest_first r.1.calls []),
    )

-- One step after another; an error ends them.
abbrev pub then_do : Outcome → (Db → Outcome) → Outcome
then_do (throw e, s) next = (throw e, s)
then_do (ok a, s) next = let r = next s.0 in (r.0, (r.1.0, s.1 ++ r.1.1))

-- A new `connection_lock_t`, which ends again if the connection does not open.
unfoldable pub take_lock : Env → Db → Outcome
unfolding in_conn
take_lock env db = then_do (in_conn (reserve_and_lock_work env) db) (λ d.
    let r = in_conn (open_connection env) d in
    elim r.0 [
      | ok a ↦ (ok tt, (record (r.1.0) { has_lock = true }, r.1.1))
      | throw e ↦ (throw e, ((in_conn (unlock_work env) r.1.0).1.0, r.1.1))
    ])

-- `begin`
unfoldable pub begin : Env → Db → Outcome
unfolding take_lock in_conn
begin env db =
    then_do (if db.has_lock then (ok tt, (db, [])) else take_lock env db)
      (in_conn (begin_transaction env))

-- `commit`; the lock of the transaction has no other owner.
unfoldable pub commit : Env → Db → Outcome
unfolding in_conn
commit env db = then_do (in_conn (commit_transaction env) db) (λ d.
    if d.has_lock
    then in_conn (unlock_work env) (record d { has_lock = false })
    else (ok tt, (d, [])))

module _ (strings : Strings) where
  -- One round of the loop: the `in_copy_mode` that it leaves, or the error.
  unfoldable pub exec_query : Bool → Bytes → Answer → Result Error Bool × List Sent
  unfolding has_copy_in_bit check_status
  exec_query false qry a =
      if has_copy_in_bit a.status && is_copy_stdin strings qry
      then (ok true, runs qry ∷ [])
      else check_status a.status (runs qry ∷ [])
  exec_query true qry a =
      if not a.put_ok
      then (throw put_failed, puts qry ∷ [])
      else if not a.end_ok
      then (throw end_failed, puts qry ∷ ends ∷ [])
      else check_status a.status (puts qry ∷ ends ∷ [])

  -- The loop, with the number of the round, by which libpq's answers are given.
  unfoldable pub exec_loop :
      (ℕ → Answer) → ℕ → Bool → List Bytes → Result Error (Unit {0}) × List Sent
  unfolding exec_query
  exec_loop answers n in_copy [] = (ok tt, [])
  exec_loop answers n in_copy (qry ∷ queries) =
      let r = exec_query in_copy qry (answers n) in
      elim r.0 [
        | throw e ↦ (throw e, r.1)
        | ok c ↦ let rest = exec_loop answers (suc n) c queries in (rest.0, r.1 ++ rest.1)
      ]

  unfoldable pub exec_queries : (ℕ → Answer) → Env → Env → Bytes → Db → Outcome
  unfolding begin commit exec_loop
  exec_queries answers at_begin at_commit sql db =
      let local_trans = not db.conn.is_in_transaction in
      let r = then_do (if local_trans then begin at_begin db else (ok tt, (db, []))) (λ d.
        let ran = exec_loop answers 0 false (split_queries strings sql) in
        then_do (ran.0, (d, ran.1))
          (λ d'. if local_trans then commit at_commit d' else (ok tt, (d', [])))) in
      if db.nonblocking
      then (r.0, (r.1.0, sets_nonblocking false ∷ (r.1.1 ++ (sets_nonblocking true ∷ []))))
      else r
