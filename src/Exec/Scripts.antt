-- ===== src/Exec/Scripts.antt =====
-- `exec_queries` of src/database.cpp: whole scripts.
use pq_async.Common.{
  ℕ, ◌≡◌, refl, ◌∙◌, true, false, List, [], ◌∷◌, ◌++◌, append-nil, ok, throw, Bytes, arith,
}
use pq_async.Connection.{exec, Command, Env}
use pq_async.Script.{Strings, is_copy_stdin, split_queries}
use pq_async.Exec.{
  fatal_error, Answer, Sent, runs, calls, query_failed, Db, is_accepted, has_copy_in_bit,
  status_number, exec_loop, exec_queries,
}
use pq_async.Exec.Runs.{Ran, exec_loop-append, exec_loop-Ran, exec_query-fails, exec_query-copies}
use pq_async.Exec.Transaction.{
  IsIdle, IsUp, blocking, exec_queries-script_steps, around_ok, around_throw,
}

-- Inside a transaction a script neither begins nor ends one: it sends what its loop sends, and
-- the connection stays as it was, in its transaction, if a query fails too.
pub exec_queries-inside :
    (strings : Strings) (answers : ℕ → Answer) (at_begin at_commit : Env) (sql : Bytes) (db : Db)
    → db.conn.is_in_transaction ≡ true
    → let ran = exec_loop strings answers 0 false (split_queries strings sql) in
      exec_queries strings answers at_begin at_commit sql db
      ≡ (ran.0, (db, blocking db.nonblocking ran.1))
unfolding exec_queries
exec_queries-inside strings answers at_begin at_commit sql db i =
    let ran = exec_loop strings answers 0 false (split_queries strings sql) in
    ground (arith, i, append-nil ran.1)

-- A script whose queries are done, and whose COPYs libpq takes, run on an open connection outside
-- of a transaction by a server that does its part, is sent query by query between one BEGIN and one
-- COMMIT, and ends outside of a transaction with its lock given back.
pub exec_queries-Ran :
    (strings : Strings) (answers : ℕ → Answer) (at_begin at_commit : Env) (sql : Bytes) (db : Db)
    {m : ℕ} {sent : List Sent}
    → IsIdle db
    → IsUp at_begin
    → IsUp at_commit
    → Ran strings answers 0 m (split_queries strings sql) sent
    → let r = exec_queries strings answers at_begin at_commit sql db in
      (r.0 ≡ ok tt)
      × (r.1.0.conn.is_in_transaction ≡ false)
      × (r.1.0.has_lock ≡ false)
      × (r.1.1
          ≡ blocking db.nonblocking
              (calls (exec Command.begin true) ∷ (sent ++ (calls (exec Command.commit true) ∷ []))))
exec_queries-Ran strings answers at_begin at_commit sql db {m} {sent} i ub uc ran =
    let all = exec_loop-Ran strings answers ran in
    let r = around_ok strings answers at_begin at_commit sql db i ub uc all in
    rw (exec_queries-script_steps strings answers at_begin at_commit sql db i.outside)
      (r.0, r.1, r.2, rw r.3)

-- Where the script begins its own transaction and libpq refuses a query, which is no COPY, behind
-- some that are done, the error is thrown, the queries behind it are not sent, and nothing ends the
-- transaction: the connection stays in it, with the lock held.
pub exec_queries-fails :
    (strings : Strings) (answers : ℕ → Answer) (at_begin at_commit : Env) (sql : Bytes) (db : Db)
    {m : ℕ} {sent : List Sent} (queries later : List Bytes) (qry : Bytes)
    → IsIdle db
    → IsUp at_begin
    → split_queries strings sql ≡ queries ++ (qry ∷ later)
    → Ran strings answers 0 m queries sent
    → is_copy_stdin strings qry ≡ false
    → is_accepted (answers m).status ≡ false
    → let r = exec_queries strings answers at_begin at_commit sql db in
      (r.0 ≡ throw (query_failed (answers m).status))
      × (r.1.0.conn.is_in_transaction ≡ true)
      × (r.1.0.has_lock ≡ true)
      × (r.1.1
          ≡ blocking db.nonblocking (calls (exec Command.begin true) ∷ (sent ++ (runs qry ∷ []))))
exec_queries-fails strings answers at_begin at_commit sql db {m} {sent} queries later qry i ub split
      ran c f =
    let q = exec_query-fails strings qry (answers m) c f in
    let last : exec_loop strings answers m false (qry ∷ later)
        ≡ (throw (query_failed (answers m).status), runs qry ∷ []) =
      unfold exec_loop in rw (q, exec_loop, q) in
    let all : exec_loop strings answers 0 false (split_queries strings sql)
        ≡ (throw (query_failed (answers m).status), sent ++ (runs qry ∷ [])) =
      rw split (exec_loop-append strings answers ran (qry ∷ later) ∙ rw last) in
    let r = around_throw strings answers at_begin at_commit sql db _ i ub all in
    rw (exec_queries-script_steps strings answers at_begin at_commit sql db i.outside)
      (r.0, r.1, r.2, rw r.3)

-- A COPY that the server refuses with `PGRES_FATAL_ERROR` passes for one that waits for its data:
-- as the last query of a script it throws no error, and the transaction is committed.
pub exec_queries-refused_copy :
    (strings : Strings) (answers : ℕ → Answer) (at_begin at_commit : Env) (sql : Bytes) (db : Db)
    {m : ℕ} {sent : List Sent} (queries : List Bytes) (qry : Bytes)
    → IsIdle db
    → IsUp at_begin
    → IsUp at_commit
    → split_queries strings sql ≡ queries ++ (qry ∷ [])
    → Ran strings answers 0 m queries sent
    → is_copy_stdin strings qry ≡ true
    → (answers m).status ≡ fatal_error
    → let r = exec_queries strings answers at_begin at_commit sql db in
      (r.0 ≡ ok tt)
      × (r.1.0.conn.is_in_transaction ≡ false)
      × (r.1.1
          ≡ blocking db.nonblocking (
              calls (exec Command.begin true)
              ∷ ((sent ++ (runs qry ∷ [])) ++ (calls (exec Command.commit true) ∷ []))))
exec_queries-refused_copy strings answers at_begin at_commit sql db {m} {sent} queries qry i ub uc
      split ran c f =
    let copy_bit : has_copy_in_bit (answers m).status ≡ true =
      rw f (unfold has_copy_in_bit status_number in refl) in
    let q = exec_query-copies strings qry (answers m) c copy_bit in
    let last : exec_loop strings answers m false (qry ∷ []) ≡ (ok tt, runs qry ∷ []) =
      unfold exec_loop in rw (q, exec_loop, q) in
    let all : exec_loop strings answers 0 false (split_queries strings sql)
        ≡ (ok tt, sent ++ (runs qry ∷ [])) =
      rw split (exec_loop-append strings answers ran (qry ∷ []) ∙ rw last) in
    let r = around_ok strings answers at_begin at_commit sql db i ub uc all in
    rw (exec_queries-script_steps strings answers at_begin at_commit sql db i.outside)
      (r.0, r.1, rw r.3)
