-- ===== src/Exec/Transaction.antt =====
-- `begin`, `commit` and `exec_queries` of include/pq-async/database.h and src/database.cpp: the
-- transaction that a script gets of its own.
use pq_async.Common.{
  ℕ, ◌≡◌, refl, Bool, true, false, List, [], ◌∷◌, ◌++◌, ok, throw, Bytes, if◌then◌else◌, arith,
}
use pq_async.Connection.{exec, Command, Env, open_connection, begin_transaction, commit_transaction}
use pq_async.Connection.WorkLock.{reserve_and_lock_work, unlock_work}
use pq_async.Script.{Strings, split_queries}
use pq_async.Exec.{
  Answer, Sent, calls, sets_nonblocking, Error, Db, Outcome, begin, then_do, commit, in_conn,
  take_lock, exec_loop, exec_queries,
}

-- The connection is open, outside of a transaction.
pub record IsIdle (db : Db) : Type 0 where
  pub outside : db.conn.is_in_transaction ≡ false
  pub opened : db.conn.has_conn ≡ true

-- A server that does its part.
pub record IsUp (env : Env) : Type 0 where
  pub status : env.status_ok ≡ true
  pub command : env.command_ok ≡ true

-- `pg_socket_block` around what is sent.
abbrev pub blocking : Bool → List Sent → List Sent
blocking nonblocking sent =
    if nonblocking then sets_nonblocking false ∷ (sent ++ (sets_nonblocking true ∷ [])) else sent

-- In a transaction of the database.
record HasBegun (db : Db) (r : Outcome) : Type 0 where
  succeeds : r.0 ≡ ok tt
  inside : r.1.0.conn.is_in_transaction ≡ true
  locked : r.1.0.has_lock ≡ true
  same_mode : r.1.0.nonblocking ≡ db.nonblocking
  sends : r.1.1 ≡ calls (exec Command.begin true) ∷ []

begin-HasBegun : (env : Env) (db : Db) → IsIdle db → IsUp env → HasBegun db (begin env db)
unfolding begin take_lock in_conn reserve_and_lock_work open_connection begin_transaction
begin-HasBegun env db i u = record {
  succeeds = ground arith;
  inside = ground arith;
  locked = ground arith;
  same_mode = ground arith;
  sends = ground arith;
}

record HasEnded (db : Db) (r : Outcome) : Type 0 where
  succeeds : r.0 ≡ ok tt
  outside : r.1.0.conn.is_in_transaction ≡ false
  unlocked : r.1.0.has_lock ≡ false
  sends : r.1.1 ≡ calls (exec Command.commit true) ∷ []

commit-HasEnded :
    (env : Env) (db : Db)
    → db.conn.is_in_transaction ≡ true
    → db.has_lock ≡ true
    → IsUp env
    → HasEnded db (commit env db)
unfolding commit in_conn commit_transaction unlock_work
commit-HasEnded env db t l u = record {
  succeeds = ground arith;
  outside = ground arith;
  unlocked = ground arith;
  sends = ground arith;
}

-- The steps of `exec_queries` between the two calls of `pg_socket_block`, outside of a transaction.
abbrev pub script_steps : Strings → (ℕ → Answer) → Env → Env → Bytes → Db → Outcome
script_steps strings answers at_begin at_commit sql db = then_do (begin at_begin db) (λ d.
    let ran = exec_loop strings answers 0 false (split_queries strings sql) in
    then_do (ran.0, (d, ran.1)) (λ d'. commit at_commit d'))

pub exec_queries-script_steps :
    (strings : Strings) (answers : ℕ → Answer) (at_begin at_commit : Env) (sql : Bytes) (db : Db)
    → db.conn.is_in_transaction ≡ false
    → let r = script_steps strings answers at_begin at_commit sql db in
      exec_queries strings answers at_begin at_commit sql db
      ≡ (r.0, (r.1.0, blocking db.nonblocking r.1.1))
unfolding exec_queries
exec_queries-script_steps strings answers at_begin at_commit sql db o = ground (arith, o)

then_do-ok :
    (o : Outcome) (next : Db → Outcome)
    → o.0 ≡ ok tt
    → then_do o next ≡ ((next o.1.0).0, ((next o.1.0).1.0, o.1.1 ++ (next o.1.0).1.1))
then_do-ok (ok a, s) next e = refl
then_do-ok (throw x, s) next e = ground arith

-- What `exec_queries` does around a loop without an error, outside of a transaction.
pub around_ok :
    (strings : Strings) (answers : ℕ → Answer) (at_begin at_commit : Env) (sql : Bytes) (db : Db)
    {sent : List Sent}
    → IsIdle db
    → IsUp at_begin
    → IsUp at_commit
    → exec_loop strings answers 0 false (split_queries strings sql) ≡ (ok tt, sent)
    → let r = script_steps strings answers at_begin at_commit sql db in
      (r.0 ≡ ok tt)
      × (r.1.0.conn.is_in_transaction ≡ false)
      × (r.1.0.has_lock ≡ false)
      × (r.1.1
          ≡ calls (exec Command.begin true) ∷ (sent ++ (calls (exec Command.commit true) ∷ [])))
around_ok strings answers at_begin at_commit sql db {sent} i ub uc all =
    let b = begin-HasBegun at_begin db i ub in
    let e = commit-HasEnded at_commit (begin at_begin db).1.0 b.inside b.locked uc in
    rw (all, then_do-ok (begin at_begin db) _ b.succeeds)
      (e.succeeds, e.outside, e.unlocked, rw (b.sends, e.sends))

-- What it does around a loop that throws.
pub around_throw :
    (strings : Strings) (answers : ℕ → Answer) (at_begin at_commit : Env) (sql : Bytes) (db : Db)
    {sent : List Sent} (x : Error)
    → IsIdle db
    → IsUp at_begin
    → exec_loop strings answers 0 false (split_queries strings sql) ≡ (throw x, sent)
    → let r = script_steps strings answers at_begin at_commit sql db in
      (r.0 ≡ throw x)
      × (r.1.0.conn.is_in_transaction ≡ true)
      × (r.1.0.has_lock ≡ true)
      × (r.1.1 ≡ calls (exec Command.begin true) ∷ sent)
around_throw strings answers at_begin at_commit sql db {sent} x i ub all =
    let b = begin-HasBegun at_begin db i ub in
    rw (all, then_do-ok (begin at_begin db) _ b.succeeds) (refl, b.inside, b.locked, rw b.sends)
