-- ===== src/Tests/Execs.antt =====
-- `exec_queries` of src/database.cpp.
use pq_async.Common.{
  ℕ, zero, suc, ◌-◌, ◌≡◌, refl, true, false, [], ◌∷◌, ◌++◌, ok, throw, some, Bytes, codes, bytes_eq,
  take, drop, length,
}
use pq_async.Connection.{exec, Command, Env}
use pq_async.Script.{Strings, split_queries, is_copy_stdin}
use pq_async.Exec.{
  Status, command_ok, tuples_ok, copy_in, fatal_error, Answer, runs, puts, ends, calls,
  query_failed, Db, is_accepted, exec_loop, exec_queries,
}
use pq_async.Exec.Runs.{Ran, over, done, copied}
use pq_async.Exec.Transaction.{IsIdle, IsUp, blocking}
use pq_async.Exec.Scripts.{
  exec_queries-Ran, exec_queries-fails, exec_queries-refused_copy, exec_queries-inside,
}

-- For texts in lower case without white space at their ends.
abbrev lower_case : Strings
lower_case = record {
  trim = λ s. s;
  replace_substring_copy = λ text from to. text;
  istarts_with = λ text prefix. bytes_eq (take (length prefix) text) prefix;
  iends_with = λ text suffix. bytes_eq (drop (length text - length suffix) text) suffix;
}

abbrev up : Env
up = record {
  now = 9;
  status_ok = true;
  connect_ok = true;
  nonblocking_ok = true;
  command_ok = true;
}

up-IsUp : IsUp up
up-IsUp = record { status = refl; command = refl }

abbrev open_db : Db
open_db = record {
  conn = record {
    res = 1;
    running = 0;
    id = codes "1";
    connection_string = [];
    is_in_transaction = false;
    has_conn = true;
    owner = some 1;
    last_modification_date = 5;
  };
  has_lock = false;
  nonblocking = true;
}

open_db-IsIdle : IsIdle open_db
open_db-IsIdle = record { outside = refl; opened = refl }

abbrev busy_db : Db
busy_db = record open_db { conn = record (open_db.conn) { is_in_transaction = true } }

abbrev answer : Status → Answer
answer status = record { status = status; put_ok = true; end_ok = true }

-- A query, a COPY, its data, and a query.
abbrev answers : ℕ → Answer
answers (suc zero) = answer copy_in
answers _ = answer command_ok

abbrev refusing : ℕ → Answer
refusing (suc zero) = answer fatal_error
refusing _ = answer tuples_ok

abbrev script : Bytes
script = codes "a;copy t from stdin;1\n\\.b"

script_queries :
    split_queries lower_case script
    ≡ codes "a" ∷ codes "copy t from stdin" ∷ codes "1" ∷ codes "b" ∷ []
unfolding split_queries bytes_eq
script_queries = refl

script-Ran : Ran lower_case answers 0 4 (split_queries lower_case script) (
    runs (codes "a")
    ∷ runs (codes "copy t from stdin")
    ∷ puts (codes "1")
    ∷ ends
    ∷ runs (codes "b")
    ∷ [])
unfolding split_queries bytes_eq is_copy_stdin
script-Ran = done refl (copied refl refl refl refl refl (done refl over))

exec_queries-Ran_example :
    let r = exec_queries lower_case answers up up script open_db in
    (r.0 ≡ ok tt)
    × (r.1.0.conn.is_in_transaction ≡ false)
    × (r.1.0.has_lock ≡ false)
    × (r.1.1
        ≡ blocking true (
            calls (exec Command.begin true)
            ∷ ((runs (codes "a")
                  ∷ runs (codes "copy t from stdin")
                  ∷ puts (codes "1")
                  ∷ ends
                  ∷ runs (codes "b")
                  ∷ [])
                ++ (calls (exec Command.commit true) ∷ []))))
exec_queries-Ran_example =
    exec_queries-Ran lower_case answers up up script open_db open_db-IsIdle up-IsUp up-IsUp
      script-Ran

exec_queries-fails_example :
    let r = exec_queries lower_case refusing up up (codes "a;b;c;") open_db in
    (r.0 ≡ throw (query_failed fatal_error))
    × (r.1.0.conn.is_in_transaction ≡ true)
    × (r.1.0.has_lock ≡ true)
    × (r.1.1
        ≡ blocking true (
            calls (exec Command.begin true) ∷ ((runs (codes "a") ∷ []) ++ (runs (codes "b") ∷ []))))
exec_queries-fails_example =
    exec_queries-fails lower_case refusing up up (codes "a;b;c;") open_db (codes "a" ∷ [])
      (codes "c" ∷ []) (codes "b") open_db-IsIdle up-IsUp (unfold split_queries bytes_eq in refl)
      (done refl over) (unfold is_copy_stdin bytes_eq in refl) (unfold is_accepted in refl)

exec_queries-refused_copy_run :
    let r = exec_queries lower_case refusing up up (codes "a;copy t from stdin;") open_db in
    (r.0 ≡ ok tt)
    × (r.1.0.conn.is_in_transaction ≡ false)
    × (r.1.1
        ≡ blocking true (
            calls (exec Command.begin true)
            ∷ (((runs (codes "a") ∷ []) ++ (runs (codes "copy t from stdin") ∷ []))
                ++ (calls (exec Command.commit true) ∷ []))))
exec_queries-refused_copy_run =
    exec_queries-refused_copy lower_case refusing up up (codes "a;copy t from stdin;") open_db
      (codes "a" ∷ []) (codes "copy t from stdin") open_db-IsIdle up-IsUp up-IsUp
      (unfold split_queries bytes_eq in refl) (done refl over)
      (unfold is_copy_stdin bytes_eq in refl) refl

exec_queries-inside_run :
    let ran = exec_loop lower_case refusing 0 false (split_queries lower_case (codes "a;b;")) in
    exec_queries lower_case refusing up up (codes "a;b;") busy_db
    ≡ (ran.0, (busy_db, blocking true ran.1))
exec_queries-inside_run = exec_queries-inside lower_case refusing up up (codes "a;b;") busy_db refl
