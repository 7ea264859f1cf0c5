-- ===== src/LargeObject/Steps.antt =====
-- src/data_large_object.cpp: the steps of an operation, and what it does to the object alone.
use pq_async.Common.{
  ℕ, ◌≡◌, refl, ap, ◌∙◌, sym, subst, Bool, true, false, Option, none, some, Result, ok, throw,
  if◌then◌else◌, arith,
}
use pq_async.Connection.{
  Env, open_connection, begin_transaction, commit_transaction, rollback_transaction, start_work,
  stop_work,
}
use pq_async.Connection.WorkLock.{lock_work, unlock_work, reserve_and_lock_work}
use pq_async.Exec.{Db, Outcome, in_conn, take_lock, begin, commit}
use pq_async.LargeObject.{
  LargeObject, large_object, LoError, already_opened, closed, must_be_closed, server_failed, opens,
  closes, unlinks, proceed, called, State, Answers, Step, LoMode, Operation, opened, rollback,
  open_for_now, conn_lock, unlocking, and_then, opened_by,
}

abbrev pub is_some : Option ℕ → Bool
is_some none = false
is_some (some n) = true

-- A server that does what the database asks.
pub record IsUp (env : Env) : Type 0 where
  pub status : env.status_ok ≡ true
  pub command : env.command_ok ≡ true

pub record AreUp (a : Answers) : Type 0 where
  pub open_up : IsUp a.at_open
  pub lock_up : IsUp a.at_lock
  pub begin_up : IsUp a.at_begin
  pub end_up : IsUp a.at_end
  pub unlock_up : IsUp a.at_unlock

-- The database is in a transaction of its own, or in none, and no work is running.
pub record Rests (inside : Bool) (running : ℕ) (db : Db) : Type 0 where
  pub transaction : db.conn.is_in_transaction ≡ inside
  pub locked : db.has_lock ≡ inside
  pub work : db.conn.running ≡ running
  pub connected : db.conn.has_conn ≡ true

-- A call of the database succeeds and leaves it so.
pub record Leaves (inside : Bool) (running : ℕ) (r : Outcome) : Type 0 where
  pub succeeds : r.0 ≡ ok tt
  pub rests : Rests inside running r.1.0

pub conn_lock-Leaves :
    (b : Bool) (a : Answers) (db : Db) → Rests b 0 db → Leaves b 1 (conn_lock a db)
unfolding in_conn lock_work start_work
conn_lock-Leaves b a db r = record {
  succeeds = ground arith;
  rests = record {
    transaction = ground arith;
    locked = ground arith;
    work = ground arith;
    connected = ground arith;
  };
}

pub begin-Leaves :
    (env : Env) (db : Db) → IsUp env → Rests false 1 db → Leaves true 1 (begin env db)
unfolding begin take_lock in_conn reserve_and_lock_work open_connection begin_transaction
begin-Leaves env db u r = record {
  succeeds = ground arith;
  rests = record {
    transaction = ground arith;
    locked = ground arith;
    work = ground arith;
    connected = ground arith;
  };
}

pub commit-Leaves :
    (env : Env) (db : Db) → IsUp env → Rests true 1 db → Leaves false 0 (commit env db)
unfolding commit in_conn commit_transaction unlock_work
commit-Leaves env db u r = record {
  succeeds = ground arith;
  rests = record {
    transaction = ground arith;
    locked = ground arith;
    work = ground arith;
    connected = ground arith;
  };
}

pub rollback-Leaves :
    (env : Env) (db : Db) → IsUp env → Rests true 1 db → Leaves false 0 (rollback env db)
unfolding rollback in_conn rollback_transaction unlock_work
rollback-Leaves env db u r = record {
  succeeds = ground arith;
  rests = record {
    transaction = ground arith;
    locked = ground arith;
    work = ground arith;
    connected = ground arith;
  };
}

pub open_for_now-Leaves :
    (env : Env) (db : Db) → IsUp env → Rests false 0 db → Leaves false 0 (open_for_now env db)
unfolding open_for_now take_lock in_conn reserve_and_lock_work open_connection unlock_work
open_for_now-Leaves env db u r = record {
  succeeds = ground arith;
  rests = record {
    transaction = ground arith;
    locked = ground arith;
    work = ground arith;
    connected = ground arith;
  };
}

-- What an operation on an object alone is, with no database: the object is open or not, and libpq
-- answers or fails.
abbrev pub opening : LoMode → Option ℕ → LargeObject → Result LoError ℕ × LargeObject
opening m none o = (throw server_failed, record o { fd = none })
opening m (some n) o = (ok 0, opened_by m n)

abbrev pub using : Option ℕ → LargeObject → Result LoError ℕ × LargeObject
using none o = (throw server_failed, o)
using (some n) o = (ok n, o)

abbrev pub closing : Option ℕ → Result LoError ℕ × LargeObject
closing none = (throw server_failed, large_object)
closing (some n) = (ok 0, large_object)

unfoldable pub on_object : Operation → Option ℕ → LargeObject → Result LoError ℕ × LargeObject
on_object (opens m) lo o = if opened o then (throw already_opened, o) else opening m lo o
on_object closes lo o = if opened o then closing lo else (ok 0, o)
on_object unlinks lo o = if opened o then (throw must_be_closed, o) else (ok 0, o)
on_object _ lo o = if opened o then using lo o else (throw closed, o)

-- The database is in a transaction, and holds its lock, exactly while the object is open; no work
-- is left running, and only an open object has a descriptor.
pub record IsConsistent (s : State) : Type 0 where
  pub transaction : s.db.conn.is_in_transaction ≡ opened s.object
  pub locked : s.db.has_lock ≡ opened s.object
  pub work : s.db.conn.running ≡ 0
  pub connected : s.db.conn.has_conn ≡ true
  pub descriptor : is_some s.object.fd ≡ opened s.object

-- An operation does to the object what it does without a database.
pub record Agrees (v : Result LoError ℕ × LargeObject) (r : Step) : Type 0 where
  pub result : r.0 ≡ v.0
  pub object : r.1.object ≡ v.1
  pub consistent : IsConsistent r.1

pub rests : (b : Bool) (s : State) → IsConsistent s → opened s.object ≡ b → Rests b 0 s.db
rests b s c e = record {
  transaction = c.transaction ∙ e;
  locked = c.locked ∙ e;
  work = c.work;
  connected = c.connected;
}

unlock-Rests :
    (b : Bool) (n : ℕ) (env : Env) (db : Db)
    → Rests b n db
    → Rests b 0 (in_conn (unlock_work env) db).1.0
unfolding in_conn unlock_work stop_work
unlock-Rests b n env db r = record {
  transaction = r.transaction;
  locked = r.locked;
  work = refl;
  connected = r.connected;
}

-- The end of an operation, after which the lock is released.
pub finished :
    (b : Bool) (n : ℕ) (a : Answers) (v : Result LoError ℕ × LargeObject) (r : Step)
    → r.0 ≡ v.0
    → r.1.object ≡ v.1
    → Rests b n r.1.db
    → opened v.1 ≡ b
    → is_some v.1.fd ≡ b
    → Agrees v (unlocking a r)
unfolding unlocking
finished b n a v r e o w h f =
    let u = unlock-Rests b n a.at_unlock r.1.db w in
    let p = ap opened o ∙ h in
    record {
      result = e;
      object = o;
      consistent = record {
        transaction = u.transaction ∙ sym p;
        locked = u.locked ∙ sym p;
        work = u.work;
        connected = u.connected;
        descriptor = ap (λ (x : LargeObject). is_some x.fd) o ∙ (f ∙ sym p);
      };
    }

-- A call of the database that succeeds.
pub and_then-Leaves :
    (b : Bool) (n : ℕ) (s : State) (f : Db → Outcome) (next : State → Step)
    → Leaves b n (f s.db)
    → and_then s f next ≡ next (called s (f s.db))
unfolding and_then
and_then-Leaves b n s f next l = ap (λ x. proceed x (called s (f s.db)) next) l.succeeds

pub after :
    (b : Bool) (n : ℕ) (v : Result LoError ℕ × LargeObject) (s : State) (f : Db → Outcome)
    (next : State → Step)
    → Leaves b n (f s.db)
    → Agrees v (next (called s (f s.db)))
    → Agrees v (and_then s f next)
after b n v s f next l h = subst (Agrees v) (sym (and_then-Leaves b n s f next l)) h

pub unchanged : (s : State) (r : Result LoError ℕ) → IsConsistent s → Agrees (r, s.object) (r, s)
unchanged s r c = record { result = refl; object = refl; consistent = c }
