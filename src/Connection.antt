-- ===== src/Connection.antt =====
-- The class `connection` of include/pq-async/data_connection_pool.h, with `lock`, `release` and
-- `is_dead` of src/data_connection_pool.cpp.
--
-- A method is a step on a `Session`: the members of the object and the calls that it has made on
-- its libpq handle. What libpq and the clock answer during one method is its argument `Env`; a
-- method asks each at most once. A throw keeps what was done before it, as in the source.
-- `_sock_fd` and `_pool`, which no method reads, the text of errors and `PQclear` are left out.
pub mod Transaction
pub mod Reservation
pub mod WorkLock
use pq_async.Common.{
  ℕ, ◌+◌, ◌*◌, ◌<◌, Bool, true, false, not, ◌&&◌, ◌||◌, List, [], ◌∷◌, Option, none, some, Bytes,
  Result, ok, throw, ltb, ◌==◌, if◌then◌else◌,
}

pub record Connection : Type 0 where
  pub res : ℕ
  pub running : ℕ
  pub id : Bytes
  pub connection_string : Bytes
  pub is_in_transaction : Bool
  -- `_conn != NULL`
  pub has_conn : Bool
  -- the database that `_owner` points to
  pub owner : Option ℕ
  pub last_modification_date : ℕ

-- The SQL that the class sends by `PQexec`.
pub data Command : Type 0 where
  begin commit rollback : Command
  savepoint release_savepoint rollback_to_savepoint : Bytes → Command

-- One call on the handle: a command with its success, a new handle, or `PQfinish`.
pub data Call : Type 0 where
  exec : Command → Bool → Call
  connect finish : Call

pub record Env : Type 0 where
  -- `system_clock::now()`
  pub now : ℕ
  -- `PQstatus(_conn) == CONNECTION_OK`, of the handle held when the method is entered
  pub status_ok : Bool
  -- the same, of the handle that `PQconnectdb` returns
  pub connect_ok : Bool
  -- `PQsetnonblocking(_conn, 1) == 0`
  pub nonblocking_ok : Bool
  -- `PQresultStatus(PQexec(..)) == PGRES_COMMAND_OK`
  pub command_ok : Bool

pub data Exception : Type 0 where
  server_error not_non_blocking already_in_transaction not_in_transaction : Exception
  already_locked : Exception

-- The newest call stands first.
pub record Session : Type 0 where
  pub self : Connection
  pub calls : List Call

abbrev pub M : Type 0 → Type 0
M A = Session → Result Exception A × Session

infixl 5 ◌>>=◌ ◌>>◌
abbrev pub ◌>>=◌ : {A B : Type 0} → M A → (A → M B) → M B
◌>>=◌ m f s = let (r, s') = m s in elim r [ ok a ↦ f a s' | throw e ↦ (throw e, s') ]

abbrev pub ◌>>◌ : {B : Type 0} → M (Unit {0}) → M B → M B
m >> k = m >>= λ _. k

abbrev pub return : {A : Type 0} → A → M A
return a s = (ok a, s)

abbrev pub throws : {A : Type 0} → Exception → M A
throws e s = (throw e, s)

abbrev pub this : M Connection
this s = (ok s.self, s)

abbrev pub store : Connection → M (Unit {0})
store c s = (ok tt, record s { self = c })

abbrev pub call : Call → M (Unit {0})
call k s = (ok tt, record s { calls = k ∷ s.calls })

-- The constructor, with `num_to_str(++s_next_id)` given as `id`.
unfoldable pub connection : ℕ → Bytes → Bytes → Connection
connection now id connection_string = record {
  res = 0;
  running = 0;
  id = id;
  connection_string = connection_string;
  is_in_transaction = false;
  has_conn = false;
  owner = none;
  last_modification_date = now;
}

unfoldable pub touch : Env → M (Unit {0})
touch env = do c ← this; store (record c { last_modification_date = env.now })

unfoldable pub reserve : Env → M (Unit {0})
unfolding touch
reserve env = do c ← this; store (record c { running = 2 }); touch env

unfoldable pub start_work : Env → M (Unit {0})
unfolding touch
start_work env = do
  c ← this
  store (if c.running == 0 || c.running == 2 then record c { running = 1 } else c)
  touch env

unfoldable pub stop_work : Env → M (Unit {0})
unfolding touch
stop_work env = do c ← this; store (record c { running = 0 }); touch env

unfoldable pub can_be_stolen : Connection → Bool
can_be_stolen c = not c.is_in_transaction && c.running == 0

unfoldable pub lock : Env → M Bool
unfolding stop_work
lock env = do
  c ← this
  if c.res == 0 then (do store (record c { res = 1 }); stop_work env; return true) else return false

-- `PQexec`, and whether it answers `PGRES_COMMAND_OK`.
unfoldable pub pq_exec : Env → Command → M Bool
pq_exec env sql = do call (exec sql env.command_ok); return env.command_ok

unfoldable pub release : Env → M (Unit {0})
unfolding stop_work pq_exec
release env = do
  c ← this
  store (record c { owner = none })
  (if c.is_in_transaction
      then (do
        done ← pq_exec env rollback
        if done
            then (do d ← this; store (record d { is_in_transaction = false }))
            else throws server_error)
      else return tt)
  d ← this
  store (if ltb 0 d.res then record d { res = 0 } else d)
  stop_work env

-- Nanoseconds; the date is `now() - seconds(-15)`.
unfoldable pub is_dead : ℕ → Connection → Bool
is_dead now c =
    if c.is_in_transaction || ltb 0 c.res
    then false
    else ltb c.last_modification_date (now + 15 * 1_000_000_000)

unfoldable pub close_connection : Env → M (Unit {0})
unfolding touch
close_connection env = do
  touch env
  c ← this
  if not c.has_conn
      then return tt
      else do call finish; store (record c { has_conn = false; is_in_transaction = false })

-- `PQconnectdb` and what follows it.
unfoldable pub connect_new : Env → M (Unit {0})
connect_new env = do
  c ← this
  call connect
  store (record c { has_conn = true })
  if env.connect_ok
      then (if env.nonblocking_ok then return tt else throws not_non_blocking)
      else (do call finish; store (record c { has_conn = false }); throws server_error)

unfoldable pub open_connection : Env → M (Unit {0})
unfolding touch close_connection connect_new
open_connection env = do
  touch env
  c ← this
  (if c.has_conn && not env.status_ok then close_connection env else return tt)
  d ← this
  if d.has_conn then return tt else connect_new env

-- A command that must succeed, and the flag that it leaves behind.
unfoldable pub exec_or_throw : Env → Command → (Connection → Connection) → M (Unit {0})
unfolding pq_exec
exec_or_throw env sql after = do
  done ← pq_exec env sql
  if done then (do c ← this; store (after c)) else throws server_error

unfoldable pub begin_transaction : Env → M (Unit {0})
unfolding open_connection exec_or_throw
begin_transaction env = do
  c ← this
  if c.is_in_transaction then throws already_in_transaction else do
    open_connection env
    exec_or_throw env begin (λ d. record d { is_in_transaction = true })

-- `touch()`, the guard "Not in a transaction!" and one command.
unfoldable pub in_transaction_exec : Env → Command → (Connection → Connection) → M (Unit {0})
unfolding touch exec_or_throw
in_transaction_exec env sql after = do
  touch env
  c ← this
  if not c.is_in_transaction then throws not_in_transaction else exec_or_throw env sql after

unfoldable pub commit_transaction : Env → M (Unit {0})
unfolding in_transaction_exec
commit_transaction env =
    in_transaction_exec env commit (λ c. record c { is_in_transaction = false })

unfoldable pub rollback_transaction : Env → M (Unit {0})
unfolding in_transaction_exec
rollback_transaction env =
    in_transaction_exec env rollback (λ c. record c { is_in_transaction = false })

unfoldable pub set_savepoint : Env → Bytes → M (Unit {0})
unfolding in_transaction_exec
set_savepoint env name = in_transaction_exec env (savepoint name) (λ c. c)

unfoldable pub drop_savepoint : Env → Bytes → M (Unit {0})
unfolding in_transaction_exec
drop_savepoint env name = in_transaction_exec env (release_savepoint name) (λ c. c)

-- Unlike the others, `rollback_savepoint` returns normally when the command fails.
unfoldable pub rollback_savepoint : Env → Bytes → M (Unit {0})
unfolding touch pq_exec
rollback_savepoint env name = do
  touch env
  c ← this
  if not c.is_in_transaction
      then throws not_in_transaction
      else do done ← pq_exec env (rollback_to_savepoint name); return tt
