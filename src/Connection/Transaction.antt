-- ===== src/Connection/Transaction.antt =====
-- What the calls made so far say of the handle and of the server's transaction, and that the
-- members of `connection` agree with it.
use pq_async.Common.{ℕ, ◌≡◌, refl, Bool, true, false, List, [], ◌∷◌, Bytes, arith}
use pq_async.Connection.{
  Command, begin, commit, rollback, Call, exec, connect, finish, Env, Session, connection, touch,
  reserve, start_work, stop_work, lock, release, close_connection, open_connection,
  begin_transaction, commit_transaction, rollback_transaction, set_savepoint, drop_savepoint,
  rollback_savepoint,
}

-- A handle is held: connected, and not finished since.
abbrev pub holds : List Call → Bool
holds [] = false
holds (connect ∷ _) = true
holds (finish ∷ _) = false
holds (exec _ _ ∷ older) = holds older

-- A transaction is open: BEGIN has succeeded, and neither COMMIT nor ROLLBACK nor the end of the
-- handle came after it.
abbrev pub in_block : List Call → Bool
in_block [] = false
in_block (exec begin true ∷ _) = true
in_block (exec commit true ∷ _) = false
in_block (exec rollback true ∷ _) = false
in_block (connect ∷ _) = false
in_block (finish ∷ _) = false
in_block (exec _ _ ∷ older) = in_block older

-- BEGIN belongs outside a block, every other command inside one.
abbrev pub wants_block : Command → Bool
wants_block begin = false
wants_block _ = true

-- No command without a handle or on the wrong side of a block, no handle lost or finished twice.
abbrev pub IsDisciplined : List Call → Type 0
IsDisciplined [] = Unit {0}
IsDisciplined (exec sql done ∷ older) =
    (holds older ≡ true) × (in_block older ≡ wants_block sql) × IsDisciplined older
IsDisciplined (connect ∷ older) = (holds older ≡ false) × IsDisciplined older
IsDisciplined (finish ∷ older) = (holds older ≡ true) × IsDisciplined older

pub record IsConsistent (s : Session) : Type 0 where
  pub handle : s.self.has_conn ≡ holds s.calls
  pub flag : s.self.is_in_transaction ≡ in_block s.calls
  pub disciplined : IsDisciplined s.calls

-- A block is open only on a handle.
pub in_block-holds : (ks : List Call) → IsDisciplined ks → in_block ks ≡ true → holds ks ≡ true
in_block-holds [] d h = h
in_block-holds (exec sql done ∷ older) d h = d.0
in_block-holds (connect ∷ older) d h = refl
in_block-holds (finish ∷ older) d h = h

pub data Method : Type 0 where
  does_touch does_reserve does_start_work does_stop_work does_lock does_release : Method
  does_open does_close does_begin does_commit does_rollback : Method
  does_set_savepoint does_release_savepoint does_rollback_savepoint : Bytes → Method

-- The session after a call, whether it returned or threw.
unfoldable pub run : Env → Method → Session → Session
run env does_touch s = (touch env s).1
run env does_reserve s = (reserve env s).1
run env does_start_work s = (start_work env s).1
run env does_stop_work s = (stop_work env s).1
run env does_lock s = (lock env s).1
run env does_release s = (release env s).1
run env does_open s = (open_connection env s).1
run env does_close s = (close_connection env s).1
run env does_begin s = (begin_transaction env s).1
run env does_commit s = (commit_transaction env s).1
run env does_rollback s = (rollback_transaction env s).1
run env (does_set_savepoint name) s = (set_savepoint env name s).1
run env (does_release_savepoint name) s = (drop_savepoint env name s).1
run env (does_rollback_savepoint name) s = (rollback_savepoint env name s).1

unfoldable pub run_all : List (Env × Method) → Session → Session
run_all [] s = s
run_all ((env, m) ∷ rest) s = run_all rest (run env m s)

abbrev pub fresh : ℕ → Bytes → Bytes → Session
fresh now id cs = record { self = connection now id cs; calls = [] }

open_connection-IsConsistent :
    (env : Env) (s : Session) → IsConsistent s → IsConsistent (open_connection env s).1
unfolding open_connection
open_connection-IsConsistent env s v = ground (arith, in_block-holds s.calls)

begin_transaction-IsConsistent :
    (env : Env) (s : Session) → IsConsistent s → IsConsistent (begin_transaction env s).1
unfolding begin_transaction
begin_transaction-IsConsistent env s v = ground (arith, in_block-holds s.calls)

release-IsConsistent : (env : Env) (s : Session) → IsConsistent s → IsConsistent (release env s).1
unfolding release
release-IsConsistent env s v = ground (arith, in_block-holds s.calls)

pub run-IsConsistent :
    (env : Env) (m : Method) (s : Session) → IsConsistent s → IsConsistent (run env m s)
unfolding run touch reserve start_work stop_work lock close_connection commit_transaction
    rollback_transaction set_savepoint drop_savepoint rollback_savepoint
run-IsConsistent env does_open s v = open_connection-IsConsistent env s v
run-IsConsistent env does_begin s v = begin_transaction-IsConsistent env s v
run-IsConsistent env does_release s v = release-IsConsistent env s v
run-IsConsistent env _ s v = ground (arith, in_block-holds s.calls)

run_all-IsConsistent :
    (ms : List (Env × Method)) (s : Session) → IsConsistent s → IsConsistent (run_all ms s)
unfolding run_all
run_all-IsConsistent [] s v = v
run_all-IsConsistent ((env, m) ∷ rest) s v =
    run_all-IsConsistent rest (run env m s) (run-IsConsistent env m s v)

-- Whatever methods are called in whatever order, and whatever libpq answers, a connection that
-- starts fresh has `_conn` and `is_in_transaction` as its calls on the handle imply; and no call
-- of it ever used a missing handle, sent BEGIN inside a transaction or another command outside
-- one, lost a handle or finished one twice.
pub run_all-fresh-IsConsistent :
    (ms : List (Env × Method)) (now : ℕ) (id connection_string : Bytes)
    → IsConsistent (run_all ms (fresh now id connection_string))
unfolding connection
run_all-fresh-IsConsistent ms now id cs =
    run_all-IsConsistent ms (fresh now id cs)
      (record { handle = refl; flag = refl; disciplined = tt })
