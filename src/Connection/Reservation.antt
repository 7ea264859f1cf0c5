-- ===== src/Connection/Reservation.antt =====
-- The flag `_res`: who holds a connection, and how it comes back.
use pq_async.Common.{
  ℕ, ◌≤◌, ◌<◌, ◌≡◌, refl, ◌∙◌, Bool, true, false, List, [], ◌∷◌, none, arith, ok, throw, not, ◌&&◌,
  ◌==◌, ◌⊎◌,
}
use pq_async.Connection.{
  Connection, Env, server_error, Session, touch, reserve, start_work, stop_work, lock, release,
  close_connection, open_connection, begin_transaction, commit_transaction, rollback_transaction,
  set_savepoint, drop_savepoint, rollback_savepoint, can_be_stolen, is_dead,
}
use pq_async.Connection.Transaction.{Method, does_open, does_begin, does_release, run, run_all}

abbrev pub is_release : Method → Bool
is_release does_release = true
is_release _ = false

-- No method of the history is `release`.
abbrev pub HasNoRelease : List (Env × Method) → Type 0
HasNoRelease [] = Unit {0}
HasNoRelease ((env, m) ∷ ms) = (is_release m ≡ false) × HasNoRelease ms

open_connection-res : (env : Env) (s : Session) → (open_connection env s).1.self.res ≡ s.self.res
unfolding open_connection
open_connection-res env s = ground arith

begin_transaction-res :
    (env : Env) (s : Session) → (begin_transaction env s).1.self.res ≡ s.self.res
unfolding begin_transaction
begin_transaction-res env s = ground arith

run-res :
    (env : Env) (m : Method) (s : Session)
    → is_release m ≡ false
    → 0 < s.self.res
    → (run env m s).self.res ≡ s.self.res
unfolding run touch reserve start_work stop_work lock close_connection commit_transaction
    rollback_transaction set_savepoint drop_savepoint rollback_savepoint
run-res env does_open s k h = open_connection-res env s
run-res env does_begin s k h = begin_transaction-res env s
run-res env does_release s k h = cc
run-res env _ s k h = ground arith

run_all-res :
    (ms : List (Env × Method)) (s : Session)
    → HasNoRelease ms
    → 0 < s.self.res
    → (run_all ms s).self.res ≡ s.self.res
unfolding run_all
run_all-res [] s k h = refl
run_all-res ((env, m) ∷ ms) s k h =
    let e = run-res env m s k.0 h in run_all-res ms (run env m s) k.1 (omega arith) ∙ e

-- `lock` succeeds exactly on a free connection, and leaves it held with no work running; on a held
-- one it changes nothing.
pub lock_lem :
    (env : Env) (s : Session)
    → ((s.self.res ≡ 0)
        × (lock env s ≡ (
          ok true,
          record s {
            self = record s.self { res = 1; running = 0; last_modification_date = env.now };
          },
        )))
      ⊎ ((0 < s.self.res) × (lock env s ≡ (ok false, s)))
unfolding lock
lock_lem env s = ground arith

-- Mutual exclusion: once `lock` has succeeded, it fails and does nothing for anybody else, after
-- any history of calls of the connection's other methods that has no `release` in it.
pub lock-run_all-lock :
    (first again : Env) (ms : List (Env × Method)) (s : Session)
    → s.self.res ≡ 0
    → HasNoRelease ms
    → let t = run_all ms (lock first s).1 in lock again t ≡ (ok false, t)
unfolding lock
lock-run_all-lock first again ms s free k =
    let t = (lock first s).1 in
    let held : 0 < t.self.res = ground arith in let kept = run_all-res ms t k held in ground arith

-- `release` on every branch. Outside a transaction, or when ROLLBACK succeeds, the connection comes
-- back free, without owner, outside any transaction and with no work running. When ROLLBACK fails
-- it throws, and the connection has no owner but is held and in its transaction as before: it can
-- be neither stolen nor removed as dead at any later time.
pub release_lem :
    (env : Env) (later : ℕ) (s : Session)
    → let r = release env s in
      ((r.0 ≡ ok tt)
        × (r.1.self.res ≡ 0)
        × (r.1.self.owner ≡ none)
        × (r.1.self.is_in_transaction ≡ false)
        × (r.1.self.running ≡ 0))
      ⊎ ((s.self.is_in_transaction ≡ true)
          × (env.command_ok ≡ false)
          × (r.0 ≡ throw server_error)
          × (r.1.self ≡ record s.self { owner = none })
          × (can_be_stolen r.1.self ≡ false)
          × (is_dead later r.1.self ≡ false))
unfolding release can_be_stolen is_dead
release_lem env later s = ground arith

-- The fifteen seconds of `is_dead` are added to the present where they should be taken from it: a
-- connection last touched no later than now is dead exactly when it is outside a transaction and
-- not held, however recently it was used.
pub is_dead-not_late :
    (now : ℕ) (c : Connection)
    → c.last_modification_date ≤ now
    → is_dead now c ≡ (not c.is_in_transaction && c.res == 0)
unfolding is_dead
is_dead-not_late now c h = ground arith
