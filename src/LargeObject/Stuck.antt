-- ===== src/LargeObject/Stuck.antt =====
-- src/data_large_object.cpp: a COMMIT that fails when an object is closed.
use pq_async.Common.{◌≡◌, true, false, some, throw, arith, ℕ}
use pq_async.Connection.{
  commit_transaction, start_work, stop_work, server_error, already_in_transaction,
  begin_transaction,
}
use pq_async.Connection.WorkLock.{lock_work, unlock_work}
use pq_async.Exec.{connection_failed, in_conn, commit, begin}
use pq_async.LargeObject.{
  State, Answers, LoMode, database_failed, large_object, opened, unlocking, and_then, lo_closed,
  close, open_object, open_for_now,
}
use pq_async.LargeObject.Steps.{IsConsistent}

-- Where COMMIT fails, closing an object throws the error of the server and leaves the object
-- closed, but the database in its transaction with its lock held; and the object cannot be opened
-- again, whatever libpq answers then, as the database is still in a transaction.
pub close_commit_fails :
    (a : Answers) (s : State) (n : ℕ)
    → IsConsistent s
    → opened s.object ≡ true
    → a.lo ≡ some n
    → a.at_end.command_ok ≡ false
    → let t = (close a s).1 in
      ((close a s).0 ≡ throw (database_failed (connection_failed server_error)))
      × (t.object ≡ large_object)
      × (t.db.conn.is_in_transaction ≡ true)
      × (t.db.has_lock ≡ true)
      × ((m : LoMode) (later : Answers)
          → (open_object m later t).0
            ≡ throw (database_failed (connection_failed already_in_transaction)))
unfolding close and_then unlocking lo_closed in_conn lock_work unlock_work start_work stop_work
    commit commit_transaction open_object open_for_now begin begin_transaction opened
close_commit_fails a s n c o l e =
    (ground arith, ground arith, ground arith, ground arith, λ m later. ground arith)
