-- ===== src/Async/Callbacks.antt =====
-- include/pq-async/database.h: the callbacks of transactions.
use pq_async.Common.{
  ℕ, ◌+◌, Bool, true, false, List, [], ◌∷◌, Option, none, some, get_elem?, count_if, ◌==◌,
  if◌then◌else◌, ◌≡◌, refl,
}
use pq_async.Async.{
  begin, commit, rollback, Job, refuses, opens, executes, Database, request, executed, run_job,
  Event, calls, runs, refused, happen, happen_all,
}

abbrev pub id_of : Job → ℕ
id_of (refuses id) = id
id_of (opens id held) = id
id_of (executes id r) = id

-- How often the callback of a call was called, or waits on the queue, and how often it was given.
abbrev pub answers : ℕ → Database → ℕ
answers id d = count_if (λ c. c.0 == id) d.called + count_if (λ job. id_of job == id) d.strand

abbrev pub is_call : ℕ → Event → Bool
is_call id (calls k r) = k == id
is_call id (runs i fine) = false
is_call id (refused i) = false

abbrev sends : ℕ → Job → Bool
sends id (executes k r) = k == id
sends id _ = false

abbrev sends_any : ℕ → Option Job → Bool
sends_any id none = false
sends_any id (some job) = sends id job

-- In the event libpq refuses to send the command of the call.
abbrev pub is_refusal : ℕ → Event → Database → Bool
is_refusal id (calls k r) d = false
is_refusal id (runs i fine) d = false
is_refusal id (refused i) d = sends_any id (get_elem? d.strand i)

-- How often libpq refuses to send the command of the call.
abbrev pub refusals : ℕ → List Event → Database → ℕ
refusals id [] d = 0
refusals id (e ∷ es) d = (if is_refusal id e d then 1 else 0) + refusals id es (happen e d)

abbrev one : Bool → ℕ
one b = if b then 1 else 0

-- In a transaction, with nothing on the queue.
abbrev pub open_transaction : Bool → List (ℕ × Bool) → Database
open_transaction has_lock called = record {
  in_transaction = true;
  has_lock = has_lock;
  strand = [];
  called = called;
}

-- Where the command COMMIT or ROLLBACK of a transaction fails, the lock is gone but the database
-- stays in its transaction: the callback gets the error, and a begin that follows is refused,
-- whatever is answered to it.
pub happen_all-end_fails :
    (a b : ℕ) (fine has_lock : Bool) (called : List (ℕ × Bool))
    → let start = open_transaction has_lock called in
      let end = open_transaction false ((b, false) ∷ (a, false) ∷ called) in
      (happen_all (calls a commit ∷ runs 0 false ∷ calls b begin ∷ runs 0 fine ∷ []) start ≡ end)
      × (happen_all (calls a rollback ∷ runs 0 false ∷ calls b begin ∷ runs 0 fine ∷ []) start
          ≡ end)
unfolding happen_all happen request run_job executed
happen_all-end_fails a b fine has_lock called = (refl, refl)

-- A begin is checked when it is called and not when it runs: of two that are called before the
-- queue runs, where the connection is opened for both, both are sent, and both callbacks get no
-- error.
happen_all_two_begins :
    (a b : ℕ) (called : List (ℕ × Bool))
    → let start = record (open_transaction false called) { in_transaction = false } in
      happen_all
        (calls a begin ∷ calls b begin ∷ runs 0 true ∷ runs 0 true ∷ runs 0 true ∷ runs 0 true ∷ [])
        start
      ≡ open_transaction true ((b, true) ∷ (a, true) ∷ called)
unfolding happen_all happen request run_job executed
happen_all_two_begins a b called = refl
