-- ===== src/Task/Connects.antt =====
-- A request for a connection, and the one answer that it gets.
use pq_async.Common.{
  ℕ, ◌≤◌, ◌<◌, ◌≡◌, refl, Bool, true, false, List, [], ◌∷◌, ◌++◌, arith, count_if, if◌then◌else◌,
  ◌⊎◌, inl, inr,
}
use pq_async.Task.{
  connect, Task, Answers, all_busy, request_time_out, Effect, activates, gives_lock, lock_fails,
  run_task, requeue, drive,
}

-- A call of `_lock_cb`.
abbrev pub is_lock_answer : Effect → Bool
is_lock_answer gives_lock = true
is_lock_answer (lock_fails e) = true
is_lock_answer _ = false

-- A request that waits for its connection.
pub record IsRequest (t : Task) : Type 0 where
  pub command : t.cmd_type ≡ connect
  pub callback : t.has_lock_cb ≡ true
  pub open_yet : t.completed ≡ false

-- One run: an answer ends the request, and without one the request is as it was.
run_request :
    (t : Task) (a : Answers)
    → IsRequest t
    → ((run_task a t).0 ≡ record t { completed = true })
        × (count_if is_lock_answer (run_task a t).1 ≡ 1)
      ⊎ (run_task a t ≡ (t, []))
unfolding run_task
run_request t a r = ground arith

request_again : (t : Task) → IsRequest t → requeue t ≡ (true, activates ∷ [])
unfolding requeue
request_again t r = ground arith

request_done : (t : Task) → requeue (record t { completed = true }) ≡ (false, [])
unfolding requeue
request_done t = refl

-- However often the queue runs a request, and whatever the pool and the clock answer, the callback
-- gets one answer if the request is completed in the end and none if it is not.
pub drive_request :
    (t : Task) (answers : List Answers)
    → IsRequest t
    → count_if is_lock_answer (drive answers t).1 ≡ (if (drive answers t).0.completed then 1 else 0)
unfolding drive
drive_request t [] r = ground arith
drive_request t (a ∷ later) r = elim (run_request t a r) [
  | inl (ended, one) ↦ rw (ended, request_done t, drive) one
  | inr again ↦ rw (again, request_again t r, drive) (omega (arith, drive_request t later r))
]

-- The pool has no connection to give, at a time when the request is still good.
abbrev pub AllBusy : ℕ → List Answers → Type 0
AllBusy deadline [] = Unit {0}
AllBusy deadline (a ∷ later) =
    (a.now ≤ deadline) × (a.assignment ≡ all_busy) × AllBusy deadline later

abbrev pub activations : List Answers → List Effect
activations [] = []
activations (a ∷ later) = activates ∷ activations later

-- A request that finds the pool exhausted activates its queue and is tried again, as often as need
-- be; on its first run after its time it fails, whatever the pool could give then.
pub drive_request_time_out :
    (t : Task) (tries : List Answers) (a : Answers) (later : List Answers)
    → IsRequest t
    → AllBusy t.format tries
    → t.format < a.now
    → drive (tries ++ (a ∷ later)) t
      ≡ (record t { completed = true }, activations tries ++ lock_fails request_time_out ∷ [])
unfolding drive
drive_request_time_out t [] a later r b h =
    let late : run_task a t ≡ (record t { completed = true }, lock_fails request_time_out ∷ []) =
      unfold run_task in ground arith in
    rw (late, request_done t)
drive_request_time_out t (x ∷ tries) a later r b h =
    let early : run_task x t ≡ (t, []) = unfold run_task in ground arith in
    rw (early, request_again t r, drive_request_time_out t tries a later r b.2 h)
