-- ===== src/Tests/Tasks.antt =====
-- include/pq-async/data_connection_pool.h: the tasks.
use pq_async.Common.{
  ℕ, ◌≡◌, ◌⊎◌, ◌≢◌, refl, true, false, List, [], ◌∷◌, Option, some, ok, throw, if◌then◌else◌, arith,
  count_if,
}
use pq_async.Task.{
  connect, query, cancel, sent, Task, new_task, assigned, all_busy, Answers, no_command_in_progress,
  cancel_failed, send_failed, request_time_out, sends, activates, gives, fails, lock_fails,
  set_command, set_connect, set_cancel, run_task, run_now, drive,
}
use pq_async.Task.Commands.{delivered, drive_command, drive_refused, set_cancel_lem, run_now-drive}
use pq_async.Task.Connects.{is_lock_answer, IsRequest, drive_request, drive_request_time_out}
use pq_async.Task.Readers.{drive_reader, over, wait, row, drive_reader-Rows}

abbrev ready : List ℕ → Answers
ready rs = record {
  now = 20;
  assignment = assigned;
  send_ok = true;
  has_cancel = true;
  cancel_ok = false;
  single_row_ok = true;
  consume_ok = true;
  busy = false;
  results = rs;
}

abbrev not_ready : Answers
not_ready = record (ready []) { assignment = all_busy; busy = true; send_ok = false }

abbrev querying : Task
querying = record new_task { cmd_type = query; format = 1 }

abbrev waiting_task : Task
waiting_task = record querying { cmd_type = sent; has_ev = true }

abbrev requesting : Task
requesting = record new_task { cmd_type = connect; has_cb = false; has_lock_cb = true; format = 20 }

requesting-IsRequest : IsRequest requesting
unfolding new_task
requesting-IsRequest = record { command = refl; callback = refl; open_yet = refl }

set_command_query : set_command query 1 new_task ≡ (querying, activates ∷ [])
unfolding set_command new_task
set_command_query = refl

set_connect_late : (set_connect 15 5 new_task).0.format ≡ 20
unfolding set_connect new_task
set_connect_late = refl

drive_command_example : drive (ready [] ∷ not_ready ∷ ready (4 ∷ 5 ∷ []) ∷ []) querying ≡ (
  record querying { cmd_type = sent; has_ev = true; completed = true },
  sends query ∷ delivered (4 ∷ 5 ∷ []),
)
unfolding new_task
drive_command_example =
    drive_command querying (ready []) (not_ready ∷ []) (ready (4 ∷ 5 ∷ [])) [] refl refl refl refl
      (refl, refl, tt) refl refl

drive_refused_run :
    drive (not_ready ∷ not_ready ∷ []) querying
    ≡ (querying, fails send_failed ∷ fails send_failed ∷ [])
unfolding new_task
drive_refused_run =
    drive_refused querying (not_ready ∷ not_ready ∷ []) refl refl refl (refl, (refl, tt))

set_cancel_lem_run :
    ((waiting_task.cmd_type ≡ sent)
      × (waiting_task.completed ≡ false)
      × (set_cancel waiting_task ≡ ok (record waiting_task { cmd_type = cancel }, activates ∷ []))
      × (run_task (ready []) (record waiting_task { cmd_type = cancel })
          ≡ (record waiting_task { cmd_type = cancel }, fails cancel_failed ∷ [])))
    ⊎ (((waiting_task.cmd_type ≢ sent) ⊎ (waiting_task.completed ≡ true))
        × (set_cancel waiting_task ≡ throw no_command_in_progress))
unfolding new_task
set_cancel_lem_run = set_cancel_lem waiting_task (ready []) refl

run_now-drive_example :
    let queued = drive (ready [] ∷ not_ready ∷ ready (4 ∷ 5 ∷ []) ∷ []) querying in
    ((true ≡ true)
      × (run_now (ready (4 ∷ 5 ∷ [])) querying ≡ ok ((queued.0, sends query ∷ []), some 5))
      × (queued.1 ≡ sends query ∷ delivered (4 ∷ 5 ∷ [])))
    ⊎ ((true ≡ false) × (run_now (ready (4 ∷ 5 ∷ [])) querying ≡ throw send_failed))
unfolding new_task
run_now-drive_example =
    run_now-drive querying (ready []) (not_ready ∷ []) (ready (4 ∷ 5 ∷ [])) [] refl refl refl refl
      (refl, refl, tt) refl refl

drive_request_example :
    count_if is_lock_answer (drive (not_ready ∷ ready [] ∷ []) requesting).1
    ≡ (if (drive (not_ready ∷ ready [] ∷ []) requesting).0.completed then 1 else 0)
drive_request_example = drive_request requesting (not_ready ∷ ready [] ∷ []) requesting-IsRequest

drive_request_time_out_example :
    drive (not_ready ∷ record (ready []) { now = 21 } ∷ []) requesting
    ≡ (record requesting { completed = true }, activates ∷ lock_fails request_time_out ∷ [])
unfolding new_task
drive_request_time_out_example =
    drive_request_time_out requesting (not_ready ∷ []) (record (ready []) { now = 21 }) []
      requesting-IsRequest (omega arith, refl, tt) (omega arith)

drive_reader-Rows_example :
    drive_reader (ready [] ∷ not_ready ∷ ready (4 ∷ []) ∷ ready [] ∷ []) querying ≡ (
      record querying { cmd_type = sent; has_ev = true; completed = true },
      sends query ∷ gives (some 4) ∷ gives Option.none ∷ [],
    )
unfolding new_task
drive_reader-Rows_example =
    drive_reader-Rows querying (ready []) (ready []) [] refl refl refl refl
      (wait {a = not_ready} refl refl (row {a = ready (4 ∷ [])} 4 [] refl refl refl over)) refl refl
      refl
