-- ===== src/Task.antt =====
-- `connection_task_t` and `reader_connection_task` of include/pq-async/data_connection_pool.h, with
-- `_connect` of src/data_connection_pool.cpp: one command on its way through the event queue.
--
-- A method is a step on the members of the task, with the effects that it has in order. What libpq,
-- the pool and the clock answer during one call is its argument `Answers`. The callbacks are taken
-- not to throw. The text of a command and its parameters go to libpq as they are and are left out.
pub mod Commands
pub mod Connects
pub mod Readers
use pq_async.Common.{
  ℕ, suc, Bool, true, false, not, ◌&&◌, ◌||◌, List, [], ◌∷◌, ◌++◌, map, Option, some, Result, ok,
  throw, ltb, if◌then◌else◌,
}

pub data CommandType : Type 0 where
  none connect query prepare query_prepared cancel sent : CommandType

pub record Task : Type 0 where
  pub cmd_type : CommandType
  pub completed : Bool
  -- `_ev != nullptr`
  pub has_ev : Bool
  pub has_cb : Bool
  pub has_lock_cb : Bool
  -- the format of the result, or the time at which a connection request ends
  pub format : ℕ

-- How taking a connection from the pool and opening it ends: with a connection, with
-- `connection_pool_assign_exception`, or with another exception.
pub data Assignment : Type 0 where
  assigned all_busy failed : Assignment

pub record Answers : Type 0 where
  pub now : ℕ
  pub assignment : Assignment
  -- `PQsendQueryParams`, `PQsendPrepare` or `PQsendQueryPrepared`
  pub send_ok : Bool
  -- `PQgetCancel` gives a handle, and `PQcancel` succeeds on it
  pub has_cancel : Bool
  pub cancel_ok : Bool
  pub single_row_ok : Bool
  -- `PQconsumeInput`, and `PQisBusy` after it
  pub consume_ok : Bool
  pub busy : Bool
  -- the results that `PQgetResult` returns, one after the other, before a null
  pub results : List ℕ

pub data Error : Type 0 where
  request_time_out assign_failed send_failed cancel_failed single_row_failed consume_failed : Error
  no_command_in_progress : Error

pub data Effect : Type 0 where
  -- a command that libpq accepted
  sends : CommandType → Effect
  cancels activates : Effect
  -- `_cb(nullptr, r)`; no result is a null
  gives : Option ℕ → Effect
  gives_lock : Effect
  -- `_cb` and `_lock_cb` with an error
  fails lock_fails : Error → Effect

abbrev pub Step : Type 0
Step = Task × List Effect

-- The constructor of a task with a callback for results.
unfoldable pub new_task : Task
new_task = record {
  cmd_type = none;
  completed = false;
  has_ev = false;
  has_cb = true;
  has_lock_cb = false;
  format = 0;
}

-- `send_query`, `send_prepare` and `send_query_prepared`, by the type of the command.
unfoldable pub set_command : CommandType → ℕ → Task → Step
set_command k format t = (record t { cmd_type = k; format = format }, activates ∷ [])

-- `connect`, with the timeout in the clock's unit.
unfoldable pub set_connect : ℕ → ℕ → Task → Step
set_connect now timeout t =
    (record t { cmd_type = connect; format = Prim.Native.Nat.◌+◌ now timeout }, activates ∷ [])

unfoldable pub is_in_progress : CommandType → Bool → Bool
is_in_progress sent completed = not completed
is_in_progress _ completed = false

-- `cancel`
unfoldable pub set_cancel : Task → Result Error Step
unfolding is_in_progress
set_cancel t =
    if is_in_progress t.cmd_type t.completed
    then ok (record t { cmd_type = cancel }, activates ∷ [])
    else throw no_command_in_progress

-- `_connect`
unfoldable pub connect_now : Answers → Task → Step
connect_now a t =
    if ltb t.format a.now
    then (record t { completed = true }, lock_fails request_time_out ∷ [])
    else (elim a.assignment [
      | assigned ↦ (record t { completed = true }, gives_lock ∷ [])
      | all_busy ↦ (t, [])
      | failed ↦ (record t { completed = true }, lock_fails assign_failed ∷ [])
    ])

-- `_send_query`, `_send_prepare` or `_send_query_prepared`; on success there is an event.
unfoldable pub send : CommandType → Answers → Task → Result Error Step
send k a t = if a.send_ok then ok (record t { has_ev = true }, sends k ∷ []) else throw send_failed

-- `_cancel_command`
unfoldable pub cancel_command : Answers → Task → Result Error Step
cancel_command a t =
    if a.has_cancel
    then (if a.cancel_ok then ok (t, cancels ∷ []) else throw cancel_failed)
    else ok (t, [])

-- The handler of `run_task`: the error goes to the callback, and the task stays as it was.
abbrev pub caught : Task → Result Error Step → Step
caught t (ok s) = s
caught t (throw e) = (t, fails e ∷ [])

-- `_cmd_type = command_type::sent`
abbrev pub then_sent : Result Error Step → Result Error Step
then_sent (ok (t, es)) = ok (record t { cmd_type = sent }, es)
then_sent (throw e) = throw e

-- `_consume_data`, and the results when libpq is not busy.
unfoldable pub receive : Answers → Task → Result Error Step
receive a t =
    if not a.consume_ok
    then throw consume_failed
    else if a.busy
    then ok (t, [])
    else ok (record t { completed = true }, map (λ r. gives (some r)) a.results)

unfoldable pub run_command : CommandType → Answers → Task → Step
unfolding connect_now send cancel_command receive
run_command none a t = (t, [])
run_command connect a t = connect_now a t
run_command query a t = caught t (then_sent (send query a t))
run_command prepare a t = caught t (then_sent (send prepare a t))
run_command query_prepared a t = caught t (then_sent (send query_prepared a t))
run_command cancel a t = caught t (then_sent (cancel_command a t))
run_command sent a t = caught t (receive a t)

-- `run_task`
unfoldable pub run_task : Answers → Task → Step
unfolding run_command
run_task a t = if not t.has_cb && not t.has_lock_cb then (t, []) else run_command t.cmd_type a t

-- `requeue`: whether the task goes to the front of the queue again.
unfoldable pub requeue : Task → Bool × List Effect
requeue t =
    if t.completed
    then (false, [])
    else (true, elim t.cmd_type [ connect ↦ activates ∷ [] | _ ↦ [] ])

-- The queue runs a task as long as it asks for it.
unfoldable pub drive : List Answers → Task → Step
drive [] t = (t, [])
drive (a ∷ rest) t =
    let later = drive rest (run_task a t).0 in
    let again = requeue (run_task a t).0 in
    if again.0 then (later.0, (run_task a t).1 ++ (again.1 ++ later.1)) else run_task a t

-- The last of the results, as the loop of `run_now` keeps it.
unfoldable pub last_result : Option ℕ → List ℕ → Option ℕ
last_result last [] = last
last_result last (r ∷ rs) = last_result (some r) rs

-- The command of `run_now`; a `cancel` is marked as sent and nothing else.
unfoldable pub start_now : CommandType → Answers → Task → Result Error Step
unfolding connect_now send
start_now connect a t = then_sent (ok (connect_now a t))
start_now query a t = then_sent (send query a t)
start_now prepare a t = then_sent (send prepare a t)
start_now query_prepared a t = then_sent (send query_prepared a t)
start_now cancel a t = then_sent (ok (t, []))
start_now _ a t = ok (t, [])

unfoldable pub finish_now : Answers → Result Error Step → Result Error (Step × Option ℕ)
unfolding last_result
finish_now a (throw e) = throw e
finish_now a (ok (t, es)) =
    ok ((record t { completed = true }, es), last_result Option.none a.results)

-- `run_now`
unfoldable pub run_now : Answers → Task → Result Error (Step × Option ℕ)
unfolding start_now finish_now
run_now a t =
    let u = record t { has_ev = false } in
    elim t.cmd_type [ none ↦ ok ((u, []), Option.none) | k ↦ finish_now a (start_now k a u) ]
