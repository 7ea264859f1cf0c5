-- ===== src/Task/Readers.antt =====
-- `reader_connection_task`: the rows of a query one at a time.
use pq_async.Common.{
  ℕ, ◌≡◌, refl, Bool, true, false, not, List, [], ◌∷◌, ◌++◌, map, Option, some, Result, ok, throw,
  arith, if◌then◌else◌,
}
use pq_async.Task.{
  CommandType, none, connect, query, prepare, query_prepared, cancel, sent, Task, Answers, Error,
  consume_failed, single_row_failed, sends, gives, fails, Step, then_sent, caught, send, requeue,
}
use pq_async.Task.Commands.{is_command}

-- `PQsetSingleRowMode` behind a command, and the mark that it is sent. What the command did before
-- an error of the mode stays done.
unfoldable pub then_single_row : Answers → Task → Result Error Step → Step
then_single_row a t (throw e) = (t, fails e ∷ [])
then_single_row a t (ok (u, es)) =
    if a.single_row_ok
    then (record u { cmd_type = sent }, es)
    else (u, es ++ (fails single_row_failed ∷ []))

-- `PQgetResult`
unfoldable pub next_result : List ℕ → Option ℕ
next_result [] = Option.none
next_result (r ∷ rs) = some r

unfoldable pub is_null : Option ℕ → Bool
is_null Option.none = true
is_null (some r) = false

-- One result for the callback; the null that ends them completes the task.
unfoldable pub receive_one : Answers → Task → Result Error Step
unfolding next_result is_null
receive_one a t =
    if not a.consume_ok
    then throw consume_failed
    else if a.busy
    then ok (t, [])
    else ok (
      (if is_null (next_result a.results) then record t { completed = true } else t),
      gives (next_result a.results) ∷ [],
    )

-- The handler of a command of the task; `cancel` is marked as sent and nothing else.
unfoldable pub read_command : CommandType → Answers → Task → Step
unfolding then_single_row receive_one send
read_command none a t = (t, [])
read_command query a t = then_single_row a t (send query a t)
read_command prepare a t = then_single_row a t (send prepare a t)
read_command query_prepared a t = then_single_row a t (send query_prepared a t)
read_command cancel a t = (record t { cmd_type = sent }, [])
read_command connect a t = then_single_row a t (ok (t, []))
read_command sent a t = caught t (receive_one a t)

-- `run_task` of the reader
unfoldable pub read_task : Answers → Task → Step
unfolding read_command
read_task a t = read_command t.cmd_type a t

unfoldable pub drive_reader : List Answers → Task → Step
drive_reader [] t = (t, [])
drive_reader (a ∷ rest) t =
    let later = drive_reader rest (read_task a t).0 in
    let again = requeue (read_task a t).0 in
    if again.0 then (later.0, (read_task a t).1 ++ (again.1 ++ later.1)) else read_task a t

-- The command of the reader's `run_now`, whose errors reach the caller; `cancel` and `connect` are
-- not sent.
unfoldable pub read_start : CommandType → Answers → Task → Result Error Step
unfolding send
read_start query a t = send query a t
read_start prepare a t = send prepare a t
read_start query_prepared a t = send query_prepared a t
read_start _ a t = ok (t, [])

unfoldable pub single_row_or_throw : Answers → Result Error Step → Result Error Step
single_row_or_throw a (throw e) = throw e
single_row_or_throw a (ok s) = if a.single_row_ok then then_sent (ok s) else throw single_row_failed

-- One result of `PQgetResult`; a null completes the task.
unfoldable pub read_result : Answers → Result Error Step → Result Error (Step × Option ℕ)
unfolding next_result is_null
read_result a (throw e) = throw e
read_result a (ok (t, es)) = ok (
  (if is_null (next_result a.results) then (record t { completed = true }, es) else (t, es)),
  next_result a.results,
)

-- `run_now` of the reader
unfoldable pub read_now : Answers → Task → Result Error (Step × Option ℕ)
unfolding read_start single_row_or_throw read_result
read_now a t = elim t.cmd_type [
  | none ↦ ok ((t, []), Option.none)
  | sent ↦ read_result a (ok (t, []))
  | k ↦ read_result a (single_row_or_throw a (read_start k a t))
]

-- The answers in which libpq is ready and has a row, with any number in which it is busy between
-- them; `rows` are the rows in order.
pub data Rows : List Answers → List ℕ → Type 0 where
  over : Rows [] []
  wait :
      {a : Answers} {answers : List Answers} {rows : List ℕ}
      → a.consume_ok ≡ true
      → a.busy ≡ true
      → Rows answers rows
      → Rows (a ∷ answers) rows
  row :
      {a : Answers} {answers : List Answers} {rows : List ℕ} (r : ℕ) (rest : List ℕ)
      → a.consume_ok ≡ true
      → a.busy ≡ false
      → a.results ≡ r ∷ rest
      → Rows answers rows
      → Rows (a ∷ answers) (r ∷ rows)

abbrev reading : Task → Task
reading t = record t { cmd_type = sent; has_ev = true; completed = false }

-- Whether the reader asks the queue to run it again, without effects.
reading_again : (t : Task) → requeue (reading t) ≡ (true, [])
unfolding requeue
reading_again t = refl

drive_reading :
    {answers : List Answers} {rows : List ℕ} (t : Task) (a : Answers) (later : List Answers)
    → Rows answers rows
    → a.consume_ok ≡ true
    → a.busy ≡ false
    → a.results ≡ []
    → drive_reader (answers ++ (a ∷ later)) (reading t) ≡ (
      record (reading t) { completed = true },
      map (λ r. gives (some r)) rows ++ gives Option.none ∷ [],
    )
unfolding drive_reader
drive_reading t a later over c b e =
    let last : read_task a (reading t)
        ≡ (record (reading t) { completed = true }, gives Option.none ∷ []) =
      unfold read_task in ground arith in
    let stop : requeue (record (reading t) { completed = true }) ≡ (false, []) =
      unfold requeue in refl in
    rw (last, stop)
drive_reading t a later (wait {a = x} {answers} {rows} c' b' rest) c b e =
    let idle : read_task x (reading t) ≡ (reading t, []) = unfold read_task in ground arith in
    rw (idle, reading_again t, drive_reading t a later rest c b e)
drive_reading t a later (row {a = x} {answers} {rows} r others c' b' e' rest) c b e =
    let one : read_task x (reading t) ≡ (reading t, gives (some r) ∷ []) =
      unfold read_task in ground arith in
    rw (one, reading_again t, drive_reading t a later rest c b e)

-- A reader whose command libpq accepts gives its callback the rows in order, one for each run in
-- which libpq is ready, then one null, and is completed; it waits without effect while libpq is
-- busy.
pub drive_reader-Rows :
    {answers : List Answers} {rows : List ℕ} (t : Task) (first a : Answers) (later : List Answers)
    → is_command t.cmd_type ≡ true
    → t.completed ≡ false
    → first.send_ok ≡ true
    → first.single_row_ok ≡ true
    → Rows answers rows
    → a.consume_ok ≡ true
    → a.busy ≡ false
    → a.results ≡ []
    → drive_reader (first ∷ (answers ++ (a ∷ later))) t ≡ (
      record t { cmd_type = sent; has_ev = true; completed = true },
      sends t.cmd_type ∷ (map (λ r. gives (some r)) rows ++ gives Option.none ∷ []),
    )
unfolding drive_reader
drive_reader-Rows t first a later k n s m rows c b e =
    let sends_it : read_task first t ≡ (reading t, sends t.cmd_type ∷ []) =
      unfold read_task in ground arith in
    rw (sends_it, reading_again t, drive_reading t a later rows c b e)
