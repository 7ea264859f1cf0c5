-- ===== src/Task/Commands.antt =====
-- A query, a prepare or a prepared query from its first run to its last.
use pq_async.Common.{
  ℕ, ◌-◌, ◌≡◌, suc, refl, sym, ap, get_elem?, length, ◌∙◌, Bool, true, false, List, [], ◌∷◌, ◌++◌,
  map, Option, some, ok, throw, arith, if◌then◌else◌, ◌≢◌, ◌⊎◌,
}
use pq_async.Task.{
  CommandType, query, prepare, query_prepared, cancel, sent, Task, Answers, send_failed,
  no_command_in_progress, cancel_failed, Effect, sends, cancels, activates, gives, fails,
  set_cancel, run_task, requeue, drive, last_result, run_now,
}

abbrev pub is_command : CommandType → Bool
is_command query = true
is_command prepare = true
is_command query_prepared = true
is_command _ = false

-- libpq has read input each time, and was busy.
abbrev pub AreBusy : List Answers → Type 0
AreBusy [] = Unit {0}
AreBusy (a ∷ as') = (a.consume_ok ≡ true) × (a.busy ≡ true) × AreBusy as'

abbrev pub delivered : List ℕ → List Effect
delivered = map (λ r. gives (some r))

-- The task waits for its results.
abbrev waiting : Task → Task
waiting t = record t { cmd_type = sent; has_ev = true; completed = false }

run_first :
    (t : Task) (a : Answers)
    → is_command t.cmd_type ≡ true
    → t.has_cb ≡ true
    → t.completed ≡ false
    → a.send_ok ≡ true
    → run_task a t ≡ (waiting t, sends t.cmd_type ∷ [])
unfolding run_task
run_first t a k c n s = ground arith

drive_on :
    (t u : Task) (es : List Effect) (a : Answers) (later : List Answers)
    → run_task a t ≡ (u, es)
    → requeue u ≡ (true, [])
    → drive (a ∷ later) t ≡ ((drive later u).0, es ++ (drive later u).1)
unfolding drive
drive_on t u es a later r q = rw (r, q)

drive_off :
    (t u : Task) (es : List Effect) (a : Answers) (later : List Answers)
    → run_task a t ≡ (u, es)
    → requeue u ≡ (false, [])
    → drive (a ∷ later) t ≡ (u, es)
unfolding drive
drive_off t u es a later r q = rw (r, q)

drive-waiting :
    (t : Task) (waits : List Answers) (a : Answers) (later : List Answers)
    → t.has_cb ≡ true
    → AreBusy waits
    → a.consume_ok ≡ true
    → a.busy ≡ false
    → drive (waits ++ (a ∷ later)) (waiting t)
      ≡ (record (waiting t) { completed = true }, delivered a.results)
drive-waiting t [] a later c w k b =
    drive_off (waiting t) (record (waiting t) { completed = true }) (delivered a.results) a later
      (unfold run_task in ground arith) (unfold requeue in refl)
drive-waiting t (x ∷ waits) a later c w k b =
    drive_on (waiting t) (waiting t) [] x (waits ++ (a ∷ later)) (unfold run_task in ground arith)
      (unfold requeue in refl)
    ∙ drive-waiting t waits a later c w.2 k b

-- A command that libpq accepts is sent once; the task then waits, however often it is run while
-- libpq is busy; and when libpq is ready the callback gets every result, in order and once, and the
-- task is completed and does not run again.
pub drive_command :
    (t : Task) (first : Answers) (waits : List Answers) (a : Answers) (later : List Answers)
    → is_command t.cmd_type ≡ true
    → t.has_cb ≡ true
    → t.completed ≡ false
    → first.send_ok ≡ true
    → AreBusy waits
    → a.consume_ok ≡ true
    → a.busy ≡ false
    → drive (first ∷ (waits ++ (a ∷ later))) t ≡ (
      record t { cmd_type = sent; has_ev = true; completed = true },
      sends t.cmd_type ∷ delivered a.results,
    )
drive_command t first waits a later k c n s w r b =
    drive_on t (waiting t) (sends t.cmd_type ∷ []) first (waits ++ (a ∷ later))
      (run_first t first k c n s) (unfold requeue in refl)
    ∙ rw (drive-waiting t waits a later c w r b)

-- libpq refuses the command each time.
abbrev pub Refuse : List Answers → Type 0
Refuse [] = Unit {0}
Refuse (a ∷ as') = (a.send_ok ≡ false) × Refuse as'

abbrev pub errors : List Answers → List Effect
errors [] = []
errors (a ∷ as') = fails send_failed ∷ errors as'

-- A command that libpq refuses is never completed: each time that the queue runs the task the
-- callback gets the same error anew, and the task stays as it was, at the front of the queue.
pub drive_refused :
    (t : Task) (answers : List Answers)
    → is_command t.cmd_type ≡ true
    → t.has_cb ≡ true
    → t.completed ≡ false
    → Refuse answers
    → drive answers t ≡ (t, errors answers)
drive_refused t [] k c n r = unfold drive in refl
drive_refused t (a ∷ answers) k c n r =
    drive_on t t (fails send_failed ∷ []) a answers (unfold run_task in ground arith)
      (unfold requeue in ground arith)
    ∙ rw (drive_refused t answers k c n r.1)

-- `cancel` is refused with no command in progress. With one, the next run asks the server to
-- cancel, if there is a handle for it, and the task waits for its results as before; a failure goes
-- to the callback, and the task will try again.
pub set_cancel_lem :
    (t : Task) (a : Answers)
    → t.has_cb ≡ true
    → ((t.cmd_type ≡ sent)
        × (t.completed ≡ false)
        × (set_cancel t ≡ ok (record t { cmd_type = cancel }, activates ∷ []))
        × (run_task a (record t { cmd_type = cancel }) ≡ (
            if a.has_cancel
            then (if a.cancel_ok
                then (t, cancels ∷ [])
                else (record t { cmd_type = cancel }, fails cancel_failed ∷ []))
            else (t, []))))
      ⊎ (((t.cmd_type ≢ sent) ⊎ (t.completed ≡ true))
          × (set_cancel t ≡ throw no_command_in_progress))
unfolding set_cancel run_task
set_cancel_lem t a c = ground arith

run_now_command :
    (t : Task) (a : Answers)
    → is_command t.cmd_type ≡ true
    → run_now a t ≡ (
        if a.send_ok
        then ok (
          (record t { cmd_type = sent; has_ev = true; completed = true }, sends t.cmd_type ∷ []),
          last_result Option.none a.results,
        )
        else throw send_failed)
unfolding run_now
run_now_command t a k = ground arith

-- The results end with the last.
last_result-last :
    (last : Option ℕ) (r : ℕ) (rs : List ℕ)
    → last_result last (r ∷ rs) ≡ get_elem? (r ∷ rs) (length rs)
unfolding last_result
last_result-last last r [] = refl
last_result-last last r (s ∷ rs) = last_result-last (some r) s rs

last_result_lem : (rs : List ℕ) → last_result Option.none rs ≡ get_elem? rs (length rs - 1)
last_result_lem [] = unfold last_result in refl
last_result_lem (r ∷ rs) =
    last_result-last Option.none r rs ∙ ap (get_elem? (r ∷ rs)) (one_less (length rs))
  where
    one_less : (n : ℕ) → n ≡ suc n - 1
    one_less n = omega arith

-- The synchronous run of a command agrees with the run by the queue: it leaves the same task, it
-- sends the same command, and it returns that of the results that the callback gets which has the
-- highest index, or none where there are none; and it throws where libpq refuses the command.
pub run_now-drive :
    (t : Task) (first : Answers) (waits : List Answers) (a : Answers) (later : List Answers)
    → is_command t.cmd_type ≡ true
    → t.has_cb ≡ true
    → t.completed ≡ false
    → first.send_ok ≡ true
    → AreBusy waits
    → a.consume_ok ≡ true
    → a.busy ≡ false
    → let queued = drive (first ∷ (waits ++ (a ∷ later))) t in
      ((a.send_ok ≡ true)
        × (run_now a t
            ≡ ok ((queued.0, sends t.cmd_type ∷ []), get_elem? a.results (length a.results - 1)))
        × (queued.1 ≡ sends t.cmd_type ∷ delivered a.results))
      ⊎ ((a.send_ok ≡ false) × (run_now a t ≡ throw send_failed))
run_now-drive t first waits a later k c n s w r b =
    rw (drive_command t first waits a later k c n s w r b, sym (last_result_lem a.results))
      (ground (arith, run_now_command t a k))
