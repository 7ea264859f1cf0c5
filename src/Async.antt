-- ===== src/Async.antt =====
-- The calls of `database_t` with a callback: `begin`, `commit`, `rollback` and those for savepoints
-- of include/pq-async/database.h.
--
-- What a call puts on the queue is a job; a job is run with the answer of the connection or of
-- libpq. Jobs are run in any order, as a task that waits goes behind the others. The database keeps
-- its connection, callbacks make no calls themselves, and the times of `touch` are left out.
pub mod Callbacks
use pq_async.Common.{
  ℕ, Bool, true, false, ◌||◌, List, [], ◌∷◌, ◌++◌, Bytes, Option, some, none, get_elem?, erase_idx,
  if◌then◌else◌,
}

pub data Request : Type 0 where
  begin commit rollback : Request
  set_savepoint release_savepoint rollback_savepoint : Bytes → Request

-- `refuses` is the callback bound to an error; `opens` is the `open_connection` of `begin`, with or
-- without the lock that is there; `executes` is a command with the callback behind it. Each has the
-- number of the call that it is for.
pub data Job : Type 0 where
  refuses : ℕ → Job
  opens : ℕ → Bool → Job
  executes : ℕ → Request → Job

pub record Database : Type 0 where
  -- `_conn->in_transaction()`
  pub in_transaction : Bool
  -- `_lock` is set
  pub has_lock : Bool
  pub strand : List Job
  -- the callbacks that were called, the latest first: the number of the call, and no error
  pub called : List (ℕ × Bool)

abbrev pub push_back : Job → Database → Database
push_back job d = record d { strand = d.strand ++ (job ∷ []) }

abbrev pub call_back : ℕ → Bool → Database → Database
call_back id fine d = record d { called = (id, fine) ∷ d.called }

abbrev pub begin_call : ℕ → Database → Database
begin_call id d =
    if d.in_transaction then push_back (refuses id) d else push_back (opens id d.has_lock) d

-- The others need a transaction.
abbrev pub command_call : ℕ → Request → Database → Database
command_call id r d =
    if d.in_transaction then push_back (executes id r) d else push_back (refuses id) d

abbrev pub commit_call : ℕ → Database → Database
commit_call id d = command_call id commit d

abbrev pub rollback_call : ℕ → Database → Database
rollback_call id d = command_call id rollback d

abbrev pub set_savepoint_call : ℕ → Bytes → Database → Database
set_savepoint_call id name d = command_call id (set_savepoint name) d

abbrev pub release_savepoint_call : ℕ → Bytes → Database → Database
release_savepoint_call id name d = command_call id (release_savepoint name) d

abbrev pub rollback_savepoint_call : ℕ → Bytes → Database → Database
rollback_savepoint_call id name d = command_call id (rollback_savepoint name) d

-- A call of one of the methods.
unfoldable pub request : ℕ → Request → Database → Database
request id begin d = begin_call id d
request id commit d = commit_call id d
request id rollback d = rollback_call id d
request id (set_savepoint name) d = set_savepoint_call id name d
request id (release_savepoint name) d = release_savepoint_call id name d
request id (rollback_savepoint name) d = rollback_savepoint_call id name d

-- The callback that each method gives to `execute`.
unfoldable pub executed : ℕ → Request → Bool → Database → Database
executed id begin true d = call_back id true (record d { in_transaction = true })
executed id begin false d = call_back id false (record d { has_lock = false })
executed id commit true d =
    call_back id true (record d { in_transaction = false; has_lock = false })
executed id commit false d = call_back id false (record d { has_lock = false })
executed id rollback true d =
    call_back id true (record d { in_transaction = false; has_lock = false })
executed id rollback false d = call_back id false (record d { has_lock = false })
executed id (set_savepoint name) fine d = call_back id fine d
executed id (release_savepoint name) fine d = call_back id fine d
executed id (rollback_savepoint name) fine d = call_back id fine d

-- A job, with the answer to it.
unfoldable pub run_job : Job → Bool → Database → Database
unfolding executed
run_job (refuses id) fine d = call_back id false d
run_job (opens id held) fine d =
    if held || fine
    then push_back (executes id begin) (record d { has_lock = true })
    else call_back id false d
run_job (executes id r) fine d = executed id r fine d

-- libpq refuses to send the command of a job: its callback is called with the error, and the task
-- was not completed, so that the job stays where it is and is run again.
unfoldable pub refuse_job : Job → Database → Database
unfolding executed
refuse_job (refuses id) d = d
refuse_job (opens id held) d = d
refuse_job (executes id r) d = executed id r false d

-- The caller makes a call, or the queue runs the job at a place to its end, or runs it where libpq
-- refuses its command.
pub data Event : Type 0 where
  calls : ℕ → Request → Event
  runs : ℕ → Bool → Event
  refused : ℕ → Event

unfoldable pub happen : Event → Database → Database
unfolding request run_job refuse_job
happen (calls id r) d = request id r d
happen (runs i fine) d = elim (get_elem? d.strand i) [
  | none ↦ d
  | some job ↦ run_job job fine (record d { strand = erase_idx d.strand i })
]
happen (refused i) d = elim (get_elem? d.strand i) [ none ↦ d | some job ↦ refuse_job job d ]

unfoldable pub happen_all : List Event → Database → Database
unfolding happen
happen_all [] d = d
happen_all (e ∷ es) d = happen_all es (happen e d)
