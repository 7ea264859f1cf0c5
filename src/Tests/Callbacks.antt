-- ===== src/Tests/Callbacks.antt =====
-- include/pq-async/database.h: transactions with callbacks.
use pq_async.Common.{true, false, List, [], ◌∷◌, ◌≡◌}
use pq_async.Async.{Database, begin, commit, rollback, calls, runs, refused, Event, happen_all}
use pq_async.Async.Callbacks.{open_transaction, happen_all-end_fails}

abbrev idle : Database
idle = record { in_transaction = false; has_lock = false; strand = []; called = [] }

-- A begin, which libpq refuses once, and a commit, too early.
abbrev early : List Event
early = calls 1 begin ∷ calls 2 commit ∷ runs 0 true ∷ runs 1 true ∷ refused 0 ∷ runs 0 true ∷ []

happen_all-end_fails_run :
    (happen_all
        (calls 1 commit ∷ runs 0 false ∷ calls 2 begin ∷ runs 0 true ∷ [])
        (open_transaction true [])
      ≡ open_transaction false ((2, false) ∷ (1, false) ∷ []))
    × (happen_all
          (calls 1 rollback ∷ runs 0 false ∷ calls 2 begin ∷ runs 0 true ∷ [])
          (open_transaction true [])
        ≡ open_transaction false ((2, false) ∷ (1, false) ∷ []))
happen_all-end_fails_run = happen_all-end_fails 1 2 true true []
