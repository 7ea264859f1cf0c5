-- ===== src/Tests/Objects.antt =====
-- src/data_large_object.cpp, include/pq-async/data_reader.h: large objects and readers.
use pq_async.Common.{
  ℕ, ◌≡◌, refl, true, false, List, [], ◌∷◌, ◌++◌, map, Option, none, some, ok, throw, Bytes, codes,
  length, ◌+◌,
}
use pq_async.Connection.{Env, server_error, already_in_transaction}
use pq_async.Exec.{Db, connection_failed, single_tuple, tuples_ok}
use pq_async.LargeObject.{
  large_object, State, Answers, Operation, LoMode, read_mode, write_mode, opens, reads, closes,
  unlinks, opened, opened_by, close, open_object, operate_all, database_failed, must_be_closed,
  server_failed,
}
use pq_async.LargeObject.Histories.{AllUp, on_object_all, operate_all-on_object}
use pq_async.LargeObject.Steps.{AreUp, IsConsistent, IsUp, on_object}
use pq_async.LargeObject.Stuck.{close_commit_fails}
use pq_async.Table.{PgResult, has_result, data_row}
use pq_async.Table.Reader.{
  data_reader, IsRow, IsEnd, columns_of, next, next_all, next_all-rows, reader_is_closed,
}

abbrev up : Env
up = record {
  now = 9;
  status_ok = true;
  connect_ok = true;
  nonblocking_ok = true;
  command_ok = true;
}

up-IsUp : IsUp up
up-IsUp = record { status = refl; command = refl }

abbrev answering : Option ℕ → Answers
answering lo = record {
  at_open = up;
  at_lock = up;
  at_begin = up;
  at_end = up;
  at_unlock = up;
  lo = lo;
}

answering-AreUp : (lo : Option ℕ) → AreUp (answering lo)
answering-AreUp lo = record {
  open_up = up-IsUp;
  lock_up = up-IsUp;
  begin_up = up-IsUp;
  end_up = up-IsUp;
  unlock_up = up-IsUp;
}

abbrev idle_db : Db
idle_db = record {
  conn = record {
    res = 1;
    running = 0;
    id = codes "1";
    connection_string = [];
    is_in_transaction = false;
    has_conn = true;
    owner = some 1;
    last_modification_date = 5;
  };
  has_lock = false;
  nonblocking = true;
}

abbrev before : State
before = record { object = large_object; db = idle_db; sent = [] }

before-IsConsistent : IsConsistent before
unfolding opened
before-IsConsistent = record {
  transaction = refl;
  locked = refl;
  work = refl;
  connected = refl;
  descriptor = refl;
}

-- An object that does not open, opens, is read, refuses to be unlinked, and does not close.
abbrev history : List (Operation × Answers)
history =
    (opens read_mode, answering none)
    ∷ (opens read_mode, answering (some 3))
    ∷ (reads, answering (some 10))
    ∷ (unlinks, answering (some 0))
    ∷ (closes, answering none)
    ∷ []

history-AllUp : AllUp history
history-AllUp = (
  answering-AreUp none,
  (
    answering-AreUp (some 3),
    (answering-AreUp (some 10), (answering-AreUp (some 0), (answering-AreUp none, tt))),
  ),
)

operate_all-on_object_example :
    ((operate_all history before).0 ≡ (on_object_all history large_object).0)
    × ((operate_all history before).1.object ≡ (on_object_all history large_object).1)
    × IsConsistent (operate_all history before).1
operate_all-on_object_example =
    operate_all-on_object history before history-AllUp before-IsConsistent

history_results :
    (on_object_all history large_object).0
    ≡ throw server_failed ∷ ok 0 ∷ ok 10 ∷ throw must_be_closed ∷ throw server_failed ∷ []
unfolding on_object_all on_object opened
history_results = refl

abbrev inside : State
inside = record {
  object = opened_by write_mode 3;
  db = record idle_db {
    conn = record (idle_db.conn) { is_in_transaction = true };
    has_lock = true;
  };
  sent = [];
}

inside-IsConsistent : IsConsistent inside
unfolding opened
inside-IsConsistent = record {
  transaction = refl;
  locked = refl;
  work = refl;
  connected = refl;
  descriptor = refl;
}

inside_opened : opened (opened_by write_mode 3) ≡ true
unfolding opened
inside_opened = refl

abbrev no_commit : Answers
no_commit = record (answering (some 0)) { at_end = record up { command_ok = false } }

close_commit_fails_example :
    let t = (close no_commit inside).1 in
    ((close no_commit inside).0 ≡ throw (database_failed (connection_failed server_error)))
    × (t.object ≡ large_object)
    × (t.db.conn.is_in_transaction ≡ true)
    × (t.db.has_lock ≡ true)
    × ((m : LoMode) (later : Answers)
        → (open_object m later t).0
          ≡ throw (database_failed (connection_failed already_in_transaction)))
close_commit_fails_example =
    close_commit_fails no_commit inside 0 inside-IsConsistent inside_opened refl refl

abbrev row : ℕ → PgResult
row n = record {
  status = single_tuple;
  cmd_tuples = 0;
  ntuples = 1;
  nfields = 1;
  ftype = λ i. 23;
  fname = λ i. codes "id";
  fformat = λ i. 1;
  getvalue = λ r c. some (n ∷ []);
}

abbrev end : PgResult
end = record (row 0) { status = tuples_ok; ntuples = 0 }

row-IsRow : (n : ℕ) → IsRow (row n)
unfolding has_result
row-IsRow n = record { accepted = refl; one = refl }

end-IsEnd : IsEnd end
unfolding has_result
end-IsEnd = record { accepted = refl; none_left = refl }

abbrev same : Bytes → Bytes
same s = s

next_all-rows_example :
    let r = next_all same (row 5 ∷ (row 6 ∷ []) ++ (end ∷ [])) 2 data_reader in
    (r.0
      ≡ map (λ res. ok (some (data_row (columns_of same (row 5)) res 0))) (row 5 ∷ row 6 ∷ [])
        ++ (ok none ∷ []))
    × (r.1.1 ≡ length (row 6 ∷ []) + 2 + 2)
    × ((later : Option PgResult) (n : ℕ)
        → next same later n r.1.0 ≡ (throw reader_is_closed, (r.1.0, 0)))
next_all-rows_example =
    next_all-rows same (row 5) (row 6 ∷ []) end 2 (row-IsRow 5) (row-IsRow 6, tt) end-IsEnd
