-- ===== src/Exec/Runs.antt =====
-- The loop of `exec_queries` of src/database.cpp over the queries of a script.
use pq_async.Common.{
  ℕ, suc, ◌≡◌, refl, ◌∙◌, Bool, true, false, List, [], ◌∷◌, ◌++◌, append-nil, subst, ok, throw,
  Bytes, arith,
}
use pq_async.Script.{Strings, is_copy_stdin}
use pq_async.Exec.{
  Status, command_ok, tuples_ok, empty_query, copy_in, Answer, Sent, runs, puts, ends, query_failed,
  is_accepted, has_copy_in_bit, status_number, check_status, exec_query, exec_loop,
}

-- The query is done.
abbrev pub is_done : Status → Bool
is_done command_ok = true
is_done tuples_ok = true
is_done empty_query = true
is_done _ = false

-- What the rounds from `n` up to `m` send, where each query is done, and each COPY is answered by
-- `PGRES_COPY_IN` and followed by its data, which libpq takes.
pub data Ran (strings : Strings) (answers : ℕ → Answer)
    : ℕ → ℕ → List Bytes → List Sent → Type 0 where
  over : {n : ℕ} → Ran strings answers n n [] []
  done :
      {n m : ℕ} {qry : Bytes} {queries : List Bytes} {sent : List Sent}
      → is_done (answers n).status ≡ true
      → Ran strings answers (suc n) m queries sent
      → Ran strings answers n m (qry ∷ queries) (runs qry ∷ sent)
  copied :
      {n m : ℕ} {qry text : Bytes} {queries : List Bytes} {sent : List Sent}
      → is_copy_stdin strings qry ≡ true
      → (answers n).status ≡ copy_in
      → (answers (suc n)).put_ok ≡ true
      → (answers (suc n)).end_ok ≡ true
      → is_done (answers (suc n)).status ≡ true
      → Ran strings answers (suc (suc n)) m queries sent
      → Ran strings answers n m (qry ∷ text ∷ queries) (runs qry ∷ puts text ∷ ends ∷ sent)

done_plain : (s : Status) → is_done s ≡ true → has_copy_in_bit s ≡ false
unfolding has_copy_in_bit status_number
done_plain command_ok d = refl
done_plain tuples_ok d = refl
done_plain empty_query d = refl
done_plain _ d = ground arith

done_accepted : (s : Status) → is_done s ≡ true → is_accepted s ≡ true
unfolding is_accepted
done_accepted s d = ground arith

exec_query-done :
    (strings : Strings) (qry : Bytes) (a : Answer)
    → is_done a.status ≡ true
    → exec_query strings false qry a ≡ (ok false, runs qry ∷ [])
unfolding exec_query check_status
exec_query-done strings qry a d = rw (done_plain a.status d, done_accepted a.status d)

pub exec_query-copies :
    (strings : Strings) (qry : Bytes) (a : Answer)
    → is_copy_stdin strings qry ≡ true
    → has_copy_in_bit a.status ≡ true
    → exec_query strings false qry a ≡ (ok true, runs qry ∷ [])
unfolding exec_query
exec_query-copies strings qry a c b = rw (b, c)

exec_query-copied :
    (strings : Strings) (text : Bytes) (a : Answer)
    → a.put_ok ≡ true
    → a.end_ok ≡ true
    → is_done a.status ≡ true
    → exec_query strings true text a ≡ (ok false, puts text ∷ ends ∷ [])
unfolding exec_query check_status
exec_query-copied strings text a p e d = rw (p, e, done_accepted a.status d)

pub exec_query-fails :
    (strings : Strings) (qry : Bytes) (a : Answer)
    → is_copy_stdin strings qry ≡ false
    → is_accepted a.status ≡ false
    → exec_query strings false qry a ≡ (throw (query_failed a.status), runs qry ∷ [])
unfolding exec_query check_status
exec_query-fails strings qry a c b = ground (arith, c, b)

-- The rounds of the queries that are done come first, and the loop goes on behind them.
pub exec_loop-append :
    (strings : Strings) (answers : ℕ → Answer) {n m : ℕ} {queries : List Bytes} {sent : List Sent}
    → Ran strings answers n m queries sent
    → (rest : List Bytes)
    → exec_loop strings answers n false (queries ++ rest) ≡ (
      (exec_loop strings answers m false rest).0,
      sent ++ (exec_loop strings answers m false rest).1,
    )
unfolding exec_loop
exec_loop-append strings answers over rest = refl
exec_loop-append strings answers (done {n} {m} {qry} {queries} {sent} d ran) rest =
    let q = exec_query-done strings qry (answers n) d in
    rw (q, exec_loop, exec_loop-append strings answers ran rest, q)
exec_loop-append strings answers (copied {n} {m} {qry} {text} {queries} {sent} c s p e d ran) rest =
    let copy_bit : has_copy_in_bit (answers n).status ≡ true =
      rw s (unfold has_copy_in_bit status_number in refl) in
    let q = exec_query-copies strings qry (answers n) c copy_bit in
    let t = exec_query-copied strings text (answers (suc n)) p e d in
    rw (q, exec_loop, t, exec_loop, exec_loop-append strings answers ran rest, q, t)

pub exec_loop-Ran :
    (strings : Strings) (answers : ℕ → Answer) {n m : ℕ} {queries : List Bytes} {sent : List Sent}
    → Ran strings answers n m queries sent
    → exec_loop strings answers n false queries ≡ (ok tt, sent)
unfolding exec_loop
exec_loop-Ran strings answers {n} {m} {queries} {sent} ran =
    subst (λ all. exec_loop strings answers n false all ≡ (ok tt, sent)) (append-nil queries)
      (exec_loop-append strings answers ran [] ∙ rw (append-nil sent))
