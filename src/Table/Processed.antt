-- ===== src/Table/Processed.antt =====
-- The `_process_*_result` methods of src/database.cpp beside each other.
use pq_async.Common.{
  ℕ, zero, suc, ◌≡◌, refl, Bool, List, [], ◌∷◌, Option, none, some, ok, ◌>>=◌, Bytes, if◌then◌else◌,
  arith,
}
use pq_async.Table.{
  PgResult, DataColumn, DataRow, each_from, data_row, data_column, data_table, first_row,
  process_execute_result, process_query_result, process_query_single_result,
}

abbrev pub first : List DataRow → Option DataRow
first [] = none
first (row ∷ rows) = some row

first_row-first :
    (columns : List DataColumn) (res : PgResult) (count : ℕ)
    → first_row columns res count ≡ first (each_from (data_row columns res) 0 count)
unfolding first_row each_from
first_row-first columns res zero = refl
first_row-first columns res (suc count) = refl

-- The single row of a result is the first row of its table, and there is none just where the table
-- is empty; both methods throw the same errors and clear the result as often.
pub process_query_single_result-process_query_result :
    (lower : Bytes → Bytes) (has_conn : Bool) (res : PgResult)
    → let table = process_query_result lower has_conn res in
      process_query_single_result lower has_conn res
      ≡ ((table.0 >>= λ t. ok (first t.rows)), table.1)
unfolding process_query_single_result process_query_result data_table
process_query_single_result-process_query_result lower has_conn res =
    ground
      (arith, first_row-first (each_from (data_column lower res) 0 res.nfields) res res.ntuples)

-- Each of the methods clears the result once, whatever its status; with a dead connection each
-- throws and the result is never cleared.
pub process_clears :
    (lower : Bytes → Bytes) (has_conn : Bool) (res : PgResult)
    → let clears : ℕ = if has_conn then 1 else 0 in
      ((process_execute_result has_conn res).1 ≡ clears)
      × ((process_query_result lower has_conn res).1 ≡ clears)
      × ((process_query_single_result lower has_conn res).1 ≡ clears)
unfolding process_execute_result process_query_result process_query_single_result
process_clears lower has_conn res = ground arith
