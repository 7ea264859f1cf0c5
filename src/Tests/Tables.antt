-- ===== src/Tests/Tables.antt =====
-- src/database.cpp and src/data_row.cpp: results.
use pq_async.Common.{
  ℕ, zero, suc, ◌≡◌, refl, true, some, none, ok, throw, ◌>>=◌, Bytes, codes, map, if◌then◌else◌,
  ltb, ◌+◌, ◌&&◌, arith,
}
use pq_async.Exec.{tuples_ok, fatal_error}
use pq_async.Table.{
  PgResult, invalid_index, result_error, data_table, table_value, table_value_named,
  process_execute_result, process_query_result, process_query_single_result, has_result,
}
use pq_async.Table.Values.{cell, table_value_lem, table_value_named_lem}
use pq_async.Table.Processed.{
  first, process_query_single_result-process_query_result, process_clears,
}

abbrev lower_char : ℕ → ℕ
lower_char c = if ltb b'@' c && ltb c b'[' then c + 32 else c

abbrev lower_ascii : Bytes → Bytes
lower_ascii s = map lower_char s

abbrev name_of : ℕ → Bytes
name_of zero = codes "Id"
name_of (suc i) = codes "Name"

-- Two rows with an id and a name.
abbrev people : PgResult
people = record {
  status = tuples_ok;
  cmd_tuples = 2;
  ntuples = 2;
  nfields = 2;
  ftype = λ i. 20 + i;
  fname = name_of;
  fformat = λ i. 1;
  getvalue = λ row i. if ltb 0 i then some (codes "x") else none;
}

refused_result :
    process_execute_result true (record people { status = fatal_error })
    ≡ (throw (result_error fatal_error), 1)
unfolding process_execute_result has_result
refused_result = refl

table_value_lem_example :
    table_value lower_ascii (data_table lower_ascii people) 1 5 ≡ throw invalid_index
table_value_lem_example = table_value_lem lower_ascii people 1 5 (omega arith)

table_value_named_lem_run :
    table_value_named lower_ascii (data_table lower_ascii people) 1 (codes "NAME")
    ≡ ok (cell lower_ascii people 1 1)
table_value_named_lem_run =
    table_value_named_lem lower_ascii people 1 1 (codes "NAME") (omega arith) (omega arith) refl
      (λ j below. elim j [ zero ↦ ground arith | suc i ↦ ground arith ])

process_query_single_result-process_query_result_run :
    let table = process_query_result lower_ascii true people in
    process_query_single_result lower_ascii true people
    ≡ ((table.0 >>= λ t. ok (first t.rows)), table.1)
process_query_single_result-process_query_result_run =
    process_query_single_result-process_query_result lower_ascii true people

process_clears_run :
    ((process_execute_result true people).1 ≡ 1)
    × ((process_query_result lower_ascii true people).1 ≡ 1)
    × ((process_query_single_result lower_ascii true people).1 ≡ 1)
process_clears_run = process_clears lower_ascii true people
