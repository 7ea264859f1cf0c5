-- ===== src/Table.antt =====
-- The results of queries: the `_process_*_result` methods of src/database.cpp, with the table, the
-- row and the columns that they build (src/data_table.cpp, src/data_row.cpp, src/data_column.cpp,
-- include/pq-async/data_columns_container.h).
--
-- A `PGresult` is what the functions of libpq answer about it. `md::lower_case_copy` is the
-- parameter `lower`.
pub mod Values
pub mod Processed
pub mod Reader
use pq_async.Common.{
  ℕ, zero, suc, Bool, true, false, not, ◌&&◌, ◌||◌, List, [], ◌∷◌, Option, none, some, Result, ok,
  throw, Bytes, bytes_eq, if◌then◌else◌, length, get_elem?, leb,
}
use pq_async.Exec.{Status, empty_query, command_ok, tuples_ok, single_tuple, nonfatal_error}

pub record PgResult : Type 0 where
  -- `PQresultStatus`, and `atoi(PQcmdTuples(res))`
  pub status : Status
  pub cmd_tuples : ℕ
  -- `PQntuples`, `PQnfields`
  pub ntuples : ℕ
  pub nfields : ℕ
  -- `PQftype`, `PQfname`, `PQfformat`
  pub ftype : ℕ → ℕ
  pub fname : ℕ → Bytes
  pub fformat : ℕ → ℕ
  -- `PQgetvalue` with its length, by row and field; none where `PQgetisnull`
  pub getvalue : ℕ → ℕ → Option Bytes

pub record DataColumn : Type 0 where
  pub oid : ℕ
  pub index : ℕ
  pub name : Bytes
  pub fmt : ℕ

-- A null value is none.
pub record DataValue : Type 0 where
  pub column : DataColumn
  pub value : Option Bytes

pub record DataRow : Type 0 where
  pub cols : List DataColumn
  pub values : List DataValue

pub record DataTable : Type 0 where
  pub columns : List DataColumn
  pub rows : List DataRow

-- Reading a vector beyond its end, which is undefined, is `out_of_range`.
pub data Error : Type 0 where
  connection_is_dead invalid_index invalid_column_name out_of_range : Error
  result_error : Status → Error

-- `for(int i = 0; i < count; ++i)` with one new element in each round, from round `i` on.
unfoldable pub each_from : {A : Type 0} → (ℕ → A) → ℕ → ℕ → List A
each_from f i zero = []
each_from f i (suc count) = f i ∷ each_from f (suc i) count

-- `initialize`, from column `i` on.
unfoldable pub initialize : PgResult → ℕ → ℕ → List DataColumn → List DataValue
initialize res row_id i [] = []
initialize res row_id i (col ∷ cols) =
    record { column = col; value = res.getvalue row_id i } ∷ initialize res row_id (suc i) cols

unfoldable pub data_row : List DataColumn → PgResult → ℕ → DataRow
unfolding initialize
data_row cols res row_id = record { cols = cols; values = initialize res row_id 0 cols }

abbrev pub at : {A : Type 0} → List A → ℕ → Result Error A
at xs i = elim (get_elem? xs i) [ none ↦ throw out_of_range | some x ↦ ok x ]

-- `get_value` by index
unfoldable pub get_value : DataRow → ℕ → Result Error DataValue
get_value row i = if leb (length row.cols) i then throw invalid_index else at row.values i

-- A result or an error, and how often `PQclear` is called.
abbrev pub Processed : Type 0 → Type 0
Processed A = Result Error A × ℕ

-- The statuses that the methods take for a result.
unfoldable pub has_result : Status → Bool
has_result command_ok = true
has_result single_tuple = true
has_result tuples_ok = true
has_result _ = false

unfoldable pub is_no_error : Status → Bool
is_no_error empty_query = true
is_no_error nonfatal_error = true
is_no_error _ = false

unfoldable pub process_execute_result : Bool → PgResult → Processed ℕ
unfolding has_result is_no_error
process_execute_result has_conn res =
    if not has_conn
    then (throw connection_is_dead, 0)
    else if has_result res.status
    then (ok res.cmd_tuples, 1)
    else if is_no_error res.status
    then (ok 0, 1)
    else (throw (result_error res.status), 1)

-- The loop that returns in its first round; no row is the null pointer.
unfoldable pub first_row : List DataColumn → PgResult → ℕ → Option DataRow
unfolding data_row
first_row columns res zero = none
first_row columns res (suc row_count) = some (data_row columns res 0)

module _ (lower : Bytes → Bytes) where
  unfoldable pub data_column : PgResult → ℕ → DataColumn
  data_column res i = record {
    oid = res.ftype i;
    index = i;
    name = lower (res.fname i);
    fmt = res.fformat i;
  }

  -- The loop of `get_col_index` from index `i` on; -1 is none.
  unfoldable pub find_col : Bytes → ℕ → List DataColumn → Option ℕ
  find_col tmp_name i [] = none
  find_col tmp_name i (col ∷ cols) =
      let rest = find_col tmp_name (suc i) cols in
      if bytes_eq col.name tmp_name then some i else rest

  unfoldable pub get_col_index : List DataColumn → Bytes → Option ℕ
  unfolding find_col
  get_col_index cols col_name = find_col (lower col_name) 0 cols

  -- `get_value` by name
  unfoldable pub get_value_named : DataRow → Bytes → Result Error DataValue
  unfolding get_col_index
  get_value_named row col_name = elim (get_col_index row.cols col_name) [
    | none ↦ throw invalid_column_name
    | some index ↦ at row.values index
  ]

  -- The table of `_process_query_result`.
  unfoldable pub data_table : PgResult → DataTable
  unfolding data_column data_row each_from
  data_table res =
      let columns = each_from (data_column res) 0 res.nfields in
      record { columns = columns; rows = each_from (data_row columns res) 0 res.ntuples }

  -- `get_value` of a table, by index and by name.
  unfoldable pub table_value : DataTable → ℕ → ℕ → Result Error DataValue
  unfolding get_value
  table_value table row_idx col_id = elim (at table.rows row_idx) [
    | throw e ↦ throw e
    | ok row ↦ get_value row col_id
  ]

  unfoldable pub table_value_named : DataTable → ℕ → Bytes → Result Error DataValue
  unfolding get_value_named
  table_value_named table row_idx col_name = elim (at table.rows row_idx) [
    | throw e ↦ throw e
    | ok row ↦ get_value_named row col_name
  ]

  unfoldable pub process_query_result : Bool → PgResult → Processed DataTable
  unfolding has_result data_table
  process_query_result has_conn res =
      if not has_conn
      then (throw connection_is_dead, 0)
      else if not (has_result res.status)
      then (throw (result_error res.status), 1)
      else (ok (data_table res), 1)

  unfoldable pub process_query_single_result : Bool → PgResult → Processed (Option DataRow)
  unfolding has_result data_column each_from first_row
  process_query_single_result has_conn res =
      if not has_conn
      then (throw connection_is_dead, 0)
      else if not (has_result res.status)
      then (throw (result_error res.status), 1)
      else (ok (first_row (each_from (data_column res) 0 res.nfields) res res.ntuples), 1)
