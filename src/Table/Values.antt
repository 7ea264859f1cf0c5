-- ===== src/Table/Values.antt =====
-- The values of a result table: src/database.cpp, src/data_row.cpp and
-- include/pq-async/data_columns_container.h.
use pq_async.Common.{
  ℕ, zero, suc, ◌+◌, ◌≤◌, ◌<◌, ◌≡◌, ◌≢◌, refl, ap, ◌∙◌, List, [], ◌∷◌, some, ok, throw, Bytes,
  bytes_eq_iff, if◌then◌else◌, length, get_elem?, ltb, arith,
}
use pq_async.Table.{
  PgResult, DataColumn, DataValue, invalid_index, each_from, initialize, data_row, at, get_value,
  data_column, find_col, get_col_index, get_value_named, data_table, table_value, table_value_named,
}

length-each_from : {A : Type 0} (f : ℕ → A) (i count : ℕ) → length (each_from f i count) ≡ count
unfolding each_from
length-each_from f i zero = refl
length-each_from f i (suc count) = ap suc (length-each_from f (suc i) count)

get_elem?-each_from :
    {A : Type 0} (f : ℕ → A) (i count j : ℕ)
    → j < count
    → get_elem? (each_from f i count) j ≡ some (f (i + j))
unfolding each_from
get_elem?-each_from f i zero j h = ground arith
get_elem?-each_from f i (suc count) zero h = let e : i + 0 ≡ i = omega arith in rw e
get_elem?-each_from f i (suc count) (suc j) h =
    let e : i + suc j ≡ suc i + j = omega arith in
    rw e (get_elem?-each_from f (suc i) count j (omega (arith, h)))

get_elem?-initialize :
    (res : PgResult) (row_id i : ℕ) (cols : List DataColumn) (j : ℕ) (col : DataColumn)
    → get_elem? cols j ≡ some col
    → get_elem? (initialize res row_id i cols) j
      ≡ some (record { column = col; value = res.getvalue row_id (i + j) })
unfolding initialize
get_elem?-initialize res row_id i [] j col e = ground arith
get_elem?-initialize res row_id i (c ∷ cols) zero col e =
    let z : i + 0 ≡ i = omega arith in rw z (ground arith)
get_elem?-initialize res row_id i (c ∷ cols) (suc j) col e =
    let s : i + suc j ≡ suc i + j = omega arith in
    rw s (get_elem?-initialize res row_id (suc i) cols j col e)

zero_add : (n : ℕ) → 0 + n ≡ n
zero_add n = omega arith

at-each_from :
    {A : Type 0} (f : ℕ → A) (count j : ℕ) → j < count → at (each_from f 0 count) j ≡ ok (f j)
at-each_from f count j h = rw (get_elem?-each_from f 0 count j h, zero_add j, at)

-- The cell of a row and a column of the result.
abbrev pub cell : (Bytes → Bytes) → PgResult → ℕ → ℕ → DataValue
cell lower res row_idx col_id = record {
  column = data_column lower res col_id;
  value = res.getvalue row_idx col_id;
}

abbrev columns_of : (Bytes → Bytes) → PgResult → List DataColumn
columns_of lower res = each_from (data_column lower res) 0 res.nfields

value_at :
    (lower : Bytes → Bytes) (res : PgResult) (row_idx col_id : ℕ)
    → col_id < res.nfields
    → at (initialize res row_idx 0 (columns_of lower res)) col_id
      ≡ ok (cell lower res row_idx col_id)
value_at lower res row_idx col_id h =
    let col : get_elem? (columns_of lower res) col_id ≡ some (data_column lower res col_id) =
      get_elem?-each_from (data_column lower res) 0 res.nfields col_id h ∙ rw (zero_add col_id) in
    let value =
      get_elem?-initialize res row_idx 0 (columns_of lower res) col_id
        (data_column lower res col_id) col in
    rw (value, zero_add col_id, at)

row_at :
    (lower : Bytes → Bytes) (res : PgResult) (row_idx : ℕ)
    → row_idx < res.ntuples
    → at (data_table lower res).rows row_idx ≡ ok (data_row (columns_of lower res) res row_idx)
unfolding data_table
row_at lower res row_idx h =
    at-each_from (data_row (columns_of lower res) res) res.ntuples row_idx h

-- The table of a result has, in each of its rows and at each index of a column, the value that
-- libpq has there, with its column; an index of no column is refused.
pub table_value_lem :
    (lower : Bytes → Bytes) (res : PgResult) (row_idx col_id : ℕ)
    → row_idx < res.ntuples
    → table_value lower (data_table lower res) row_idx col_id
      ≡ (if ltb col_id res.nfields then ok (cell lower res row_idx col_id) else throw invalid_index)
unfolding table_value get_value data_row
table_value_lem lower res row_idx col_id h =
    rw
      (
        row_at lower res row_idx h,
        table_value,
        length-each_from (data_column lower res) 0 res.nfields,
      )
      (ground (arith, value_at lower res row_idx col_id))

find_col-each_from :
    (lower : Bytes → Bytes) (res : PgResult) (name : Bytes) (i count c : ℕ)
    → i ≤ c
    → c < i + count
    → lower (res.fname c) ≡ name
    → ((j : ℕ) → j < c → lower (res.fname j) ≢ name)
    → find_col lower name i (each_from (data_column lower res) i count) ≡ some c
unfolding find_col each_from data_column
find_col-each_from lower res name i zero c l h e first = ground arith
find_col-each_from lower res name i (suc count) c l h e first = ground (
  arith,
  first i,
  bytes_eq_iff (lower (res.fname i)) name,
  find_col-each_from lower res name (suc i) count c,
)

-- A name, in whatever case, finds the value of the first column that has it, in each row of the
-- table.
pub table_value_named_lem :
    (lower : Bytes → Bytes) (res : PgResult) (row_idx c : ℕ) (col_name : Bytes)
    → row_idx < res.ntuples
    → c < res.nfields
    → lower (res.fname c) ≡ lower col_name
    → ((j : ℕ) → j < c → lower (res.fname j) ≢ lower col_name)
    → table_value_named lower (data_table lower res) row_idx col_name
      ≡ ok (cell lower res row_idx c)
unfolding table_value_named get_value_named get_col_index data_row
table_value_named_lem lower res row_idx c col_name h k e first =
    let found : find_col lower (lower col_name) 0 (columns_of lower res) ≡ some c =
      find_col-each_from lower res (lower col_name) 0 res.nfields c (omega arith) (omega (arith, k))
        e first in
    rw (
      row_at lower res row_idx h,
      table_value_named,
      found,
      get_value_named,
      value_at lower res row_idx c k,
    )
