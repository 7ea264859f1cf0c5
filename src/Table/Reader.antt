-- ===== src/Table/Reader.antt =====
-- include/pq-async/data_reader.h: the rows of a query one by one.
--
-- What `run_now` of the task returns to a call of `next`, `none` for a null, and how many results
-- libpq has left at the end of it, are arguments. The overload with a callback is left out.
use pq_async.Common.{
  ℕ, zero, suc, ◌+◌, ◌≡◌, refl, ap, Bool, true, false, List, [], ◌∷◌, ◌++◌, map, Option, none, some,
  Result, ok, throw, Bytes, length, if◌then◌else◌, arith,
}
use pq_async.Exec.{Status}
use pq_async.Table.{
  PgResult, DataColumn, DataRow, DataTable, has_result, each_from, data_row, data_column,
}

pub data ReaderError : Type 0 where
  reader_is_closed : ReaderError
  refused : Status → ReaderError

-- The members `_table` and `_closed`.
pub record DataReader : Type 0 where
  pub table : Option DataTable
  pub closed : Bool

-- The constructor.
abbrev pub data_reader : DataReader
data_reader = record { table = none; closed = false }

-- What a call returns, what it leaves, and how often it calls `PQclear`.
abbrev pub Read : Type 0
Read = Result ReaderError (Option DataRow) × (DataReader × ℕ)

-- `PQntuples(res)` is not 0.
abbrev pub add_row : DataTable → PgResult → ℕ → DataTable
add_row t res zero = t
add_row t res (suc n) = record t { rows = t.rows ++ (data_row t.columns res 0 ∷ []) }

-- The first row of the table, or the end of the results: what is left is cleared.
abbrev pub hand_out : ℕ → DataTable → List DataRow → Read
hand_out left t (row ∷ rows) = (ok (some row), (record { table = some t; closed = false }, 1))
hand_out left t [] = (ok none, (record { table = some t; closed = true }, 1 + left))

module _ (lower : Bytes → Bytes) where
  -- `init_table`: the columns are those of the first result.
  unfoldable pub init_table : PgResult → Option DataTable → Result ReaderError DataTable
  init_table res (some t) = ok (record t { rows = [] })
  init_table res none =
      if has_result res.status
      then ok (record { columns = each_from (data_column lower res) 0 res.nfields; rows = [] })
      else throw (refused res.status)

  -- The rows of a result for the table that there is.
  unfoldable pub take_result : PgResult → ℕ → DataReader → Result ReaderError DataTable → Read
  take_result res left r (throw e) = (throw e, (r, 1))
  take_result res left r (ok t) =
      if has_result res.status
      then hand_out left (add_row t res res.ntuples) (add_row t res res.ntuples).rows
      else (throw (refused res.status), (record r { table = some t }, 1))

  unfoldable pub next_open : Option PgResult → ℕ → DataReader → Read
  next_open none left r = (ok none, (record r { closed = true }, 0))
  next_open (some res) left r = take_result res left r (init_table res r.table)

  -- `next`
  unfoldable pub next : Option PgResult → ℕ → DataReader → Read
  next res left r = if r.closed then (throw reader_is_closed, (r, 0)) else next_open res left r

  -- Calls of `next`, with what they return in order.
  unfoldable pub next_all :
      List PgResult → ℕ → DataReader → List (Result ReaderError (Option DataRow)) × (DataReader × ℕ)
  next_all [] left r = ([], (r, 0))
  next_all (res ∷ rest) left r =
      let n = next (some res) left r in
      let later = next_all rest left n.1.0 in (n.0 ∷ later.0, (later.1.0, n.1.1 + later.1.1))

-- A cancel that is asked for and what is left being cleared: how often `PQclear` is called.
unfoldable pub close : ℕ → DataReader → DataReader × ℕ
close left r = if r.closed then (r, 0) else (record r { closed = true }, left)

-- A result of one row, and the result without a row behind the last, as libpq gives them in the
-- mode of single rows.
pub record IsRow (res : PgResult) : Type 0 where
  pub accepted : has_result res.status ≡ true
  pub one : res.ntuples ≡ 1

pub record IsEnd (res : PgResult) : Type 0 where
  pub accepted : has_result res.status ≡ true
  pub none_left : res.ntuples ≡ 0

abbrev pub AreRows : List PgResult → Type 0
AreRows [] = Unit
AreRows (res ∷ rest) = IsRow res × AreRows rest

module _ (lower : Bytes → Bytes) where
  abbrev pub columns_of : PgResult → List DataColumn
  columns_of res = each_from (data_column lower res) 0 res.nfields

  -- An open reader with the columns of its first result.
  abbrev with_columns : List DataColumn → List DataRow → DataReader
  with_columns cols rows = record {
    table = some (record { columns = cols; rows = rows });
    closed = false;
  }

  next-row :
      (res : PgResult) (left : ℕ) (cols : List DataColumn) (rows : List DataRow)
      → IsRow res
      → next lower (some res) left (with_columns cols rows)
        ≡ (ok (some (data_row cols res 0)), (with_columns cols (data_row cols res 0 ∷ []), 1))
  unfolding next next_open take_result init_table
  next-row res left cols rows h = rw (h.accepted, h.one) refl

  next-end :
      (res : PgResult) (left : ℕ) (cols : List DataColumn) (rows : List DataRow)
      → IsEnd res
      → next lower (some res) left (with_columns cols rows) ≡ (
        ok none,
        (record { table = some (record { columns = cols; rows = [] }); closed = true }, 1 + left),
      )
  unfolding next next_open take_result init_table
  next-end res left cols rows h = rw (h.accepted, h.none_left) refl

  -- A call that returns, and those that follow it.
  abbrev before :
      Result ReaderError (Option DataRow)
      → ℕ
      → List (Result ReaderError (Option DataRow)) × (DataReader × ℕ)
      → List (Result ReaderError (Option DataRow)) × (DataReader × ℕ)
  before x n later = (x ∷ later.0, (later.1.0, n + later.1.1))

  next_all-nil : (left : ℕ) (r : DataReader) → next_all lower [] left r ≡ ([], (r, 0))
  unfolding next_all
  next_all-nil left r = refl

  next_all-cons :
      (res : PgResult) (rest : List PgResult) (left n : ℕ) (r r' : DataReader)
      (x : Result ReaderError (Option DataRow))
      → next lower (some res) left r ≡ (x, (r', n))
      → next_all lower (res ∷ rest) left r ≡ before x n (next_all lower rest left r')
  unfolding next_all
  next_all-cons res rest left n r r' x e =
      ap (λ (v : Read). before v.0 v.1.1 (next_all lower rest left v.1.0)) e

  -- Once the columns are there.
  next_all-with_columns :
      (rows : List PgResult) (end : PgResult) (left : ℕ) (cols : List DataColumn)
      (old : List DataRow)
      → AreRows rows
      → IsEnd end
      → let r = next_all lower (rows ++ (end ∷ [])) left (with_columns cols old) in
        (r.0 ≡ map (λ res. ok (some (data_row cols res 0))) rows ++ (ok none ∷ []))
        × (r.1.0.closed ≡ true)
        × (r.1.1 ≡ length rows + 1 + left)
  next_all-with_columns [] end left cols old h e =
      rw
        (
          next_all-cons end [] left (1 + left) _ _ _ (next-end end left cols old e),
          next_all-nil left
              (record { table = some (record { columns = cols; rows = [] }); closed = true }),
        )
        (refl, refl, omega arith)
  next_all-with_columns (res ∷ rows) end left cols old (h, hs) e =
      let (a, b, c) = next_all-with_columns rows end left cols (data_row cols res 0 ∷ []) hs e in
      rw (next_all-cons res (rows ++ (end ∷ [])) left 1 _ _ _ (next-row res left cols old h))
        (ap (◌∷◌ (ok (some (data_row cols res 0)))) a, b, omega (arith, c))

  first-row :
      (res : PgResult) (left : ℕ)
      → IsRow res
      → next lower (some res) left data_reader ≡ (
        ok (some (data_row (columns_of res) res 0)),
        (with_columns (columns_of res) (data_row (columns_of res) res 0 ∷ []), 1),
      )
  unfolding next next_open take_result init_table
  first-row res left h = simp (h.accepted, h.one) refl

  refused_after :
      (r : DataReader) (later : Option PgResult) (n : ℕ)
      → r.closed ≡ true
      → next lower later n r ≡ (throw reader_is_closed, (r, 0))
  unfolding next
  refused_after r later n e = simp e refl

  -- Rows that libpq gives one by one are returned in order, each once and under the columns of the
  -- first result, and then the end once; each result is cleared once, also those that libpq has
  -- left at the end; and the reader is closed, so that a further call throws and asks libpq
  -- nothing.
  pub next_all-rows :
      (first : PgResult) (rows : List PgResult) (end : PgResult) (left : ℕ)
      → IsRow first
      → AreRows rows
      → IsEnd end
      → let r = next_all lower (first ∷ (rows ++ (end ∷ []))) left data_reader in
        (r.0
          ≡ map (λ res. ok (some (data_row (columns_of first) res 0))) (first ∷ rows)
            ++ (ok none ∷ []))
        × (r.1.1 ≡ length rows + 2 + left)
        × ((later : Option PgResult) (n : ℕ)
            → next lower later n r.1.0 ≡ (throw reader_is_closed, (r.1.0, 0)))
  unfolding next
  next_all-rows first rows end left f h e =
      let cols = columns_of first in
      let (a, b, c) = next_all-with_columns rows end left cols (data_row cols first 0 ∷ []) h e in
      rw
        (next_all-cons first (rows ++ (end ∷ [])) left 1 data_reader
          (with_columns cols (data_row cols first 0 ∷ [])) (ok (some (data_row cols first 0)))
          (first-row first left f))
        (
          ap (◌∷◌ (ok (some (data_row cols first 0)))) a,
          omega (arith, c),
          λ later n. refused_after _ later n b,
        )
