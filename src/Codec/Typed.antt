-- ===== src/Codec/Typed.antt =====
-- Values of one type each: `val_from_pgparam` of src/data_parameters.cpp for addresses, geometric
-- values and ranges, which compare the number of the type, and the text constructors behind them.
pub mod Numbers
use pq_async.Common.{ℕ, Bool, true, false, Bytes, Result, ok, throw, ◌==◌, if◌then◌else◌}
use pq_async.Codec.{Net, PgVal, null, text, binary}
use pq_async.Codec.Words.{Fault, unsupported_oid, bad_length}
use pq_async.Codec.Conversions.{Cell, null_text, cell}
use pq_async.Codec.Geometry.{
  Point, Line, Lseg, Box, PointPath, Polygon, Circle, pgval_to_point, pgval_to_line, pgval_to_lseg,
  pgval_to_box, pgval_to_path, pgval_to_polygon, pgval_to_circle,
}
use pq_async.Codec.Networks.{
  Address, Macaddr, Macaddr8, pgval_to_cidr, pgval_to_inet, pgval_to_macaddr, pgval_to_macaddr8,
}
use pq_async.Codec.Spans.{Numeric, pgval_to_int4range, pgval_to_int8range, pgval_to_numrange}
use pq_async.Codec.Times.{pgval_to_tsrange, pgval_to_tstzrange, pgval_to_daterange}
use pq_async.Range.{Range}

-- The `switch` with one case. In text format the constructor from a text is called, and a null has
-- a `std::string` of length -1.
unfoldable pub one_case :
    {T : Type 0}
    → ℕ
    → (Bytes → Result Fault T)
    → (PgVal Bytes → Result Fault T)
    → ℕ
    → Cell
    → Result Fault T
one_case number of_text pgval oid null_text = throw bad_length
one_case number of_text pgval oid (cell (text s)) = of_text s
one_case number of_text pgval oid (cell val) =
    if oid == number then pgval val else throw unsupported_oid

unfoldable pub val_from_pgparam_cidr :
    (Bytes → Result Fault Address) → ℕ → Cell → Result Fault Address
val_from_pgparam_cidr of_text oid val = one_case 650 of_text (pgval_to_cidr of_text) oid val

unfoldable pub val_from_pgparam_inet :
    (Bytes → Result Fault Address) → ℕ → Cell → Result Fault Address
val_from_pgparam_inet of_text oid val = one_case 869 of_text (pgval_to_inet of_text) oid val

unfoldable pub val_from_pgparam_macaddr :
    (Bytes → Result Fault Macaddr) → ℕ → Cell → Result Fault Macaddr
val_from_pgparam_macaddr of_text oid val = one_case 829 of_text (pgval_to_macaddr of_text) oid val

unfoldable pub val_from_pgparam_macaddr8 :
    (Bytes → Result Fault Macaddr8) → ℕ → Cell → Result Fault Macaddr8
val_from_pgparam_macaddr8 of_text oid val = one_case 774 of_text (pgval_to_macaddr8 of_text) oid val

unfoldable pub val_from_pgparam_point :
    Net → Bool → (Bytes → Result Fault Point) → ℕ → Cell → Result Fault Point
val_from_pgparam_point net little of_text oid val =
    one_case 600 of_text (pgval_to_point net little of_text) oid val

unfoldable pub val_from_pgparam_line :
    Net → Bool → (Bytes → Result Fault Line) → ℕ → Cell → Result Fault Line
val_from_pgparam_line net little of_text oid val =
    one_case 628 of_text (pgval_to_line net little of_text) oid val

unfoldable pub val_from_pgparam_lseg :
    Net → Bool → (Bytes → Result Fault Lseg) → ℕ → Cell → Result Fault Lseg
val_from_pgparam_lseg net little of_text oid val =
    one_case 601 of_text (pgval_to_lseg net little of_text) oid val

unfoldable pub val_from_pgparam_box :
    Net → Bool → (Bytes → Result Fault Box) → ℕ → Cell → Result Fault Box
val_from_pgparam_box net little of_text oid val =
    one_case 603 of_text (pgval_to_box net little of_text) oid val

unfoldable pub val_from_pgparam_polygon :
    Net → Bool → (Bytes → Result Fault Polygon) → ℕ → Cell → Result Fault Polygon
val_from_pgparam_polygon net little of_text oid val =
    one_case 604 of_text (pgval_to_polygon net little of_text) oid val

unfoldable pub val_from_pgparam_path :
    Net → Bool → Bool → (Bytes → Result Fault PointPath) → ℕ → Cell → Result Fault PointPath
val_from_pgparam_path net little memory of_text oid val =
    one_case 602 of_text (pgval_to_path net little memory of_text) oid val

unfoldable pub val_from_pgparam_circle :
    Net → Bool → ℕ → (Bytes → Result Fault Circle) → ℕ → Cell → Result Fault Circle
val_from_pgparam_circle net little memory of_text oid val =
    one_case 718 of_text (pgval_to_circle net little memory of_text) oid val

unfoldable pub val_from_pgparam_int4range :
    Net → Bool → (Bytes → ℕ) → (Bytes → Result Fault (Range ℕ)) → ℕ → Cell → Result Fault (Range ℕ)
val_from_pgparam_int4range net little str_to_num of_text oid val =
    one_case 3904 of_text (pgval_to_int4range net little str_to_num) oid val

unfoldable pub val_from_pgparam_int8range :
    Net → Bool → (Bytes → ℕ) → (Bytes → Result Fault (Range ℕ)) → ℕ → Cell → Result Fault (Range ℕ)
val_from_pgparam_int8range net little str_to_num of_text oid val =
    one_case 3926 of_text (pgval_to_int8range net little str_to_num) oid val

unfoldable pub val_from_pgparam_numrange :
    Net
    → Bool
    → (Bytes → ℕ)
    → (Bytes → Result Fault Numeric)
    → Numeric
    → (Bytes → Result Fault (Range Numeric))
    → ℕ
    → Cell
    → Result Fault (Range Numeric)
val_from_pgparam_numrange net little str_to_num of_numeric init of_text oid val =
    one_case 3906 of_text (pgval_to_numrange net little str_to_num of_numeric init) oid val

unfoldable pub val_from_pgparam_tsrange :
    Net
    → Bool
    → (Bytes → ℕ)
    → ℕ
    → (Bytes → Result Fault (Range ℕ))
    → ℕ
    → Cell
    → Result Fault (Range ℕ)
val_from_pgparam_tsrange net little str_to_num now of_text oid val =
    one_case 3908 of_text (pgval_to_tsrange net little str_to_num now) oid val

unfoldable pub val_from_pgparam_tstzrange :
    Net
    → Bool
    → (Bytes → ℕ)
    → ℕ
    → (Bytes → Result Fault (Range ℕ))
    → ℕ
    → Cell
    → Result Fault (Range ℕ)
val_from_pgparam_tstzrange net little str_to_num now of_text oid val =
    one_case 3910 of_text (pgval_to_tstzrange net little str_to_num now) oid val

unfoldable pub val_from_pgparam_daterange :
    Net
    → Bool
    → (Bytes → ℕ)
    → ℕ
    → (Bytes → Result Fault (Range ℕ))
    → ℕ
    → Cell
    → Result Fault (Range ℕ)
val_from_pgparam_daterange net little str_to_num now of_text oid val =
    one_case 3912 of_text (pgval_to_daterange net little str_to_num now) oid val
