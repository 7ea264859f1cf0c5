-- ===== src/Tests/Widths.antt =====
-- src/data_parameters.cpp: times, arrays and integers in other
-- widths.
use pq_async.Common.{
  inl, ℕ, ◌≡◌, refl, true, List, [], ◌∷◌, Bytes, codes, Result, ok, throw, bytes_eq, arith, length,
}
use pq_async.Codec.{binary}
use pq_async.Codec.Words.{Fault, outside, put16, put32, put64}
use pq_async.Codec.Times.{
  at, Span, span, value, new_parameter_time, new_parameter_timestamp, new_parameter_timestamp_tz,
  new_parameter_date, new_parameter_interval, pgval_to_time, pgval_to_timestamp,
  pgval_to_timestamp_tz, pgval_to_date, pgval_to_interval,
}
use pq_async.Codec.Times.Epochs.{pgval_to_moment-new_parameter}
use pq_async.Codec.Conversions.{
  Casts, cell, val_from_pgparam_int16, val_from_pgparam_int32, val_from_pgparam_int64,
}
use pq_async.Codec.Conversions.Widths.{val_from_pgparam_widths}
use pq_async.Codec.Arrays.{
  Jagged, new_parameter_gen, new_parameter_gen_string, pgval_to_array, get_array_oid_and_dim,
  int32_element, string_element,
}
use pq_async.Codec.Arrays.Elements.{IsJagged}
use pq_async.Codec.Arrays.Instances.{pgval_to_array-new_parameter_gen}
use pq_async.Codec.Spans.Trips.{kept}
use pq_async.Codec.Times.{
  new_parameter_tsrange, new_parameter_tstzrange, new_parameter_daterange, pgval_to_tsrange,
  pgval_to_tstzrange, pgval_to_daterange,
}
use pq_async.Codec.Times.Ranges.{pgval_to_tsrange-new_parameter}
use pq_async.Range.{range_of, new_range}
use pq_async.Codec.Moments.{
  val_from_pgparam_time, val_from_pgparam_timestamp, val_from_pgparam_timestamp_tz,
  val_from_pgparam_date, val_from_pgparam_interval,
}
use pq_async.Codec.Moments.Numbers.{val_from_pgparam_moment-new_parameter}
use pq_async.Tests.Codecs.{turning, turning-IsNet}

abbrev month : Span
month = record { time = 1000000; days = 2; months = 1 }

pgval_to_moment-new_parameter_run :
    (pgval_to_timestamp turning true 9
        (value (binary (new_parameter_timestamp turning true (at 5)).value))
      ≡ ok (at 5))
    × (pgval_to_timestamp_tz turning true 9
          (value (binary (new_parameter_timestamp_tz turning true (at 6)).value))
        ≡ ok (at 6))
    × (pgval_to_date turning true 8
          (value (binary (new_parameter_date turning true (at 10958)).value))
        ≡ ok (at 10958))
    × (pgval_to_interval turning true
          (value (binary (new_parameter_interval turning true (span month)).value))
        ≡ ok (span month))
    × (pgval_to_time turning true (value (binary (new_parameter_time turning true (at 1)).value))
        ≡ ok (at 1))
pgval_to_moment-new_parameter_run =
    pgval_to_moment-new_parameter turning true 9 8 1 5 6 10958 month turning-IsNet
      (
        omega arith,
        (omega arith, inl (omega arith)),
        (omega arith, inl (omega arith)),
        (omega arith, inl (omega arith)),
      )
      (omega arith, omega arith, omega arith)

abbrev casts : Casts
casts = record {
  str_to_int16 = length;
  str_to_int32 = length;
  str_to_int64 = length;
  iequals = bytes_eq;
  float_to_int16 = λ v. v;
  float_to_int32 = λ v. v;
  float_to_int64 = λ v. v;
  double_to_int16 = λ v. v;
  double_to_int32 = λ v. v;
  double_to_int64 = λ v. v;
  float_to_bool = λ v. true;
  double_to_bool = λ v. true;
  numeric_text = λ v. ok (codes "0");
  time_tz_count = λ v. ok 0;
  now = 9;
  today = 8;
}

-- -2 in each width.
val_from_pgparam_widths_example :
    let as2 = cell (binary (put16 turning true 65534)) in
    let as4 = cell (binary (put32 turning true 4294967294)) in
    let as8 = cell (binary (put64 turning true 18446744073709551614)) in
    ((val_from_pgparam_int16 turning true casts 21 as2 ≡ ok 65534)
      × (val_from_pgparam_int32 turning true casts 21 as2 ≡ ok 4294967294)
      × (val_from_pgparam_int64 turning true casts 21 as2 ≡ ok 18446744073709551614))
    × ((val_from_pgparam_int16 turning true casts 23 as4 ≡ ok 65534)
        × (val_from_pgparam_int32 turning true casts 23 as4 ≡ ok 4294967294)
        × (val_from_pgparam_int64 turning true casts 23 as4 ≡ ok 18446744073709551614))
    × ((val_from_pgparam_int16 turning true casts 20 as8 ≡ ok 65534)
        × (val_from_pgparam_int32 turning true casts 20 as8 ≡ ok 4294967294)
        × (val_from_pgparam_int64 turning true casts 20 as8 ≡ ok 18446744073709551614))
val_from_pgparam_widths_example =
    val_from_pgparam_widths turning true casts 65534 turning-IsNet (omega arith)

-- A vector as the pair of its sizes and its elements.
abbrev pairs : {T : Type 0} → Jagged (List ℕ × List T) T
pairs = record { sizes = λ j. j.0; values = λ j. j.1; make = λ sizes values. (sizes, values) }

pairs-IsJagged : {T : Type 0} → IsJagged (pairs {T = T})
pairs-IsJagged = record { make-parts = λ j. refl }

abbrev others : ℕ → ℕ → Bytes → Result Fault Bytes
others oid len val = throw outside

-- Two rows of one number, and two texts.
abbrev numbers : List ℕ × List ℕ
numbers = (2 ∷ 1 ∷ [], 10 ∷ 20 ∷ [])

abbrev words : List ℕ × List Bytes
words = (2 ∷ [], codes "ab" ∷ [] ∷ [])

pgval_to_array-new_parameter_gen_example :
    let ints = int32_element turning true casts in
    let texts = string_element others in
    let sent = (new_parameter_gen turning true ints pairs numbers 23 1007).value in
    let sent' = (new_parameter_gen_string turning true texts pairs words 25 1009).value in
    ((pgval_to_array turning true ints pairs (binary sent) ≡ ok numbers)
      × (get_array_oid_and_dim turning true (binary sent) ≡ ok (23, 2)))
    × ((pgval_to_array turning true texts pairs (binary sent') ≡ ok words)
        × (get_array_oid_and_dim turning true (binary sent') ≡ ok (25, 1)))
pgval_to_array-new_parameter_gen_example =
    pgval_to_array-new_parameter_gen turning true casts others pairs pairs numbers words
      turning-IsNet pairs-IsJagged pairs-IsJagged
      (
        refl,
        omega arith,
        omega arith,
        omega arith,
        (omega arith, (omega arith, tt)),
        (omega arith, (omega arith, tt)),
      )
      (
        refl,
        omega arith,
        omega arith,
        omega arith,
        (omega arith, tt),
        (omega arith, (omega arith, tt)),
      )

pgval_to_tsrange-new_parameter_run :
    let ts = new_parameter_tsrange turning true (range_of 5 946684800000007) in
    let tz = new_parameter_tstzrange turning true (new_range 6) in
    let dates = new_parameter_daterange turning true (range_of 10958 11000) in
    ((length ts.value ≡ ts.length)
      × (length tz.value ≡ tz.length)
      × (length dates.value ≡ dates.length))
    × ((pgval_to_tsrange turning true (λ s. 0) 9 (binary ts.value)
          ≡ ok (kept 9 (range_of 5 946684800000007)))
        × (pgval_to_tstzrange turning true (λ s. 0) 9 (binary tz.value) ≡ ok (kept 9 (new_range 6)))
        × (pgval_to_daterange turning true (λ s. 0) 8 (binary dates.value)
            ≡ ok (kept 8 (range_of 10958 11000))))
unfolding range_of new_range
pgval_to_tsrange-new_parameter_run =
    pgval_to_tsrange-new_parameter turning true (λ s. 0) 9 8 (range_of 5 946684800000007)
      (new_range 6) (range_of 10958 11000) turning-IsNet (omega arith, omega arith)
      (omega arith, omega arith) (omega arith, omega arith)

abbrev no_text : {T : Type 0} → Bytes → Result Fault T
no_text s = throw outside

val_from_pgparam_moment-new_parameter_example :
    let stamp = (new_parameter_timestamp turning true (at 5)).value in
    let zoned = (new_parameter_timestamp_tz turning true (at 6)).value in
    ((val_from_pgparam_timestamp turning true casts no_text 1114 (cell (binary stamp)) ≡ ok (at 5))
      × (val_from_pgparam_timestamp turning true casts no_text 1184 (cell (binary zoned))
          ≡ ok (at 6))
      × (val_from_pgparam_timestamp turning true casts no_text 20
            (cell (binary (put64 turning true 5)))
          ≡ ok (at 5))
      × (val_from_pgparam_timestamp_tz turning true casts no_text 1114 (cell (binary stamp))
          ≡ ok (at 5))
      × (val_from_pgparam_timestamp_tz turning true casts no_text 1184 (cell (binary zoned))
          ≡ ok (at 6)))
    × ((val_from_pgparam_date turning true casts no_text 1082
            (cell (binary (new_parameter_date turning true (at 10958)).value))
          ≡ ok (at 10958))
        × (val_from_pgparam_time turning true casts no_text 1083
              (cell (binary (new_parameter_time turning true (at 1)).value))
            ≡ ok (at 1))
        × (val_from_pgparam_interval turning true casts no_text 1186
              (cell (binary (new_parameter_interval turning true (span month)).value))
            ≡ ok (span month)))
unfolding new_parameter_time new_parameter_timestamp new_parameter_timestamp_tz new_parameter_date
    new_parameter_interval
val_from_pgparam_moment-new_parameter_example =
    val_from_pgparam_moment-new_parameter turning true casts no_text no_text 1 5 6 10958 month
      turning-IsNet
      (
        omega arith,
        (omega arith, inl (omega arith)),
        (omega arith, inl (omega arith)),
        (omega arith, inl (omega arith)),
      )
      (omega arith, omega arith, omega arith)
