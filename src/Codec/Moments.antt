-- ===== src/Codec/Moments.antt =====
-- Values in the times that a caller asks for: `val_from_pgparam` of src/data_parameters.cpp for
-- `time`, `timestamp`, `timestamp_tz`, `date` and `interval`.
--
-- The parsers of texts are arguments. A number counts as ticks, of the years 1 to 32767.
pub mod Numbers
use pq_async.Common.{ℕ, Bool, Bytes, Result, ok, throw}
use pq_async.Codec.{Net, PgVal, null, text, binary}
use pq_async.Codec.Words.{Fault, unsupported_oid, bad_length, ◌<$>◌}
use pq_async.Codec.Spans.{int32_at, int64_at}
use pq_async.Codec.Times.{
  Moment, null_moment, at, Interval, span, value, time_of, pgval_to_time, pgval_to_timestamp,
  pgval_to_timestamp_tz, pgval_to_date, pgval_to_interval,
}
use pq_async.Codec.Conversions.{
  Casts, Cell, null_text, cell, Kind, bool_oid, text_oid, int2_oid, int4_oid, int8_oid, float4_oid,
  float8_oid, time_oid, timestamp_oid, timestamptz_oid, date_oid, interval_oid, kind_of, int16_of,
  string_of, int16_to_int64, int32_to_int64, to_int32,
}

-- The cases that the types share: texts, and numbers in the constructor from an `int64_t`.
module _ (net : Net) (little : Bool) (casts : Casts) {T : Type 0} (parse : Bytes → Result Fault T)
    (of_int64 : ℕ → T) where
  unfoldable pub from_number : Kind → PgVal Bytes → Result Fault T
  from_number text_oid val = parse (string_of val)
  from_number int2_oid val = (λ v. of_int64 (int16_to_int64 v)) <$> int16_of net little casts val
  from_number int4_oid val = (λ v. of_int64 (int32_to_int64 v)) <$> int32_at net little (λ s. 0) val
  from_number int8_oid val = of_int64 <$> int64_at net little (λ s. 0) val
  from_number float4_oid val =
      (λ v. of_int64 (casts.float_to_int64 v)) <$> int32_at net little (λ s. 0) val
  from_number float8_oid val =
      (λ v. of_int64 (casts.double_to_int64 v)) <$> int64_at net little (λ s. 0) val
  from_number _ val = throw unsupported_oid

  -- The `switch`, behind the test of the format.
  abbrev pub in_binary : (Kind → PgVal Bytes → Result Fault T) → ℕ → Cell → Result Fault T
  in_binary switch oid null_text = throw bad_length
  in_binary switch oid (cell (text s)) = parse s
  in_binary switch oid (cell val) = switch (kind_of oid) val

module _ (net : Net) (little : Bool) (casts : Casts) where
  unfoldable switch_time : (Bytes → Result Fault Moment) → Kind → PgVal Bytes → Result Fault Moment
  switch_time parse time_oid val = pgval_to_time net little (value val)
  switch_time parse k val = from_number net little casts parse (λ v. at (time_of v)) k val

  unfoldable pub val_from_pgparam_time :
      (Bytes → Result Fault Moment) → ℕ → Cell → Result Fault Moment
  unfolding switch_time
  val_from_pgparam_time parse oid val =
      in_binary net little casts parse (λ v. at (time_of v)) (switch_time parse) oid val

  unfoldable switch_timestamp :
      (Bytes → Result Fault Moment) → Kind → PgVal Bytes → Result Fault Moment
  switch_timestamp parse timestamp_oid val = pgval_to_timestamp net little casts.now (value val)
  switch_timestamp parse timestamptz_oid val =
      pgval_to_timestamp_tz net little casts.now (value val)
  switch_timestamp parse k val = from_number net little casts parse at k val

  unfoldable pub val_from_pgparam_timestamp :
      (Bytes → Result Fault Moment) → ℕ → Cell → Result Fault Moment
  unfolding switch_timestamp
  val_from_pgparam_timestamp parse oid val =
      in_binary net little casts parse at (switch_timestamp parse) oid val

  unfoldable switch_timestamp_tz :
      (Bytes → Result Fault Moment) → Kind → PgVal Bytes → Result Fault Moment
  switch_timestamp_tz parse timestamp_oid val = pgval_to_timestamp net little casts.now (value val)
  switch_timestamp_tz parse timestamptz_oid val =
      pgval_to_timestamp_tz net little casts.now (value val)
  switch_timestamp_tz parse k val = from_number net little casts parse at k val

  unfoldable pub val_from_pgparam_timestamp_tz :
      (Bytes → Result Fault Moment) → ℕ → Cell → Result Fault Moment
  unfolding switch_timestamp_tz
  val_from_pgparam_timestamp_tz parse oid val =
      in_binary net little casts parse at (switch_timestamp_tz parse) oid val

  unfoldable switch_date : (Bytes → Result Fault Moment) → Kind → PgVal Bytes → Result Fault Moment
  switch_date parse date_oid val = pgval_to_date net little casts.today (value val)
  switch_date parse k val = from_number net little casts parse (λ v. at (to_int32 v)) k val

  unfoldable pub val_from_pgparam_date :
      (Bytes → Result Fault Moment) → ℕ → Cell → Result Fault Moment
  unfolding switch_date
  val_from_pgparam_date parse oid val =
      in_binary net little casts parse (λ v. at (to_int32 v)) (switch_date parse) oid val

  unfoldable switch_interval :
      (Bytes → Result Fault Interval) → Kind → PgVal Bytes → Result Fault Interval
  switch_interval parse interval_oid val = pgval_to_interval net little (value val)
  switch_interval parse k val =
      from_number net little casts parse (λ v. span (record { time = v; days = 0; months = 0 })) k
        val

  unfoldable pub val_from_pgparam_interval :
      (Bytes → Result Fault Interval) → ℕ → Cell → Result Fault Interval
  unfolding switch_interval
  val_from_pgparam_interval parse oid val =
      in_binary net little casts parse (λ v. span (record { time = v; days = 0; months = 0 }))
        (switch_interval parse) oid val
