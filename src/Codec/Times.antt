-- ===== src/Codec/Times.antt =====
-- The binary format of times and of ranges of times: `new_parameter` and `pgval_to_time`,
-- `pgval_to_timestamp`, `pgval_to_timestamp_tz`, `pgval_to_date` and `pgval_to_interval` of
-- src/data_parameters.cpp.
--
-- A time is null or its `pgticks()`, as a bit pattern of 64 bits, and of 32 bits for a date: those
-- of the times of the years 1 to 32767, where the ticks count from 1970 as in the calendar library,
-- and which the constructors from ticks and `pgticks()` leave as they are. Of other ticks, whose
-- year the source shifts by one in the calendar library or which its 16 bits of a year do not hold,
-- the definitions say nothing. Sums and differences wrap around. The default constructors of
-- `timestamp` and `date` ask the clock, the argument `now`.
pub mod Epochs
pub mod Ranges
use pq_async.Common.{
  ltb, if◌then◌else◌, ℕ, ◌+◌, ◌-◌, ◌%◌, Bool, true, false, List, [], ◌∷◌, ◌++◌, Bytes, Result, ok,
  throw, ◌>>=◌, drop,
}
use pq_async.Codec.{Net, Parameter, PgVal, null, text, binary}
use pq_async.Codec.Spans.{Bounds, new_parameter_range, pgval_to_range}
use pq_async.Range.{Range}
use pq_async.Codec.Words.{Fault, unsupported_text, put32, put64, get32, get64}

pub data Moment : Type 0 where
  null_moment : Moment
  at : ℕ → Moment

-- The members of an interval: microseconds of `time_of_day()`, days and months.
pub record Span : Type 0 where
  pub time : ℕ
  pub days : ℕ
  pub months : ℕ

pub data Interval : Type 0 where
  null_interval : Interval
  span : Span → Interval

-- The argument `val` of a decoder: no pointer, or one to what a result has.
pub data Val : Type 0 where
  no_pointer : Val
  value : PgVal Bytes → Val

-- `POSTGRES_EPOCH_USEC` and `POSTGRES_EPOCH_JDATE`
abbrev pub epoch_usec : ℕ
epoch_usec = 946684800000000

abbrev pub epoch_jdate : ℕ
epoch_jdate = 10957

abbrev pub add64 : ℕ → ℕ → ℕ
add64 a b = (a + b) % 18446744073709551616

abbrev pub sub64 : ℕ → ℕ → ℕ
sub64 a b = (a + (18446744073709551616 - b)) % 18446744073709551616

abbrev pub add32 : ℕ → ℕ → ℕ
add32 a b = (a + b) % 4294967296

abbrev pub sub32 : ℕ → ℕ → ℕ
sub32 a b = (a + (4294967296 - b)) % 4294967296

-- The microseconds of a day, and those of ticks, which may be negative, within their day.
abbrev pub day_usec : ℕ
day_usec = 86400000000

abbrev pub time_of : ℕ → ℕ
time_of ticks =
    (if ltb ticks 9223372036854775808 then ticks else ticks + (day_usec - 28909551616)) % day_usec

unfoldable pub new_null_parameter : ℕ → Parameter Bytes
new_null_parameter number = record { oid = number; value = []; length = 0; format = 1 }

module _ (net : Net) (little : Bool) where
  abbrev word_parameter : ℕ → ℕ → Parameter Bytes
  word_parameter number v = record {
    oid = number;
    value = put64 net little v;
    length = 8;
    format = 1;
  }

  unfoldable pub new_parameter_time : Moment → Parameter Bytes
  unfolding new_null_parameter
  new_parameter_time null_moment = new_null_parameter 1083
  new_parameter_time (at ticks) = word_parameter 1083 ticks

  unfoldable pub new_parameter_timestamp : Moment → Parameter Bytes
  unfolding new_null_parameter
  new_parameter_timestamp null_moment = new_null_parameter 1114
  new_parameter_timestamp (at ticks) = word_parameter 1114 (sub64 ticks epoch_usec)

  unfoldable pub new_parameter_timestamp_tz : Moment → Parameter Bytes
  unfolding new_null_parameter
  new_parameter_timestamp_tz null_moment = new_null_parameter 1184
  new_parameter_timestamp_tz (at ticks) = word_parameter 1184 (sub64 ticks epoch_usec)

  unfoldable pub new_parameter_date : Moment → Parameter Bytes
  unfolding new_null_parameter
  new_parameter_date null_moment = new_null_parameter 1082
  new_parameter_date (at ticks) = record {
    oid = 1082;
    value = put32 net little (sub32 ticks epoch_jdate);
    length = 4;
    format = 1;
  }

  unfoldable pub new_parameter_interval : Interval → Parameter Bytes
  unfolding new_null_parameter
  new_parameter_interval null_interval = new_null_parameter 1186
  new_parameter_interval (span s) = record {
    oid = 1186;
    value = put64 net little s.time ++ (put32 net little s.days ++ put32 net little s.months);
    length = 16;
    format = 1;
  }

  -- `time(pgticks)` keeps the time within its day, rounding down: 2^64 leaves 28909551616 behind
  -- whole days. The time of null is made of 0.
  unfoldable pub pgval_to_time : Val → Result Fault Moment
  pgval_to_time no_pointer = ok null_moment
  pgval_to_time (value null) = ok (at 0)
  pgval_to_time (value (text s)) = throw unsupported_text
  pgval_to_time (value (binary val)) = do
    tval ← get64 net little val
    ok (at (time_of (add64 tval epoch_usec)))

  unfoldable pub pgval_to_timestamp : ℕ → Val → Result Fault Moment
  pgval_to_timestamp now no_pointer = ok null_moment
  pgval_to_timestamp now (value null) = ok (at now)
  pgval_to_timestamp now (value (text s)) = throw unsupported_text
  pgval_to_timestamp now (value (binary val)) = do
    tval ← get64 net little val
    ok (at (add64 tval epoch_usec))

  unfoldable pub pgval_to_timestamp_tz : ℕ → Val → Result Fault Moment
  pgval_to_timestamp_tz now no_pointer = ok null_moment
  pgval_to_timestamp_tz now (value null) = ok (at now)
  pgval_to_timestamp_tz now (value (text s)) = throw unsupported_text
  pgval_to_timestamp_tz now (value (binary val)) = do
    tval ← get64 net little val
    ok (at (add64 tval epoch_usec))

  unfoldable pub pgval_to_date : ℕ → Val → Result Fault Moment
  pgval_to_date today no_pointer = ok null_moment
  pgval_to_date today (value null) = ok (at today)
  pgval_to_date today (value (text s)) = throw unsupported_text
  pgval_to_date today (value (binary val)) = do
    dval ← get32 net little val
    ok (at (add32 dval epoch_jdate))

  unfoldable pub pgval_to_interval : Val → Result Fault Interval
  pgval_to_interval no_pointer = ok null_interval
  pgval_to_interval (value null) = ok (span (record { time = 0; days = 0; months = 0 }))
  pgval_to_interval (value (text s)) = throw unsupported_text
  pgval_to_interval (value (binary val)) = do
    tval ← get64 net little val
    dval ← get32 net little (drop 8 val)
    mval ← get32 net little (drop 4 (drop 8 val))
    ok (span (record { time = tval; days = dval; months = mval }))

-- The bounds of ranges of times: their `pgticks()`, and the decoder of a time.
module _ (net : Net) (little : Bool) where
  abbrev ticks_of : Result Fault Moment → Result Fault ℕ
  ticks_of (ok (at ticks)) = ok ticks
  ticks_of (ok null_moment) = ok 0
  ticks_of (throw fault) = throw fault

  abbrev pub timestamp_bounds : ℕ → Bounds ℕ
  timestamp_bounds now = record {
    put = λ ticks. put64 net little (sub64 ticks epoch_usec);
    size = λ ticks. 8;
    get = λ val. ticks_of (pgval_to_timestamp net little now (value val));
  }

  abbrev pub date_bounds : ℕ → Bounds ℕ
  date_bounds today = record {
    put = λ ticks. put32 net little (sub32 ticks epoch_jdate);
    size = λ ticks. 4;
    get = λ val. ticks_of (pgval_to_date net little today (value val));
  }

  abbrev pub new_parameter_tsrange : Range ℕ → Parameter Bytes
  new_parameter_tsrange range = new_parameter_range net little (timestamp_bounds 0) 3908 range

  abbrev pub new_parameter_tstzrange : Range ℕ → Parameter Bytes
  new_parameter_tstzrange range = new_parameter_range net little (timestamp_bounds 0) 3910 range

  abbrev pub new_parameter_daterange : Range ℕ → Parameter Bytes
  new_parameter_daterange range = new_parameter_range net little (date_bounds 0) 3912 range

  -- The default constructor of a range takes that of its bounds, which asks the clock.
  abbrev pub pgval_to_tsrange : (Bytes → ℕ) → ℕ → PgVal Bytes → Result Fault (Range ℕ)
  pgval_to_tsrange str_to_num now val =
      pgval_to_range net little (timestamp_bounds now) str_to_num now val

  abbrev pub pgval_to_tstzrange : (Bytes → ℕ) → ℕ → PgVal Bytes → Result Fault (Range ℕ)
  pgval_to_tstzrange str_to_num now val =
      pgval_to_range net little (timestamp_bounds now) str_to_num now val

  abbrev pub pgval_to_daterange : (Bytes → ℕ) → ℕ → PgVal Bytes → Result Fault (Range ℕ)
  pgval_to_daterange str_to_num today val =
      pgval_to_range net little (date_bounds today) str_to_num today val
