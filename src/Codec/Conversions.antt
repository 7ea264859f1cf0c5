-- ===== src/Codec/Conversions.antt =====
-- Values in the numbers that a caller asks for: `val_from_pgparam` of src/data_parameters.cpp for
-- `int16_t`, `int32_t`, `int64_t` and `bool`.
--
-- An integer is a bit pattern of its width. `md::str_to_num` and `md::iequals`, the casts from
-- floating point numbers, the text of a numeric and the milliseconds of a time with a zone are the
-- record `Casts`. A null in text format is a `std::string` of length -1, which throws.
pub mod Widths
use pq_async.Common.{
  ℕ, zero, suc, ◌+◌, ◌-◌, ◌%◌, Bool, true, false, not, ◌||◌, List, [], ◌∷◌, Bytes, codes, bytes_eq,
  Result, ok, throw, ◌>>=◌, ltb, ◌==◌, if◌then◌else◌,
}
use pq_async.Codec.{Net, PgVal, null, text, binary}
use pq_async.Codec.Words.{Fault, unsupported_oid, bad_length, get16, get32, get64, ◌<$>◌}
use pq_async.Codec.Networks.{pgval_to_bool}
use pq_async.Codec.Spans.{int32_at, int64_at}
use pq_async.Codec.Times.{
  Moment, null_moment, at, Interval, null_interval, span, value, pgval_to_time, pgval_to_timestamp,
  pgval_to_timestamp_tz, pgval_to_date, pgval_to_interval,
}

pub record Casts : Type 0 where
  pub str_to_int16 : Bytes → ℕ
  pub str_to_int32 : Bytes → ℕ
  pub str_to_int64 : Bytes → ℕ
  pub iequals : Bytes → Bytes → Bool
  pub float_to_int16 : ℕ → ℕ
  pub float_to_int32 : ℕ → ℕ
  pub float_to_int64 : ℕ → ℕ
  pub double_to_int16 : ℕ → ℕ
  pub double_to_int32 : ℕ → ℕ
  pub double_to_int64 : ℕ → ℕ
  pub float_to_bool : ℕ → Bool
  pub double_to_bool : ℕ → Bool
  pub numeric_text : PgVal Bytes → Result Fault Bytes
  pub time_tz_count : PgVal Bytes → Result Fault ℕ
  pub now : ℕ
  pub today : ℕ

-- A value with the format of its column.
pub data Cell : Type 0 where
  null_text : Cell
  cell : PgVal Bytes → Cell

-- Sign extension and the casts to fewer bits.
abbrev pub extend16 : ℕ → ℕ → ℕ
extend16 ones v = if ltb v 32768 then v else v + ones

abbrev pub int16_to_int32 : ℕ → ℕ
int16_to_int32 v = extend16 4294901760 v

abbrev pub int16_to_int64 : ℕ → ℕ
int16_to_int64 v = extend16 18446744073709486080 v

abbrev pub int32_to_int64 : ℕ → ℕ
int32_to_int64 v = if ltb v 2147483648 then v else v + 18446744069414584320

abbrev pub to_int16 : ℕ → ℕ
to_int16 v = v % 65536

abbrev pub to_int32 : ℕ → ℕ
to_int32 v = v % 4294967296

-- The kinds of numbers of the `switch`.
pub data Kind : Type 0 where
  bool_oid text_oid int2_oid int4_oid int8_oid float4_oid float8_oid numeric_oid : Kind
  time_oid timetz_oid timestamp_oid timestamptz_oid date_oid interval_oid other_oid : Kind

abbrev kinds : List (ℕ × Kind)
kinds =
    (16, bool_oid)
    ∷ (25, text_oid)
    ∷ (21, int2_oid)
    ∷ (23, int4_oid)
    ∷ (20, int8_oid)
    ∷ (700, float4_oid)
    ∷ (701, float8_oid)
    ∷ (1700, numeric_oid)
    ∷ (1083, time_oid)
    ∷ (1266, timetz_oid)
    ∷ (1114, timestamp_oid)
    ∷ (1184, timestamptz_oid)
    ∷ (1082, date_oid)
    ∷ (1186, interval_oid)
    ∷ []

unfoldable kind_in : List (ℕ × Kind) → ℕ → Kind
kind_in [] oid = other_oid
kind_in ((n, k) ∷ ks) oid = if oid == n then k else kind_in ks oid

unfoldable pub kind_of : ℕ → Kind
unfolding kind_in
kind_of oid = kind_in kinds oid

-- `pgticks()` of a moment that was read, which is never null.
abbrev ticks : Moment → ℕ
ticks null_moment = 0
ticks (at t) = t

abbrev interval_ticks : Interval → ℕ
interval_ticks null_interval = 0
interval_ticks (span s) = s.time

abbrev bit_of : Bool → ℕ
bit_of b = if b then 1 else 0

-- `pgval_to_string`
abbrev pub string_of : PgVal Bytes → Bytes
string_of null = []
string_of (text s) = s
string_of (binary s) = s

module _ (net : Net) (little : Bool) (casts : Casts) where
  abbrev pub int16_of : PgVal Bytes → Result Fault ℕ
  int16_of null = ok 0
  int16_of (text s) = ok (casts.str_to_int16 s)
  int16_of (binary val) = get16 net little val

  unfoldable switch_int16 : Kind → PgVal Bytes → Result Fault ℕ
  switch_int16 bool_oid val = bit_of <$> pgval_to_bool casts.iequals val
  switch_int16 text_oid val = ok (casts.str_to_int16 (string_of val))
  switch_int16 int2_oid val = int16_of val
  switch_int16 int4_oid val = to_int16 <$> int32_at net little (λ s. 0) val
  switch_int16 int8_oid val = to_int16 <$> int64_at net little (λ s. 0) val
  switch_int16 float4_oid val = casts.float_to_int16 <$> int32_at net little (λ s. 0) val
  switch_int16 float8_oid val = casts.double_to_int16 <$> int64_at net little (λ s. 0) val
  switch_int16 numeric_oid val = (λ s. casts.str_to_int16 s) <$> casts.numeric_text val
  switch_int16 _ val = throw unsupported_oid

  unfoldable pub val_from_pgparam_int16 : ℕ → Cell → Result Fault ℕ
  unfolding switch_int16
  val_from_pgparam_int16 oid null_text = throw bad_length
  val_from_pgparam_int16 oid (cell (text s)) = ok (casts.str_to_int16 s)
  val_from_pgparam_int16 oid (cell val) = switch_int16 (kind_of oid) val

  unfoldable switch_int32 : Kind → PgVal Bytes → Result Fault ℕ
  switch_int32 bool_oid val = bit_of <$> pgval_to_bool casts.iequals val
  switch_int32 text_oid val = ok (casts.str_to_int32 (string_of val))
  switch_int32 int2_oid val = int16_to_int32 <$> int16_of val
  switch_int32 int4_oid val = int32_at net little (λ s. 0) val
  switch_int32 int8_oid val = to_int32 <$> int64_at net little (λ s. 0) val
  switch_int32 float4_oid val = casts.float_to_int32 <$> int32_at net little (λ s. 0) val
  switch_int32 float8_oid val = casts.double_to_int32 <$> int64_at net little (λ s. 0) val
  switch_int32 numeric_oid val = (λ s. casts.str_to_int32 s) <$> casts.numeric_text val
  switch_int32 time_oid val = (λ m. to_int32 (ticks m)) <$> pgval_to_time net little (value val)
  switch_int32 timetz_oid val = to_int32 <$> casts.time_tz_count val
  switch_int32 timestamp_oid val =
      (λ m. to_int32 (ticks m)) <$> pgval_to_timestamp net little casts.now (value val)
  switch_int32 timestamptz_oid val =
      (λ m. to_int32 (ticks m)) <$> pgval_to_timestamp_tz net little casts.now (value val)
  switch_int32 date_oid val = ticks <$> pgval_to_date net little casts.today (value val)
  switch_int32 interval_oid val =
      (λ i. to_int32 (interval_ticks i)) <$> pgval_to_interval net little (value val)
  switch_int32 _ val = throw unsupported_oid

  unfoldable pub val_from_pgparam_int32 : ℕ → Cell → Result Fault ℕ
  unfolding switch_int32
  val_from_pgparam_int32 oid null_text = throw bad_length
  val_from_pgparam_int32 oid (cell (text s)) = ok (casts.str_to_int32 s)
  val_from_pgparam_int32 oid (cell val) = switch_int32 (kind_of oid) val

  unfoldable switch_int64 : Kind → PgVal Bytes → Result Fault ℕ
  switch_int64 bool_oid val = bit_of <$> pgval_to_bool casts.iequals val
  switch_int64 text_oid val = ok (casts.str_to_int64 (string_of val))
  switch_int64 int2_oid val = int16_to_int64 <$> int16_of val
  switch_int64 int4_oid val = int32_to_int64 <$> int32_at net little (λ s. 0) val
  switch_int64 int8_oid val = int64_at net little (λ s. 0) val
  switch_int64 float4_oid val = casts.float_to_int64 <$> int32_at net little (λ s. 0) val
  switch_int64 float8_oid val = casts.double_to_int64 <$> int64_at net little (λ s. 0) val
  switch_int64 numeric_oid val =
      (λ s. int16_to_int64 (casts.str_to_int16 s)) <$> casts.numeric_text val
  switch_int64 time_oid val = ticks <$> pgval_to_time net little (value val)
  switch_int64 timetz_oid val = casts.time_tz_count val
  switch_int64 timestamp_oid val = ticks <$> pgval_to_timestamp net little casts.now (value val)
  switch_int64 timestamptz_oid val =
      ticks <$> pgval_to_timestamp_tz net little casts.now (value val)
  switch_int64 date_oid val =
      (λ m. int32_to_int64 (ticks m)) <$> pgval_to_date net little casts.today (value val)
  switch_int64 interval_oid val = interval_ticks <$> pgval_to_interval net little (value val)
  switch_int64 _ val = throw unsupported_oid

  unfoldable pub val_from_pgparam_int64 : ℕ → Cell → Result Fault ℕ
  unfolding switch_int64
  val_from_pgparam_int64 oid null_text = throw bad_length
  val_from_pgparam_int64 oid (cell (text s)) = ok (casts.str_to_int64 s)
  val_from_pgparam_int64 oid (cell val) = switch_int64 (kind_of oid) val

  unfoldable switch_bool : Kind → PgVal Bytes → Result Fault Bool
  switch_bool bool_oid val = pgval_to_bool casts.iequals val
  switch_bool text_oid val =
      ok (not (bytes_eq (string_of val) (codes "false") || bytes_eq (string_of val) (codes "0")))
  switch_bool int2_oid val = (λ v. not (v == 0)) <$> int16_of val
  switch_bool int4_oid val = (λ v. not (v == 0)) <$> int32_at net little (λ s. 0) val
  switch_bool int8_oid val = (λ v. not (v == 0)) <$> int64_at net little (λ s. 0) val
  switch_bool float4_oid val = casts.float_to_bool <$> int32_at net little (λ s. 0) val
  switch_bool float8_oid val = casts.double_to_bool <$> int64_at net little (λ s. 0) val
  switch_bool numeric_oid val = (λ s. not (bytes_eq s (codes "0"))) <$> casts.numeric_text val
  switch_bool _ val = throw unsupported_oid

  unfoldable pub val_from_pgparam_bool : ℕ → Cell → Result Fault Bool
  unfolding switch_bool
  val_from_pgparam_bool oid null_text = throw bad_length
  val_from_pgparam_bool oid (cell (text s)) = ok (not (casts.str_to_int32 s == 0))
  val_from_pgparam_bool oid (cell val) = switch_bool (kind_of oid) val
