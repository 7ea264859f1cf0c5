-- ===== src/Codec/Spans.antt =====
-- The binary format of the ranges and of `numeric`: `new_parameter` and `pgval_to_range` of
-- src/data_parameters.cpp for `int4range`, `int8range` and `numrange`, and `pgval_to_numeric`.
--
-- A range is the record of `Range`; its flags are sent as the byte with their bits. Null has the
-- empty string at `val`, as libpq answers it, and the decoders of ranges do not test for it. A text
-- ends with a zero byte. A negative length but -1, which is null, is followed by nothing.
pub mod FlagBytes
pub mod Numerics
pub mod Trips
use pq_async.Common.{
  ℕ, zero, suc, ◌+◌, ◌*◌, ◌/◌, ◌%◌, Bool, true, false, List, [], ◌∷◌, ◌++◌, Bytes, codes, Result,
  ok, throw, ◌>>=◌, ltb, ◌==◌, if◌then◌else◌, length, drop,
}
use pq_async.Codec.{Net, Parameter, PgVal, null, text, binary}
use pq_async.Codec.Words.{
  Fault, bad_length, put16, put32, put64, get16, get32, get64, chars, behind,
}
use pq_async.Codec.Geometry.{byte_at}
use pq_async.Range.{Flags, Range, has_lbound, has_ubound}

abbrev pub bit : ℕ → Bool → ℕ
bit weight b = if b then weight else 0

-- `(char)value._flags`, and `(range_flag)(*out++)` of a signed `char`: its sign, which is the bit
-- of `contain_empty`, is extended to the bits above.
unfoldable pub flags_byte : Flags → ℕ
flags_byte f =
    bit 1 f.empty
    + bit 2 f.lb_inc
    + bit 4 f.ub_inc
    + bit 8 f.lb_inf
    + bit 16 f.ub_inf
    + bit 32 f.lb_null
    + bit 64 f.ub_null
    + bit 128 f.contain_empty

unfoldable pub byte_flags : ℕ → Flags
byte_flags v = record {
  empty = v % 2 == 1;
  lb_inc = v / 2 % 2 == 1;
  ub_inc = v / 4 % 2 == 1;
  lb_inf = v / 8 % 2 == 1;
  ub_inf = v / 16 % 2 == 1;
  lb_null = v / 32 % 2 == 1;
  ub_null = v / 64 % 2 == 1;
  contain_empty = v / 128 % 2 == 1;
  above = v / 128 % 2 == 1;
}

-- The default constructor of a range, with the flags that are read.
abbrev pub span_of : {T : Type 0} → ℕ → T → Range T
span_of first init = record { flags = byte_flags first; lb = init; ub = init }

-- The members `weight`, `sign` and `dscale` as patterns of 32 bits and the digits as patterns of
-- 16; `ndigits` is the length of `digits`.
pub record Numeric : Type 0 where
  pub weight : ℕ
  pub sign : ℕ
  pub dscale : ℕ
  pub digits : List ℕ

-- An `int16_t` that is stored in a member, and the cast of a member to it.
abbrev pub from_int16 : ℕ → ℕ
from_int16 v = if ltb v 32768 then v else v + 4294901760

abbrev pub as_int16 : ℕ → ℕ
as_int16 v = v % 65536

-- The bytes of one bound, their count as the encoder computes it, and the decoder of a bound.
pub record Bounds (T : Type 0) : Type 0 where
  pub put : T → Bytes
  pub size : T → ℕ
  pub get : PgVal Bytes → Result Fault T

-- What a decoder gets for `val`, `len` and `fmt`.
unfoldable pub value_at : Bool → ℕ → Bytes → Result Fault (PgVal Bytes)
value_at fmt len val =
    if len == 4294967295
    then ok null
    else if fmt
    then ok (binary val)
    else (chars len val >>= λ s. ok (text s))

module _ (net : Net) (little : Bool) where
  unfoldable pub int32_at : (Bytes → ℕ) → PgVal Bytes → Result Fault ℕ
  int32_at str_to_num null = ok 0
  int32_at str_to_num (text s) = ok (str_to_num s)
  int32_at str_to_num (binary val) = get32 net little val

  unfoldable pub int64_at : (Bytes → ℕ) → PgVal Bytes → Result Fault ℕ
  int64_at str_to_num null = ok 0
  int64_at str_to_num (text s) = ok (str_to_num s)
  int64_at str_to_num (binary val) = get64 net little val

  unfoldable pub put_digits : List ℕ → Bytes
  put_digits [] = []
  put_digits (d ∷ ds) = put16 net little d ++ put_digits ds

  unfoldable pub get_digits : ℕ → Bytes → Result Fault (List ℕ)
  get_digits zero val = ok []
  get_digits (suc n) val = do d ← get16 net little val; ds ← get_digits n (drop 2 val); ok (d ∷ ds)

  unfoldable pub put_numeric : Numeric → Bytes
  put_numeric n =
      put16 net little (length n.digits)
      ++ (put16 net little (as_int16 n.weight)
          ++ (put16 net little (as_int16 n.sign)
              ++ (put16 net little (as_int16 n.dscale) ++ put_digits n.digits)))

  unfoldable pub new_parameter_numeric : Numeric → Parameter Bytes
  new_parameter_numeric value = record {
    oid = 1700;
    value = put_numeric value;
    length = 2 * (4 + length value.digits);
    format = 1;
  }

  -- The array for the digits cannot have a negative length.
  unfoldable pub pgval_to_numeric :
      (Bytes → Result Fault Numeric) → PgVal Bytes → Result Fault Numeric
  pgval_to_numeric of_text null = of_text (codes "0")
  pgval_to_numeric of_text (text s) = of_text s
  pgval_to_numeric of_text (binary val) = do
    ndigits ← get16 net little val
    weight ← get16 net little (drop 2 val)
    sign ← get16 net little (drop 2 (drop 2 val))
    dscale ← get16 net little (drop 2 (drop 2 (drop 2 val)))
    digits ←
        if ltb ndigits 32768
        then get_digits ndigits (drop 2 (drop 2 (drop 2 (drop 2 val))))
        else throw bad_length
    ok (record {
      weight = from_int16 weight;
      sign = from_int16 sign;
      dscale = from_int16 dscale;
      digits = digits;
    })

  abbrev pub int4_bounds : (Bytes → ℕ) → Bounds ℕ
  int4_bounds str_to_num = record {
    put = put32 net little;
    size = λ v. 4;
    get = int32_at str_to_num;
  }

  abbrev pub int8_bounds : (Bytes → ℕ) → Bounds ℕ
  int8_bounds str_to_num = record {
    put = put64 net little;
    size = λ v. 8;
    get = int64_at str_to_num;
  }

  abbrev pub numeric_bounds : (Bytes → Result Fault Numeric) → Bounds Numeric
  numeric_bounds of_text = record {
    put = put_numeric;
    size = λ v. 2 * (4 + length v.digits);
    get = pgval_to_numeric of_text;
  }

  module _ {T : Type 0} (item : Bounds T) where
    unfoldable pub put_bound : Bool → T → Bytes
    put_bound has v = if has then put32 net little (item.size v) ++ item.put v else []

    unfoldable pub bound_length : Bool → T → ℕ
    bound_length has v = if has then 4 + item.size v else 0

    unfoldable pub new_parameter_range : ℕ → Range T → Parameter Bytes
    unfolding has_lbound has_ubound
    new_parameter_range number value = record {
      oid = number;
      value =
          flags_byte value.flags
          ∷ (put_bound (has_lbound value) value.lb ++ put_bound (has_ubound value) value.ub);
      length =
          1 + bound_length (has_lbound value) value.lb + bound_length (has_ubound value) value.ub;
      format = 1;
    }

    -- The length, the value, and the pointer behind it; `init` is the bound that is there.
    unfoldable pub get_bound : (Bytes → ℕ) → Bool → Bool → T → Bytes → Result Fault (T × Bytes)
    get_bound str_to_num fmt has init out =
        if has
        then (do
          word ← value_at fmt 4 out
          l ← int32_at str_to_num word
          val ← value_at fmt l (drop 4 out)
          v ← item.get val
          ok (v, behind l out))
        else ok (init, out)

    unfoldable pub range_at : (Bytes → ℕ) → T → Bool → Bytes → Result Fault (Range T)
    range_at str_to_num init fmt val = do
      first ← byte_at val
      let r = span_of first init
      (lb, next) ← get_bound str_to_num fmt (has_lbound r) init (drop 1 val)
      (ub, end) ← get_bound str_to_num fmt (has_ubound r) init next
      ok (record r { lb = lb; ub = ub })

    unfoldable pub pgval_to_range : (Bytes → ℕ) → T → PgVal Bytes → Result Fault (Range T)
    pgval_to_range str_to_num init null = range_at str_to_num init true (0 ∷ [])
    pgval_to_range str_to_num init (text s) = range_at str_to_num init false (s ++ (0 ∷ []))
    pgval_to_range str_to_num init (binary val) = range_at str_to_num init true val

  abbrev pub new_parameter_int4range : Range ℕ → Parameter Bytes
  new_parameter_int4range value = new_parameter_range (int4_bounds (λ s. 0)) 3904 value

  abbrev pub new_parameter_int8range : Range ℕ → Parameter Bytes
  new_parameter_int8range value = new_parameter_range (int8_bounds (λ s. 0)) 3926 value

  abbrev pub new_parameter_numrange : Range Numeric → Parameter Bytes
  new_parameter_numrange value =
      new_parameter_range (numeric_bounds (λ s. throw bad_length)) 3906 value

  abbrev pub pgval_to_int4range : (Bytes → ℕ) → PgVal Bytes → Result Fault (Range ℕ)
  pgval_to_int4range str_to_num val = pgval_to_range (int4_bounds str_to_num) str_to_num 0 val

  abbrev pub pgval_to_int8range : (Bytes → ℕ) → PgVal Bytes → Result Fault (Range ℕ)
  pgval_to_int8range str_to_num val = pgval_to_range (int8_bounds str_to_num) str_to_num 0 val

  -- With the default constructor of `numeric`.
  abbrev pub pgval_to_numrange :
      (Bytes → ℕ)
      → (Bytes → Result Fault Numeric)
      → Numeric
      → PgVal Bytes
      → Result Fault (Range Numeric)
  pgval_to_numrange str_to_num of_text init val =
      pgval_to_range (numeric_bounds of_text) str_to_num init val
