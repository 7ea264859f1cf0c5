-- ===== src/Codec/Spans/Trips.antt =====
-- src/data_parameters.cpp: ranges that are sent and read back.
use pq_async.Common.{
  ℕ, ◌<◌, Bool, true, false, [], ◌++◌, Bytes, Result, ok, throw, ◌≡◌, refl, subst, arith, ◌==◌,
  if◌then◌else◌, length, append_assoc, append-nil, drop-append, length-append,
}
use pq_async.Codec.{Net, IsNet, null, binary}
use pq_async.Codec.Words.{
  Fault, outside, put32, get32, get32-put32, get64-put64, drop-put32, length-put32, length-put64,
}
use pq_async.Codec.Geometry.{byte_at}
use pq_async.Codec.Geometry.Points.{IsWord}
use pq_async.Codec.Spans.{
  byte_flags, Numeric, Bounds, value_at, int32_at, int64_at, int4_bounds, int8_bounds,
  numeric_bounds, put_bound, bound_length, new_parameter_range, get_bound, range_at, pgval_to_range,
  new_parameter_int4range, new_parameter_int8range, new_parameter_numrange, pgval_to_int4range,
  pgval_to_int8range, pgval_to_numrange,
}
use pq_async.Range.{Range, has_lbound, has_ubound}
use pq_async.Codec.Spans.FlagBytes.{flags_lem}
use pq_async.Codec.Spans.Numerics.{IsNumeric, length-put_numeric, get_numeric-put_numeric}

-- A range that is read back: its flags, with `contain_empty` in all bits above them, and the bounds
-- that it has; a bound that it has not is that of the default constructor.
abbrev pub kept : {T : Type 0} → T → Range T → Range T
kept init r = record r {
  flags = record (r.flags) { above = r.flags.contain_empty };
  lb = if has_lbound r then r.lb else init;
  ub = if has_ubound r then r.ub else init;
}

-- A bound of the type is read back from what was sent for it.
pub record IsBounds {T : Type 0} (item : Bounds T) (P : T → Type 0) : Type 0 where
  pub length-put : (v : T) → length (item.put v) ≡ item.size v
  pub get-put : (v : T) (rest : Bytes) → P v → item.get (binary (item.put v ++ rest)) ≡ ok v
  pub small : (v : T) → P v → item.size v < 2147483648

not_null : (x : ℕ) → x < 2147483648 → (x == 4294967295) ≡ false
not_null x h = ground arith

module _ (net : Net) (is : IsNet net) (little : Bool) where
  module _ {T : Type 0} (item : Bounds T) (P : T → Type 0) (of : IsBounds item P) where
    length-put_bound :
        (has : Bool) (v : T)
        → length (put_bound net little item has v) ≡ bound_length net little item has v
    unfolding put_bound bound_length
    length-put_bound true v =
        rw
          (
            length-append (put32 net little (item.size v)),
            length-put32 net is little _,
            of.length-put v,
          )
          refl
    length-put_bound false v = refl

    get_bound-put_bound :
        (str_to_num : Bytes → ℕ) (has : Bool) (init v : T) (rest : Bytes)
        → P v
        → get_bound net little item str_to_num true has init
            (put_bound net little item has v ++ rest)
          ≡ ok (if has then v else init, rest)
    unfolding get_bound put_bound value_at int32_at
    get_bound-put_bound str_to_num true init v rest h =
        rw
          (
            append_assoc (put32 net little (item.size v)) (item.put v) rest,
            get32-put32 net is little (item.size v) (item.put v ++ rest)
                (omega (arith, of.small v h)),
            drop-put32 net is little (item.size v) (item.put v ++ rest),
            not_null (item.size v) (of.small v h),
            of.get-put v rest h,
            drop-append (item.put v) rest (item.size v) (of.length-put v),
          )
          refl
    get_bound-put_bound str_to_num false init v rest h = refl

    get_bound-alone :
        (str_to_num : Bytes → ℕ) (has : Bool) (init v : T)
        → P v
        → get_bound net little item str_to_num true has init (put_bound net little item has v)
          ≡ ok (if has then v else init, [])
    get_bound-alone str_to_num has init v h =
        subst
          (λ val.
            get_bound net little item str_to_num true has init val
            ≡ ok (if has then v else init, []))
          (append-nil _) (get_bound-put_bound str_to_num has init v [] h)

    pub range_at-sent :
        (str_to_num : Bytes → ℕ) (init : T) (number : ℕ) (r : Range T)
        → P r.lb
        → P r.ub
        → let sent = new_parameter_range net little item number r in
          (length sent.value ≡ sent.length)
          × (pgval_to_range net little item str_to_num init (binary sent.value) ≡ ok (kept init r))
    unfolding new_parameter_range pgval_to_range range_at byte_at has_lbound has_ubound
    range_at-sent str_to_num init number r hl hu = (
      omega (
        arith,
        length-append (put_bound net little item (has_lbound r) r.lb)
            (put_bound net little item (has_ubound r) r.ub),
        length-put_bound (has_lbound r) r.lb,
        length-put_bound (has_ubound r) r.ub,
      ),
      rw
          (
            flags_lem r.flags,
            get_bound-put_bound str_to_num (has_lbound r) init r.lb
                (put_bound net little item (has_ubound r) r.ub) hl,
            get_bound-alone str_to_num (has_ubound r) init r.ub hu,
          )
          refl,
    )

  int4_IsBounds :
      (str_to_num : Bytes → ℕ) → IsBounds (int4_bounds net little str_to_num) (λ v. v < 4294967296)
  unfolding int32_at
  int4_IsBounds str_to_num = record {
    length-put = length-put32 net is little;
    get-put = get32-put32 net is little;
    small = λ v h. omega arith;
  }

  int8_IsBounds : (str_to_num : Bytes → ℕ) → IsBounds (int8_bounds net little str_to_num) IsWord
  unfolding int64_at
  int8_IsBounds str_to_num = record {
    length-put = length-put64 net is little;
    get-put = get64-put64 net is little;
    small = λ v h. omega arith;
  }

  numeric_IsBounds :
      (of_text : Bytes → Result Fault Numeric)
      → IsBounds (numeric_bounds net little of_text) IsNumeric
  numeric_IsBounds of_text = record {
    length-put = length-put_numeric net is little;
    get-put = get_numeric-put_numeric net is little of_text;
    small = λ v (hw, hs, hd, hn, hl). omega (arith, hl);
  }

-- On a host of either byte order a range of 32 bit or 64 bit integers or of numerics is sent with
-- the length that is declared, and is read back with its flags and the bounds that it has; a bound
-- that it has not becomes that of the default constructor, and the bits above the flags become
-- `contain_empty`. The integers are bit patterns, the members of a numeric, its sign with them, are
-- what an `int16_t` holds, so that it is not nan, its digits are patterns of 16 bits, and the
-- conversions of texts do not matter.
pub pgval_to_range-new_parameter :
    (net : Net) (little : Bool) (str_to_num : Bytes → ℕ) (of_text : Bytes → Result Fault Numeric)
    (i j : Range ℕ) (n : Range Numeric) (zero_num : Numeric)
    → IsNet net
    → (i.lb < 4294967296) × (i.ub < 4294967296)
    → IsWord j.lb × IsWord j.ub
    → IsNumeric n.lb × IsNumeric n.ub
    → let sent4 = new_parameter_int4range net little i in
      let sent8 = new_parameter_int8range net little j in
      let sent_num = new_parameter_numrange net little n in
      ((length sent4.value ≡ sent4.length)
        × (length sent8.value ≡ sent8.length)
        × (length sent_num.value ≡ sent_num.length))
      × ((pgval_to_int4range net little str_to_num (binary sent4.value) ≡ ok (kept 0 i))
          × (pgval_to_int8range net little str_to_num (binary sent8.value) ≡ ok (kept 0 j))
          × (pgval_to_numrange net little str_to_num of_text zero_num (binary sent_num.value)
              ≡ ok (kept zero_num n)))
unfolding new_parameter_range put_bound bound_length
pgval_to_range-new_parameter net little str_to_num of_text i j n zero_num is hi hj hn =
    let a =
      range_at-sent net is little (int4_bounds net little str_to_num) (λ v. v < 4294967296)
        (int4_IsBounds net is little str_to_num) str_to_num 0 3904 i (hi.0) (hi.1) in
    let b =
      range_at-sent net is little (int8_bounds net little str_to_num) IsWord
        (int8_IsBounds net is little str_to_num) str_to_num 0 3926 j (hj.0) (hj.1) in
    let c =
      range_at-sent net is little (numeric_bounds net little of_text) IsNumeric
        (numeric_IsBounds net is little of_text) str_to_num zero_num 3906 n (hn.0) (hn.1) in
    ((a.0, b.0, c.0), (a.1, b.1, c.1))

-- A range that is null is not read: the decoder takes the zero byte behind the empty string for
-- flags that say that there are two bounds, and reads behind the end of the value.
pub pgval_to_range_null :
    (net : Net) (little : Bool) (str_to_num : Bytes → ℕ) {T : Type 0} (item : Bounds T) (init : T)
    → pgval_to_range net little item str_to_num init null ≡ throw outside
unfolding pgval_to_range range_at byte_at get_bound byte_flags has_lbound value_at int32_at get32
pgval_to_range_null net little str_to_num item init = refl
