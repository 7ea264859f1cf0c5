-- ===== src/Codec/Times/Ranges.antt =====
-- src/data_parameters.cpp: ranges of times that are sent and read back.
use pq_async.Common.{ℕ, ◌<◌, Bool, Bytes, ok, ◌≡◌, refl, arith, length}
use pq_async.Codec.{Net, IsNet, binary}
use pq_async.Codec.Words.{get32-put32, get64-put64, length-put32, length-put64}
use pq_async.Codec.Geometry.Points.{IsWord}
use pq_async.Codec.Spans.{new_parameter_range, put_bound, bound_length}
use pq_async.Codec.Spans.Trips.{kept, IsBounds, range_at-sent}
use pq_async.Codec.Times.{
  epoch_usec, epoch_jdate, sub64, sub32, pgval_to_timestamp, pgval_to_date, timestamp_bounds,
  date_bounds, new_parameter_tsrange, new_parameter_tstzrange, new_parameter_daterange,
  pgval_to_tsrange, pgval_to_tstzrange, pgval_to_daterange,
}
use pq_async.Codec.Times.Epochs.{
  IsStamp, IsDay, add64-sub64, sub64-IsWord, add32-sub32, sub32_small,
}
use pq_async.Range.{Range}

module _ (net : Net) (is : IsNet net) (little : Bool) where
  timestamp_IsBounds : (now : ℕ) → IsBounds (timestamp_bounds net little now) IsWord
  unfolding pgval_to_timestamp
  timestamp_IsBounds now = record {
    length-put = λ v. length-put64 net is little (sub64 v epoch_usec);
    get-put = λ v rest h.
        rw (get64-put64 net is little (sub64 v epoch_usec) rest (sub64-IsWord v), add64-sub64 v h)
          refl;
    small = λ v h. omega arith;
  }

  date_IsBounds : (today : ℕ) → IsBounds (date_bounds net little today) (λ v. v < 4294967296)
  unfolding pgval_to_date
  date_IsBounds today = record {
    length-put = λ v. length-put32 net is little (sub32 v epoch_jdate);
    get-put = λ v rest h.
        rw (get32-put32 net is little (sub32 v epoch_jdate) rest (sub32_small v), add32-sub32 v h)
          refl;
    small = λ v h. omega arith;
  }

-- On a host of either byte order a range of timestamps, with a time zone or without, and one of
-- dates is sent with the length that is declared, and is read back with its flags and the bounds
-- that it has; a bound that it has not becomes the present. The bits above the flags become
-- `contain_empty`, and the ticks are of the years 1 to 32767.
pub pgval_to_tsrange-new_parameter :
    (net : Net) (little : Bool) (str_to_num : Bytes → ℕ) (now today : ℕ) (s z d : Range ℕ)
    → IsNet net
    → IsStamp s.lb × IsStamp s.ub
    → IsStamp z.lb × IsStamp z.ub
    → IsDay d.lb × IsDay d.ub
    → let ts = new_parameter_tsrange net little s in
      let tz = new_parameter_tstzrange net little z in
      let dates = new_parameter_daterange net little d in
      ((length ts.value ≡ ts.length)
        × (length tz.value ≡ tz.length)
        × (length dates.value ≡ dates.length))
      × ((pgval_to_tsrange net little str_to_num now (binary ts.value) ≡ ok (kept now s))
          × (pgval_to_tstzrange net little str_to_num now (binary tz.value) ≡ ok (kept now z))
          × (pgval_to_daterange net little str_to_num today (binary dates.value)
              ≡ ok (kept today d)))
unfolding new_parameter_range put_bound bound_length
pgval_to_tsrange-new_parameter net little str_to_num now today s z d is hs hz hd =
    let stamps = timestamp_IsBounds net is little now in
    let of =
      range_at-sent net is little (timestamp_bounds net little now) IsWord stamps str_to_num now in
    let a = of 3908 s (hs.0.0) (hs.1.0) in
    let b = of 3910 z (hz.0.0) (hz.1.0) in
    let c =
      range_at-sent net is little (date_bounds net little today) (λ v. v < 4294967296)
        (date_IsBounds net is little today) str_to_num today 3912 d (hd.0.0) (hd.1.0) in
    ((a.0, b.0, c.0), (a.1, b.1, c.1))
