-- ===== src/Codec/Moments/Numbers.antt =====
-- src/data_parameters.cpp: the number that a time is sent with is the one that it is read under.
use pq_async.Common.{ℕ, ◌<◌, Bool, Bytes, Result, ok, ◌≡◌, refl}
use pq_async.Codec.{Net, IsNet, binary}
use pq_async.Codec.Words.{Fault, put64}
use pq_async.Codec.Spans.{int64_at}
use pq_async.Codec.Geometry.Points.{IsWord, get64-alone}
use pq_async.Codec.Conversions.{Casts, cell, kind_of}
use pq_async.Codec.Times.{
  Moment, at, Span, Interval, span, day_usec, new_parameter_time, new_parameter_timestamp,
  new_parameter_timestamp_tz, new_parameter_date, new_parameter_interval, pgval_to_timestamp,
  pgval_to_timestamp_tz,
}
use pq_async.Codec.Times.Epochs.{IsStamp, IsDay, pgval_to_moment-new_parameter}
use pq_async.Codec.Moments.{
  val_from_pgparam_time, val_from_pgparam_timestamp, val_from_pgparam_timestamp_tz,
  val_from_pgparam_date, val_from_pgparam_interval, from_number,
}

-- A timestamp, with or without a time zone, is read as either, a time within its day, a date and an
-- interval are read as what they are, each as it was and under the number of the type that it is
-- sent with, on a host of either byte order; and an integer of 64 bits is read as a timestamp of as
-- many ticks. The ticks of timestamps and dates are of the years 1 to 32767, the members of an
-- interval are patterns of their widths, and the parsers of texts and the
-- casts do not matter.
pub val_from_pgparam_moment-new_parameter :
    (net : Net) (little : Bool) (casts : Casts) (parse : Bytes → Result Fault Moment)
    (parse_interval : Bytes → Result Fault Interval) (t s z d : ℕ) (i : Span)
    → IsNet net
    → (t < day_usec) × IsStamp s × IsStamp z × IsDay d
    → IsWord i.time × (i.days < 4294967296) × (i.months < 4294967296)
    → let stamp = new_parameter_timestamp net little (at s) in
      let zoned = new_parameter_timestamp_tz net little (at z) in
      let day = new_parameter_date net little (at d) in
      let time = new_parameter_time net little (at t) in
      let length = new_parameter_interval net little (span i) in
      ((val_from_pgparam_timestamp net little casts parse stamp.oid (cell (binary stamp.value))
          ≡ ok (at s))
        × (val_from_pgparam_timestamp net little casts parse zoned.oid (cell (binary zoned.value))
            ≡ ok (at z))
        × (val_from_pgparam_timestamp net little casts parse 20 (cell (binary (put64 net little s)))
            ≡ ok (at s))
        × (val_from_pgparam_timestamp_tz net little casts parse stamp.oid
              (cell (binary stamp.value))
            ≡ ok (at s))
        × (val_from_pgparam_timestamp_tz net little casts parse zoned.oid
              (cell (binary zoned.value))
            ≡ ok (at z)))
      × ((val_from_pgparam_date net little casts parse day.oid (cell (binary day.value))
            ≡ ok (at d))
          × (val_from_pgparam_time net little casts parse time.oid (cell (binary time.value))
              ≡ ok (at t))
          × (val_from_pgparam_interval net little casts parse_interval length.oid
                (cell (binary length.value))
              ≡ ok (span i)))
unfolding val_from_pgparam_time val_from_pgparam_timestamp val_from_pgparam_timestamp_tz
    val_from_pgparam_date val_from_pgparam_interval kind_of from_number int64_at new_parameter_time
    new_parameter_timestamp new_parameter_timestamp_tz new_parameter_date new_parameter_interval
    pgval_to_timestamp pgval_to_timestamp_tz
val_from_pgparam_moment-new_parameter net little casts parse parse_interval t s z d i is h k =
    let all = pgval_to_moment-new_parameter net little casts.now casts.today t s z d i is h k in
    (
      (all.0, all.1, rw (get64-alone net is little s (h.1.0)) refl, all.0, all.1),
      (all.2, all.4, all.3),
    )
