-- ===== src/Codec/Times/Epochs.antt =====
-- src/data_parameters.cpp: times that are sent and read back.
use pq_async.Common.{ℕ, ◌<◌, ◌≤◌, ◌⊎◌, Bool, [], ok, ◌≡◌, refl, subst, arith, append-nil}
use pq_async.Codec.{Net, IsNet, binary}
use pq_async.Codec.Words.{get32, get32-put32, get64-put64, drop-put32, drop-put64}
use pq_async.Codec.Geometry.Points.{IsWord, get64-alone}
use pq_async.Codec.Times.{
  at, Span, span, value, epoch_usec, epoch_jdate, day_usec, time_of, add64, sub64, add32, sub32,
  new_parameter_time, new_parameter_timestamp, new_parameter_timestamp_tz, new_parameter_date,
  new_parameter_interval, pgval_to_time, pgval_to_timestamp, pgval_to_timestamp_tz, pgval_to_date,
  pgval_to_interval,
}

-- Ticks from the start of the year 1 to the end of the year 32767, as patterns. They are those
-- that the constructors and `pgticks` leave as they are: before, years are shifted by one, and
-- behind, the 16 bits of a year do not suffice.
abbrev pub IsStamp : ℕ → Type 0
IsStamp v = IsWord v × ((v < 971890963200000000) ⊎ (18384608476909551616 ≤ v))

abbrev pub IsDay : ℕ → Type 0
IsDay v = (v < 4294967296) × ((v < 11248738) ⊎ (4294248134 ≤ v))

time_of-epoch : (t : ℕ) → t < day_usec → time_of (add64 t epoch_usec) ≡ t
time_of-epoch t h = ground arith

pub add64-sub64 : (v : ℕ) → IsWord v → add64 (sub64 v epoch_usec) epoch_usec ≡ v
add64-sub64 v h = omega (arith, h)

pub sub64-IsWord : (v : ℕ) → IsWord (sub64 v epoch_usec)
sub64-IsWord v = omega arith

pub add32-sub32 : (v : ℕ) → v < 4294967296 → add32 (sub32 v epoch_jdate) epoch_jdate ≡ v
add32-sub32 v h = omega (arith, h)

pub sub32_small : (v : ℕ) → sub32 v epoch_jdate < 4294967296
sub32_small v = omega arith

-- On a host of either byte order a timestamp, one with a time zone, a date and an interval, whose
-- ticks are of the years 1 to 32767 and whose members are patterns of their widths, are read back
-- as they were, wherever the difference to the epoch wraps around. So is a time within its day,
-- though it is sent without the difference to the epoch and read with the epoch added: the epoch is
-- a whole number of days.
pub pgval_to_moment-new_parameter :
    (net : Net) (little : Bool) (now today t s z d : ℕ) (i : Span)
    → IsNet net
    → (t < day_usec) × IsStamp s × IsStamp z × IsDay d
    → IsWord i.time × (i.days < 4294967296) × (i.months < 4294967296)
    → (pgval_to_timestamp net little now
          (value (binary (new_parameter_timestamp net little (at s)).value))
        ≡ ok (at s))
      × (pgval_to_timestamp_tz net little now
            (value (binary (new_parameter_timestamp_tz net little (at z)).value))
          ≡ ok (at z))
      × (pgval_to_date net little today
            (value (binary (new_parameter_date net little (at d)).value))
          ≡ ok (at d))
      × (pgval_to_interval net little
            (value (binary (new_parameter_interval net little (span i)).value))
          ≡ ok (span i))
      × (pgval_to_time net little (value (binary (new_parameter_time net little (at t)).value))
          ≡ ok (at t))
unfolding new_parameter_time new_parameter_timestamp new_parameter_timestamp_tz new_parameter_date
    new_parameter_interval pgval_to_time pgval_to_timestamp pgval_to_timestamp_tz pgval_to_date
    pgval_to_interval
pgval_to_moment-new_parameter net little now today t s z d i is (ht, (hs, ys), (hz, yz), (hd, yd))
      (hi, hj, hm) =
    let of64 = get64-alone net is little in
    let of32 = λ (v : ℕ) (h : v < 4294967296).
      subst (λ val. get32 net little val ≡ ok v) (append-nil _)
        (get32-put32 net is little v [] h) in
    (
      rw (of64 (sub64 s epoch_usec) (sub64-IsWord s), add64-sub64 s hs) refl,
      rw (of64 (sub64 z epoch_usec) (sub64-IsWord z), add64-sub64 z hz) refl,
      rw (of32 (sub32 d epoch_jdate) (sub32_small d), add32-sub32 d hd) refl,
      rw
          (
            get64-put64 net is little i.time _ hi,
            drop-put64 net is little i.time,
            get32-put32 net is little i.days _ hj,
            drop-put32 net is little i.days,
            of32 i.months hm,
          )
          refl,
      rw (of64 t (omega (arith, ht)), time_of-epoch t ht) refl,
    )
