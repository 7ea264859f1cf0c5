-- ===== src/Codec/Conversions/Widths.antt =====
-- src/data_parameters.cpp: an integer that fits is read in every width.
use pq_async.Common.{ℕ, ◌*◌, ◌<◌, Bool, [], ok, ◌≡◌, refl, ap, subst, arith, append-nil}
use pq_async.Codec.{Net, IsNet, binary}
use pq_async.Codec.Words.{
  put16, put32, put64, get16, get32, get64, get16-put16, get32-put32, get64-put64,
}
use pq_async.Codec.Spans.{int32_at, int64_at}
use pq_async.Codec.Conversions.{
  Casts, cell, int16_to_int32, int16_to_int64, int32_to_int64, to_int16, to_int32, kind_of,
  val_from_pgparam_int16, val_from_pgparam_int32, val_from_pgparam_int64,
}

narrow16 : (v : ℕ) → v < 65536 → to_int16 (int16_to_int32 v) ≡ v
narrow16 v h = ground arith

narrow64 : (v : ℕ) → v < 65536 → to_int16 (int16_to_int64 v) ≡ v
narrow64 v h = ground arith

narrow32 : (v : ℕ) → v < 65536 → to_int32 (int16_to_int64 v) ≡ int16_to_int32 v
narrow32 v h = ground arith

widen32 : (v : ℕ) → v < 65536 → int32_to_int64 (int16_to_int32 v) ≡ int16_to_int64 v
widen32 v h = ground arith

small32 : (v : ℕ) → v < 65536 → int16_to_int32 v < 4294967296
small32 v h = ground arith

small64 : (v : ℕ) → v < 65536 → int16_to_int64 v < 4294967296 * 4294967296
small64 v h = ground arith

module _ (net : Net) (is : IsNet net) (little : Bool) (casts : Casts) (v : ℕ) (h : v < 65536) where
  alone16 : get16 net little (put16 net little v) ≡ ok v
  alone16 =
      subst (λ val. get16 net little val ≡ ok v) (append-nil _) (get16-put16 net is little v [] h)

  alone32 : (w : ℕ) → w < 4294967296 → get32 net little (put32 net little w) ≡ ok w
  alone32 w k =
      subst (λ val. get32 net little val ≡ ok w) (append-nil _) (get32-put32 net is little w [] k)

  alone64 : (w : ℕ) → w < 4294967296 * 4294967296 → get64 net little (put64 net little w) ≡ ok w
  alone64 w k =
      subst (λ val. get64 net little val ≡ ok w) (append-nil _) (get64-put64 net is little w [] k)

  read_int2 :
      let sent = cell (binary (put16 net little v)) in
      (val_from_pgparam_int16 net little casts 21 sent ≡ ok v)
      × (val_from_pgparam_int32 net little casts 21 sent ≡ ok (int16_to_int32 v))
      × (val_from_pgparam_int64 net little casts 21 sent ≡ ok (int16_to_int64 v))
  unfolding val_from_pgparam_int16 val_from_pgparam_int32 val_from_pgparam_int64 kind_of int32_at
      int64_at
  read_int2 = rw alone16 (refl, refl, refl)

  read_int4 :
      let sent = cell (binary (put32 net little (int16_to_int32 v))) in
      (val_from_pgparam_int16 net little casts 23 sent ≡ ok v)
      × (val_from_pgparam_int32 net little casts 23 sent ≡ ok (int16_to_int32 v))
      × (val_from_pgparam_int64 net little casts 23 sent ≡ ok (int16_to_int64 v))
  unfolding val_from_pgparam_int16 val_from_pgparam_int32 val_from_pgparam_int64 kind_of int32_at
      int64_at
  read_int4 =
      rw (alone32 (int16_to_int32 v) (small32 v h))
        (ap ok (narrow16 v h), refl, ap ok (widen32 v h))

  read_int8 :
      let sent = cell (binary (put64 net little (int16_to_int64 v))) in
      (val_from_pgparam_int16 net little casts 20 sent ≡ ok v)
      × (val_from_pgparam_int32 net little casts 20 sent ≡ ok (int16_to_int32 v))
      × (val_from_pgparam_int64 net little casts 20 sent ≡ ok (int16_to_int64 v))
  unfolding val_from_pgparam_int16 val_from_pgparam_int32 val_from_pgparam_int64 kind_of int32_at
      int64_at
  read_int8 =
      rw (alone64 (int16_to_int64 v) (small64 v h))
        (ap ok (narrow64 v h), ap ok (narrow32 v h), refl)

-- An integer that fits 16 bits, positive or negative, sent as an integer of 16, of 32 or of 64
-- bits, is read as the same integer where 16, 32 or 64 bits are asked for: as its pattern, which is
-- extended by its sign.
pub val_from_pgparam_widths :
    (net : Net) (little : Bool) (casts : Casts) (v : ℕ)
    → IsNet net
    → v < 65536
    → let as2 = cell (binary (put16 net little v)) in
      let as4 = cell (binary (put32 net little (int16_to_int32 v))) in
      let as8 = cell (binary (put64 net little (int16_to_int64 v))) in
      ((val_from_pgparam_int16 net little casts 21 as2 ≡ ok v)
        × (val_from_pgparam_int32 net little casts 21 as2 ≡ ok (int16_to_int32 v))
        × (val_from_pgparam_int64 net little casts 21 as2 ≡ ok (int16_to_int64 v)))
      × ((val_from_pgparam_int16 net little casts 23 as4 ≡ ok v)
          × (val_from_pgparam_int32 net little casts 23 as4 ≡ ok (int16_to_int32 v))
          × (val_from_pgparam_int64 net little casts 23 as4 ≡ ok (int16_to_int64 v)))
      × ((val_from_pgparam_int16 net little casts 20 as8 ≡ ok v)
          × (val_from_pgparam_int32 net little casts 20 as8 ≡ ok (int16_to_int32 v))
          × (val_from_pgparam_int64 net little casts 20 as8 ≡ ok (int16_to_int64 v)))
val_from_pgparam_widths net little casts v is h = (
  read_int2 net is little casts v h,
  read_int4 net is little casts v h,
  read_int8 net is little casts v h,
)
