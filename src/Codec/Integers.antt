-- ===== src/Codec/Integers.antt =====
-- src/data_parameters.cpp: integers that are sent and read back.
use pq_async.Common.{ℕ, ◌+◌, ◌*◌, ◌/◌, ◌%◌, ◌<◌, ◌≡◌, refl, Bool, true, false, Bytes, arith}
use pq_async.Codec.{
  Net, IsNet, big16, big32, swap2, swap4, swap8, binary, new_parameter_int16, new_parameter_int32,
  new_parameter_int64, pgval_to_int16, pgval_to_int32, pgval_to_int64,
}

join16 : (v : ℕ) → v < 65536 → v % 256 + 256 * (v / 256 % 256) ≡ v
join16 v h = omega arith

join32 :
    (v : ℕ)
    → v < 4294967296
    → v % 256 + 256 * (v / 256 % 256) + 65536 * (v / 65536 % 256) + 16777216 * (v / 16777216 % 256)
      ≡ v
join32 v h = omega arith

low_word : (v : ℕ) → (v % 4294967296) < 4294967296
low_word v = omega arith

join_words : (v : ℕ) → v % 4294967296 + 4294967296 * (v / 4294967296) ≡ v
join_words v = omega arith

-- The bytes of a 16 bit integer.
round_trip16 :
    (net : Net) (little : Bool) (str_to_num : Bytes → ℕ) (v : ℕ)
    → IsNet net
    → v < 65536
    → ((new_parameter_int16 net little v).value ≡ big16 v)
      × (pgval_to_int16 net little str_to_num (binary (new_parameter_int16 net little v).value) ≡ v)
unfolding new_parameter_int16 pgval_to_int16 swap2
round_trip16 net true s v n h = rw (n.host16, n.net16) (refl, join16 v h)
round_trip16 net false s v n h = (refl, omega (arith, h))

round_trip32 :
    (net : Net) (little : Bool) (str_to_num : Bytes → ℕ) (v : ℕ)
    → IsNet net
    → v < 4294967296
    → ((new_parameter_int32 net little v).value ≡ big32 v)
      × (pgval_to_int32 net little str_to_num (binary (new_parameter_int32 net little v).value) ≡ v)
unfolding new_parameter_int32 pgval_to_int32 swap4
round_trip32 net true s v n h = rw (n.host32, n.net32) (refl, join32 v h)
round_trip32 net false s v n h = (refl, omega (arith, h))

round_trip64 :
    (net : Net) (little : Bool) (str_to_num : Bytes → ℕ) (v : ℕ)
    → IsNet net
    → v < 4294967296 * 4294967296
    → ((new_parameter_int64 net little v).value ≡ (big32 (v / 4294967296), big32 v))
      × (pgval_to_int64 net little str_to_num (binary (new_parameter_int64 net little v).value) ≡ v)
unfolding new_parameter_int64 pgval_to_int64 swap8
round_trip64 net true s v n h = rw (n.host32, n.host32, n.net32, n.net32) (refl, omega (arith, h))
round_trip64 net false s v n h = (refl, omega (arith, h))

-- On a host of either byte order an integer of 16, 32 or 64 bits, as a bit pattern, is sent with
-- its most significant byte first, and the bytes that are sent are read back as the integer,
-- whatever the conversion of texts does.
pub pgval_to_int-new_parameter :
    (net : Net) (little : Bool) (str_to_num : Bytes → ℕ) (i j k : ℕ)
    → IsNet net
    → i < 65536
    → j < 4294967296
    → k < 4294967296 * 4294967296
    → let sent16 = (new_parameter_int16 net little i).value in
      let sent32 = (new_parameter_int32 net little j).value in
      let sent64 = (new_parameter_int64 net little k).value in
      ((sent16 ≡ big16 i) × (sent32 ≡ big32 j) × (sent64 ≡ (big32 (k / 4294967296), big32 k)))
      × ((pgval_to_int16 net little str_to_num (binary sent16) ≡ i)
          × (pgval_to_int32 net little str_to_num (binary sent32) ≡ j)
          × (pgval_to_int64 net little str_to_num (binary sent64) ≡ k))
pgval_to_int-new_parameter net little s i j k n hi hj hk =
    let a = round_trip16 net little s i n hi in
    let b = round_trip32 net little s j n hj in
    let c = round_trip64 net little s k n hk in ((a.0, b.0, c.0), (a.1, b.1, c.1))
