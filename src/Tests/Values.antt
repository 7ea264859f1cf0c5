-- ===== src/Tests/Values.antt =====
-- src/data_parameters.cpp: geometric values, ranges and addresses.
use pq_async.Common.{
  ◌≡◌, refl, true, false, [], ◌∷◌, Bytes, Result, ok, throw, bytes_eq, arith, length,
}
use pq_async.Codec.{binary}
use pq_async.Codec.Words.{Fault, unsupported_text}
use pq_async.Codec.Geometry.{
  Point, Line, Lseg, Box, Circle, PointPath, Polygon, origin, empty_box, new_parameter_point,
  new_parameter_line, new_parameter_lseg, new_parameter_box, new_parameter_circle,
  new_parameter_path, new_parameter_polygon, pgval_to_point, pgval_to_line, pgval_to_lseg,
  pgval_to_box, pgval_to_circle, pgval_to_path, pgval_to_polygon,
}
use pq_async.Codec.Geometry.Shapes.{pgval_to_shape-new_parameter}
use pq_async.Codec.Spans.{
  Numeric, new_parameter_int4range, new_parameter_int8range, new_parameter_numrange,
  pgval_to_int4range, pgval_to_int8range, pgval_to_numrange,
}
use pq_async.Codec.Spans.Trips.{kept, pgval_to_range-new_parameter}
use pq_async.Codec.Networks.{
  Address, Macaddr, Macaddr8, inet, inet6, new_parameter_cidr, new_parameter_inet,
  new_parameter_macaddr, new_parameter_macaddr8, new_parameter_bool, new_parameter_oid,
  pgval_to_cidr, pgval_to_inet, pgval_to_macaddr, pgval_to_macaddr8, pgval_to_bool, pgval_to_oid,
}
use pq_async.Codec.Networks.Addresses.{pgval_to_address-new_parameter}
use pq_async.Range.{range_of, new_range}
use pq_async.Codec.Words.{unsupported_oid}
use pq_async.Codec.Conversions.{cell}
use pq_async.Codec.Typed.{
  val_from_pgparam_point, val_from_pgparam_line, val_from_pgparam_lseg, val_from_pgparam_box,
  val_from_pgparam_path, val_from_pgparam_polygon, val_from_pgparam_circle,
}
use pq_async.Codec.Typed.Numbers.{val_from_pgparam-new_parameter}
use pq_async.Tests.Codecs.{turning, turning-IsNet}

-- No value is read from a text here.
abbrev no_text : {T : Type 0} → Bytes → Result Fault T
no_text s = throw unsupported_text

abbrev corner : Point
corner = record { x = 4607182418800017408; y = 4611686018427387904 }

abbrev slope : Line
slope = record { a = 1; b = 2; c = 3 }

abbrev diagonal : Lseg
diagonal = record { from = origin; to = corner }

abbrev unit_box : Box
unit_box = record { high = corner; low = origin }

abbrev disc : Circle
disc = record { center = corner; radius = 7 }

abbrev way : PointPath
way = record { closed = true; points = origin ∷ corner ∷ [] }

abbrev shape : Polygon
shape = record { boundbox = unit_box; points = origin ∷ corner ∷ [] }

pgval_to_shape-new_parameter_example :
    ((length (new_parameter_point turning true corner).value ≡ 16)
      × (length (new_parameter_line turning true slope).value ≡ 24)
      × (length (new_parameter_lseg turning true diagonal).value ≡ 32)
      × (length (new_parameter_box turning true unit_box).value ≡ 32)
      × (length (new_parameter_circle turning true disc).value ≡ 24)
      × (length (new_parameter_path turning true way).value ≡ 37)
      × (length (new_parameter_polygon turning true shape).value ≡ 36))
    × ((pgval_to_point turning true no_text (binary (new_parameter_point turning true corner).value)
          ≡ ok corner)
        × (pgval_to_line turning true no_text (binary (new_parameter_line turning true slope).value)
            ≡ ok slope)
        × (pgval_to_lseg turning true no_text
              (binary (new_parameter_lseg turning true diagonal).value)
            ≡ ok diagonal)
        × (pgval_to_box turning true no_text
              (binary (new_parameter_box turning true unit_box).value)
            ≡ ok unit_box)
        × (pgval_to_circle turning true 0 no_text
              (binary (new_parameter_circle turning true disc).value)
            ≡ ok disc)
        × (pgval_to_path turning true false no_text
              (binary (new_parameter_path turning true way).value)
            ≡ ok way)
        × (pgval_to_polygon turning true no_text
              (binary (new_parameter_polygon turning true shape).value)
            ≡ ok (record shape { boundbox = empty_box })))
unfolding new_parameter_point new_parameter_line new_parameter_lseg new_parameter_box
    new_parameter_circle new_parameter_path new_parameter_polygon
pgval_to_shape-new_parameter_example =
    pgval_to_shape-new_parameter turning true false 0 no_text no_text no_text no_text no_text
      no_text no_text corner slope diagonal unit_box disc way shape turning-IsNet
      (omega arith, omega arith) (omega arith, omega arith, omega arith)
      ((omega arith, omega arith), (omega arith, omega arith))
      ((omega arith, omega arith), (omega arith, omega arith))
      ((omega arith, omega arith), omega arith)
      (((omega arith, omega arith), ((omega arith, omega arith), tt)), omega arith)
      (((omega arith, omega arith), ((omega arith, omega arith), tt)), omega arith)

abbrev pence : Numeric
pence = record { weight = 0; sign = 0; dscale = 2; digits = 12 ∷ 3400 ∷ [] }

pgval_to_range-new_parameter_example :
    let sent4 = new_parameter_int4range turning true (range_of 3 7) in
    let sent8 = new_parameter_int8range turning true (new_range 5) in
    let sent_num = new_parameter_numrange turning true (range_of pence pence) in
    ((length sent4.value ≡ sent4.length)
      × (length sent8.value ≡ sent8.length)
      × (length sent_num.value ≡ sent_num.length))
    × ((pgval_to_int4range turning true (λ s. 0) (binary sent4.value) ≡ ok (kept 0 (range_of 3 7)))
        × (pgval_to_int8range turning true (λ s. 0) (binary sent8.value)
            ≡ ok (kept 0 (new_range 5)))
        × (pgval_to_numrange turning true (λ s. 0) no_text pence (binary sent_num.value)
            ≡ ok (kept pence (range_of pence pence))))
unfolding range_of new_range
pgval_to_range-new_parameter_example =
    pgval_to_range-new_parameter turning true (λ s. 0) no_text (range_of 3 7) (new_range 5)
      (range_of pence pence) pence turning-IsNet (omega arith, omega arith)
      (omega arith, omega arith)
      (
        (refl, refl, refl, (omega arith, (omega arith, tt)), omega arith),
        (refl, refl, refl, (omega arith, (omega arith, tt)), omega arith),
      )

abbrev local : Address
local = record {
  family = inet;
  bits = 8;
  ipaddr = 127 ∷ 0 ∷ 0 ∷ 1 ∷ 0 ∷ 0 ∷ 0 ∷ 0 ∷ 0 ∷ 0 ∷ 0 ∷ 0 ∷ 0 ∷ 0 ∷ 0 ∷ 0 ∷ [];
}

abbrev local6 : Address
local6 = record {
  family = inet6;
  bits = 128;
  ipaddr = 0 ∷ 0 ∷ 0 ∷ 0 ∷ 0 ∷ 0 ∷ 0 ∷ 0 ∷ 0 ∷ 0 ∷ 0 ∷ 0 ∷ 0 ∷ 0 ∷ 0 ∷ 1 ∷ [];
}

abbrev card : Macaddr
card = record { a = 8; b = 0; c = 43; d = 1; e = 2; f = 3 }

abbrev card8 : Macaddr8
card8 = record { front = card; g = 4; h = 5 }

pgval_to_address-new_parameter_example :
    ((length (new_parameter_cidr local).value ≡ (new_parameter_cidr local).length)
      × (length (new_parameter_inet local6).value ≡ (new_parameter_inet local6).length)
      × (length (new_parameter_macaddr card).value ≡ (new_parameter_macaddr card).length)
      × (length (new_parameter_macaddr8 card8).value ≡ (new_parameter_macaddr8 card8).length)
      × (length (new_parameter_bool true).value ≡ (new_parameter_bool true).length)
      × (length (new_parameter_oid turning true 26).value
          ≡ (new_parameter_oid turning true 26).length))
    × ((pgval_to_cidr no_text (binary (new_parameter_cidr local).value) ≡ ok local)
        × (pgval_to_inet no_text (binary (new_parameter_inet local6).value) ≡ ok local6)
        × (pgval_to_macaddr no_text (binary (new_parameter_macaddr card).value) ≡ ok card)
        × (pgval_to_macaddr8 no_text (binary (new_parameter_macaddr8 card8).value) ≡ ok card8)
        × (pgval_to_bool bytes_eq (binary (new_parameter_bool true).value) ≡ ok true)
        × (pgval_to_oid turning true (λ s. 0) (binary (new_parameter_oid turning true 26).value)
            ≡ ok 26))
pgval_to_address-new_parameter_example =
    pgval_to_address-new_parameter turning true no_text no_text no_text bytes_eq (λ s. 0) local
      local6 card card8 true 26 turning-IsNet refl refl (omega arith)

val_from_pgparam-new_parameter_run :
    ((val_from_pgparam_point turning true no_text 600
          (cell (binary (new_parameter_point turning true corner).value))
        ≡ ok corner)
      × (val_from_pgparam_line turning true no_text 628
            (cell (binary (new_parameter_line turning true slope).value))
          ≡ ok slope)
      × (val_from_pgparam_lseg turning true no_text 601
            (cell (binary (new_parameter_lseg turning true diagonal).value))
          ≡ ok diagonal)
      × (val_from_pgparam_box turning true no_text 603
            (cell (binary (new_parameter_box turning true unit_box).value))
          ≡ ok unit_box)
      × (val_from_pgparam_circle turning true 0 no_text 718
            (cell (binary (new_parameter_circle turning true disc).value))
          ≡ ok disc)
      × (val_from_pgparam_path turning true false no_text 602
            (cell (binary (new_parameter_path turning true way).value))
          ≡ ok way)
      × (val_from_pgparam_polygon turning true no_text 604
            (cell (binary (new_parameter_polygon turning true shape).value))
          ≡ ok (record shape { boundbox = empty_box })))
    × ((val_from_pgparam_point turning true no_text 23 (cell (binary [])) ≡ throw unsupported_oid)
        × (val_from_pgparam_line turning true no_text 23 (cell (binary [])) ≡ throw unsupported_oid)
        × (val_from_pgparam_lseg turning true no_text 23 (cell (binary [])) ≡ throw unsupported_oid)
        × (val_from_pgparam_box turning true no_text 23 (cell (binary [])) ≡ throw unsupported_oid)
        × (val_from_pgparam_circle turning true 0 no_text 23 (cell (binary []))
            ≡ throw unsupported_oid)
        × (val_from_pgparam_path turning true false no_text 23 (cell (binary []))
            ≡ throw unsupported_oid)
        × (val_from_pgparam_polygon turning true no_text 23 (cell (binary []))
            ≡ throw unsupported_oid))
unfolding new_parameter_point new_parameter_line new_parameter_lseg new_parameter_box
    new_parameter_circle new_parameter_path new_parameter_polygon
val_from_pgparam-new_parameter_run =
    val_from_pgparam-new_parameter turning true false 0 no_text no_text no_text no_text no_text
      no_text no_text corner slope diagonal unit_box disc way shape 23 [] turning-IsNet
      (omega arith, omega arith) (omega arith, omega arith, omega arith)
      ((omega arith, omega arith), (omega arith, omega arith))
      ((omega arith, omega arith), (omega arith, omega arith))
      ((omega arith, omega arith), omega arith)
      (((omega arith, omega arith), ((omega arith, omega arith), tt)), omega arith)
      (((omega arith, omega arith), ((omega arith, omega arith), tt)), omega arith)
      (omega arith, omega arith, omega arith, omega arith, omega arith, omega arith, omega arith)
