-- ===== src/Codec/Geometry/Shapes.antt =====
-- src/data_parameters.cpp: geometric values that are sent and read back.
use pq_async.Common.{
  ap, ℕ, ◌+◌, ◌*◌, ◌<◌, Bool, Bytes, Result, ok, ◌≡◌, refl, arith, length, length-append,
}
use pq_async.Codec.{Net, IsNet, binary}
use pq_async.Codec.Words.{Fault, put64, get64-put64, drop-put64, length-put64}
use pq_async.Codec.Geometry.{
  Point, Line, Lseg, Box, PointPath, Polygon, Circle, put_point, new_parameter_double,
  pgval_to_double, new_parameter_point, pgval_to_point, new_parameter_line, pgval_to_line,
  new_parameter_lseg, pgval_to_lseg, new_parameter_box, pgval_to_box, new_parameter_path,
  pgval_to_path, new_parameter_polygon, pgval_to_polygon, new_parameter_circle, pgval_to_circle,
  empty_box,
}
use pq_async.Codec.Geometry.Points.{
  IsWord, IsPoint, ArePoints, get_point-put_point, drop-put_point, length-put_point, get_counted,
  length-counted, get_point-alone, get64-alone, closed_byte,
}

module _ (net : Net) (is : IsNet net) (little : Bool) where
  -- A value that is sent has the length that is declared.
  double_trip :
      (of_text : Bytes → ℕ) (v : ℕ)
      → IsWord v
      → let sent = new_parameter_double net little v in
        (length sent.value ≡ sent.length)
        × (pgval_to_double net little of_text (binary sent.value) ≡ ok v)
  unfolding new_parameter_double pgval_to_double
  double_trip of_text v h = (length-put64 net is little v, get64-alone net is little v h)

  point_trip :
      (of_text : Bytes → Result Fault Point) (v : Point)
      → IsPoint v
      → let sent = new_parameter_point net little v in
        (length sent.value ≡ sent.length)
        × (pgval_to_point net little of_text (binary sent.value) ≡ ok v)
  unfolding new_parameter_point pgval_to_point
  point_trip of_text v h = (length-put_point net is little v, get_point-alone net is little v h)

  line_trip :
      (of_text : Bytes → Result Fault Line) (v : Line)
      → IsWord v.a × IsWord v.b × IsWord v.c
      → let sent = new_parameter_line net little v in
        (length sent.value ≡ sent.length)
        × (pgval_to_line net little of_text (binary sent.value) ≡ ok v)
  unfolding new_parameter_line pgval_to_line
  line_trip of_text v (ha, hb, hc) = (
    rw
        (
          length-append (put64 net little v.a),
          length-append (put64 net little v.b),
          length-put64 net is little v.a,
          length-put64 net is little v.b,
          length-put64 net is little v.c,
        )
        refl,
    rw
        (
          get64-put64 net is little v.a _ ha,
          drop-put64 net is little v.a,
          get64-put64 net is little v.b _ hb,
          drop-put64 net is little v.b,
          get64-alone net is little v.c hc,
        )
        refl,
  )

  lseg_trip :
      (of_text : Bytes → Result Fault Lseg) (v : Lseg)
      → IsPoint v.from
      → IsPoint v.to
      → let sent = new_parameter_lseg net little v in
        (length sent.value ≡ sent.length)
        × (pgval_to_lseg net little of_text (binary sent.value) ≡ ok v)
  unfolding new_parameter_lseg pgval_to_lseg
  lseg_trip of_text v h k = (
    rw
        (
          length-append (put_point net little v.from),
          length-put_point net is little v.from,
          length-put_point net is little v.to,
        )
        refl,
    rw
        (
          get_point-put_point net is little v.from _ h,
          drop-put_point net is little v.from,
          get_point-alone net is little v.to k,
        )
        refl,
  )

  box_trip :
      (of_text : Bytes → Result Fault Box) (v : Box)
      → IsPoint v.high
      → IsPoint v.low
      → let sent = new_parameter_box net little v in
        (length sent.value ≡ sent.length)
        × (pgval_to_box net little of_text (binary sent.value) ≡ ok v)
  unfolding new_parameter_box pgval_to_box
  box_trip of_text v h k = (
    rw
        (
          length-append (put_point net little v.high),
          length-put_point net is little v.high,
          length-put_point net is little v.low,
        )
        refl,
    rw
        (
          get_point-put_point net is little v.high _ h,
          drop-put_point net is little v.high,
          get_point-alone net is little v.low k,
        )
        refl,
  )

  circle_trip :
      (memory : ℕ) (of_text : Bytes → Result Fault Circle) (v : Circle)
      → IsPoint v.center
      → IsWord v.radius
      → let sent = new_parameter_circle net little v in
        (length sent.value ≡ sent.length)
        × (pgval_to_circle net little memory of_text (binary sent.value) ≡ ok v)
  unfolding new_parameter_circle pgval_to_circle
  circle_trip memory of_text v h k = (
    rw
        (
          length-append (put_point net little v.center),
          length-put_point net is little v.center,
          length-put64 net is little v.radius,
        )
        refl,
    rw
        (
          get_point-put_point net is little v.center _ h,
          drop-put_point net is little v.center,
          get64-alone net is little v.radius k,
        )
        refl,
  )

  path_trip :
      (memory : Bool) (of_text : Bytes → Result Fault PointPath) (v : PointPath)
      → ArePoints v.points
      → length v.points * 16 + 5 < 2147483648
      → let sent = new_parameter_path net little v in
        (length sent.value ≡ sent.length)
        × (pgval_to_path net little memory of_text (binary sent.value) ≡ ok v)
  unfolding new_parameter_path pgval_to_path
  path_trip memory of_text v h small =
      let counted = get_counted net is little v.points h (omega (arith, small)) in
      (
        omega (arith, length-counted net is little v.points),
        rw (counted.0, counted.1)
            (ap (λ b. ok (record { closed = b; points = v.points }))
              (closed_byte net is little v.closed)),
      )

  polygon_trip :
      (of_text : Bytes → Result Fault Polygon) (v : Polygon)
      → ArePoints v.points
      → length v.points * 16 + 4 < 2147483648
      → let sent = new_parameter_polygon net little v in
        (length sent.value ≡ sent.length)
        × (pgval_to_polygon net little of_text (binary sent.value)
            ≡ ok (record v { boundbox = empty_box }))
  unfolding new_parameter_polygon pgval_to_polygon
  polygon_trip of_text v h small =
      let counted = get_counted net is little v.points h (omega (arith, small)) in
      (length-counted net is little v.points, rw (counted.0, counted.1) refl)

-- A point, a line, a segment, a box, a circle, an open or closed path and a polygon of patterns of
-- 64 bits are each sent with the length that is declared and read back as they were, whatever the
-- constructors from a text do, on a host of either byte order; a path and a polygon have so few
-- points that their bytes are counted by an `int`. Only the bounding box of a polygon is lost: it
-- is read back with the box of zeros.
pub pgval_to_shape-new_parameter :
    (net : Net) (little : Bool) (closed : Bool) (radius : ℕ) (of_point : Bytes → Result Fault Point)
    (of_line : Bytes → Result Fault Line) (of_lseg : Bytes → Result Fault Lseg)
    (of_box : Bytes → Result Fault Box) (of_circle : Bytes → Result Fault Circle)
    (of_path : Bytes → Result Fault PointPath) (of_polygon : Bytes → Result Fault Polygon)
    (p : Point) (l : Line) (s : Lseg) (b : Box) (c : Circle) (way : PointPath) (g : Polygon)
    → IsNet net
    → IsPoint p
    → IsWord l.a × IsWord l.b × IsWord l.c
    → IsPoint s.from × IsPoint s.to
    → IsPoint b.high × IsPoint b.low
    → IsPoint c.center × IsWord c.radius
    → ArePoints way.points × (length way.points * 16 + 5 < 2147483648)
    → ArePoints g.points × (length g.points * 16 + 4 < 2147483648)
    → ((length (new_parameter_point net little p).value ≡ (new_parameter_point net little p).length)
        × (length (new_parameter_line net little l).value
            ≡ (new_parameter_line net little l).length)
        × (length (new_parameter_lseg net little s).value
            ≡ (new_parameter_lseg net little s).length)
        × (length (new_parameter_box net little b).value ≡ (new_parameter_box net little b).length)
        × (length (new_parameter_circle net little c).value
            ≡ (new_parameter_circle net little c).length)
        × (length (new_parameter_path net little way).value
            ≡ (new_parameter_path net little way).length)
        × (length (new_parameter_polygon net little g).value
            ≡ (new_parameter_polygon net little g).length))
      × ((pgval_to_point net little of_point (binary (new_parameter_point net little p).value)
            ≡ ok p)
          × (pgval_to_line net little of_line (binary (new_parameter_line net little l).value)
              ≡ ok l)
          × (pgval_to_lseg net little of_lseg (binary (new_parameter_lseg net little s).value)
              ≡ ok s)
          × (pgval_to_box net little of_box (binary (new_parameter_box net little b).value) ≡ ok b)
          × (pgval_to_circle net little radius of_circle
                (binary (new_parameter_circle net little c).value)
              ≡ ok c)
          × (pgval_to_path net little closed of_path
                (binary (new_parameter_path net little way).value)
              ≡ ok way)
          × (pgval_to_polygon net little of_polygon
                (binary (new_parameter_polygon net little g).value)
              ≡ ok (record g { boundbox = empty_box })))
pgval_to_shape-new_parameter net little closed radius of_point of_line of_lseg of_box of_circle
      of_path of_polygon p l s b c way g is hp hl hs hb hc hw hg =
    let t_point = point_trip net is little of_point p hp in
    let t_line = line_trip net is little of_line l hl in
    let t_lseg = lseg_trip net is little of_lseg s (hs.0) (hs.1) in
    let t_box = box_trip net is little of_box b (hb.0) (hb.1) in
    let t_circle = circle_trip net is little radius of_circle c (hc.0) (hc.1) in
    let t_path = path_trip net is little closed of_path way (hw.0) (hw.1) in
    let t_polygon = polygon_trip net is little of_polygon g (hg.0) (hg.1) in
    (
      (t_point.0, t_line.0, t_lseg.0, t_box.0, t_circle.0, t_path.0, t_polygon.0),
      (t_point.1, t_line.1, t_lseg.1, t_box.1, t_circle.1, t_path.1, t_polygon.1),
    )
