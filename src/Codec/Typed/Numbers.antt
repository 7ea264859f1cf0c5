-- ===== src/Codec/Typed/Numbers.antt =====
-- src/data_parameters.cpp: the number that a value is sent with is the one that it is read under.
use pq_async.Common.{
  ℕ, ◌+◌, ◌*◌, ◌<◌, Bool, false, Bytes, Result, ok, throw, ◌≡◌, ◌≢◌, refl, arith, ◌==◌, length,
}
use pq_async.Codec.{Net, IsNet, PgVal, binary}
use pq_async.Codec.Words.{Fault, unsupported_oid}
use pq_async.Codec.Conversions.{cell}
use pq_async.Codec.Geometry.{
  Point, Line, Lseg, Box, PointPath, Polygon, Circle, empty_box, new_parameter_point,
  new_parameter_line, new_parameter_lseg, new_parameter_box, new_parameter_path,
  new_parameter_polygon, new_parameter_circle, pgval_to_point, pgval_to_line, pgval_to_lseg,
  pgval_to_box, pgval_to_path, pgval_to_polygon, pgval_to_circle,
}
use pq_async.Codec.Geometry.Points.{IsWord, IsPoint, ArePoints}
use pq_async.Codec.Geometry.Shapes.{pgval_to_shape-new_parameter}
use pq_async.Codec.Typed.{
  one_case, val_from_pgparam_point, val_from_pgparam_line, val_from_pgparam_lseg,
  val_from_pgparam_box, val_from_pgparam_path, val_from_pgparam_polygon, val_from_pgparam_circle,
}

ne→==-false : (a b : ℕ) → a ≢ b → (a == b) ≡ false
ne→==-false a b h = ground arith

wrong_number :
    {T : Type 0} (number : ℕ) (of_text : Bytes → Result Fault T)
    (pgval : PgVal Bytes → Result Fault T) (oid : ℕ) (val : Bytes)
    → oid ≢ number
    → one_case number of_text pgval oid (cell (binary val)) ≡ throw unsupported_oid
unfolding one_case
wrong_number number of_text pgval oid val h = rw (ne→==-false oid number h) refl

-- The numbers of the geometric types.
abbrev pub IsOther : ℕ → Type 0
IsOther oid =
    (oid ≢ 600) × (oid ≢ 628) × (oid ≢ 601) × (oid ≢ 603) × (oid ≢ 718) × (oid ≢ 602) × (oid ≢ 604)

-- A geometric value that is sent is read back under the number of the type that it is sent with,
-- under the conditions under which its bytes are read back; a number that is of no geometric type
-- is refused for each type, whatever the bytes are.
pub val_from_pgparam-new_parameter :
    (net : Net) (little : Bool) (closed : Bool) (radius : ℕ) (of_point : Bytes → Result Fault Point)
    (of_line : Bytes → Result Fault Line) (of_lseg : Bytes → Result Fault Lseg)
    (of_box : Bytes → Result Fault Box) (of_circle : Bytes → Result Fault Circle)
    (of_path : Bytes → Result Fault PointPath) (of_polygon : Bytes → Result Fault Polygon)
    (p : Point) (l : Line) (s : Lseg) (b : Box) (c : Circle) (way : PointPath) (g : Polygon)
    (other : ℕ) (val : Bytes)
    → IsNet net
    → IsPoint p
    → IsWord l.a × IsWord l.b × IsWord l.c
    → IsPoint s.from × IsPoint s.to
    → IsPoint b.high × IsPoint b.low
    → IsPoint c.center × IsWord c.radius
    → ArePoints way.points × (length way.points * 16 + 5 < 2147483648)
    → ArePoints g.points × (length g.points * 16 + 4 < 2147483648)
    → IsOther other
    → ((val_from_pgparam_point net little of_point
            (new_parameter_point net little p).oid
            (cell (binary (new_parameter_point net little p).value))
          ≡ ok p)
        × (val_from_pgparam_line net little of_line
              (new_parameter_line net little l).oid
              (cell (binary (new_parameter_line net little l).value))
            ≡ ok l)
        × (val_from_pgparam_lseg net little of_lseg
              (new_parameter_lseg net little s).oid
              (cell (binary (new_parameter_lseg net little s).value))
            ≡ ok s)
        × (val_from_pgparam_box net little of_box
              (new_parameter_box net little b).oid
              (cell (binary (new_parameter_box net little b).value))
            ≡ ok b)
        × (val_from_pgparam_circle net little radius of_circle
              (new_parameter_circle net little c).oid
              (cell (binary (new_parameter_circle net little c).value))
            ≡ ok c)
        × (val_from_pgparam_path net little closed of_path
              (new_parameter_path net little way).oid
              (cell (binary (new_parameter_path net little way).value))
            ≡ ok way)
        × (val_from_pgparam_polygon net little of_polygon
              (new_parameter_polygon net little g).oid
              (cell (binary (new_parameter_polygon net little g).value))
            ≡ ok (record g { boundbox = empty_box })))
      × ((val_from_pgparam_point net little of_point other (cell (binary val))
            ≡ throw unsupported_oid)
          × (val_from_pgparam_line net little of_line other (cell (binary val))
              ≡ throw unsupported_oid)
          × (val_from_pgparam_lseg net little of_lseg other (cell (binary val))
              ≡ throw unsupported_oid)
          × (val_from_pgparam_box net little of_box other (cell (binary val))
              ≡ throw unsupported_oid)
          × (val_from_pgparam_circle net little radius of_circle other (cell (binary val))
              ≡ throw unsupported_oid)
          × (val_from_pgparam_path net little closed of_path other (cell (binary val))
              ≡ throw unsupported_oid)
          × (val_from_pgparam_polygon net little of_polygon other (cell (binary val))
              ≡ throw unsupported_oid))
unfolding one_case val_from_pgparam_point val_from_pgparam_line val_from_pgparam_lseg
    val_from_pgparam_box val_from_pgparam_circle val_from_pgparam_path val_from_pgparam_polygon
    new_parameter_point new_parameter_line new_parameter_lseg new_parameter_box new_parameter_circle
    new_parameter_path new_parameter_polygon
val_from_pgparam-new_parameter net little closed radius of_point of_line of_lseg of_box of_circle
      of_path of_polygon p l s b c way g other val is hp hl hs hb hc hw hg
      (n600, n628, n601, n603, n718, n602, n604) =
    let all =
      pgval_to_shape-new_parameter net little closed radius of_point of_line of_lseg of_box
        of_circle of_path of_polygon p l s b c way g is hp hl hs hb hc hw hg in
    (
      all.1,
      (
        wrong_number 600 of_point (pgval_to_point net little of_point) other val n600,
        wrong_number 628 of_line (pgval_to_line net little of_line) other val n628,
        wrong_number 601 of_lseg (pgval_to_lseg net little of_lseg) other val n601,
        wrong_number 603 of_box (pgval_to_box net little of_box) other val n603,
        wrong_number 718 of_circle (pgval_to_circle net little radius of_circle) other val n718,
        wrong_number 602 of_path (pgval_to_path net little closed of_path) other val n602,
        wrong_number 604 of_polygon (pgval_to_polygon net little of_polygon) other val n604,
      ),
    )
