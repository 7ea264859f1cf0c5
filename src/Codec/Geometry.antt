-- ===== src/Codec/Geometry.antt =====
-- The binary format of the geometric types and of `double`: `new_parameter` and `pgval_to_point` to
-- `pgval_to_circle` of src/data_parameters.cpp, with the members of
-- include/pq-async/pg_type_geo_def.h.
--
-- A `double` is its bit pattern; that of 0.0 is 0. Constructors from a text are the argument
-- `of_text`. The default constructors of `path` and `circle` leave a member as it was in memory,
-- the argument `memory`. A vector has so few points that its bytes are counted by an `int`.
pub mod Points
pub mod Shapes
use pq_async.Common.{
  ℕ, zero, suc, ◌+◌, ◌*◌, Bool, true, false, List, [], ◌∷◌, ◌++◌, Bytes, Result, ok, throw, ◌>>=◌,
  ltb, ◌==◌, if◌then◌else◌, length, drop,
}
use pq_async.Codec.{Net, Parameter, PgVal, null, text, binary}
use pq_async.Codec.Words.{Fault, outside, put32, put64, get32, get64, ◌<$>◌}

pub record Point : Type 0 where
  pub x : ℕ
  pub y : ℕ

pub record Line : Type 0 where
  pub a : ℕ
  pub b : ℕ
  pub c : ℕ

-- The two elements of `_p`.
pub record Lseg : Type 0 where
  pub from : Point
  pub to : Point

pub record Box : Type 0 where
  pub high : Point
  pub low : Point

pub record PointPath : Type 0 where
  pub closed : Bool
  pub points : List Point

pub record Polygon : Type 0 where
  pub boundbox : Box
  pub points : List Point

pub record Circle : Type 0 where
  pub center : Point
  pub radius : ℕ

-- The default constructors.
abbrev pub origin : Point
origin = record { x = 0; y = 0 }

abbrev pub empty_box : Box
empty_box = record { high = origin; low = origin }

-- The count of a loop whose bound is an `int32_t` of this pattern.
abbrev pub signed_count : ℕ → ℕ
signed_count nb = if ltb nb 2147483648 then nb else 0

unfoldable pub byte_at : Bytes → Result Fault ℕ
byte_at [] = throw outside
byte_at (b ∷ rest) = ok b

module _ (net : Net) (little : Bool) where
  unfoldable pub new_parameter_double : ℕ → Parameter Bytes
  new_parameter_double value = record {
    oid = 701;
    value = put64 net little value;
    length = 8;
    format = 1;
  }

  unfoldable pub pgval_to_double : (Bytes → ℕ) → PgVal Bytes → Result Fault ℕ
  pgval_to_double str_to_num null = ok 0
  pgval_to_double str_to_num (text s) = ok (str_to_num s)
  pgval_to_double str_to_num (binary val) = get64 net little val

  -- Two numbers one behind the other.
  unfoldable pub put_point : Point → Bytes
  put_point p = put64 net little p.x ++ put64 net little p.y

  unfoldable pub get_point : Bytes → Result Fault Point
  get_point val = do
    x ← get64 net little val
    y ← get64 net little (drop 8 val)
    ok (record { x = x; y = y })

  unfoldable pub new_parameter_point : Point → Parameter Bytes
  new_parameter_point value = record { oid = 600; value = put_point value; length = 16; format = 1 }

  unfoldable pub pgval_to_point : (Bytes → Result Fault Point) → PgVal Bytes → Result Fault Point
  pgval_to_point of_text null = ok origin
  pgval_to_point of_text (text s) = of_text s
  pgval_to_point of_text (binary val) = get_point val

  unfoldable pub new_parameter_line : Line → Parameter Bytes
  new_parameter_line value = record {
    oid = 628;
    value = put64 net little value.a ++ (put64 net little value.b ++ put64 net little value.c);
    length = 24;
    format = 1;
  }

  unfoldable pub pgval_to_line : (Bytes → Result Fault Line) → PgVal Bytes → Result Fault Line
  pgval_to_line of_text null = ok (record { a = 0; b = 0; c = 0 })
  pgval_to_line of_text (text s) = of_text s
  pgval_to_line of_text (binary val) = do
    a ← get64 net little val
    b ← get64 net little (drop 8 val)
    c ← get64 net little (drop 8 (drop 8 val))
    ok (record { a = a; b = b; c = c })

  unfoldable pub new_parameter_lseg : Lseg → Parameter Bytes
  new_parameter_lseg value = record {
    oid = 601;
    value = put_point value.from ++ put_point value.to;
    length = 32;
    format = 1;
  }

  unfoldable pub pgval_to_lseg : (Bytes → Result Fault Lseg) → PgVal Bytes → Result Fault Lseg
  pgval_to_lseg of_text null = ok (record { from = origin; to = origin })
  pgval_to_lseg of_text (text s) = of_text s
  pgval_to_lseg of_text (binary val) = do
    from ← get_point val
    to ← get_point (drop 16 val)
    ok (record { from = from; to = to })

  unfoldable pub new_parameter_box : Box → Parameter Bytes
  new_parameter_box value = record {
    oid = 603;
    value = put_point value.high ++ put_point value.low;
    length = 32;
    format = 1;
  }

  unfoldable pub pgval_to_box : (Bytes → Result Fault Box) → PgVal Bytes → Result Fault Box
  pgval_to_box of_text null = ok empty_box
  pgval_to_box of_text (text s) = of_text s
  pgval_to_box of_text (binary val) = do
    high ← get_point val
    low ← get_point (drop 16 val)
    ok (record { high = high; low = low })

  unfoldable pub put_points : List Point → Bytes
  put_points [] = []
  put_points (p ∷ ps) = put_point p ++ put_points ps

  unfoldable pub get_points : ℕ → Bytes → Result Fault (List Point)
  get_points zero val = ok []
  get_points (suc n) val = do p ← get_point val; ps ← get_points n (drop 16 val); ok (p ∷ ps)

  unfoldable pub new_parameter_path : PointPath → Parameter Bytes
  new_parameter_path value = record {
    oid = 602;
    value =
        (if value.closed then 1 else 0)
        ∷ (put32 net little (length value.points) ++ put_points value.points);
    length = 5 + length value.points * 16;
    format = 1;
  }

  unfoldable pub pgval_to_path :
      Bool → (Bytes → Result Fault PointPath) → PgVal Bytes → Result Fault PointPath
  unfolding byte_at
  pgval_to_path memory of_text null = ok (record { closed = memory; points = [] })
  pgval_to_path memory of_text (text s) = of_text s
  pgval_to_path memory of_text (binary val) = do
    first ← byte_at val
    nb ← get32 net little (drop 1 val)
    points ← get_points (signed_count nb) (drop 4 (drop 1 val))
    ok (record { closed = first == 1; points = points })

  unfoldable pub new_parameter_polygon : Polygon → Parameter Bytes
  new_parameter_polygon value = record {
    oid = 604;
    value = put32 net little (length value.points) ++ put_points value.points;
    length = 4 + length value.points * 16;
    format = 1;
  }

  unfoldable pub pgval_to_polygon :
      (Bytes → Result Fault Polygon) → PgVal Bytes → Result Fault Polygon
  pgval_to_polygon of_text null = ok (record { boundbox = empty_box; points = [] })
  pgval_to_polygon of_text (text s) = of_text s
  pgval_to_polygon of_text (binary val) = do
    nb ← get32 net little val
    points ← get_points (signed_count nb) (drop 4 val)
    ok (record { boundbox = empty_box; points = points })

  unfoldable pub new_parameter_circle : Circle → Parameter Bytes
  new_parameter_circle value = record {
    oid = 718;
    value = put_point value.center ++ put64 net little value.radius;
    length = 24;
    format = 1;
  }

  unfoldable pub pgval_to_circle :
      ℕ → (Bytes → Result Fault Circle) → PgVal Bytes → Result Fault Circle
  pgval_to_circle memory of_text null = ok (record { center = origin; radius = memory })
  pgval_to_circle memory of_text (text s) = of_text s
  pgval_to_circle memory of_text (binary val) = do
    center ← get_point val
    radius ← get64 net little (drop 16 val)
    ok (record { center = center; radius = radius })
