-- ===== src/Codec/Geometry/Points.antt =====
-- src/data_parameters.cpp: the points of geometric values, and counted lists of points.
use pq_async.Common.{
  ℕ, ◌+◌, ◌*◌, ◌<◌, Bool, true, false, List, [], ◌∷◌, ◌++◌, Bytes, ok, ◌≡◌, refl, arith, length,
  drop, append_assoc, append-nil, if◌then◌else◌, ◌==◌, drop-append, subst, length-append,
}
use pq_async.Codec.{Net, IsNet}
use pq_async.Codec.Words.{
  put32, put64, get32, get64, get32-put32, get64-put64, drop-put32, drop-put64, length-put32,
  length-put64,
}
use pq_async.Codec.Geometry.{signed_count, Point, put_point, get_point, put_points, get_points}

-- A pattern of 64 bits.
abbrev pub IsWord : ℕ → Type 0
IsWord v = v < 4294967296 * 4294967296

abbrev pub IsPoint : Point → Type 0
IsPoint p = IsWord p.x × IsWord p.y

abbrev pub ArePoints : List Point → Type 0
ArePoints [] = Unit
ArePoints (p ∷ ps) = IsPoint p × ArePoints ps

module _ (net : Net) (is : IsNet net) (little : Bool) where
  put_point-append :
      (p : Point) (rest : Bytes)
      → put_point net little p ++ rest ≡ put64 net little p.x ++ (put64 net little p.y ++ rest)
  unfolding put_point
  put_point-append p rest = append_assoc (put64 net little p.x) (put64 net little p.y) rest

  pub get_point-put_point :
      (p : Point) (rest : Bytes)
      → IsPoint p
      → get_point net little (put_point net little p ++ rest) ≡ ok p
  unfolding get_point
  get_point-put_point p rest (hx, hy) =
      rw
        (
          put_point-append p rest,
          get64-put64 net is little p.x _ hx,
          drop-put64 net is little p.x,
          get64-put64 net is little p.y _ hy,
        )
        refl

  pub length-put_point : (p : Point) → length (put_point net little p) ≡ 16
  unfolding put_point
  length-put_point p =
      rw
        (
          length-append (put64 net little p.x),
          length-put64 net is little p.x,
          length-put64 net is little p.y,
        )
        refl

  pub drop-put_point : (p : Point) (rest : Bytes) → drop 16 (put_point net little p ++ rest) ≡ rest
  drop-put_point p rest = drop-append (put_point net little p) rest 16 (length-put_point p)

  length-put_points : (ps : List Point) → length (put_points net little ps) ≡ length ps * 16
  unfolding put_points
  length-put_points [] = refl
  length-put_points (p ∷ ps) =
      rw (length-append (put_point net little p), length-put_point p, length-put_points ps)
        (omega arith)

  get_points-put_points :
      (ps : List Point)
      → ArePoints ps
      → get_points net little (length ps) (put_points net little ps) ≡ ok ps
  unfolding get_points put_points
  get_points-put_points [] h = refl
  get_points-put_points (p ∷ ps) (hp, h) =
      rw
        (
          get_point-put_point p (put_points net little ps) hp,
          drop-put_point p,
          get_points-put_points ps h,
        )
        refl

  pub closed_byte : (b : Bool) → ((if b then 1 else 0) == 1) ≡ b
  closed_byte true = refl
  closed_byte false = refl

  signed_count-small : (n : ℕ) → n < 2147483648 → signed_count n ≡ n
  signed_count-small n h = ground arith

  pub length-counted :
      (ps : List Point)
      → length (put32 net little (length ps) ++ put_points net little ps) ≡ 4 + length ps * 16
  length-counted ps =
      rw
        (
          length-append (put32 net little (length ps)),
          length-put32 net is little (length ps),
          length-put_points ps,
        )
        refl

  pub get_counted :
      (ps : List Point)
      → ArePoints ps
      → length ps < 2147483648
      → (get32 net little (put32 net little (length ps) ++ put_points net little ps)
          ≡ ok (length ps))
        × (get_points net little
              (signed_count (length ps))
              (drop 4 (put32 net little (length ps) ++ put_points net little ps))
            ≡ ok ps)
  get_counted ps h small = (
    get32-put32 net is little (length ps) (put_points net little ps) (omega (arith, small)),
    rw (drop-put32 net is little (length ps), signed_count-small (length ps) small)
        (get_points-put_points ps h),
  )

  pub get_point-alone :
      (p : Point) → IsPoint p → get_point net little (put_point net little p) ≡ ok p
  get_point-alone p h =
      subst (λ val. get_point net little val ≡ ok p) (append-nil _) (get_point-put_point p [] h)

  pub get64-alone : (v : ℕ) → IsWord v → get64 net little (put64 net little v) ≡ ok v
  get64-alone v h =
      subst (λ val. get64 net little val ≡ ok v) (append-nil _) (get64-put64 net is little v [] h)
