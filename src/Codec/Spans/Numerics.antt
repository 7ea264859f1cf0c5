-- ===== src/Codec/Spans/Numerics.antt =====
-- src/data_parameters.cpp: numerics that are sent and read back.
use pq_async.Common.{
  ℕ, ◌+◌, ◌*◌, ap, ◌∙◌, ◌<◌, Bool, List, [], ◌∷◌, ◌++◌, Bytes, Result, ok, ◌≡◌, refl, arith, lt→ltb,
  length, append_assoc, length-append,
}
use pq_async.Codec.{Net, IsNet, binary}
use pq_async.Codec.Words.{Fault, put16, get16-put16, drop-put16, length-put16}
use pq_async.Codec.Spans.{
  Numeric, from_int16, as_int16, put_digits, get_digits, put_numeric, pgval_to_numeric,
}

-- Digits of 16 bits, in a number that an `int16_t` counts.
abbrev pub AreDigits : List ℕ → Type 0
AreDigits [] = Unit
AreDigits (d ∷ ds) = (d < 65536) × AreDigits ds

-- A member that an `int16_t` holds.
abbrev pub IsShort : ℕ → Type 0
IsShort v = from_int16 (as_int16 v) ≡ v

-- The sign 0xC000 of nan is not held by one.
abbrev pub IsNumeric : Numeric → Type 0
IsNumeric n =
    IsShort n.weight
    × IsShort n.sign
    × IsShort n.dscale
    × AreDigits n.digits
    × (length n.digits < 32768)

module _ (net : Net) (is : IsNet net) (little : Bool) where
  length-put_digits : (ds : List ℕ) → length (put_digits net little ds) ≡ 2 * length ds
  unfolding put_digits
  length-put_digits [] = refl
  length-put_digits (d ∷ ds) = omega (
    arith,
    length-append (put16 net little d) (put_digits net little ds),
    length-put16 net is little d,
    length-put_digits ds,
  )

  get_digits-put_digits :
      (ds : List ℕ) (rest : Bytes)
      → AreDigits ds
      → get_digits net little (length ds) (put_digits net little ds ++ rest) ≡ ok ds
  unfolding get_digits put_digits
  get_digits-put_digits [] rest h = refl
  get_digits-put_digits (d ∷ ds) rest (hd, h) =
      rw
        (
          append_assoc (put16 net little d) (put_digits net little ds) rest,
          get16-put16 net is little d _ hd,
          drop-put16 net is little d,
          get_digits-put_digits ds rest h,
        )
        refl

  pub length-put_numeric :
      (n : Numeric) → length (put_numeric net little n) ≡ 2 * (4 + length n.digits)
  unfolding put_numeric
  length-put_numeric n =
      rw
        (
          length-append (put16 net little (length n.digits)),
          length-append (put16 net little (as_int16 n.weight)),
          length-append (put16 net little (as_int16 n.sign)),
          length-append (put16 net little (as_int16 n.dscale)),
          length-put16 net is little (length n.digits),
          length-put16 net is little (as_int16 n.weight),
          length-put16 net is little (as_int16 n.sign),
          length-put16 net is little (as_int16 n.dscale),
          length-put_digits n.digits,
        )
        (omega arith)

  -- A numeric that was sent is read with the extension of what an `int16_t` holds of its members.
  get_numeric-sent :
      (of_text : Bytes → Result Fault Numeric) (n : Numeric) (rest : Bytes)
      → AreDigits n.digits
      → length n.digits < 32768
      → pgval_to_numeric net little of_text (binary (put_numeric net little n ++ rest))
        ≡ ok (record n {
          weight = from_int16 (as_int16 n.weight);
          sign = from_int16 (as_int16 n.sign);
          dscale = from_int16 (as_int16 n.dscale);
        })
  unfolding put_numeric pgval_to_numeric
  get_numeric-sent of_text n rest hn hl =
      rw
        (
          append_assoc (put16 net little (length n.digits)) _ rest,
          append_assoc (put16 net little (as_int16 n.weight)) _ rest,
          append_assoc (put16 net little (as_int16 n.sign)) _ rest,
          append_assoc (put16 net little (as_int16 n.dscale)) _ rest,
          get16-put16 net is little (length n.digits) _ (omega (arith, hl)),
          drop-put16 net is little (length n.digits),
          get16-put16 net is little (as_int16 n.weight) _ (short n.weight),
          drop-put16 net is little (as_int16 n.weight),
          get16-put16 net is little (as_int16 n.sign) _ (short n.sign),
          drop-put16 net is little (as_int16 n.sign),
          get16-put16 net is little (as_int16 n.dscale) _ (short n.dscale),
          drop-put16 net is little (as_int16 n.dscale),
          lt→ltb (length n.digits) 32768 hl,
          get_digits-put_digits n.digits rest hn,
        )
        refl
    where
      short : (v : ℕ) → as_int16 v < 65536
      short v = omega arith

  pub get_numeric-put_numeric :
      (of_text : Bytes → Result Fault Numeric) (n : Numeric) (rest : Bytes)
      → IsNumeric n
      → pgval_to_numeric net little of_text (binary (put_numeric net little n ++ rest)) ≡ ok n
  get_numeric-put_numeric of_text n rest (hw, hs, hd, hn, hl) =
      get_numeric-sent of_text n rest hn hl ∙ ap ok (same n hw hs hd)
    where
      same :
          (n : Numeric)
          → IsShort n.weight
          → IsShort n.sign
          → IsShort n.dscale
          → record n {
            weight = from_int16 (as_int16 n.weight);
            sign = from_int16 (as_int16 n.sign);
            dscale = from_int16 (as_int16 n.dscale);
          }
            ≡ n
      same n hw hs hd i = record n { weight = hw i; sign = hs i; dscale = hd i }

  -- The sign 0xC000 of nan is read as another number: nan is not read back.
  get_nan-put_nan :
      (of_text : Bytes → Result Fault Numeric) (n : Numeric) (rest : Bytes)
      → AreDigits n.digits
      → length n.digits < 32768
      → n.sign ≡ 49152
      → pgval_to_numeric net little of_text (binary (put_numeric net little n ++ rest))
        ≡ ok (record n {
          weight = from_int16 (as_int16 n.weight);
          sign = 4294950912;
          dscale = from_int16 (as_int16 n.dscale);
        })
  get_nan-put_nan of_text n rest hn hl e =
      get_numeric-sent of_text n rest hn hl
      ∙ ap
          (λ (s : ℕ). ok (record n {
            weight = from_int16 (as_int16 n.weight);
            sign = from_int16 (as_int16 s);
            dscale = from_int16 (as_int16 n.dscale);
          }))
          e
