-- ===== src/Codec/Words.antt =====
-- Words at a pointer, for the encoders and decoders of src/data_parameters.cpp: the calls of
-- `swap2`, `swap4` and `swap8` on a place in a buffer, and `pgval_to_int32`, `pgval_to_int64` and
-- `pgval_to_double` on a place in a value.
--
-- A pointer into a value is the list of the bytes behind it.
use pq_async.Common.{
  ℕ, ◌+◌, ◌*◌, ◌/◌, ◌%◌, ◌<◌, Bool, true, false, [], ◌∷◌, ◌++◌, Bytes, Result, ok, throw, ◌≡◌, refl,
  ap, arith, leb, if◌then◌else◌, ◌==◌, length, take, drop,
}
use pq_async.Codec.{
  Net, IsNet, big16, big32, memory16, memory32, memory64, read16, read32, read64, swap2, swap4,
  swap8,
}

-- `outside` is a read behind the end of the value, which the source does not test; the others are
-- exceptions.
pub data Fault : Type 0 where
  outside unsupported_text unsupported_family unsupported_oid bad_length : Fault

-- The bytes of one word at a pointer.
abbrev pub word2 : Bytes → Result Fault Bytes
word2 (a ∷ b ∷ rest) = ok (a ∷ b ∷ [])
word2 _ = throw outside

abbrev pub word4 : Bytes → Result Fault Bytes
word4 (a ∷ b ∷ c ∷ d ∷ rest) = ok (a ∷ b ∷ c ∷ d ∷ [])
word4 _ = throw outside

abbrev pub word8 : Bytes → Result Fault (Bytes × Bytes)
word8 (a ∷ b ∷ c ∷ d ∷ e ∷ f ∷ g ∷ h ∷ rest) = ok (a ∷ b ∷ c ∷ d ∷ [], e ∷ f ∷ g ∷ h ∷ [])
word8 _ = throw outside

-- `std::string(val, len)`
abbrev pub chars : ℕ → Bytes → Result Fault Bytes
chars len val = if leb len (length val) then ok (take len val) else throw outside

-- `val += 4; val += len`, where a length of -1 goes one byte back.
abbrev pub behind : ℕ → Bytes → Bytes
behind len val = if len == 4294967295 then drop 3 val else drop len (drop 4 val)

infixl 5 ◌<$>◌
abbrev pub ◌<$>◌ {ℓ} : {E A B : Type ℓ} → (A → B) → Result E A → Result E B
f <$> ok a = ok (f a)
f <$> throw e = throw e

module _ (net : Net) (little : Bool) where
  -- What `swap2(&v, out, true)` and the others write.
  unfoldable pub put16 : ℕ → Bytes
  unfolding swap2
  put16 v = swap2 net little (memory16 little v) true

  unfoldable pub put32 : ℕ → Bytes
  unfolding swap4
  put32 v = swap4 net little (memory32 little v) true

  unfoldable pub put64 : ℕ → Bytes
  unfolding swap8
  put64 v = let w = swap8 net little (memory64 little v) true in w.0 ++ w.1

  -- What `swap2(val, &v, false)` and the others read.
  unfoldable pub get16 : Bytes → Result Fault ℕ
  unfolding swap2
  get16 val = (λ w. read16 little (swap2 net little w false)) <$> word2 val

  unfoldable pub get32 : Bytes → Result Fault ℕ
  unfolding swap4
  get32 val = (λ w. read32 little (swap4 net little w false)) <$> word4 val

  unfoldable pub get64 : Bytes → Result Fault ℕ
  unfolding swap8
  get64 val = (λ w. read64 little (swap8 net little w false)) <$> word8 val

big64 : ℕ → Bytes
big64 v = big32 (v / 4294967296) ++ big32 v

join16 : (v : ℕ) → v < 65536 → v % 256 + 256 * (v / 256 % 256) ≡ v
join16 v h = omega arith

join32 :
    (v : ℕ)
    → v < 4294967296
    → v % 256 + 256 * (v / 256 % 256) + 65536 * (v / 65536 % 256) + 16777216 * (v / 16777216 % 256)
      ≡ v
join32 v h = omega arith

-- On a network of the documented behaviour.
module _ (net : Net) (is : IsNet net) where
  put16_lem : (little : Bool) (v : ℕ) → put16 net little v ≡ big16 v
  unfolding put16 swap2
  put16_lem true v = is.host16 _ _
  put16_lem false v = refl

  put32_lem : (little : Bool) (v : ℕ) → put32 net little v ≡ big32 v
  unfolding put32 swap4
  put32_lem true v = is.host32 _ _ _ _
  put32_lem false v = refl

  put64_lem : (little : Bool) (v : ℕ) → put64 net little v ≡ big64 v
  unfolding put64 swap8 big64
  put64_lem true v = rw (is.host32, is.host32) refl
  put64_lem false v = refl

  get16-big16 :
      (little : Bool) (v : ℕ) (rest : Bytes) → v < 65536 → get16 net little (big16 v ++ rest) ≡ ok v
  unfolding get16 swap2
  get16-big16 true v rest h = rw (is.net16) (ap ok (join16 v h))
  get16-big16 false v rest h = ap ok (omega (arith, h))

  get32-big32 :
      (little : Bool) (v : ℕ) (rest : Bytes)
      → v < 4294967296
      → get32 net little (big32 v ++ rest) ≡ ok v
  unfolding get32 swap4
  get32-big32 true v rest h = rw (is.net32) (ap ok (join32 v h))
  get32-big32 false v rest h = ap ok (omega (arith, h))

  get64-big64 :
      (little : Bool) (v : ℕ) (rest : Bytes)
      → v < 4294967296 * 4294967296
      → get64 net little (big64 v ++ rest) ≡ ok v
  unfolding get64 swap8 big64
  get64-big64 true v rest h = rw (is.net32, is.net32) (ap ok (omega (arith, h)))
  get64-big64 false v rest h = ap ok (omega (arith, h))

module _ (net : Net) (is : IsNet net) (little : Bool) where
  pub get16-put16 :
      (v : ℕ) (rest : Bytes) → v < 65536 → get16 net little (put16 net little v ++ rest) ≡ ok v
  get16-put16 v rest h = rw (put16_lem net is little v) (get16-big16 net is little v rest h)

  pub get32-put32 :
      (v : ℕ) (rest : Bytes) → v < 4294967296 → get32 net little (put32 net little v ++ rest) ≡ ok v
  get32-put32 v rest h = rw (put32_lem net is little v) (get32-big32 net is little v rest h)

  pub get64-put64 :
      (v : ℕ) (rest : Bytes)
      → v < 4294967296 * 4294967296
      → get64 net little (put64 net little v ++ rest) ≡ ok v
  get64-put64 v rest h = rw (put64_lem net is little v) (get64-big64 net is little v rest h)

  pub drop-put16 : (v : ℕ) (rest : Bytes) → drop 2 (put16 net little v ++ rest) ≡ rest
  drop-put16 v rest = rw (put16_lem net is little v) refl

  pub drop-put32 : (v : ℕ) (rest : Bytes) → drop 4 (put32 net little v ++ rest) ≡ rest
  drop-put32 v rest = rw (put32_lem net is little v) refl

  pub drop-put64 : (v : ℕ) (rest : Bytes) → drop 8 (put64 net little v ++ rest) ≡ rest
  unfolding big64
  drop-put64 v rest = rw (put64_lem net is little v) refl

  pub length-put16 : (v : ℕ) → length (put16 net little v) ≡ 2
  length-put16 v = rw (put16_lem net is little v) refl

  pub length-put32 : (v : ℕ) → length (put32 net little v) ≡ 4
  length-put32 v = rw (put32_lem net is little v) refl

  pub length-put64 : (v : ℕ) → length (put64 net little v) ≡ 8
  unfolding big64
  length-put64 v = rw (put64_lem net is little v) refl
