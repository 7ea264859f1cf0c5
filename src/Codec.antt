-- ===== src/Codec.antt =====
-- The binary format of integers: `swap2`, `swap4` and `swap8` of src/utils.cpp, and `new_parameter`
-- and `pgval_to_int16`, `pgval_to_int32` and `pgval_to_int64` of src/data_parameters.cpp.
--
-- An integer is the list of its bytes in the memory of the host, which is `little` endian or not.
-- `htons` and the others of `arpa/inet.h` are the parameter `net`; a text goes to `str_to_num`.
pub mod Arrays
pub mod Conversions
pub mod Geometry
pub mod Integers
pub mod Moments
pub mod Networks
pub mod Spans
pub mod Times
pub mod Typed
pub mod Words
use pq_async.Common.{
  ℕ, ◌+◌, ◌*◌, ◌/◌, ◌%◌, ◌<◌, Bool, true, false, not, List, [], ◌∷◌, ◌++◌, Option, some, none,
  Bytes, if◌then◌else◌, ◌≡◌, refl, arith,
}

-- On the bytes of one word in memory.
pub record Net : Type 0 where
  pub htons : Bytes → Bytes
  pub ntohs : Bytes → Bytes
  pub htonl : Bytes → Bytes
  pub ntohl : Bytes → Bytes

-- `*(char *)&n == 1` is the argument `little`.
unfoldable pub swap2 : Net → Bool → Bytes → Bool → Bytes
swap2 net little inp to_network =
    if little then (if to_network then net.htons inp else net.ntohs inp) else inp

unfoldable pub swap4 : Net → Bool → Bytes → Bool → Bytes
swap4 net little inp to_network =
    if little then (if to_network then net.htonl inp else net.ntohl inp) else inp

-- The two words of the number, in the order of memory.
unfoldable pub swap8 : Net → Bool → Bytes × Bytes → Bool → Bytes × Bytes
swap8 net little inp to_network =
    if little
    then (if to_network
        then (net.htonl inp.1, net.htonl inp.0)
        else (net.ntohl inp.1, net.ntohl inp.0))
    else inp

-- What is documented of `arpa/inet.h` on a little endian host.
pub record IsNet (net : Net) : Type 0 where
  pub host16 : (a b : ℕ) → net.htons (a ∷ b ∷ []) ≡ b ∷ a ∷ []
  pub net16 : (a b : ℕ) → net.ntohs (a ∷ b ∷ []) ≡ b ∷ a ∷ []
  pub host32 : (a b c d : ℕ) → net.htonl (a ∷ b ∷ c ∷ d ∷ []) ≡ d ∷ c ∷ b ∷ a ∷ []
  pub net32 : (a b c d : ℕ) → net.ntohl (a ∷ b ∷ c ∷ d ∷ []) ≡ d ∷ c ∷ b ∷ a ∷ []

-- The bytes of a word, the most significant first, and its bytes in memory.
abbrev pub big16 : ℕ → Bytes
big16 v = (v / 256 % 256) ∷ (v % 256) ∷ []

abbrev pub big32 : ℕ → Bytes
big32 v = (v / 16777216 % 256) ∷ (v / 65536 % 256) ∷ (v / 256 % 256) ∷ (v % 256) ∷ []

abbrev pub memory16 : Bool → ℕ → Bytes
memory16 little v = if little then (v % 256) ∷ (v / 256 % 256) ∷ [] else big16 v

abbrev pub memory32 : Bool → ℕ → Bytes
memory32 little v =
    if little
    then (v % 256) ∷ (v / 256 % 256) ∷ (v / 65536 % 256) ∷ (v / 16777216 % 256) ∷ []
    else big32 v

abbrev pub memory64 : Bool → ℕ → Bytes × Bytes
memory64 little v =
    if little
    then (memory32 true v, memory32 true (v / 4294967296))
    else (big32 (v / 4294967296), big32 v)

-- The integer in memory, as its bit pattern; other lengths are not read.
abbrev pub read16 : Bool → Bytes → ℕ
read16 little (a ∷ b ∷ []) = if little then a + 256 * b else 256 * a + b
read16 little _ = 0

abbrev pub read32 : Bool → Bytes → ℕ
read32 little (a ∷ b ∷ c ∷ d ∷ []) =
    if little
    then a + 256 * b + 65536 * c + 16777216 * d
    else 16777216 * a + 65536 * b + 256 * c + d
read32 little _ = 0

abbrev pub read64 : Bool → Bytes × Bytes → ℕ
read64 little (u, v) =
    if little
    then read32 true u + 4294967296 * read32 true v
    else 4294967296 * read32 false u + read32 false v

-- A parameter: the number of its type, its bytes, and the binary format.
pub record Parameter (B : Type 0) : Type 0 where
  pub oid : ℕ
  pub value : B
  pub length : ℕ
  pub format : ℕ

-- What a result has for a value: null (`len == -1`), a text, or bytes.
pub data PgVal (B : Type 0) : Type 0 where
  null : PgVal B
  text : Bytes → PgVal B
  binary : B → PgVal B

module _ (net : Net) (little : Bool) where
  unfoldable pub new_parameter_int16 : ℕ → Parameter Bytes
  unfolding swap2
  new_parameter_int16 value = record {
    oid = 21;
    value = swap2 net little (memory16 little value) true;
    length = 2;
    format = 1;
  }

  unfoldable pub new_parameter_int32 : ℕ → Parameter Bytes
  unfolding swap4
  new_parameter_int32 value = record {
    oid = 23;
    value = swap4 net little (memory32 little value) true;
    length = 4;
    format = 1;
  }

  unfoldable pub new_parameter_int64 : ℕ → Parameter (Bytes × Bytes)
  unfolding swap8
  new_parameter_int64 value = record {
    oid = 20;
    value = swap8 net little (memory64 little value) true;
    length = 8;
    format = 1;
  }

  -- With `str_to_num` of the type.
  unfoldable pub pgval_to_int16 : (Bytes → ℕ) → PgVal Bytes → ℕ
  unfolding swap2
  pgval_to_int16 str_to_num null = 0
  pgval_to_int16 str_to_num (text s) = str_to_num s
  pgval_to_int16 str_to_num (binary val) = read16 little (swap2 net little val false)

  unfoldable pub pgval_to_int32 : (Bytes → ℕ) → PgVal Bytes → ℕ
  unfolding swap4
  pgval_to_int32 str_to_num null = 0
  pgval_to_int32 str_to_num (text s) = str_to_num s
  pgval_to_int32 str_to_num (binary val) = read32 little (swap4 net little val false)

  unfoldable pub pgval_to_int64 : (Bytes → ℕ) → PgVal (Bytes × Bytes) → ℕ
  unfolding swap8
  pgval_to_int64 str_to_num null = 0
  pgval_to_int64 str_to_num (text s) = str_to_num s
  pgval_to_int64 str_to_num (binary val) = read64 little (swap8 net little val false)
