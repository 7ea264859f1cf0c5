-- ===== src/Codec/Arrays.antt =====
-- The binary format of arrays: `new_parameter_gen` and `pgval_to_array` of
-- include/pq-async/data_parameters.h, with the one for texts, `get_array_oid_and_dim` and
-- `vec_append` of src/data_parameters.cpp.
--
-- `md::jagged_vector` is the record `Jagged` of what the code asks of it. Counts are bit patterns
-- of 32 bits; a loop up to a negative one does not run, and room for a negative count of dimensions
-- cannot be reserved. Null has the empty string at `val`, which ends with a zero byte.
pub mod Elements
pub mod Instances
use pq_async.Common.{
  ℕ, zero, suc, ◌+◌, ◌-◌, ◌*◌, ◌%◌, Bool, true, false, List, [], ◌∷◌, ◌++◌, Bytes, Result, ok,
  throw, ◌>>=◌, ltb, ◌==◌, if◌then◌else◌, length, take, drop,
}
use pq_async.Codec.{Net, Parameter, PgVal, null, text, binary}
use pq_async.Codec.Words.{Fault, bad_length, unsupported_text, put32, get32, chars, behind}
use pq_async.Codec.Conversions.{Casts, cell, val_from_pgparam_int32}
use pq_async.Codec.Geometry.{signed_count}

-- `J` is `md::jagged_vector<T>`: the sizes of its dimensions, its elements in order, and the
-- constructor from both.
pub record Jagged (J : Type 0) (T : Type 0) : Type 0 where
  pub sizes : J → List ℕ
  pub values : J → List T
  pub make : List ℕ → List T → J

-- `new_parameter` and `val_from_pgparam` of the elements; the latter has the number of the type,
-- the length and the pointer.
pub record Element (T : Type 0) : Type 0 where
  pub send : T → Parameter Bytes
  pub read : ℕ → ℕ → Bytes → Result Fault T

unfoldable pub vec_append : Bytes → Bytes → ℕ → Bytes
vec_append vec buf len = vec ++ take len buf

unfoldable pub new_parameter_string : Bytes → Parameter Bytes
new_parameter_string value = record {
  oid = 25;
  value = value ++ (0 ∷ []);
  length = length value + 1;
  format = 0;
}

-- On a text the zero at its end is not sent.
abbrev pub whole_length : ℕ → ℕ
whole_length len = len

abbrev pub without_end : ℕ → ℕ
without_end len = len - 1

module _ (net : Net) (little : Bool) where
  -- Each size with its lower bound.
  unfoldable pub put_sizes : List ℕ → Bytes
  put_sizes [] = []
  put_sizes (n ∷ ns) = put32 net little n ++ (put32 net little 1 ++ put_sizes ns)

  -- The product of the sizes, and the sizes, with the pointer behind them.
  unfoldable pub get_sizes : ℕ → ℕ → Bytes → Result Fault (ℕ × List ℕ × Bytes)
  get_sizes zero ele_count val = ok (ele_count, [], val)
  get_sizes (suc n) ele_count val = do
    dim_val ← get32 net little val
    (count, dims, end) ← get_sizes n (ele_count * dim_val % 4294967296) (drop 4 (drop 4 val))
    ok (count, dim_val ∷ dims, end)

  module _ {T : Type 0} (item : Element T) where
    -- With `len` as the function of `get_length()`.
    unfoldable pub put_elements : (ℕ → ℕ) → List T → Bytes
    unfolding vec_append
    put_elements sized [] = []
    put_elements sized (v ∷ vs) =
        let param = item.send v in
        let len = sized param.length in
        vec_append (put32 net little len) param.value len ++ put_elements sized vs

    unfoldable pub get_elements : ℕ → ℕ → Bytes → Result Fault (List T)
    get_elements zero ele_oid val = ok []
    get_elements (suc n) ele_oid val = do
      val_len ← get32 net little val
      v ← item.read ele_oid val_len (drop 4 val)
      vs ← get_elements n ele_oid (behind val_len val)
      ok (v ∷ vs)

    module _ {J : Type 0} (md : Jagged J T) where
      -- The buffer that is filled.
      unfoldable pub array_bytes : (ℕ → ℕ) → ℕ → J → Bytes
      array_bytes sized ele_oid value =
          put32 net little (length (md.sizes value))
          ++ (put32 net little 0
              ++ (put32 net little ele_oid
                  ++ (put_sizes (md.sizes value) ++ put_elements sized (md.values value))))

      unfoldable pub new_parameter_gen : J → ℕ → ℕ → Parameter Bytes
      new_parameter_gen value ele_oid arr_ele_oid = record {
        oid = arr_ele_oid;
        value = array_bytes whole_length ele_oid value;
        length = length (array_bytes whole_length ele_oid value);
        format = 1;
      }

      unfoldable pub array_at : Bytes → Result Fault J
      array_at val = do
        svr_dim_count ← get32 net little val
        dims ← if ltb svr_dim_count 2147483648 then ok svr_dim_count else throw bad_length
        ele_oid ← get32 net little (drop 4 (drop 4 val))
        (ele_count, dim_sizes, end) ←
            get_sizes dims (if dims == 0 then 0 else 1) (drop 4 (drop 4 (drop 4 val)))
        values ← get_elements (signed_count ele_count) ele_oid end
        ok (md.make dim_sizes values)

      unfoldable pub pgval_to_array : PgVal Bytes → Result Fault J
      pgval_to_array null = array_at (0 ∷ [])
      pgval_to_array (text s) = throw unsupported_text
      pgval_to_array (binary val) = array_at val

  -- The one for texts.
  unfoldable pub new_parameter_gen_string :
      {J : Type 0} → Element Bytes → Jagged J Bytes → J → ℕ → ℕ → Parameter Bytes
  new_parameter_gen_string item md value ele_oid arr_ele_oid = record {
    oid = arr_ele_oid;
    value = array_bytes item md without_end ele_oid value;
    length = length (array_bytes item md without_end ele_oid value);
    format = 1;
  }

  unfoldable pub get_array_oid_and_dim : PgVal Bytes → Result Fault (ℕ × ℕ)
  get_array_oid_and_dim (text s) = throw unsupported_text
  get_array_oid_and_dim null = get32 net little (0 ∷ []) >>= λ dim. ok (0, dim)
  get_array_oid_and_dim (binary val) = do
    dim ← get32 net little val
    oid ← get32 net little (drop 4 (drop 4 val))
    ok (oid, dim)

-- What `val`, `len` and the binary format say of an element.
abbrev element_value : ℕ → Bytes → PgVal Bytes
element_value len val = if len == 4294967295 then null else binary val

abbrev pub int32_element : Net → Bool → Casts → Element ℕ
int32_element net little casts = record {
  send = λ v. record { oid = 23; value = put32 net little v; length = 4; format = 1 };
  read = λ oid len val. val_from_pgparam_int32 net little casts oid (cell (element_value len val));
}

-- Other types that are read as a text are the argument `others`.
abbrev pub string_element : (ℕ → ℕ → Bytes → Result Fault Bytes) → Element Bytes
string_element others = record {
  send = new_parameter_string;
  read = λ oid len val.
      if oid == 25
      then (if len == 4294967295 then ok [] else chars len val)
      else others oid len val;
}
