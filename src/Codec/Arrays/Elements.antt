-- ===== src/Codec/Arrays/Elements.antt =====
-- src/data_parameters.cpp and include/pq-async/data_parameters.h: arrays that are sent and read
-- back.
use pq_async.Common.{
  ℕ, suc, ◌+◌, ◌*◌, ◌/◌, ◌%◌, ◌≤◌, ◌<◌, Bool, true, false, List, [], ◌∷◌, ◌++◌, Bytes, ok, ◌≡◌,
  refl, ap, sym, ◌∙◌, arith, ◌==◌, if◌then◌else◌, lt→ltb, length, take, append_assoc, drop-append,
  length-take,
}
use native.Mathlib.Nat.{div-add-mod, mul_assoc, add-mul-mod_self_left}
use pq_async.Codec.{Net, IsNet, binary}
use pq_async.Codec.Words.{put32, get32-put32, drop-put32}
use pq_async.Codec.Geometry.{signed_count}
use pq_async.Codec.Arrays.{
  Jagged, Element, vec_append, put_sizes, get_sizes, put_elements, get_elements, array_bytes,
  array_at, get_array_oid_and_dim,
}

abbrev pub AllOf : {T : Type 0} → (T → Type 0) → List T → Type 0
AllOf P [] = Unit
AllOf P (v ∷ vs) = P v × AllOf P vs

abbrev pub product : List ℕ → ℕ
product [] = 1
product (n ∷ ns) = n * product ns

-- The count of the elements of an array of these sizes.
abbrev pub count_of : List ℕ → ℕ
count_of [] = 0
count_of (n ∷ ns) = product (n ∷ ns)

-- The sizes of a vector give the count of its elements, an `int32_t` holds its numbers, and its
-- elements are of `P`.
abbrev pub Fits : {J : Type 0} {T : Type 0} → ℕ → (T → Type 0) → Jagged J T → J → Type 0
Fits oid P md j =
    (length (md.values j) ≡ count_of (md.sizes j))
    × (length (md.values j) < 2147483648)
    × (length (md.sizes j) < 2147483648)
    × (oid < 4294967296)
    × AllOf (λ n. n < 4294967296) (md.sizes j)
    × AllOf P (md.values j)

regroup : (r q b : ℕ) → r * b + 4294967296 * (q * b) ≡ (4294967296 * q + r) * b
regroup r q b = grind arith

pub not_null : (x : ℕ) → x < 2147483648 → (x == 4294967295) ≡ false
not_null x h = ground arith

wrap_mul : (a b : ℕ) → a % 4294967296 * b % 4294967296 ≡ a * b % 4294967296
wrap_mul a b =
    let times = add-mul-mod_self_left (a % 4294967296 * b) 4294967296 (a / 4294967296 * b) in
    sym times
    ∙ ap (λ x. x % 4294967296)
        (regroup (a % 4294967296) (a / 4294967296) b ∙ ap (λ x. x * b) (div-add-mod a 4294967296))

product_small : (p n : ℕ) → n ≡ p → n < 2147483648 → signed_count (1 * p % 4294967296) ≡ n
product_small p n e h = ground arith

not_zero : (n : ℕ) → (suc n == 0) ≡ false
not_zero n = ground arith

count_lem :
    (ns : List ℕ) (n : ℕ)
    → n ≡ count_of ns
    → n < 2147483648
    → signed_count ((if length ns == 0 then 0 else 1) * product ns % 4294967296) ≡ n
count_lem [] n e h = sym e
count_lem (x ∷ xs) n e h = rw (not_zero (length xs)) (product_small (product (x ∷ xs)) n e h)

start_small : (b : Bool) → (if b then 0 else 1) < 4294967296
start_small true = omega arith
start_small false = omega arith

-- What an element's parameter sends is read back as the element.
pub record IsElement {T : Type 0} (item : Element T) (sized : ℕ → ℕ) (oid : ℕ) (P : T → Type 0)
    : Type 0 where
  pub whole : (v : T) → P v → sized (item.send v).length ≤ length (item.send v).value
  pub small : (v : T) → P v → sized (item.send v).length < 2147483648
  pub read-send :
      (v : T) (rest : Bytes)
      → P v
      → let len = sized (item.send v).length in
        item.read oid len (take len (item.send v).value ++ rest) ≡ ok v

-- What `md::jagged_vector` documents: it is made of its sizes and its elements.
pub record IsJagged {J : Type 0} {T : Type 0} (md : Jagged J T) : Type 0 where
  pub make-parts : (j : J) → md.make (md.sizes j) (md.values j) ≡ j

module _ (net : Net) (is : IsNet net) (little : Bool) where
  get_sizes-put_sizes :
      (ns : List ℕ) (count : ℕ) (rest : Bytes)
      → AllOf (λ n. n < 4294967296) ns
      → count < 4294967296
      → get_sizes net little (length ns) count (put_sizes net little ns ++ rest)
        ≡ ok (count * product ns % 4294967296, ns, rest)
  unfolding get_sizes put_sizes
  get_sizes-put_sizes [] count rest h small = ap (λ c. ok (c, [], rest)) (omega (arith, small))
  get_sizes-put_sizes (n ∷ ns) count rest (hn, h) small =
      rw
        (
          append_assoc (put32 net little n) (put32 net little 1 ++ put_sizes net little ns) rest,
          append_assoc (put32 net little 1) (put_sizes net little ns) rest,
          get32-put32 net is little n _ hn,
          drop-put32 net is little n,
          drop-put32 net is little 1,
          get_sizes-put_sizes ns (count * n % 4294967296) rest h (omega arith),
        )
        (ap (λ c. ok (c, n ∷ ns, rest))
          (wrap_mul (count * n) (product ns)
            ∙ ap (λ x. x % 4294967296) (mul_assoc count n (product ns))))

  module _ {T : Type 0} (item : Element T) (sized : ℕ → ℕ) (oid : ℕ) (P : T → Type 0)
      (of : IsElement item sized oid P) where
    get_elements-put_elements :
        (vs : List T)
        → AllOf P vs
        → get_elements net little item (length vs) oid (put_elements net little item sized vs)
          ≡ ok vs
    unfolding get_elements put_elements vec_append
    get_elements-put_elements [] h = refl
    get_elements-put_elements (v ∷ vs) (hv, h) =
        let len = sized (item.send v).length in
        let others = put_elements net little item sized vs in
        rw
          (
            append_assoc (put32 net little len) (take len (item.send v).value) others,
            get32-put32 net is little len (take len (item.send v).value ++ others)
                (omega (arith, of.small v hv)),
            drop-put32 net is little len (take len (item.send v).value ++ others),
            of.read-send v others hv,
            not_null len (of.small v hv),
            drop-append (take len (item.send v).value) others len
                (omega (arith, of.whole v hv, length-take len (item.send v).value)),
            get_elements-put_elements vs h,
          )
          refl

    module _ {J : Type 0} (md : Jagged J T) (made : IsJagged md) (j : J) where
      pub array_at-array_bytes :
          Fits oid P md j
          → (array_at net little item md (array_bytes net little item md sized oid j) ≡ ok j)
            × (get_array_oid_and_dim net little
                  (binary (array_bytes net little item md sized oid j))
                ≡ ok (oid, length (md.sizes j)))
      unfolding array_at array_bytes get_array_oid_and_dim
      array_at-array_bytes (hc, hv, hd, ho, hs, hp) =
          let sizes = md.sizes j in
          let values = md.values j in
          let elements = put_elements net little item sized values in
          let dims = put_sizes net little sizes ++ elements in
          let typed = put32 net little oid ++ dims in
          let start : ℕ = if length sizes == 0 then 0 else 1 in
          (
            rw
                (
                  get32-put32 net is little (length sizes) (put32 net little 0 ++ typed)
                      (omega (arith, hd)),
                  drop-put32 net is little (length sizes) (put32 net little 0 ++ typed),
                  drop-put32 net is little 0 typed,
                  get32-put32 net is little oid dims ho,
                  drop-put32 net is little oid dims,
                  lt→ltb (length sizes) 2147483648 hd,
                  get_sizes-put_sizes sizes start elements hs (start_small (length sizes == 0)),
                  count_lem sizes (length values) hc hv,
                  get_elements-put_elements values hp,
                  made.make-parts j,
                )
                refl,
            rw
                (
                  get32-put32 net is little (length sizes) (put32 net little 0 ++ typed)
                      (omega (arith, hd)),
                  drop-put32 net is little (length sizes) (put32 net little 0 ++ typed),
                  drop-put32 net is little 0 typed,
                  get32-put32 net is little oid dims ho,
                )
                refl,
          )
