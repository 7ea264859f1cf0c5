-- ===== src/Codec/Arrays/Instances.antt =====
-- src/data_parameters.cpp: arrays of integers and of texts.
use pq_async.Common.{
  ℕ, ◌+◌, ◌≤◌, ◌<◌, Bool, [], ◌∷◌, ◌++◌, Bytes, Result, ok, ◌≡◌, refl, subst, arith, leb, length,
  take, take-append, append-nil, true, length-append,
}
use pq_async.Codec.{Net, IsNet, binary}
use pq_async.Codec.Words.{Fault, put32, chars, get32-put32, length-put32}
use pq_async.Codec.Spans.{int32_at}
use pq_async.Codec.Conversions.{Casts, kind_of, val_from_pgparam_int32}
use pq_async.Codec.Arrays.{
  Jagged, new_parameter_string, whole_length, without_end, new_parameter_gen,
  new_parameter_gen_string, pgval_to_array, get_array_oid_and_dim, int32_element, string_element,
}
use pq_async.Codec.Arrays.Elements.{IsElement, IsJagged, Fits, not_null, array_at-array_bytes}

le→leb : (a b : ℕ) → a ≤ b → leb a b ≡ true
le→leb a b h = ground arith

chars-append : (s rest : Bytes) → chars (length s) (s ++ rest) ≡ ok s
chars-append s rest =
    rw
      (
        le→leb (length s) (length (s ++ rest)) (omega (arith, length-append s rest)),
        take-append s rest (length s) refl,
      )
      refl

take_all : (s : Bytes) (n : ℕ) → length s ≡ n → take n s ≡ s
take_all s n h = subst (λ xs. take n xs ≡ s) (append-nil s) (take-append s [] n h)

without_end_lem : (n : ℕ) → without_end (n + 1) ≡ n
without_end_lem n = omega arith

int32_IsElement :
    (net : Net) (is : IsNet net) (little : Bool) (casts : Casts)
    → IsElement (int32_element net little casts) whole_length 23 (λ v. v < 4294967296)
unfolding val_from_pgparam_int32 kind_of int32_at
int32_IsElement net is little casts = record {
  whole = λ v h. omega (arith, length-put32 net is little v);
  small = λ v h. omega arith;
  read-send = λ v rest h.
      rw (take_all (put32 net little v) 4 (length-put32 net is little v))
        (get32-put32 net is little v rest h);
}

string_IsElement :
    (others : ℕ → ℕ → Bytes → Result Fault Bytes)
    → IsElement (string_element others) without_end 25 (λ s. length s < 2147483647)
unfolding new_parameter_string
string_IsElement others = record {
  whole = λ v h. omega (arith, length-append v (0 ∷ []));
  small = λ v h. omega (arith, h);
  read-send = λ v rest h.
      rw
        (
          without_end_lem (length v),
          not_null (length v) (omega (arith, h)),
          take-append v (0 ∷ []) (length v) refl,
          chars-append v rest,
        )
        refl;
}

-- On a host of either byte order an array of 32 bit integers and an array of texts, of any number
-- of dimensions and of any sizes that give the count of its elements, also an empty one, are read
-- back as they were, and the type of the elements and the number of the dimensions can be read from
-- them. The counts and the lengths of the texts are such that an `int32_t` holds them;
-- `md::jagged_vector` is of any kind that is made of its sizes and its elements; the conversions of
-- other types do not matter.
pub pgval_to_array-new_parameter_gen :
    (net : Net) (little : Bool) (casts : Casts) (others : ℕ → ℕ → Bytes → Result Fault Bytes)
    {J : Type 0} {K : Type 0} (md : Jagged J ℕ) (md' : Jagged K Bytes) (a : J) (b : K)
    → IsNet net
    → IsJagged md
    → IsJagged md'
    → Fits 23 (λ v. v < 4294967296) md a
    → Fits 25 (λ s. length s < 2147483647) md' b
    → let numbers = int32_element net little casts in
      let texts = string_element others in
      let sent = (new_parameter_gen net little numbers md a 23 1007).value in
      let sent' = (new_parameter_gen_string net little texts md' b 25 1009).value in
      ((pgval_to_array net little numbers md (binary sent) ≡ ok a)
        × (get_array_oid_and_dim net little (binary sent) ≡ ok (23, length (md.sizes a))))
      × ((pgval_to_array net little texts md' (binary sent') ≡ ok b)
          × (get_array_oid_and_dim net little (binary sent') ≡ ok (25, length (md'.sizes b))))
unfolding new_parameter_gen new_parameter_gen_string pgval_to_array
pgval_to_array-new_parameter_gen net little casts others md md' a b is made made' fits fits' = (
  array_at-array_bytes net is little (int32_element net little casts) whole_length 23
      (λ v. v < 4294967296) (int32_IsElement net is little casts) md made a fits,
  array_at-array_bytes net is little (string_element others) without_end 25
      (λ s. length s < 2147483647) (string_IsElement others) md' made' b fits',
)
