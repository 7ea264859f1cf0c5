-- ===== src/Tests/Codecs.antt =====
-- src/data_parameters.cpp: integers.
use pq_async.Common.{◌≡◌, refl, true, [], ◌∷◌, Bytes, arith}
use pq_async.Codec.{
  Net, IsNet, big16, big32, swap2, binary, new_parameter_int16, new_parameter_int32,
  new_parameter_int64, pgval_to_int16, pgval_to_int32, pgval_to_int64,
}
use pq_async.Codec.Integers.{pgval_to_int-new_parameter}

-- Bytes of one word in reverse.
abbrev turned : Bytes → Bytes
turned (a ∷ b ∷ []) = b ∷ a ∷ []
turned (a ∷ b ∷ c ∷ d ∷ []) = d ∷ c ∷ b ∷ a ∷ []
turned s = s

abbrev pub turning : Net
turning = record { htons = turned; ntohs = turned; htonl = turned; ntohl = turned }

pub turning-IsNet : IsNet turning
turning-IsNet = record {
  host16 = λ a b. refl;
  net16 = λ a b. refl;
  host32 = λ a b c d. refl;
  net32 = λ a b c d. refl;
}

sent_258 : (new_parameter_int16 turning true 258).value ≡ 1 ∷ 2 ∷ []
unfolding new_parameter_int16 swap2
sent_258 = refl

pgval_to_int-new_parameter_example :
    (((new_parameter_int16 turning true 258).value ≡ big16 258)
      × ((new_parameter_int32 turning true 66051).value ≡ big32 66051)
      × ((new_parameter_int64 turning true 4294967298).value ≡ (big32 1, big32 4294967298)))
    × ((pgval_to_int16 turning true (λ s. 0) (binary (new_parameter_int16 turning true 258).value)
          ≡ 258)
        × (pgval_to_int32 turning true
              (λ s. 0)
              (binary (new_parameter_int32 turning true 66051).value)
            ≡ 66051)
        × (pgval_to_int64 turning true
              (λ s. 0)
              (binary (new_parameter_int64 turning true 4294967298).value)
            ≡ 4294967298))
pgval_to_int-new_parameter_example =
    pgval_to_int-new_parameter turning true (λ s. 0) 258 66051 4294967298 turning-IsNet
      (omega arith) (omega arith) (omega arith)
