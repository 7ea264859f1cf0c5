-- ===== src/Codec/Spans/FlagBytes.antt =====
-- src/data_parameters.cpp: the flags of a range in one byte.
use pq_async.Common.{ℕ, ◌*◌, ◌/◌, ◌%◌, ◌<◌, Bool, true, false, ◌≡◌, refl, arith, ◌==◌}
use pq_async.Codec.Spans.{bit, flags_byte, byte_flags}
use pq_async.Range.{Flags}

bit_lem : (weight : ℕ) (b : Bool) → (bit weight b ≡ weight * bit 1 b) × (bit 1 b < 2)
bit_lem weight true = (omega arith, omega arith)
bit_lem weight false = (omega arith, omega arith)

test_bit : (b : Bool) (x : ℕ) → x ≡ bit 1 b → (x == 1) ≡ b
test_bit true x h = rw h refl
test_bit false x h = rw h refl

-- The flags are read back from their byte, with the last of them in the bits above.
pub flags_lem : (f : Flags) → byte_flags (flags_byte f) ≡ record f { above = f.contain_empty }
unfolding flags_byte byte_flags
flags_lem f =
    let h1 = bit_lem 1 f.empty in
    let h2 = bit_lem 2 f.lb_inc in
    let h4 = bit_lem 4 f.ub_inc in
    let h8 = bit_lem 8 f.lb_inf in
    let h16 = bit_lem 16 f.ub_inf in
    let h32 = bit_lem 32 f.lb_null in
    let h64 = bit_lem 64 f.ub_null in
    let h128 = bit_lem 128 f.contain_empty in
    rw
      (
        test_bit f.empty (flags_byte f % 2) (omega (arith, h1, h2, h4, h8, h16, h32, h64, h128)),
        test_bit f.lb_inc (flags_byte f / 2 % 2)
            (omega (arith, h1, h2, h4, h8, h16, h32, h64, h128)),
        test_bit f.ub_inc (flags_byte f / 4 % 2)
            (omega (arith, h1, h2, h4, h8, h16, h32, h64, h128)),
        test_bit f.lb_inf (flags_byte f / 8 % 2)
            (omega (arith, h1, h2, h4, h8, h16, h32, h64, h128)),
        test_bit f.ub_inf (flags_byte f / 16 % 2)
            (omega (arith, h1, h2, h4, h8, h16, h32, h64, h128)),
        test_bit f.lb_null (flags_byte f / 32 % 2)
            (omega (arith, h1, h2, h4, h8, h16, h32, h64, h128)),
        test_bit f.ub_null (flags_byte f / 64 % 2)
            (omega (arith, h1, h2, h4, h8, h16, h32, h64, h128)),
        test_bit f.contain_empty (flags_byte f / 128 % 2)
            (omega (arith, h1, h2, h4, h8, h16, h32, h64, h128)),
      )
      refl
