-- ===== src/Codec/Networks.antt =====
-- The binary format of network addresses, of `bool` and `oid`: `new_parameter` and
-- `pgval_to_cidr`, `pgval_to_inet`, `pgval_to_macaddr`, `pgval_to_macaddr8`, `pgval_to_bool`,
-- and `pgval_to_oid` of src/data_parameters.cpp.
--
-- `_ipaddr` has sixteen bytes. `AF_INET` and `AF_INET6` are those of the system of the build, 2 and
-- 10. Constructors from a text are the argument `of_text`.
pub mod Addresses
use pq_async.Common.{
  ℕ, zero, suc, ◌+◌, ◌%◌, Bool, true, false, not, ◌&&◌, ◌||◌, List, [], ◌∷◌, ◌++◌, Bytes, codes,
  Result, ok, throw, ◌>>=◌, ltb, leb, ◌==◌, if◌then◌else◌, length, take, drop,
}
use pq_async.Codec.{Net, Parameter, PgVal, null, text, binary}
use pq_async.Codec.Words.{Fault, outside, unsupported_text, unsupported_family, put32, get32, chars}
use pq_async.Codec.Geometry.{byte_at}

pub data NetFamily : Type 0 where
  none inet inet6 : NetFamily

-- `cidr` and `inet` have the same members.
pub record Address : Type 0 where
  pub family : NetFamily
  pub bits : ℕ
  pub ipaddr : Bytes

-- `family == net_family::pq_net_family_inet`
abbrev pub is_inet : NetFamily → Bool
is_inet inet = true
is_inet _ = false

abbrev pub no_address : Address
no_address = record {
  family = none;
  bits = 0;
  ipaddr = 0 ∷ 0 ∷ 0 ∷ 0 ∷ 0 ∷ 0 ∷ 0 ∷ 0 ∷ 0 ∷ 0 ∷ 0 ∷ 0 ∷ 0 ∷ 0 ∷ 0 ∷ 0 ∷ [];
}

abbrev pub address_size : NetFamily → ℕ
address_size family = if is_inet family then 4 else 16

-- `PGSQL_AF_INET` and `PGSQL_AF_INET6`
abbrev pub pgsql_family : NetFamily → ℕ
pgsql_family family = if is_inet family then 2 else 3

-- The bytes of one address; the third byte tells `cidr` from `inet`.
abbrev pub put_address : ℕ → Address → Bytes
put_address is_cidr value =
    pgsql_family value.family
    ∷ value.bits
    ∷ is_cidr
    ∷ address_size value.family
    ∷ take (address_size value.family) value.ipaddr

-- `_ipaddr[i]` for the first `nb` bytes, where neither the value nor the sixteen bytes end.
unfoldable pub fill : ℕ → Bytes → Bytes → Result Fault Bytes
fill zero val ipaddr = ok ipaddr
fill (suc n) (b ∷ val) (a ∷ ipaddr) = do rest ← fill n val ipaddr; ok (b ∷ rest)
fill (suc n) _ _ = throw outside

-- A count of 128 and more is negative as a `char`, and as a `size_t` behind every end.
unfoldable pub get_address : Bytes → Result Fault Address
unfolding byte_at
get_address val = do
  f ← byte_at val
  family ← if f == 2 then ok inet else if f == 3 then ok inet6 else throw unsupported_family
  bits ← byte_at (drop 1 val)
  nb ← byte_at (drop 3 val)
  ipaddr ← fill nb (drop 4 val) (no_address.ipaddr)
  ok (record { family = family; bits = bits; ipaddr = ipaddr })

unfoldable pub new_parameter_cidr : Address → Parameter Bytes
new_parameter_cidr value = record {
  oid = 650;
  value = put_address 1 value;
  length = address_size value.family + 4;
  format = 1;
}

unfoldable pub new_parameter_inet : Address → Parameter Bytes
new_parameter_inet value = record {
  oid = 869;
  value = put_address 0 value;
  length = address_size value.family + 4;
  format = 1;
}

unfoldable pub pgval_to_cidr : (Bytes → Result Fault Address) → PgVal Bytes → Result Fault Address
pgval_to_cidr of_text null = ok no_address
pgval_to_cidr of_text (text s) = of_text s
pgval_to_cidr of_text (binary val) = get_address val

unfoldable pub pgval_to_inet : (Bytes → Result Fault Address) → PgVal Bytes → Result Fault Address
pgval_to_inet of_text null = ok no_address
pgval_to_inet of_text (text s) = of_text s
pgval_to_inet of_text (binary val) = get_address val

pub record Macaddr : Type 0 where
  pub a : ℕ
  pub b : ℕ
  pub c : ℕ
  pub d : ℕ
  pub e : ℕ
  pub f : ℕ

pub record Macaddr8 : Type 0 where
  pub front : Macaddr
  pub g : ℕ
  pub h : ℕ

abbrev pub no_mac : Macaddr
no_mac = record { a = 0; b = 0; c = 0; d = 0; e = 0; f = 0 }

abbrev pub put_mac : Macaddr → Bytes
put_mac m = m.a ∷ m.b ∷ m.c ∷ m.d ∷ m.e ∷ m.f ∷ []

abbrev pub get_mac : Bytes → Result Fault Macaddr
get_mac (a ∷ b ∷ c ∷ d ∷ e ∷ f ∷ rest) = ok (record { a = a; b = b; c = c; d = d; e = e; f = f })
get_mac _ = throw outside

unfoldable pub new_parameter_macaddr : Macaddr → Parameter Bytes
new_parameter_macaddr value = record { oid = 829; value = put_mac value; length = 6; format = 1 }

unfoldable pub pgval_to_macaddr :
    (Bytes → Result Fault Macaddr) → PgVal Bytes → Result Fault Macaddr
pgval_to_macaddr of_text null = ok no_mac
pgval_to_macaddr of_text (text s) = of_text s
pgval_to_macaddr of_text (binary val) = get_mac val

unfoldable pub new_parameter_macaddr8 : Macaddr8 → Parameter Bytes
new_parameter_macaddr8 value = record {
  oid = 774;
  value = put_mac value.front ++ (value.g ∷ value.h ∷ []);
  length = 8;
  format = 1;
}

unfoldable pub pgval_to_macaddr8 :
    (Bytes → Result Fault Macaddr8) → PgVal Bytes → Result Fault Macaddr8
unfolding byte_at
pgval_to_macaddr8 of_text null = ok (record { front = no_mac; g = 0; h = 0 })
pgval_to_macaddr8 of_text (text s) = of_text s
pgval_to_macaddr8 of_text (binary val) = do
  front ← get_mac val
  g ← byte_at (drop 6 val)
  h ← byte_at (drop 7 val)
  ok (record { front = front; g = g; h = h })

unfoldable pub new_parameter_bool : Bool → Parameter Bytes
new_parameter_bool value = record {
  oid = 16;
  value = (if value then 1 else 0) ∷ [];
  length = 1;
  format = 1;
}

-- With `md::iequals`.
unfoldable pub pgval_to_bool : (Bytes → Bytes → Bool) → PgVal Bytes → Result Fault Bool
unfolding byte_at
pgval_to_bool iequals null = ok false
pgval_to_bool iequals (text s) = ok (
    iequals s (codes "true")
    || iequals s (codes "yes")
    || iequals s (codes "on")
    || iequals s (codes "1"))
pgval_to_bool iequals (binary val) = do b ← byte_at val; ok (not (b == 0))

unfoldable pub new_parameter_oid : Net → Bool → ℕ → Parameter Bytes
new_parameter_oid net little value = record {
  oid = 26;
  value = put32 net little value;
  length = 4;
  format = 1;
}

unfoldable pub pgval_to_oid : Net → Bool → (Bytes → ℕ) → PgVal Bytes → Result Fault ℕ
pgval_to_oid net little str_to_num null = ok 0
pgval_to_oid net little str_to_num (text s) = ok (str_to_num s)
pgval_to_oid net little str_to_num (binary val) = get32 net little val
