-- ===== src/Codec/Networks/Addresses.antt =====
-- src/data_parameters.cpp: addresses, Booleans and oids that are sent and read back.
use pq_async.Common.{
  ℕ, zero, suc, ◌+◌, ◌≤◌, ◌<◌, Bool, true, false, not, [], ◌∷◌, ◌++◌, Bytes, Result, ok, ◌≡◌, refl,
  ap, subst, arith, ◌==◌, if◌then◌else◌, length, take, drop, append-nil, length-take,
}
use pq_async.Codec.{Net, IsNet, binary}
use pq_async.Codec.Words.{Fault, get32-put32, length-put32, get32}
use pq_async.Codec.Geometry.{byte_at}
use pq_async.Codec.Networks.{
  none, inet, inet6, NetFamily, is_inet, Address, no_address, address_size, put_address, fill,
  get_address, new_parameter_cidr, new_parameter_inet, pgval_to_cidr, pgval_to_inet, Macaddr,
  Macaddr8, new_parameter_macaddr, pgval_to_macaddr, new_parameter_macaddr8, pgval_to_macaddr8,
  new_parameter_bool, pgval_to_bool, new_parameter_oid, pgval_to_oid,
}

fill-take :
    (n : ℕ) (xs zs : Bytes)
    → n ≤ length xs
    → n ≤ length zs
    → fill n (take n xs) zs ≡ ok (take n xs ++ drop n zs)
unfolding fill
fill-take zero xs zs h k = refl
fill-take (suc n) [] zs h k = absurd (omega arith)
fill-take (suc n) (x ∷ xs) [] h k = absurd (omega arith)
fill-take (suc n) (x ∷ xs) (z ∷ zs) h k =
    rw (fill-take n xs zs (omega (arith, h)) (omega (arith, k))) refl

-- The address that is read: the bytes of its family, and zeros; one that is not of IPv4 counts as
-- IPv6.
abbrev pub read_address : Address → Address
read_address value = record {
  family = if is_inet value.family then inet else inet6;
  bits = value.bits;
  ipaddr =
      take (address_size value.family) value.ipaddr
      ++ drop (address_size value.family) (no_address.ipaddr);
}

abbrev address_of : NetFamily → ℕ → Bytes → Address
address_of family bits ipaddr = record { family = family; bits = bits; ipaddr = ipaddr }

read_members :
    (kind : ℕ) (family : NetFamily) (bits : ℕ) (ipaddr : Bytes)
    → length ipaddr ≡ 16
    → let value = address_of family bits ipaddr in
      get_address (put_address kind value) ≡ ok (read_address value)
unfolding get_address byte_at
read_members kind inet bits ip h =
    rw (fill-take 4 ip (no_address.ipaddr) (omega (arith, h)) (omega arith)) refl
read_members kind inet6 bits ip h =
    rw (fill-take 16 ip (no_address.ipaddr) (omega (arith, h)) (omega arith)) refl
read_members kind none bits ip h =
    rw (fill-take 16 ip (no_address.ipaddr) (omega (arith, h)) (omega arith)) refl

get_address-put_address :
    (kind : ℕ) (value : Address)
    → length value.ipaddr ≡ 16
    → get_address (put_address kind value) ≡ ok (read_address value)
get_address-put_address kind value h = read_members kind value.family value.bits value.ipaddr h

size_small : (family : NetFamily) → address_size family ≤ 16
size_small inet = omega arith
size_small inet6 = omega arith
size_small none = omega arith

length-put_address :
    (kind : ℕ) (value : Address)
    → length value.ipaddr ≡ 16
    → length (put_address kind value) ≡ address_size value.family + 4
length-put_address kind value h =
    omega (arith, h, size_small value.family, length-take (address_size value.family) value.ipaddr)

bool_byte : (b : Bool) → not ((if b then 1 else 0) == 0) ≡ b
bool_byte true = refl
bool_byte false = refl

-- An address of either class, the two kinds of hardware addresses, a Boolean and an oid are each
-- sent with the length that is declared, and are read back: of an address the family, the bits and
-- the bytes that its family has, with zeros behind them, where an address that has no family counts
-- as one of IPv6; the others as they were. The constructors from a text do not matter.
pub pgval_to_address-new_parameter :
    (net : Net) (little : Bool) (of_text : Bytes → Result Fault Address)
    (of_mac : Bytes → Result Fault Macaddr) (of_mac8 : Bytes → Result Fault Macaddr8)
    (iequals : Bytes → Bytes → Bool) (str_to_num : Bytes → ℕ) (c i : Address) (m : Macaddr)
    (m8 : Macaddr8) (b : Bool) (o : ℕ)
    → IsNet net
    → length c.ipaddr ≡ 16
    → length i.ipaddr ≡ 16
    → o < 4294967296
    → ((length (new_parameter_cidr c).value ≡ (new_parameter_cidr c).length)
        × (length (new_parameter_inet i).value ≡ (new_parameter_inet i).length)
        × (length (new_parameter_macaddr m).value ≡ (new_parameter_macaddr m).length)
        × (length (new_parameter_macaddr8 m8).value ≡ (new_parameter_macaddr8 m8).length)
        × (length (new_parameter_bool b).value ≡ (new_parameter_bool b).length)
        × (length (new_parameter_oid net little o).value ≡ (new_parameter_oid net little o).length))
      × ((pgval_to_cidr of_text (binary (new_parameter_cidr c).value) ≡ ok (read_address c))
          × (pgval_to_inet of_text (binary (new_parameter_inet i).value) ≡ ok (read_address i))
          × (pgval_to_macaddr of_mac (binary (new_parameter_macaddr m).value) ≡ ok m)
          × (pgval_to_macaddr8 of_mac8 (binary (new_parameter_macaddr8 m8).value) ≡ ok m8)
          × (pgval_to_bool iequals (binary (new_parameter_bool b).value) ≡ ok b)
          × (pgval_to_oid net little str_to_num (binary (new_parameter_oid net little o).value)
              ≡ ok o))
unfolding new_parameter_cidr new_parameter_inet pgval_to_cidr pgval_to_inet new_parameter_macaddr
    pgval_to_macaddr new_parameter_macaddr8 pgval_to_macaddr8 new_parameter_bool pgval_to_bool
    new_parameter_oid pgval_to_oid byte_at
pgval_to_address-new_parameter net little of_text of_mac of_mac8 iequals str_to_num c i m m8 b o is
      hc hi ho =
    (
      (
        length-put_address 1 c hc,
        length-put_address 0 i hi,
        refl,
        refl,
        refl,
        length-put32 net is little o,
      ),
      (
        get_address-put_address 1 c hc,
        get_address-put_address 0 i hi,
        refl,
        refl,
        ap ok (bool_byte b),
        subst (λ val. get32 net little val ≡ ok o) (append-nil _)
            (get32-put32 net is little o [] ho),
      ),
    )
