-- ===== src/Address.antt =====
-- exhy/exhy_address.cpp: the order on addresses, and the port of an IPv4 address.
--
-- An address is the bytes at getAddr(), getAddrLen() of them. The two fields of an IPv4 address are kept as the numbers
-- that the machine reads from them, so its byte order is the argument `host`, as in ByteArray.Codec.
pub mod Order
pub mod Ports
mod Runs
use exhy.Common.{
  ℕ, ◌%◌, ◌^◌, Bool, true, false, not, ◌&&◌, List, [], ◌∷◌, ltb, ◌==◌, if◌then◌else◌, length,
}
use exhy.ByteArray.{Endian, little, big}
use exhy.ByteArray.Codec.{byteswap}

-- The sign of what memcmp returns.
pub data Sign : Type 0 where
  negative : Sign
  equal : Sign
  positive : Sign

-- memcmp of as many bytes as the shorter one has.
unfoldable pub memcmp : List ℕ → List ℕ → Sign
memcmp [] ys = equal
memcmp (x ∷ xs) [] = equal
memcmp (x ∷ xs) (y ∷ ys) =
    let rest = memcmp xs ys in if ltb x y then negative else if ltb y x then positive else rest

abbrev pub decide : Bool → Sign → Bool
decide shorter negative = true
decide shorter positive = false
decide shorter equal = shorter

-- operator<.
abbrev pub address_less : List ℕ → List ℕ → Bool
address_less a b = decide (ltb (length a) (length b)) (memcmp a b)

abbrev pub is_equal : Sign → Bool
is_equal equal = true
is_equal negative = false
is_equal positive = false

-- operator==.
abbrev pub address_eq : List ℕ → List ℕ → Bool
address_eq a b = length a == length b && is_equal (memcmp a b)

-- sin_addr.s_addr and sin_port.
pub record Ipv4Address : Type 0 where
  pub addr : ℕ
  pub port : ℕ

-- byteswapOnLittleEndian of n bytes.
unfoldable pub swap_on_little : Endian → ℕ → ℕ → ℕ
swap_on_little little n v = byteswap n v
swap_on_little big n v = v

-- The constructor; its port is an uint32_t and sin_port has 16 bits.
abbrev pub new_ipv4_address : Endian → ℕ → ℕ → Ipv4Address
new_ipv4_address host address port = record {
  addr = swap_on_little host 4 address;
  port = swap_on_little host 4 port % 2 ^ 16;
}

abbrev pub get_port : Endian → Ipv4Address → ℕ
get_port host a = swap_on_little host 2 a.port

abbrev pub set_port : Endian → ℕ → Ipv4Address → Ipv4Address
set_port host v a = record a { port = swap_on_little host 2 v }
