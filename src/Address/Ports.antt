-- ===== src/Address/Ports.antt =====
-- The port of an IPv4 address.
use exhy.Common.{ℕ, ◌+◌, ◌*◌, ◌/◌, ◌%◌, ◌^◌, ◌<◌, ◌≡◌, refl, ap, ◌∙◌, arith}
use exhy.ByteArray.{Endian, little, big}
use exhy.ByteArray.Codec.{le_bytes, of_le_bytes, byteswap}
use exhy.Address.{Ipv4Address, swap_on_little, new_ipv4_address, get_port, set_port}

swap_short : (v : ℕ) → byteswap 2 v ≡ v / 256 % 256 + 256 * (v % 256)
unfolding byteswap le_bytes of_le_bytes
swap_short v = omega arith

swap_twice : (v : ℕ) → v < 2 ^ 16 → byteswap 2 (byteswap 2 v) ≡ v
swap_twice v h = swap_short (byteswap 2 v) ∙ rw (swap_short v) (omega arith)

-- Of the swapped bytes of a number below 2 ^ 16, the two low ones are 0.
swap_word : (v : ℕ) → v < 2 ^ 16 → byteswap 4 v % 2 ^ 16 ≡ 0
unfolding byteswap le_bytes of_le_bytes
swap_word v h = omega arith

-- setPort and then getPort give a port below 2 ^ 16. An address that is constructed with such a port has it on a
-- machine of big byte order, and the port 0 on one of little byte order.
pub get_port-set_port :
    (host : Endian) (a : Ipv4Address) (address v : ℕ)
    → v < 2 ^ 16
    → (get_port host (set_port host v a) ≡ v)
      × (get_port little (new_ipv4_address little address v) ≡ 0)
      × (get_port big (new_ipv4_address big address v) ≡ v)
unfolding swap_on_little
get_port-set_port little a address v h =
    (swap_twice v h, ap (byteswap 2) (swap_word v h) ∙ swap_short 0, omega arith)
get_port-set_port big a address v h =
    (refl, ap (byteswap 2) (swap_word v h) ∙ swap_short 0, omega arith)
