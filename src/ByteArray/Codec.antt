-- ===== src/ByteArray/Codec.antt =====
-- exhy/exhy_bytearray.cpp: the typed writes and reads, and exhy/exhy_endian.h.
--
-- An integer of w bits, signed or not, is its bit pattern, a number below 2 ^ w. A float or a double is
-- its pattern too: memcpy copies it. The byte order of the machine (EXHY_BYTE_ORDER) is the argument
-- `host`. A std::string is its bytes.
pub mod Zigzag
pub mod Groups
pub mod Holds
pub mod Fixed
pub mod Varint
pub mod Strings
use exhy.Common.{
  ℕ, zero, suc, ◌+◌, ◌-◌, ◌*◌, ◌/◌, ◌%◌, ◌^◌, bit_and, bit_or, bit_xor, Bool, true, false, not,
  List, [], ◌∷◌, ◌++◌, Option, none, some, ◌>>=◌, if◌then◌else◌, ltb, length,
}
use exhy.ByteArray.{ByteArray, Endian, little, big, write, read}
use mathlib.Core.List.{reverse}

-- v >> (w - 1) on a signed w-bit v.
pub sign_fill : ℕ → ℕ → ℕ
sign_fill w v = if ltb v (2 ^ (w - 1)) then 0 else 2 ^ w - 1

pub encode_zigzag32 : ℕ → ℕ
unfolding sign_fill
encode_zigzag32 v = bit_xor (v * 2 % 2 ^ 32) (sign_fill 32 v)

pub encode_zigzag64 : ℕ → ℕ
unfolding sign_fill
encode_zigzag64 v = bit_xor (v * 2 % 2 ^ 64) (sign_fill 64 v)

-- -x on an unsigned w-bit x.
pub negate : ℕ → ℕ → ℕ
negate w x = (2 ^ w - x) % 2 ^ w

pub decode_zigzag32 : ℕ → ℕ
unfolding negate
decode_zigzag32 v = bit_xor (v / 2) (negate 32 (bit_and v 1))

pub decode_zigzag64 : ℕ → ℕ
unfolding negate
decode_zigzag64 v = bit_xor (v / 2) (negate 64 (bit_and v 1))

-- The n bytes of a number, the least significant first, and the number of some bytes.
unfoldable pub le_bytes : ℕ → ℕ → List ℕ
le_bytes zero v = []
le_bytes (suc n) v = (v % 256) ∷ le_bytes n (v / 256)

unfoldable pub of_le_bytes : List ℕ → ℕ
of_le_bytes [] = 0
of_le_bytes (b ∷ bs) = b + 256 * of_le_bytes bs

-- bswap_16, bswap_32 and bswap_64 at n = 2, 4 and 8.
unfoldable pub byteswap : ℕ → ℕ → ℕ
unfolding le_bytes of_le_bytes
byteswap n v = of_le_bytes (reverse (le_bytes n v))

-- How the machine keeps a number of n bytes in memory, and reads one.
pub to_memory : Endian → ℕ → ℕ → List ℕ
to_memory little n v = le_bytes n v
to_memory big n v = reverse (le_bytes n v)

pub of_memory : Endian → List ℕ → ℕ
of_memory little bs = of_le_bytes bs
of_memory big bs = of_le_bytes (reverse bs)

pub same_endian : Endian → Endian → Bool
same_endian little little = true
same_endian big big = true
same_endian little big = false
same_endian big little = false

-- The body that writeFint16 to writeFuint64 share, on n bytes.
pub write_fixed : ℕ → Endian → ByteArray → ℕ → Option ByteArray
unfolding to_memory byteswap same_endian
write_fixed n host b v =
    write b (to_memory host n (if not (same_endian b.endian host) then byteswap n v else v))

-- The macro XX of readFint16 to readFuint64, on n bytes.
pub read_fixed : ℕ → Endian → ByteArray → Option (ℕ × ByteArray)
unfolding of_memory byteswap same_endian
read_fixed n host b = read b n >>= λ r.
    (let v = of_memory host r.0 in
      some ((if same_endian b.endian host then v else byteswap n v), r.1))

pub write_fint8 : Endian → ByteArray → ℕ → Option ByteArray
write_fint8 host b v = write b (to_memory host 1 v)

pub write_fuint8 : Endian → ByteArray → ℕ → Option ByteArray
write_fuint8 host b v = write b (to_memory host 1 v)

pub write_fint16 : Endian → ByteArray → ℕ → Option ByteArray
unfolding write_fixed
write_fint16 = write_fixed 2

pub write_fuint16 : Endian → ByteArray → ℕ → Option ByteArray
unfolding write_fixed
write_fuint16 = write_fixed 2

pub write_fint32 : Endian → ByteArray → ℕ → Option ByteArray
unfolding write_fixed
write_fint32 = write_fixed 4

pub write_fuint32 : Endian → ByteArray → ℕ → Option ByteArray
unfolding write_fixed
write_fuint32 = write_fixed 4

pub write_fint64 : Endian → ByteArray → ℕ → Option ByteArray
unfolding write_fixed
write_fint64 = write_fixed 8

pub write_fuint64 : Endian → ByteArray → ℕ → Option ByteArray
unfolding write_fixed
write_fuint64 = write_fixed 8

pub write_float : Endian → ByteArray → ℕ → Option ByteArray
unfolding write_fuint32
write_float = write_fuint32

pub write_double : Endian → ByteArray → ℕ → Option ByteArray
unfolding write_fuint64
write_double = write_fuint64

pub read_fint8 : Endian → ByteArray → Option (ℕ × ByteArray)
read_fint8 host b = read b 1 >>= λ r. some (of_memory host r.0, r.1)

pub read_fuint8 : Endian → ByteArray → Option (ℕ × ByteArray)
read_fuint8 host b = read b 1 >>= λ r. some (of_memory host r.0, r.1)

pub read_fint16 : Endian → ByteArray → Option (ℕ × ByteArray)
unfolding read_fixed
read_fint16 = read_fixed 2

pub read_fuint16 : Endian → ByteArray → Option (ℕ × ByteArray)
unfolding read_fixed
read_fuint16 = read_fixed 2

pub read_fint32 : Endian → ByteArray → Option (ℕ × ByteArray)
unfolding read_fixed
read_fint32 = read_fixed 4

pub read_fuint32 : Endian → ByteArray → Option (ℕ × ByteArray)
unfolding read_fixed
read_fuint32 = read_fixed 4

pub read_fint64 : Endian → ByteArray → Option (ℕ × ByteArray)
unfolding read_fixed
read_fint64 = read_fixed 8

pub read_fuint64 : Endian → ByteArray → Option (ℕ × ByteArray)
unfolding read_fixed
read_fuint64 = read_fixed 8

pub read_double : Endian → ByteArray → Option (ℕ × ByteArray)
unfolding read_fuint64
read_double = read_fuint64

-- The loop of writeUint32 and writeUint64 into `slots` bytes of tmp; `none` is a write behind tmp.
pub groups : ℕ → ℕ → Option (List ℕ)
groups zero value = none
groups (suc slots) value =
    let more : Option (List ℕ) = groups slots (value / 2 ^ 7) >>= λ rest.
    some (bit_or (bit_and value 0x7f % 256) 0x80 ∷ rest) in
    if ltb value 0x80 then some ((value % 256) ∷ []) else more

pub write_uint32 : ByteArray → ℕ → Option ByteArray
unfolding groups
write_uint32 b value = groups 5 value >>= λ tmp. write b tmp

pub write_uint64 : ByteArray → ℕ → Option ByteArray
unfolding groups
write_uint64 b value = groups 10 value >>= λ tmp. write b tmp

pub write_int32 : ByteArray → ℕ → Option ByteArray
unfolding write_uint32 encode_zigzag32
write_int32 b value = write_uint32 b (encode_zigzag32 value)

pub write_int64 : ByteArray → ℕ → Option ByteArray
unfolding write_uint64 encode_zigzag64
write_int64 b value = write_uint64 b (encode_zigzag64 value)

-- The values that `i` takes in `for(int i = 0; i < w; i += 7)`, from s on, n of them.
abbrev pub shifts : ℕ → ℕ → List ℕ
shifts zero s = []
shifts (suc n) s = s ∷ shifts n (s + 7)

-- The loop of readUint32 and readUint64 over the values of `i`, on w-bit words.
pub read_groups : ℕ → Endian → List ℕ → ℕ → ByteArray → Option (ℕ × ByteArray)
unfolding read_fuint8
read_groups w host [] result b = some (result, b)
read_groups w host (i ∷ is) result b = read_fuint8 host b >>= λ r.
    (let last = bit_or result (r.0 * 2 ^ i % 2 ^ w) in
      let more = read_groups w host is (bit_or result (bit_and r.0 0x7f * 2 ^ i % 2 ^ w)) r.1 in
      if ltb r.0 0x80 then some (last, r.1) else more)

pub read_uint32 : Endian → ByteArray → Option (ℕ × ByteArray)
unfolding read_groups
read_uint32 host b = read_groups 32 host (shifts 5 0) 0 b

pub read_uint64 : Endian → ByteArray → Option (ℕ × ByteArray)
unfolding read_groups
read_uint64 host b = read_groups 64 host (shifts 10 0) 0 b

pub read_int32 : Endian → ByteArray → Option (ℕ × ByteArray)
unfolding read_uint32 decode_zigzag32
read_int32 host b = read_uint32 host b >>= λ r. some (decode_zigzag32 r.0, r.1)

pub read_int64 : Endian → ByteArray → Option (ℕ × ByteArray)
unfolding read_uint64 decode_zigzag64
read_int64 host b = read_uint64 host b >>= λ r. some (decode_zigzag64 r.0, r.1)

pub write_string_f16 : Endian → ByteArray → List ℕ → Option ByteArray
unfolding write_fuint16
write_string_f16 host b s = write_fuint16 host b (length s % 2 ^ 16) >>= λ c. write c s

pub write_string_f32 : Endian → ByteArray → List ℕ → Option ByteArray
unfolding write_fuint32
write_string_f32 host b s = write_fuint32 host b (length s % 2 ^ 32) >>= λ c. write c s

pub write_string_f64 : Endian → ByteArray → List ℕ → Option ByteArray
unfolding write_fuint64
write_string_f64 host b s = write_fuint64 host b (length s) >>= λ c. write c s

pub write_string_vint : ByteArray → List ℕ → Option ByteArray
unfolding write_uint64
write_string_vint b s = write_uint64 b (length s) >>= λ c. write c s

pub write_string_without_length : ByteArray → List ℕ → Option ByteArray
write_string_without_length b s = write b s

pub read_string_f16 : Endian → ByteArray → Option (List ℕ × ByteArray)
unfolding read_fuint16
read_string_f16 host b = read_fuint16 host b >>= λ r. read r.1 r.0

pub read_string_f32 : Endian → ByteArray → Option (List ℕ × ByteArray)
unfolding read_fuint32
read_string_f32 host b = read_fuint32 host b >>= λ r. read r.1 r.0

pub read_string_f64 : Endian → ByteArray → Option (List ℕ × ByteArray)
unfolding read_fuint64
read_string_f64 host b = read_fuint64 host b >>= λ r. read r.1 r.0

pub read_string_vint : Endian → ByteArray → Option (List ℕ × ByteArray)
unfolding read_uint64
read_string_vint host b = read_uint64 host b >>= λ r. read r.1 r.0
