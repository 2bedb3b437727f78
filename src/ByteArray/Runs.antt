-- ===== src/ByteArray/Runs.antt =====
-- Runs of the byte array's theorems on concrete arrays.
use exhy.Common.{ℕ, ◌≤◌, ◌≡◌, refl, List, [], ◌∷◌, ◌++◌, none, some, arith}
use exhy.ByteArray.{little, big, ByteArray, write, read, set_position, slice}
use exhy.ByteArray.Invariant.{IsValid, content}
use exhy.ByteArray.Transfer.{Written, write_lem, read_lem}
use exhy.ByteArray.Seek.{read-write}
use exhy.ByteArray.Codec.{
  write_fixed, read_fixed, write_uint32, read_uint32, write_string_f16, read_string_f16,
}
use exhy.ByteArray.Codec.Fixed.{read_fixed-write_fixed}
use exhy.ByteArray.Codec.Varint.{read_uint32-write_uint32}
use exhy.ByteArray.Codec.Strings.{read_string_f16_empty}
use exhy.ByteArray.Buffers.{Iovec, get_read_buffers, to_string}
use exhy.ByteArray.Buffers.Views.{gather, get_read_buffers_lem}
use exhy.ByteArray.Buffers.Text.{to_string_over}

-- Two nodes of four bytes, the cursor two bytes into the first.
abbrev array : ℕ → ByteArray
array size = record {
  base_size = 4;
  position = 2;
  capacity = 8;
  size = size;
  endian = little;
  before = [];
  after = (1 ∷ 2 ∷ 3 ∷ 4 ∷ []) ∷ (5 ∷ 6 ∷ 7 ∷ 8 ∷ []) ∷ [];
  uninit = λ k i. 0;
}

array-IsValid : (size : ℕ) → size ≤ 8 → IsValid (array size)
array-IsValid size h = record {
  base_pos = omega arith;
  before_sized = tt;
  after_sized = (refl, (refl, tt));
  counted = refl;
  fits = omega arith;
  from = omega arith;
  to = omega arith;
  in_range = omega arith;
  size_le = h;
  rooted = omega arith;
}

-- The same array with two bytes before the end of the chain.
abbrev near_end : ByteArray
near_end = record (array 7) {
  position = 6;
  before = (1 ∷ 2 ∷ 3 ∷ 4 ∷ []) ∷ [];
  after = (5 ∷ 6 ∷ 7 ∷ 8 ∷ []) ∷ [];
}

near_end-IsValid : IsValid near_end
near_end-IsValid = record {
  base_pos = omega arith;
  before_sized = (refl, tt);
  after_sized = (refl, tt);
  counted = refl;
  fits = omega arith;
  from = omega arith;
  to = omega arith;
  in_range = omega arith;
  size_le = omega arith;
  rooted = omega arith;
}

abbrev five : List ℕ
five = 10 ∷ 20 ∷ 30 ∷ 40 ∷ 50 ∷ []

write_lem_example : (c : ByteArray) × (write (array 7) five ≡ some c) × Written (array 7) five c
write_lem_example =
    write_lem (array 7) five (array-IsValid 7 (omega arith)) (omega arith) (omega arith)
      (omega arith)

read_lem_example :
    (c : ByteArray) × (read (array 7) 5 ≡ some (slice 2 5 (content (array 7)), c))
    × IsValid c
    × (c.position ≡ 7)
    × (c.size ≡ 7)
    × (c.capacity ≡ 8)
    × (c.base_size ≡ 4)
    × (c.endian ≡ little)
    × (content c ≡ content (array 7))
read_lem_example = read_lem (array 7) 5 (array-IsValid 7 (omega arith)) (omega arith) (omega arith)

read-write_example :
    (c d e : ByteArray) × (write (array 7) five ≡ some c)
    × (set_position c 2 ≡ some d)
    × (read d 5 ≡ some (five, e))
    × (e.position ≡ c.position)
    × (content e ≡ content c)
read-write_example =
    read-write (array 7) five (array-IsValid 7 (omega arith)) (omega arith) (omega arith)
      (omega arith)

read_fixed-write_fixed_example :
    (c d e : ByteArray) × (write_fixed 4 big (array 7) 123456 ≡ some c)
    × (set_position c 2 ≡ some d)
    × (read_fixed 4 big d ≡ some (123456, e))
    × (e.position ≡ c.position)
read_fixed-write_fixed_example =
    read_fixed-write_fixed 4 big (array 7) 123456 (array-IsValid 7 (omega arith)) (omega arith)
      (omega arith) (omega arith) (omega arith)

read_uint32-write_uint32_example :
    (c d e : ByteArray) × (write_uint32 (array 7) 300 ≡ some c)
    × (set_position c 2 ≡ some d)
    × (read_uint32 little d ≡ some (300, e))
    × (e.position ≡ c.position)
    × (3 ≤ c.position)
    × (c.position ≤ 7)
read_uint32-write_uint32_example =
    read_uint32-write_uint32 little (array 7) 300 (array-IsValid 7 (omega arith)) (omega arith)
      (omega arith)

read_string_f16_empty_example :
    (c d : ByteArray) × (write_string_f16 little near_end [] ≡ some c)
    × (set_position c 6 ≡ some d)
    × (read_string_f16 little d ≡ none)
read_string_f16_empty_example =
    read_string_f16_empty little near_end near_end-IsValid refl (omega arith)

get_read_buffers_lem_example :
    (vs : List Iovec) × (get_read_buffers (array 7) 4 ≡ some (vs, 4))
    × (gather ([] ++ (array 7).after) vs ≡ slice 2 4 (content (array 7)))
get_read_buffers_lem_example =
    get_read_buffers_lem (array 7) 4 (array-IsValid 7 (omega arith)) (omega arith)

to_string_over_example : to_string (array 7) ≡ some (3 ∷ 4 ∷ 1 ∷ 2 ∷ 3 ∷ [])
to_string_over_example =
    to_string_over (array 7) (array-IsValid 7 (omega arith)) (omega arith) (1 ∷ 2 ∷ 3 ∷ 4 ∷ [])
      (5 ∷ 6 ∷ 7 ∷ 8 ∷ []) [] refl (omega arith) (omega arith)
