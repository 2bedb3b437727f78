-- ===== src/ByteArray/Codec/Varint.antt =====
-- Variable-length integers: writeUint32, writeUint64, writeInt32, writeInt64 and their reads.
use exhy.Common.{
  ℕ, zero, suc, ◌+◌, ◌*◌, ◌/◌, ◌%◌, ◌^◌, ◌≤◌, ◌<◌, ◌≡◌, sym, ap, subst, ◌∙◌, inl, inr, List, [],
  ◌∷◌, ◌++◌, some, bit_and, arith, ltb, lt→ltb, le→ltb-false, ltb→lt, Bool-cases, length,
  append-nil,
}
use exhy.Common.Bits.{bit_and_low7, bit_or_disjoint}
use exhy.ByteArray.{ByteArray, Endian, little, big, size_mod, set_position}
use exhy.ByteArray.Invariant.{IsValid}
use exhy.ByteArray.Codec.{
  of_memory, of_le_bytes, read_fuint8, shifts, read_groups, write_uint32, write_uint64, write_int32,
  write_int64, read_uint32, read_uint64, read_int32, read_int64, encode_zigzag32, encode_zigzag64,
}
use exhy.ByteArray.Codec.Groups.{varint, groups-varint, length-varint}
use exhy.ByteArray.Codec.Zigzag.{
  encode_zigzag32-lt, encode_zigzag64-lt, decode-encode_zigzag32, decode-encode_zigzag64,
}
use exhy.ByteArray.Codec.Holds.{Holds, Passed, Passed-twice, Wrote, write-Wrote, read-Holds, rewind}
use native.Mathlib.Nat.{div-add-mod, mod-eq_of_lt}
use native.Mathlib.Numerals.{towards_suc}

pub read_fuint8-Holds :
    (host : Endian) (b : ByteArray) (x : ℕ) (ys : List ℕ)
    → Holds b (x ∷ ys)
    → (c : ByteArray) × (read_fuint8 host b ≡ some (x, c)) × Holds c ys × Passed b 1 c
unfolding read_fuint8 of_memory of_le_bytes
read_fuint8-Holds little b x ys h =
    let (c, e, rest, p) = read-Holds b (x ∷ []) ys h (omega arith) in
    (c, rw e (ap (λ k. some (k, c)) (omega arith)), rest, p)
read_fuint8-Holds big b x ys h =
    let (c, e, rest, p) = read-Holds b (x ∷ []) ys h (omega arith) in
    (c, rw e (ap (λ k. some (k, c)) (omega arith)), rest, p)

shift_seven : (s : ℕ) → 2 ^ (s + 7) ≡ 128 * 2 ^ s
shift_seven s = simp towards_suc (omega arith)

-- The lowest seven bits of v and the rest, both moved up by s.
split_group : (v s : ℕ) → v * 2 ^ s ≡ v % 128 * 2 ^ s + v / 128 * 2 ^ (s + 7)
split_group v s = omega (
  arith,
  ap (λ (t : ℕ). t * 2 ^ s) (div-add-mod v 128),
  ap (λ (t : ℕ). v / 128 * t) (shift_seven s),
)

-- Seven more bits stay below bit s + 7.
group_below : (s acc g : ℕ) → acc < 2 ^ s → g < 128 → acc + g * 2 ^ s < 2 ^ (s + 7)
group_below s acc g ha hg =
    let m : g * 2 ^ s ≤ 127 * 2 ^ s = mul_le g 127 (2 ^ s) (omega arith) in
    omega (arith, shift_seven s)
  where
    mul_le : (a b m : ℕ) → a ≤ b → a * m ≤ b * m
    mul_le a b m h = grind arith

module _ (w : ℕ) (host : Endian) (s : ℕ) (is : List ℕ) (acc : ℕ) (b : ByteArray) (ys : List ℕ)
    (ha : acc < 2 ^ s) where
  last_byte :
      (v : ℕ)
      → v < 128
      → acc + v * 2 ^ s < 2 ^ w
      → Holds b (v ∷ ys)
      → (c : ByteArray) × (read_groups w host (s ∷ is) acc b ≡ some (acc + v * 2 ^ s, c))
        × Holds c ys
        × Passed b 1 c
  unfolding read_groups
  last_byte v hv hw h =
      let (c, e, rest, p) = read_fuint8-Holds host b v ys h in
      let m : v * 2 ^ s % 2 ^ w ≡ v * 2 ^ s = mod-eq_of_lt (omega arith) in
      (c, rw (e, lt→ltb v 128 hv, m) (ap (λ k. some (k, c)) (bit_or_disjoint s acc v ha)), rest, p)

  inner_byte :
      (g : ℕ)
      → g < 128
      → acc + g * 2 ^ s < 2 ^ w
      → Holds b ((g + 128) ∷ ys)
      → (c : ByteArray) × (read_groups w host (s ∷ is) acc b
          ≡ read_groups w host is (acc + g * 2 ^ s) c)
        × Holds c ys
        × Passed b 1 c
  unfolding read_groups
  inner_byte g hg hw h =
      let (c, e, rest, p) = read_fuint8-Holds host b (g + 128) ys h in
      let low : bit_and (g + 128) 0x7f ≡ g = omega (arith, bit_and_low7 (g + 128)) in
      let m : g * 2 ^ s % 2 ^ w ≡ g * 2 ^ s = mod-eq_of_lt (omega arith) in
      (
        c,
        rw (e, le→ltb-false (g + 128) 128 (omega arith), low, m)
            (ap (λ k. read_groups w host is k c) (bit_or_disjoint s acc g ha)),
        rest,
        p,
      )

module _ (w : ℕ) (host : Endian) where
  -- Reading the varint of v on top of the bits `acc` that are below bit s.
  read_groups-varint :
      (k v s acc : ℕ) (b : ByteArray) (ys : List ℕ)
      → v < 128 ^ suc k
      → acc < 2 ^ s
      → acc + v * 2 ^ s < 2 ^ w
      → Holds b (varint (suc k) v ++ ys)
      → (c : ByteArray) × (read_groups w host (shifts (suc k) s) acc b ≡ some (acc + v * 2 ^ s, c))
        × Holds c ys
        × Passed b (length (varint (suc k) v)) c
  unfolding varint
  read_groups-varint zero v s acc b ys hv ha hw h =
      let e = lt→ltb v 128 (omega arith) in
      rw e (last_byte w host s [] acc b ys ha v (omega arith) hw (rw e at h))
  read_groups-varint (suc k) v s acc b ys hv ha hw h = elim (Bool-cases (ltb v 128)) [
    | inl e ↦
        rw e (
          last_byte w host s (shifts (suc k) (s + 7)) acc b ys ha v (ltb→lt v 128 e) hw (rw e at h))
    | inr e ↦
        let split = split_group v s in
        let (c, e1, rest, p) =
          inner_byte w host s (shifts (suc k) (s + 7)) acc b (varint (suc k) (v / 128) ++ ys) ha
            (v % 128) (omega arith) (omega arith) (rw e at h) in
        let (d, e2, rest2, q) =
          read_groups-varint k (v / 128) (s + 7) (acc + v % 128 * 2 ^ s) c ys (omega arith)
            (group_below s acc (v % 128) ha (omega arith)) (omega arith) rest in
        rw e (
          d,
          e1 ∙ e2 ∙ ap (λ t. some (t, d)) (omega arith),
          rest2,
          subst (λ n. Passed b n d) (omega arith)
              (Passed-twice 1 (length (varint (suc k) (v / 128))) p q),
        )
  ]

pub read_uint32-Holds :
    (host : Endian) (b : ByteArray) (v : ℕ) (ys : List ℕ)
    → v < 2 ^ 32
    → Holds b (varint 5 v ++ ys)
    → (c : ByteArray) × (read_uint32 host b ≡ some (v, c))
      × Holds c ys
      × Passed b (length (varint 5 v)) c
unfolding read_uint32
read_uint32-Holds host b v ys hv h =
    let (c, e, rest, p) =
      read_groups-varint 32 host 4 v 0 0 b ys (omega arith) (omega arith) (omega arith) h in
    (c, e ∙ ap (λ t. some (t, c)) (omega arith), rest, p)

pub read_uint64-Holds :
    (host : Endian) (b : ByteArray) (v : ℕ) (ys : List ℕ)
    → v < 2 ^ 64
    → Holds b (varint 10 v ++ ys)
    → (c : ByteArray) × (read_uint64 host b ≡ some (v, c))
      × Holds c ys
      × Passed b (length (varint 10 v)) c
unfolding read_uint64
read_uint64-Holds host b v ys hv h =
    let (c, e, rest, p) =
      read_groups-varint 64 host 9 v 0 0 b ys (omega arith) (omega arith) (omega arith) h in
    (c, e ∙ ap (λ t. some (t, c)) (omega arith), rest, p)

pub write_uint32-Wrote :
    (b : ByteArray) (v : ℕ)
    → IsValid b
    → v < 2 ^ 32
    → b.position + length (varint 5 v) + b.base_size ≤ size_mod
    → (c : ByteArray) × (write_uint32 b v ≡ some c) × Wrote b (varint 5 v) c
unfolding write_uint32
write_uint32-Wrote b v w hv small =
    let (c, e, wr) =
      write-Wrote b (varint 5 v) w (omega (arith, length-varint 4 v)) small
        (omega (arith, length-varint 4 v)) in
    (c, rw (groups-varint 4 v (omega arith)) e, wr)

pub write_uint64-Wrote :
    (b : ByteArray) (v : ℕ)
    → IsValid b
    → v < 2 ^ 64
    → b.position + length (varint 10 v) + b.base_size ≤ size_mod
    → (c : ByteArray) × (write_uint64 b v ≡ some c) × Wrote b (varint 10 v) c
unfolding write_uint64
write_uint64-Wrote b v w hv small =
    let (c, e, wr) =
      write-Wrote b (varint 10 v) w (omega (arith, length-varint 9 v)) small
        (omega (arith, length-varint 9 v)) in
    (c, rw (groups-varint 9 v (omega arith)) e, wr)

-- On a well-formed array, with m_position, the bytes and a node together at most 2 ^ 64, every
-- uint32_t takes 1 to 5 bytes and comes back from them after setPosition; the read ends where the
-- write ended.
pub read_uint32-write_uint32 :
    (host : Endian) (b : ByteArray) (v : ℕ)
    → IsValid b
    → v < 2 ^ 32
    → b.position + 5 + b.base_size ≤ size_mod
    → (c d e : ByteArray) × (write_uint32 b v ≡ some c)
      × (set_position c b.position ≡ some d)
      × (read_uint32 host d ≡ some (v, e))
      × (e.position ≡ c.position)
      × (b.position + 1 ≤ c.position)
      × (c.position ≤ b.position + 5)
read_uint32-write_uint32 host b v w hv small =
    let l = length-varint 4 v in
    let (c, e, wr) = write_uint32-Wrote b v w hv (omega arith) in
    let (d, s, h, _, at, _) = rewind b c (varint 5 v) wr in
    let (x, r, _, p) = read_uint32-Holds host d v [] hv (subst (Holds d) (sym (append-nil _)) h) in
    (
      c,
      d,
      x,
      e,
      s,
      r,
      omega (arith, p.position_after, at, wr.position_after),
      omega (arith, wr.position_after),
      omega (arith, wr.position_after),
    )

-- On a well-formed array, with m_position, the bytes and a node together at most 2 ^ 64, every
-- uint64_t takes 1 to 10 bytes and comes back from them after setPosition; the read ends where the
-- write ended.
pub read_uint64-write_uint64 :
    (host : Endian) (b : ByteArray) (v : ℕ)
    → IsValid b
    → v < 2 ^ 64
    → b.position + 10 + b.base_size ≤ size_mod
    → (c d e : ByteArray) × (write_uint64 b v ≡ some c)
      × (set_position c b.position ≡ some d)
      × (read_uint64 host d ≡ some (v, e))
      × (e.position ≡ c.position)
      × (b.position + 1 ≤ c.position)
      × (c.position ≤ b.position + 10)
read_uint64-write_uint64 host b v w hv small =
    let l = length-varint 9 v in
    let (c, e, wr) = write_uint64-Wrote b v w hv (omega arith) in
    let (d, s, h, _, at, _) = rewind b c (varint 10 v) wr in
    let (x, r, _, p) = read_uint64-Holds host d v [] hv (subst (Holds d) (sym (append-nil _)) h) in
    (
      c,
      d,
      x,
      e,
      s,
      r,
      omega (arith, p.position_after, at, wr.position_after),
      omega (arith, wr.position_after),
      omega (arith, wr.position_after),
    )

-- On a well-formed array, with m_position, the bytes and a node together at most 2 ^ 64, every
-- int32_t comes back from the varint of its zigzag code after setPosition; the read ends where the
-- write ended.
pub read_int32-write_int32 :
    (host : Endian) (b : ByteArray) (v : ℕ)
    → IsValid b
    → v < 2 ^ 32
    → b.position + 5 + b.base_size ≤ size_mod
    → (c d e : ByteArray) × (write_int32 b v ≡ some c)
      × (set_position c b.position ≡ some d)
      × (read_int32 host d ≡ some (v, e))
      × (e.position ≡ c.position)
unfolding write_int32 read_int32
read_int32-write_int32 host b v w hv small =
    let (c, d, x, e, s, r, p, _, _) =
      read_uint32-write_uint32 host b (encode_zigzag32 v) w (encode_zigzag32-lt v hv) small in
    (c, d, x, e, s, rw r (ap (λ t. some (t, x)) (decode-encode_zigzag32 v hv).0), p)

-- On a well-formed array, with m_position, the bytes and a node together at most 2 ^ 64, every
-- int64_t comes back from the varint of its zigzag code after setPosition; the read ends where the
-- write ended.
pub read_int64-write_int64 :
    (host : Endian) (b : ByteArray) (v : ℕ)
    → IsValid b
    → v < 2 ^ 64
    → b.position + 10 + b.base_size ≤ size_mod
    → (c d e : ByteArray) × (write_int64 b v ≡ some c)
      × (set_position c b.position ≡ some d)
      × (read_int64 host d ≡ some (v, e))
      × (e.position ≡ c.position)
unfolding write_int64 read_int64
read_int64-write_int64 host b v w hv small =
    let (c, d, x, e, s, r, p, _, _) =
      read_uint64-write_uint64 host b (encode_zigzag64 v) w (encode_zigzag64-lt v hv) small in
    (c, d, x, e, s, rw r (ap (λ t. some (t, x)) (decode-encode_zigzag64 v hv).0), p)
