-- ===== src/ByteArray/Codec/Strings.antt =====
-- Strings behind their length.
use exhy.Common.{
  ℕ, ◌+◌, ◌%◌, ◌^◌, ◌≤◌, ◌<◌, ◌≡◌, sym, ap, subst, ◌∙◌, List, [], ◌++◌, none, some, ◌>>=◌, arith,
  length, append-nil, length-append,
}
use exhy.ByteArray.{ByteArray, Endian, size_mod, write, read, set_position}
use exhy.ByteArray.Invariant.{IsValid}
use exhy.ByteArray.Transfer.{read_at_end, write_nothing}
use exhy.ByteArray.Codec.{
  to_memory, write_fixed, read_fixed, write_string_f16, read_string_f16, write_string_f32,
  read_string_f32, write_string_f64, read_string_f64, write_string_vint, read_string_vint,
}
use exhy.ByteArray.Codec.Groups.{varint, length-varint}
use exhy.ByteArray.Codec.Fixed.{length-to_memory, write_fixed-write, read_fixed-Holds}
use exhy.ByteArray.Codec.Varint.{write_uint64-Wrote, read_uint64-Holds}
use exhy.ByteArray.Codec.Holds.{Holds, Passed, write-Wrote, write-Wrote_more, read-Holds, rewind}

-- A read of all that is left of the known bytes.
read_rest :
    (b : ByteArray) (s : List ℕ)
    → Holds b s
    → 0 < length s
    → (c : ByteArray) × (read b (length s) ≡ some (s, c)) × Passed b (length s) c
read_rest b s h l =
    let (c, e, _, p) = read-Holds b s [] (subst (Holds b) (sym (append-nil s)) h) l in (c, e, p)

module _ (n : ℕ) (host : Endian) (b : ByteArray) (s : List ℕ) (v : IsValid b) (h0 : 0 < n)
    (ls : 0 < length s) (fits : length s < 256 ^ n)
    (small : b.position + (n + length s) + b.base_size ≤ size_mod)
    (exact : n + length s < 2 ^ 53) where
  -- A string behind a length of n bytes.
  fixed_string :
      (c d e : ByteArray) × ((write_fixed n host b (length s) >>= λ t. write t s) ≡ some c)
      × (set_position c b.position ≡ some d)
      × ((read_fixed n host d >>= λ r. read r.1 r.0) ≡ some (s, e))
      × (e.position ≡ c.position)
  fixed_string =
      let prefix = to_memory b.endian n (length s) in
      let l = length-to_memory b.endian n (length s) in
      let (a, e1, w1) = write-Wrote b prefix v (omega arith) (omega arith) (omega arith) in
      let (c, e2, w2) = write-Wrote_more b a prefix s w1 ls (omega arith) (omega arith) in
      let (d, e3, h, en, at, _) = rewind b c (prefix ++ s) w2 in
      let h' : Holds d (to_memory d.endian n (length s) ++ s) =
        subst (Holds d) (ap (λ t. to_memory t n (length s) ++ s) (sym en)) h in
      let (x, r1, rest, p) = read_fixed-Holds n host d (length s) s h0 fits h' in
      let (y, r2, q) = read_rest x s rest ls in
      (
        c,
        d,
        y,
        rw (write_fixed-write n host b (length s), e1) e2,
        e3,
        rw r1 r2,
        omega (
          arith,
          q.position_after,
          p.position_after,
          at,
          w2.position_after,
          w1.position_after,
          length-append prefix s,
        ),
      )

-- On a well-formed array, with m_position, the bytes and a node together at most 2 ^ 64, a string of
-- 1 to 65535 bytes comes back from writeStringF16 after setPosition; the read ends where the write
-- ended.
pub read_string_f16-write_string_f16 :
    (host : Endian) (b : ByteArray) (s : List ℕ)
    → IsValid b
    → 0 < length s
    → length s < 2 ^ 16
    → b.position + (2 + length s) + b.base_size ≤ size_mod
    → (c d e : ByteArray) × (write_string_f16 host b s ≡ some c)
      × (set_position c b.position ≡ some d)
      × (read_string_f16 host d ≡ some (s, e))
      × (e.position ≡ c.position)
unfolding write_string_f16 read_string_f16
read_string_f16-write_string_f16 host b s v ls fits small =
    let whole : length s % 2 ^ 16 ≡ length s = omega arith in
    rw whole (fixed_string 2 host b s v (omega arith) ls fits small (omega arith))

-- A string of at least one byte and less than 4 GiB comes back from writeStringF32.
pub read_string_f32-write_string_f32 :
    (host : Endian) (b : ByteArray) (s : List ℕ)
    → IsValid b
    → 0 < length s
    → length s < 2 ^ 32
    → b.position + (4 + length s) + b.base_size ≤ size_mod
    → (c d e : ByteArray) × (write_string_f32 host b s ≡ some c)
      × (set_position c b.position ≡ some d)
      × (read_string_f32 host d ≡ some (s, e))
      × (e.position ≡ c.position)
unfolding write_string_f32 read_string_f32
read_string_f32-write_string_f32 host b s v ls fits small =
    let whole : length s % 2 ^ 32 ≡ length s = omega arith in
    rw whole (fixed_string 4 host b s v (omega arith) ls fits small (omega arith))

-- A string of at least one byte, with its length below 2 ^ 53 bytes, comes back from writeStringF64.
pub read_string_f64-write_string_f64 :
    (host : Endian) (b : ByteArray) (s : List ℕ)
    → IsValid b
    → 0 < length s
    → b.position + (8 + length s) + b.base_size ≤ size_mod
    → 8 + length s < 2 ^ 53
    → (c d e : ByteArray) × (write_string_f64 host b s ≡ some c)
      × (set_position c b.position ≡ some d)
      × (read_string_f64 host d ≡ some (s, e))
      × (e.position ≡ c.position)
unfolding write_string_f64 read_string_f64
read_string_f64-write_string_f64 host b s v ls small exact =
    fixed_string 8 host b s v (omega arith) ls (omega arith) small exact

-- On a well-formed array, with m_position, the bytes and a node together at most 2 ^ 64, a string of
-- at least one byte and fewer than 2 ^ 53 comes back from writeStringVint after setPosition; the read ends where the write
-- ended.
pub read_string_vint-write_string_vint :
    (host : Endian) (b : ByteArray) (s : List ℕ)
    → IsValid b
    → 0 < length s
    → b.position + (10 + length s) + b.base_size ≤ size_mod
    → length s < 2 ^ 53
    → (c d e : ByteArray) × (write_string_vint b s ≡ some c)
      × (set_position c b.position ≡ some d)
      × (read_string_vint host d ≡ some (s, e))
      × (e.position ≡ c.position)
unfolding write_string_vint read_string_vint
read_string_vint-write_string_vint host b s v ls small exact =
    let prefix = varint 10 (length s) in
    let l = length-varint 9 (length s) in
    let (a, e1, w1) = write_uint64-Wrote b (length s) v (omega arith) (omega arith) in
    let (c, e2, w2) = write-Wrote_more b a prefix s w1 ls (omega arith) exact in
    let (d, e3, h, en, at, _) = rewind b c (prefix ++ s) w2 in
    let (x, r1, rest, p) = read_uint64-Holds host d (length s) s (omega arith) h in
    let (y, r2, q) = read_rest x s rest ls in
    (
      c,
      d,
      y,
      rw e1 e2,
      e3,
      rw r1 r2,
      omega (
        arith,
        q.position_after,
        p.position_after,
        at,
        w2.position_after,
        length-append prefix s,
      ),
    )

-- On a well-formed array, with m_position, the bytes and a node together at most 2 ^ 64, the empty
-- string does not come back where its two bytes of length end at the end of the chain:
-- writeStringF16 and setPosition succeed, and readStringF16 follows the null m_cur to read no byte.
pub read_string_f16_empty :
    (host : Endian) (b : ByteArray)
    → IsValid b
    → b.position + 2 ≡ b.capacity
    → b.position + 2 + b.base_size ≤ size_mod
    → (c d : ByteArray) × (write_string_f16 host b [] ≡ some c)
      × (set_position c b.position ≡ some d)
      × (read_string_f16 host d ≡ none)
unfolding write_string_f16 read_string_f16
read_string_f16_empty host b v full small =
    let prefix = to_memory b.endian 2 0 in
    let l = length-to_memory b.endian 2 0 in
    let (c, e1, w) = write-Wrote b prefix v (omega arith) (omega arith) (omega arith) in
    let (d, e2, h, en, at, cap_same) = rewind b c prefix w in
    let h' : Holds d (to_memory d.endian 2 0 ++ []) =
      subst (Holds d) (sym (append-nil _ ∙ ap (λ t. to_memory t 2 0) en)) h in
    let (x, r, rest, p) = read_fixed-Holds 2 host d 0 [] (omega arith) (omega arith) h' in
    (
      c,
      d,
      rw (write_fixed-write 2 host b 0, e1) (write_nothing c),
      e2,
      rw r (
          read_at_end x 0 rest.valid
            (omega (arith, p.capacity_same, cap_same, w.kept (omega arith), p.position_after, at))),
    )
