-- ===== src/ByteArray/Codec/Zigzag.antt =====
-- EncodeZigzag32, EncodeZigzag64 and their inverses on every bit pattern.
use exhy.Common.{
  ℕ, ◌-◌, ◌*◌, ◌/◌, ◌%◌, ◌^◌, ◌<◌, ◌≡◌, ◌∙◌, inl, inr, bit_and, arith, tests, ltb, ltb→lt,
  ltb-false→le, Bool-cases, if◌then◌else◌,
}
use exhy.Common.Bits.{bit_xor-zero, bit_xor_ones, bit_and_low1}
use exhy.ByteArray.Codec.{encode_zigzag32, encode_zigzag64, decode_zigzag32, decode_zigzag64}

abbrev pub zigzag : ℕ → ℕ → ℕ
zigzag w v = if ltb v (2 ^ (w - 1)) then 2 * v else 2 * (2 ^ w - v) - 1

-- EncodeZigzag32 computes the zigzag code on every 32-bit pattern: an even number for the integers from
-- 0 on, an odd one for the negative ones.
pub encode_zigzag32-zigzag : (v : ℕ) → v < 2 ^ 32 → encode_zigzag32 v ≡ zigzag 32 v
unfolding encode_zigzag32
encode_zigzag32-zigzag v h = elim (Bool-cases (ltb v (2 ^ 31))) [
  | inl e ↦ rw e (bit_xor-zero (v * 2 % 2 ^ 32) ∙ omega (arith, ltb→lt _ _ e))
  | inr e ↦
      rw e (bit_xor_ones 32 (v * 2 % 2 ^ 32) (omega arith) ∙ omega (arith, ltb-false→le _ _ e))
]

-- The same for EncodeZigzag64.
pub encode_zigzag64-zigzag : (v : ℕ) → v < 2 ^ 64 → encode_zigzag64 v ≡ zigzag 64 v
unfolding encode_zigzag64
encode_zigzag64-zigzag v h = elim (Bool-cases (ltb v (2 ^ 63))) [
  | inl e ↦ rw e (bit_xor-zero (v * 2 % 2 ^ 64) ∙ omega (arith, ltb→lt _ _ e))
  | inr e ↦
      rw e (bit_xor_ones 64 (v * 2 % 2 ^ 64) (omega arith) ∙ omega (arith, ltb-false→le _ _ e))
]

abbrev unzigzag : ℕ → ℕ → ℕ
unzigzag w u = if ltb (u % 2) 1 then u / 2 else 2 ^ w - 1 - u / 2

decode_zigzag32-unzigzag : (u : ℕ) → u < 2 ^ 32 → decode_zigzag32 u ≡ unzigzag 32 u
unfolding decode_zigzag32
decode_zigzag32-unzigzag u h = elim (Bool-cases (ltb (u % 2) 1)) [
  | inl e ↦
      let z : (2 ^ 32 - bit_and u 1) % 2 ^ 32 ≡ 0 = omega (tests, bit_and_low1 u, ltb→lt _ _ e) in
      rw (e, z) (bit_xor-zero (u / 2))
  | inr e ↦
      let z : (2 ^ 32 - bit_and u 1) % 2 ^ 32 ≡ 2 ^ 32 - 1 =
        omega (tests, bit_and_low1 u, ltb-false→le _ _ e) in
      rw (e, z) (bit_xor_ones 32 (u / 2) (omega arith))
]

decode_zigzag64-unzigzag : (u : ℕ) → u < 2 ^ 64 → decode_zigzag64 u ≡ unzigzag 64 u
unfolding decode_zigzag64
decode_zigzag64-unzigzag u h = elim (Bool-cases (ltb (u % 2) 1)) [
  | inl e ↦
      let z : (2 ^ 64 - bit_and u 1) % 2 ^ 64 ≡ 0 = omega (tests, bit_and_low1 u, ltb→lt _ _ e) in
      rw (e, z) (bit_xor-zero (u / 2))
  | inr e ↦
      let z : (2 ^ 64 - bit_and u 1) % 2 ^ 64 ≡ 2 ^ 64 - 1 =
        omega (tests, bit_and_low1 u, ltb-false→le _ _ e) in
      rw (e, z) (bit_xor_ones 64 (u / 2) (omega arith))
]

zigzag32-lt : (v : ℕ) → v < 2 ^ 32 → zigzag 32 v < 2 ^ 32
zigzag32-lt v h = ground arith

zigzag64-lt : (v : ℕ) → v < 2 ^ 64 → zigzag 64 v < 2 ^ 64
zigzag64-lt v h = ground arith

pub encode_zigzag32-lt : (v : ℕ) → v < 2 ^ 32 → encode_zigzag32 v < 2 ^ 32
encode_zigzag32-lt v h = omega (arith, encode_zigzag32-zigzag v h, zigzag32-lt v h)

pub encode_zigzag64-lt : (v : ℕ) → v < 2 ^ 64 → encode_zigzag64 v < 2 ^ 64
encode_zigzag64-lt v h = omega (arith, encode_zigzag64-zigzag v h, zigzag64-lt v h)

-- On every 32-bit pattern, DecodeZigzag32 undoes EncodeZigzag32, and EncodeZigzag32 undoes
-- DecodeZigzag32.
pub decode-encode_zigzag32 :
    (v : ℕ)
    → v < 2 ^ 32
    → (decode_zigzag32 (encode_zigzag32 v) ≡ v) × (encode_zigzag32 (decode_zigzag32 v) ≡ v)
decode-encode_zigzag32 v h =
    let d = decode_zigzag32-unzigzag v h in
    let l : unzigzag 32 v < 2 ^ 32 = ground arith in
    (
      rw (encode_zigzag32-zigzag v h)
          (decode_zigzag32-unzigzag (zigzag 32 v) (zigzag32-lt v h) ∙ ground arith),
      rw d (encode_zigzag32-zigzag (unzigzag 32 v) l ∙ ground arith),
    )

-- The same for the 64-bit pair.
pub decode-encode_zigzag64 :
    (v : ℕ)
    → v < 2 ^ 64
    → (decode_zigzag64 (encode_zigzag64 v) ≡ v) × (encode_zigzag64 (decode_zigzag64 v) ≡ v)
decode-encode_zigzag64 v h =
    let d = decode_zigzag64-unzigzag v h in
    let l : unzigzag 64 v < 2 ^ 64 = ground arith in
    (
      rw (encode_zigzag64-zigzag v h)
          (decode_zigzag64-unzigzag (zigzag 64 v) (zigzag64-lt v h) ∙ ground arith),
      rw d (encode_zigzag64-zigzag (unzigzag 64 v) l ∙ ground arith),
    )
