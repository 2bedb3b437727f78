-- ===== src/ByteArray/Codec/Groups.antt =====
-- The bytes that writeUint32 and writeUint64 collect in tmp.
use exhy.Common.{
  ℕ, zero, suc, ◌+◌, ◌/◌, ◌%◌, ◌^◌, ◌≤◌, ◌<◌, ◌≡◌, refl, ap, ◌∙◌, inl, inr, List, [], ◌∷◌, Option,
  some, ◌>>=◌, if◌then◌else◌, bit_and, bit_or, arith, ltb, lt→ltb, ltb→lt, Bool-cases, length, All,
}
use exhy.Common.Bits.{bit_and_low7, bit_or_high}
use exhy.ByteArray.Codec.{groups}

-- Seven bits to a byte, the lowest first; every byte but the last has its top bit set.
unfoldable pub varint : ℕ → ℕ → List ℕ
varint zero v = []
varint (suc k) v =
    let rest = varint k (v / 128) in if ltb v 128 then v ∷ [] else (v % 128 + 128) ∷ rest

-- A number of at most 7 * k bits fits into k bytes of tmp, and the loop leaves its varint there.
pub groups-varint : (k v : ℕ) → v < 128 ^ suc k → groups (suc k) v ≡ some (varint (suc k) v)
unfolding groups varint
groups-varint zero v h =
    let small : v % 256 ≡ v = omega arith in rw (lt→ltb v 128 (omega arith), small) refl
groups-varint (suc k) v h = elim (Bool-cases (ltb v 128)) [
  | inl e ↦ let small : v % 256 ≡ v = omega (arith, ltb→lt _ _ e) in rw (e, small) refl
  | inr e ↦
      let low : bit_and v 0x7f % 256 ≡ v % 128 = omega (arith, bit_and_low7 v) in
      let group : bit_or (bit_and v 0x7f % 256) 0x80 ≡ v % 128 + 128 =
        rw low (bit_or_high (v % 128) (omega arith)) in
      rw e (
        ap (λ (r : Option (List ℕ)). r >>= λ rest. some (bit_or (bit_and v 0x7f % 256) 0x80 ∷ rest))
          (groups-varint k (v / 128) (omega arith))
        ∙ rw group refl)
]

pub varint-bytes : (k v : ℕ) → v < 128 ^ suc k → All (λ b. b < 256) (varint (suc k) v)
unfolding varint
varint-bytes zero v h = ground arith
varint-bytes (suc k) v h = ground (arith, varint-bytes k (v / 128) (omega arith))

pub length-varint :
    (k v : ℕ) → (1 ≤ length (varint (suc k) v)) × (length (varint (suc k) v) ≤ suc k)
unfolding varint
length-varint zero v = ground arith
length-varint (suc k) v = ground (arith, length-varint k (v / 128))
