-- ===== src/ByteArray/Codec/Fixed.antt =====
-- Fixed-width integers: the byte order on the wire is m_endian, whatever the machine's.
use exhy.Common.{
  All, subst, ℕ, zero, suc, ◌+◌, ◌*◌, ◌/◌, ◌%◌, ◌^◌, ◌≤◌, ◌<◌, ◌≡◌, refl, sym, ap, ◌∙◌, not, List,
  [], ◌∷◌, ◌++◌, some, if◌then◌else◌, arith, length, append-nil, length-append,
}
use mathlib.Core.List.{reverse, reverse-cons, reverse-reverse}
use exhy.ByteArray.{ByteArray, Endian, little, big, size_mod, write, read, set_position}
use exhy.ByteArray.Invariant.{IsValid}
use exhy.ByteArray.Codec.{
  le_bytes, of_le_bytes, byteswap, to_memory, of_memory, same_endian, write_fixed, read_fixed,
}
use exhy.ByteArray.Codec.Holds.{Holds, Passed, write-Wrote, read-Holds, rewind}

pub length-le_bytes : (n v : ℕ) → length (le_bytes n v) ≡ n
unfolding le_bytes
length-le_bytes zero v = refl
length-le_bytes (suc n) v = ap suc (length-le_bytes n (v / 256))

of_le_bytes-le_bytes : (n v : ℕ) → v < 256 ^ n → of_le_bytes (le_bytes n v) ≡ v
unfolding le_bytes of_le_bytes
of_le_bytes-le_bytes zero v h = omega arith
of_le_bytes-le_bytes (suc n) v h = omega (arith, of_le_bytes-le_bytes n (v / 256) (omega arith))

All-append : (P : ℕ → Type 0) (xs ys : List ℕ) → All P xs → All P ys → All P (xs ++ ys)
All-append P [] ys h k = k
All-append P (x ∷ xs) ys h k = (h.0, All-append P xs ys h.1 k)

All-reverse : (P : ℕ → Type 0) (xs : List ℕ) → All P xs → All P (reverse xs)
All-reverse P [] h = tt
All-reverse P (x ∷ xs) h =
    rw (reverse-cons x xs) (All-append P (reverse xs) (x ∷ []) (All-reverse P xs h.1) (h.0, tt))

abbrev IsByte : ℕ → Type 0
IsByte b = b < 256

le_bytes-IsByte : (n v : ℕ) → All IsByte (le_bytes n v)
unfolding le_bytes
le_bytes-IsByte zero v = tt
le_bytes-IsByte (suc n) v = (omega arith, le_bytes-IsByte n (v / 256))

le_bytes-of_le_bytes : (bs : List ℕ) → All IsByte bs → le_bytes (length bs) (of_le_bytes bs) ≡ bs
unfolding le_bytes of_le_bytes
le_bytes-of_le_bytes [] h = refl
le_bytes-of_le_bytes (b ∷ bs) h =
    let low : (b + 256 * of_le_bytes bs) % 256 ≡ b = omega (arith, h.0) in
    let high : (b + 256 * of_le_bytes bs) / 256 ≡ of_le_bytes bs = omega (arith, h.0) in
    rw (low, high) (ap (◌∷◌ b) (le_bytes-of_le_bytes bs h.1))

length-reverse : (xs : List ℕ) → length (reverse xs) ≡ length xs
length-reverse [] = refl
length-reverse (x ∷ xs) =
    ap length (reverse-cons x xs)
    ∙ omega (arith, length-append (reverse xs) (x ∷ []), length-reverse xs)

le_bytes-byteswap : (n v : ℕ) → le_bytes n (byteswap n v) ≡ reverse (le_bytes n v)
unfolding byteswap
le_bytes-byteswap n v =
    let l : length (reverse (le_bytes n v)) ≡ n =
      length-reverse (le_bytes n v) ∙ length-le_bytes n v in
    ap (λ k. le_bytes k (of_le_bytes (reverse (le_bytes n v)))) (sym l)
    ∙ le_bytes-of_le_bytes (reverse (le_bytes n v)) (All-reverse IsByte _ (le_bytes-IsByte n v))

pub length-to_memory : (e : Endian) (n v : ℕ) → length (to_memory e n v) ≡ n
unfolding to_memory
length-to_memory little n v = length-le_bytes n v
length-to_memory big n v = length-reverse (le_bytes n v) ∙ length-le_bytes n v

-- What reaches the array is the value in the byte order of m_endian, on a machine of either order.
abbrev swap_to : Endian → Endian → ℕ → ℕ → ℕ
swap_to e host n v = if not (same_endian e host) then byteswap n v else v

swap_to-memory :
    (e host : Endian) (n v : ℕ) → to_memory host n (swap_to e host n v) ≡ to_memory e n v
unfolding to_memory same_endian
swap_to-memory little little n v = refl
swap_to-memory big big n v = refl
swap_to-memory big little n v = le_bytes-byteswap n v
swap_to-memory little big n v = ap reverse (le_bytes-byteswap n v) ∙ reverse-reverse (le_bytes n v)

pub write_fixed-write :
    (n : ℕ) (host : Endian) (b : ByteArray) (v : ℕ)
    → write_fixed n host b v ≡ write b (to_memory b.endian n v)
unfolding write_fixed
write_fixed-write n host b v = ap (write b) (swap_to-memory b.endian host n v)

byteswap-byteswap : (n v : ℕ) → v < 256 ^ n → byteswap n (of_le_bytes (reverse (le_bytes n v))) ≡ v
unfolding byteswap
byteswap-byteswap n v h =
    ap (λ (t : List ℕ). of_le_bytes (reverse t)) (unfold byteswap in le_bytes-byteswap n v)
    ∙ ap of_le_bytes (reverse-reverse (le_bytes n v))
    ∙ of_le_bytes-le_bytes n v h

of_memory_swapped :
    (e host : Endian) (n v : ℕ)
    → v < 256 ^ n
    → (if same_endian e host
        then of_memory host (to_memory e n v)
        else byteswap n (of_memory host (to_memory e n v)))
      ≡ v
unfolding to_memory of_memory same_endian
of_memory_swapped little little n v h = of_le_bytes-le_bytes n v h
of_memory_swapped big big n v h =
    ap of_le_bytes (reverse-reverse (le_bytes n v)) ∙ of_le_bytes-le_bytes n v h
of_memory_swapped big little n v h = byteswap-byteswap n v h
of_memory_swapped little big n v h = byteswap-byteswap n v h

pub read_fixed-Holds :
    (n : ℕ) (host : Endian) (b : ByteArray) (v : ℕ) (ys : List ℕ)
    → 0 < n
    → v < 256 ^ n
    → Holds b (to_memory b.endian n v ++ ys)
    → (c : ByteArray) × (read_fixed n host b ≡ some (v, c)) × Holds c ys × Passed b n c
unfolding read_fixed
read_fixed-Holds n host b v ys h0 hv h =
    let l = length-to_memory b.endian n v in
    let (c, e, rest, p) = read-Holds b (to_memory b.endian n v) ys h (omega arith) in
    let e' : read b n ≡ some (to_memory b.endian n v, c) = ap (read b) (sym l) ∙ e in
    (c, rw (e', of_memory_swapped b.endian host n v hv) refl, rest, subst (λ k. Passed b k c) l p)

-- On a well-formed array, with m_position, the bytes and a node together at most 2 ^ 64, an integer
-- of n bytes, n at least 1 and below 2 ^ 53, comes back as it was written after setPosition, in either byte order of
-- the array and of the machine; the read ends where the write ended.
pub read_fixed-write_fixed :
    (n : ℕ) (host : Endian) (b : ByteArray) (v : ℕ)
    → IsValid b
    → 0 < n
    → v < 256 ^ n
    → b.position + n + b.base_size ≤ size_mod
    → n < 2 ^ 53
    → (c d e : ByteArray) × (write_fixed n host b v ≡ some c)
      × (set_position c b.position ≡ some d)
      × (read_fixed n host d ≡ some (v, e))
      × (e.position ≡ c.position)
read_fixed-write_fixed n host b v w h0 hv small exact =
    let bs = to_memory b.endian n v in
    let l = length-to_memory b.endian n v in
    let (c, e, wr) = write-Wrote b bs w (omega arith) (omega arith) (omega arith) in
    let (d, s, h, en, at, _) = rewind b c bs wr in
    let h' : Holds d (to_memory d.endian n v ++ []) =
      subst (Holds d) (sym (append-nil _ ∙ ap (λ t. to_memory t n v) en)) h in
    let (x, r, _, p) = read_fixed-Holds n host d v [] h0 hv h' in
    (
      c,
      d,
      x,
      write_fixed-write n host b v ∙ e,
      s,
      r,
      omega (arith, p.position_after, at, wr.position_after),
    )
