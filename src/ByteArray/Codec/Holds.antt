-- ===== src/ByteArray/Codec/Holds.antt =====
-- Reading a known run of bytes piece by piece.
use exhy.Common.{
  ◌^◌, ℕ, ◌+◌, ◌-◌, ◌≤◌, ◌<◌, ◌≡◌, refl, sym, ap, ◌∙◌, List, ◌++◌, some, arith, length, take, drop,
  length-append, take-append_len, drop-append_len, drop-drop, length-take, take-take, drop-take,
  take_add,
}
use exhy.ByteArray.Store.{slice-append_within, slice-store}
use exhy.ByteArray.{ByteArray, slice, store, size_mod, write, read, set_position}
use exhy.ByteArray.Invariant.{IsValid, content, length-content}
use exhy.ByteArray.Transfer.{read_lem, write_lem}
use exhy.ByteArray.Seek.{set_position-Moved}

-- The bytes `bs` stand at m_position.
pub record Holds (b : ByteArray) (bs : List ℕ) : Type 0 where
  pub valid : IsValid b
  pub room : b.position + length bs ≤ b.capacity
  pub here : slice b.position (length bs) (content b) ≡ bs

-- What a read leaves: the same bytes, base size and byte order, m_position `n` further on.
pub record Passed (b : ByteArray) (n : ℕ) (c : ByteArray) : Type 0 where
  pub position_after : c.position ≡ b.position + n
  pub capacity_same : c.capacity ≡ b.capacity
  pub endian_same : c.endian ≡ b.endian
  pub bytes : content c ≡ content b

pub Passed-twice : {b c d : ByteArray} (m n : ℕ) → Passed b m c → Passed c n d → Passed b (m + n) d
Passed-twice m n p q = record {
  position_after = omega (arith, p.position_after, q.position_after);
  capacity_same = q.capacity_same ∙ p.capacity_same;
  endian_same = q.endian_same ∙ p.endian_same;
  bytes = q.bytes ∙ p.bytes;
}

slice_front :
    (p : ℕ) (xs ys z : List ℕ)
    → slice p (length (xs ++ ys)) z ≡ xs ++ ys
    → slice p (length xs) z ≡ xs
slice_front p xs ys z e =
    sym (take-take (length xs) (length (xs ++ ys)) (drop p z) (omega (arith, length-append xs ys)))
    ∙ ap (take (length xs)) e
    ∙ take-append_len xs ys (length xs) refl

slice_back :
    (p q : ℕ) (xs ys z : List ℕ)
    → q ≡ p + length xs
    → slice p (length (xs ++ ys)) z ≡ xs ++ ys
    → slice q (length ys) z ≡ ys
slice_back p q xs ys z h e =
    let i : q ≡ length xs + p = omega arith in
    ap (λ k. take (length ys) (drop k z)) i
    ∙ ap (take (length ys)) (sym (drop-drop (length xs) p z))
    ∙ sym (drop-take (length xs) (length ys) (drop p z))
    ∙ ap (λ k. drop (length xs) (take k (drop p z))) (sym (length-append xs ys))
    ∙ ap (drop (length xs)) e
    ∙ drop-append_len xs ys (length xs) refl

pub read-Holds :
    (b : ByteArray) (xs ys : List ℕ)
    → Holds b (xs ++ ys)
    → 0 < length xs
    → (c : ByteArray) × (read b (length xs) ≡ some (xs, c)) × Holds c ys × Passed b (length xs) c
read-Holds b xs ys h l =
    let n = length-append xs ys in
    let (c, e, v, pos, size, cap_same, base, endian, same) =
      read_lem b (length xs) h.valid (omega (arith, h.room)) (omega (arith, h.room)) in
    (
      c,
      e ∙ ap (λ t. some (t, c)) (slice_front b.position xs ys (content b) h.here),
      record {
        valid = v;
        room = omega (arith, h.room);
        here = rw same (slice_back b.position c.position xs ys (content b) pos h.here);
      },
      record { position_after = pos; capacity_same = cap_same; endian_same = endian; bytes = same },
    )

-- The bytes `bs` have been put at the m_position of `b`, by one write or several.
pub record Wrote (b : ByteArray) (bs : List ℕ) (c : ByteArray) : Type 0 where
  pub valid : IsValid c
  pub base_same : c.base_size ≡ b.base_size
  pub endian_same : c.endian ≡ b.endian
  pub position_after : c.position ≡ b.position + length bs
  pub kept : b.position + length bs ≤ b.capacity → c.capacity ≡ b.capacity
  pub there : slice b.position (length bs) (content c) ≡ bs

slice-store_before :
    (p k q : ℕ) (z ys : List ℕ) → p + k ≤ q → q ≤ length z → slice p k (store z q ys) ≡ slice p k z
slice-store_before p k q z ys h l =
    let i : q ≡ p + (q - p) = omega arith in
    slice-append_within p k (take q z) (ys ++ drop (q + length ys) z)
      (omega (arith, length-take q z))
    ∙ ap (λ t. take k (drop p (take t z))) i
    ∙ ap (take k) (drop-take p (q - p) z)
    ∙ take-take k (q - p) (drop p z) (omega arith)

pub write-Wrote :
    (b : ByteArray) (bs : List ℕ)
    → IsValid b
    → 0 < length bs
    → b.position + length bs + b.base_size ≤ size_mod
    → length bs < 2 ^ 53
    → (c : ByteArray) × (write b bs ≡ some c) × Wrote b bs c
write-Wrote b bs v l small exact =
    let (c, e, w) = write_lem b bs v l small exact in
    (
      c,
      e,
      record {
        valid = w.valid;
        base_same = w.base_same;
        endian_same = w.endian_same;
        position_after = w.position_after;
        kept = w.kept;
        there = rw w.bytes.2 (slice-store (content b ++ w.bytes.0) b.position bs w.bytes.1);
      },
    )

-- A write behind others keeps them.
pub write-Wrote_more :
    (b c : ByteArray) (xs ys : List ℕ)
    → Wrote b xs c
    → 0 < length ys
    → b.position + (length xs + length ys) + b.base_size ≤ size_mod
    → length ys < 2 ^ 53
    → (d : ByteArray) × (write c ys ≡ some d) × Wrote b (xs ++ ys) d
write-Wrote_more b c xs ys w l small exact =
    let (d, e, u) = write_lem c ys w.valid l (omega (arith, w.position_after, w.base_same)) exact in
    let n = length-append xs ys in
    let z = content c ++ u.bytes.0 in
    let lc = length-content w.valid in
    let front : slice b.position (length xs) (content d) ≡ xs = rw u.bytes.2 (
      slice-store_before b.position (length xs) c.position z ys (omega (arith, w.position_after))
        (omega (arith, u.bytes.1))
      ∙ slice-append_within b.position (length xs) (content c) u.bytes.0
          (omega (arith, w.position_after, w.valid.in_range))
      ∙ w.there) in
    let back : slice c.position (length ys) (content d) ≡ ys =
      rw u.bytes.2 (slice-store z c.position ys u.bytes.1) in
    (
      d,
      e,
      record {
        valid = u.valid;
        base_same = u.base_same ∙ w.base_same;
        endian_same = u.endian_same ∙ w.endian_same;
        position_after = omega (arith, u.position_after, w.position_after);
        kept = λ fits.
            u.kept (omega (arith, w.position_after, w.kept (omega arith))) ∙ w.kept (omega arith);
        there =
            ap (λ k. slice b.position k (content d)) n
            ∙ take_add (length xs) (length ys) (drop b.position (content d))
            ∙ ap (◌++◌ (slice b.position (length xs) (content d))) (
                ap (take (length ys)) (
                  drop-drop (length xs) b.position (content d)
                  ∙ ap (λ k. drop k (content d)) (omega (arith, w.position_after)))
                ∙ back)
            ∙ ap (λ t. t ++ ys) front;
      },
    )

-- Going back to where the bytes were put.
pub rewind :
    (b c : ByteArray) (bs : List ℕ)
    → Wrote b bs c
    → (d : ByteArray) × (set_position c b.position ≡ some d)
      × Holds d bs
      × (d.endian ≡ b.endian)
      × (d.position ≡ b.position)
      × (d.capacity ≡ c.capacity)
rewind b c bs w =
    let (d, e, m) =
      set_position-Moved c b.position w.valid (omega (arith, w.valid.in_range, w.position_after)) in
    (
      d,
      e,
      record {
        valid = m.valid;
        room = omega (arith, m.at, m.capacity_same, w.valid.in_range, w.position_after);
        here = rw (m.at, m.bytes) w.there;
      },
      m.endian_same ∙ w.endian_same,
      m.at,
      m.capacity_same,
    )
