-- ===== src/ByteArray/Buffers/Views.antt =====
-- getReadBuffers and getWriteBuffers: the vectors show the bytes asked for, in order.
use exhy.Common.{
  ◌^◌, ℕ, zero, suc, ◌+◌, ◌-◌, ◌*◌, ◌%◌, ◌≤◌, ◌<◌, min, ◌==◌, ◌≡◌, false, ◌≢◌, refl, sym, ap, ◌∙◌,
  inl, inr, List, [], ◌∷◌, ◌++◌, Option, none, some, ◌>>=◌, if◌then◌else◌, arith, ltb, leb, leb→le,
  leb-false→lt, Bool-cases, length, get_elem?, flatten, length-append, append_assoc, append-nil,
}
use exhy.ByteArray.{Node, ByteArray, size_mod, sub_size, add_capacity, cur_size, slice}
use exhy.ByteArray.Loops.{Sized}
use exhy.ByteArray.Store.{slice-append_within, slice-append_split}
use exhy.ByteArray.Invariant.{IsValid, content, Grown, add_capacity-Grown, after-ne-nil}
use exhy.ByteArray.Transfer.{
  offset_lem, rest, rest_lem, base-lt, slice-content, cur_size_lem, ne_zero,
}
use exhy.ByteArray.Buffers.{
  Iovec, iovec, cur_buffers, node_buffers, get_read_buffers, get_write_buffers,
}

-- The bytes that an iovec shows, and those that several show one after another.
abbrev bytes_of : Option Node → ℕ → ℕ → List ℕ
bytes_of none pos k = []
bytes_of (some n) pos k = slice pos k n

abbrev pub gather : List Node → List Iovec → List ℕ
gather chain [] = []
gather chain (v ∷ vs) = bytes_of (get_elem? chain v.node) v.offset v.len ++ gather chain vs

get_elem?-middle :
    (front : List Node) (n : Node) (ns : List Node)
    → get_elem? (front ++ n ∷ ns) (length front) ≡ some n
get_elem?-middle [] n ns = refl
get_elem?-middle (x ∷ front) n ns = get_elem?-middle front n ns

-- The result of the loops over `nodes`, which stand behind `front`.
abbrev Shows : List Node → List Node → ℕ → ℕ → Option (List Iovec) → Type 0
Shows front nodes pos len r =
    (vs : List Iovec) × (r ≡ some vs) × (gather (front ++ nodes) vs ≡ slice pos len (flatten nodes))

module _ (base : ℕ) (front : List Node) (n : Node) (ns : List Node) (pos room len : ℕ)
    (hn : length n ≡ base) (hc : pos + room ≡ base) where
  Shows-last : len ≤ room → Shows front (n ∷ ns) pos len (some (iovec (length front) pos len ∷ []))
  Shows-last h = (
    iovec (length front) pos len ∷ [],
    refl,
    rw (get_elem?-middle front n ns) (
        append-nil (slice pos len n)
        ∙ sym (slice-append_within pos len n (flatten ns) (omega arith))),
  )

  Shows-more :
      (r : Option (List Iovec))
      → room ≤ len
      → Shows (front ++ n ∷ []) ns 0 (len - room) r
      → Shows front (n ∷ ns) pos len (r >>= λ vs. some (iovec (length front) pos room ∷ vs))
  Shows-more r h (vs, e, g) = (
    iovec (length front) pos room ∷ vs,
    rw e refl,
    rw (get_elem?-middle front n ns, slice-append_split pos room len n (flatten ns) (omega arith) h)
        (ap (◌++◌ (slice pos room n))
          (ap (λ c. gather c vs) (sym (append_assoc front (n ∷ []) ns)) ∙ g)),
  )

length_snoc : (front : List Node) (n : Node) → length front + 1 ≡ length (front ++ n ∷ [])
length_snoc front n = omega (arith, length-append front (n ∷ []))

node_buffers_lem :
    (base : ℕ) (front : List Node) (n : Node) (ns : List Node) (pos room len : ℕ)
    → length n ≡ base
    → Sized base ns
    → pos + room ≡ base
    → pos + len ≤ base * length (n ∷ ns)
    → Shows front (n ∷ ns) pos len (node_buffers (length front) (n ∷ ns) pos room len)
unfolding node_buffers cur_size
node_buffers_lem base front n [] pos room len hn hs hc hr = elim (Bool-cases (leb len room)) [
  | inl e ↦ rw e (Shows-last base front n [] pos room len hn hc (leb→le _ _ e))
  | inr e ↦ absurd (omega (arith, leb-false→lt _ _ e))
]
node_buffers_lem base front n (n2 ∷ ns) pos room len hn hs hc hr =
    elim (Bool-cases (leb len room)) [
      | inl e ↦ rw e (Shows-last base front n (n2 ∷ ns) pos room len hn hc (leb→le _ _ e))
      | inr e ↦
          let lt = leb-false→lt len room e in
          rw (e, length_snoc front n)
            (Shows-more base front n (n2 ∷ ns) pos room len hn hc _ (omega arith) (
              node_buffers_lem base (front ++ n ∷ []) n2 ns 0 (length n2) (len - room) hs.0 hs.1
                (omega (arith, hs.0)) (omega arith)))
    ]

cur_buffers_lem :
    (base : ℕ) (front : List Node) (n : Node) (ns : List Node) (pos room len : ℕ)
    → length n ≡ base
    → Sized base ns
    → pos + room ≡ base
    → pos + len ≤ base * length (n ∷ ns)
    → Shows front (n ∷ ns) pos len (cur_buffers base (length front) (n ∷ ns) pos room len)
unfolding cur_buffers
cur_buffers_lem base front n [] pos room len hn hs hc hr = elim (Bool-cases (leb len room)) [
  | inl e ↦ rw e (Shows-last base front n [] pos room len hn hc (leb→le _ _ e))
  | inr e ↦ absurd (omega (arith, leb-false→lt _ _ e))
]
cur_buffers_lem base front n (n2 ∷ ns) pos room len hn hs hc hr = elim (Bool-cases (leb len room)) [
  | inl e ↦ rw e (Shows-last base front n (n2 ∷ ns) pos room len hn hc (leb→le _ _ e))
  | inr e ↦
      let lt = leb-false→lt len room e in
      rw (e, length_snoc front n)
        (Shows-more base front n (n2 ∷ ns) pos room len hn hc _ (omega arith) (
          cur_buffers_lem base (front ++ n ∷ []) n2 ns 0 base (len - room) hs.0 hs.1 (omega arith)
            (omega arith)))
]

module _ (g : ByteArray) (v : IsValid g) (len : ℕ) (h : g.position < g.capacity)
    (room : g.position + len ≤ g.capacity) where
  node_buffers_at :
      Shows g.before g.after
        (g.position % g.base_size)
        len
        (node_buffers (length g.before) g.after (g.position % g.base_size) (rest g) len)
  node_buffers_at = go g.after (after-ne-nil v h) v.after_sized v.counted
    where
      go :
          (xs : List Node)
          → xs ≢ []
          → Sized g.base_size xs
          → g.capacity ≡ g.base_size * length g.before + g.base_size * length xs
          → Shows g.before xs
              (g.position % g.base_size)
              len
              (node_buffers (length g.before) xs (g.position % g.base_size) (rest g) len)
      go [] e s c = absurd (e refl)
      go (n ∷ ns) e s c =
          node_buffers_lem g.base_size g.before n ns (g.position % g.base_size) (rest g) len s.0 s.1
            (rest_lem g v (base-lt g v h)) (omega (arith, offset_lem v))

  cur_buffers_at :
      Shows g.before g.after
        (g.position % g.base_size)
        len
        (cur_buffers g.base_size (length g.before) g.after (g.position % g.base_size) (rest g) len)
  cur_buffers_at = go g.after (after-ne-nil v h) v.after_sized v.counted
    where
      go :
          (xs : List Node)
          → xs ≢ []
          → Sized g.base_size xs
          → g.capacity ≡ g.base_size * length g.before + g.base_size * length xs
          → Shows g.before xs
              (g.position % g.base_size)
              len
              (cur_buffers g.base_size (length g.before) xs (g.position % g.base_size) (rest g) len)
      go [] e s c = absurd (e refl)
      go (n ∷ ns) e s c =
          cur_buffers_lem g.base_size g.before n ns (g.position % g.base_size) (rest g) len s.0 s.1
            (rest_lem g v (base-lt g v h)) (omega (arith, offset_lem v))

-- The number of bytes that getReadBuffers takes.
taken-min :
    (size pos len : ℕ)
    → pos ≤ size
    → size < size_mod
    → (if ltb (sub_size size pos) len then sub_size size pos else len) ≡ min len (size - pos)
taken-min size pos len h l = ground arith

room_left : (pos k : ℕ) {c : ℕ} → pos + suc k ≤ c → pos < c
room_left pos k h = omega arith

ne_suc : (k : ℕ) → (suc k == 0) ≡ false
ne_suc k = ne_zero (suc k) (omega arith)

get_read_buffers_taken :
    (b : ByteArray) (len k : ℕ)
    → IsValid b
    → b.position + k ≤ b.capacity
    → (if ltb (sub_size b.size b.position) len then sub_size b.size b.position else len) ≡ k
    → (vs : List Iovec) × (get_read_buffers b len ≡ some (vs, k))
      × (gather (b.before ++ b.after) vs ≡ slice b.position k (content b))
unfolding get_read_buffers
get_read_buffers_taken b len zero v h t = ([], rw t refl, refl)
get_read_buffers_taken b len (suc k) v h t =
    let room = room_left b.position k h in
    let (vs, r, g) = cur_buffers_at b v (suc k) room h in
    (vs, rw (t, ne_suc k, cur_size_lem v room, r) refl, g ∙ slice-content b v (suc k))

-- On a well-formed array with m_position at most m_size, getReadBuffers(buffers, len) returns the
-- smaller of len and the bytes that are left, and its vectors show just these bytes from m_position
-- on.
pub get_read_buffers_lem :
    (b : ByteArray) (len : ℕ)
    → IsValid b
    → b.position ≤ b.size
    → (vs : List Iovec) × (get_read_buffers b len ≡ some (vs, min len (b.size - b.position)))
      × (gather (b.before ++ b.after) vs
          ≡ slice b.position (min len (b.size - b.position)) (content b))
get_read_buffers_lem b len v h =
    get_read_buffers_taken b len (min len (b.size - b.position)) v (omega (arith, v.size_le))
      (taken-min b.size b.position len h (omega (arith, v.size_le, v.fits)))

-- On a well-formed array, with m_position, the bytes and a node together at most 2 ^ 64,
-- getWriteBuffers(buffers, len) for len at least 1 and below 2 ^ 53 makes room as addCapacity does, and its vectors
-- cover the next len bytes of the grown array from m_position on; m_position and m_size stay.
pub get_write_buffers_lem :
    (b : ByteArray) (len : ℕ)
    → IsValid b
    → 0 < len
    → b.position + len + b.base_size ≤ size_mod
    → len < 2 ^ 53
    → (c : ByteArray) × (vs : List Iovec) × (get_write_buffers b len ≡ some (c, vs, len))
      × Grown b len c
      × (gather (c.before ++ c.after) vs ≡ slice b.position len (content c))
unfolding get_write_buffers
get_write_buffers_lem b len v hl small exact =
    let g = add_capacity b len in
    let r = add_capacity-Grown b len v small exact in
    let h : g.position < g.capacity = omega (arith, r.room) in
    let (vs, e, shown) = node_buffers_at g r.valid len h r.room in
    (
      g,
      vs,
      rw (ne_zero len hl, cur_size_lem r.valid h, e) refl,
      r,
      shown ∙ slice-content g r.valid len ∙ ap (λ p. slice p len (content g)) r.position_same,
    )
