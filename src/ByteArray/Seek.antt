-- ===== src/ByteArray/Seek.antt =====
-- setPosition and clear, and what they are for: reading back what was written.
use exhy.Common.{
  ◌^◌, true, ◌⊎◌, ℕ, zero, suc, ◌+◌, ◌-◌, ◌*◌, ◌≤◌, ◌<◌, ◌≡◌, ◌≢◌, refl, sym, ap, subst, ◌∙◌, inl,
  inr, List, [], ◌∷◌, ◌++◌, Option, none, some, if◌then◌else◌, arith, ltb, ltb→lt, ltb-false→le,
  le→ltb-false, ◌==◌, ==_iff, length, flatten, Bool-cases, length-append, flatten-append,
  append_assoc,
}
use exhy.ByteArray.{Node, ByteArray, size_mod, write, read, seek, set_position, first_node, clear}
use exhy.ByteArray.Loops.{Sized, Sized-append, mul_length-snoc}
use exhy.ByteArray.Store.{slice-store}
use exhy.ByteArray.Invariant.{IsValid, content, length-content}
use exhy.ByteArray.Transfer.{max, max-le, write_lem, read_lem}

Sized-split : (base : ℕ) (xs ys : List Node) → Sized base (xs ++ ys) → Sized base xs × Sized base ys
Sized-split base [] ys h = (tt, h)
Sized-split base (x ∷ xs) ys h = let (a, b) = Sized-split base xs ys h.1 in ((h.0, a), b)

-- The walk from the root stops at the node of `v`.
abbrev Sought : ℕ → List Node → List Node → ℕ → Option (List Node × List Node) → Type 0
Sought base before nodes v r =
    (bf : List Node) × (af : List Node) × (r ≡ some (bf, af))
    × (bf ++ af ≡ before ++ nodes)
    × (base * length bf ≤ base * length before + v)
    × (base * length before + v < base * length bf + base)

module _ (base : ℕ) (before : List Node) (n : Node) (h0 : 0 < base) (hn : length n ≡ base) where
  seek_here :
      (ns : List Node) (v : ℕ)
      → v ≤ base
      → Sought base before
          (n ∷ ns)
          v
          (if v == length n then some (before ++ n ∷ [], ns) else some (before, n ∷ ns))
  seek_here ns v h = elim (Bool-cases (v == length n)) [
    | inl e ↦
        let e' = (==_iff v (length n)).0 e in
        let m = mul_length-snoc base before n n in
        rw e (before ++ n ∷ [], ns, refl, append_assoc before (n ∷ []) ns, omega arith, omega arith)
    | inr e ↦
        let e' : v ≢ length n = λ q. (cc ((==_iff v (length n)).1 q)) in
        rw e (before, n ∷ ns, refl, refl, omega arith, omega arith)
  ]

seek_lem :
    (base : ℕ) (before : List Node) (n : Node) (ns : List Node) (v : ℕ)
    → 0 < base
    → length n ≡ base
    → Sized base ns
    → v ≤ base * length (n ∷ ns)
    → Sought base before (n ∷ ns) v (seek before (n ∷ ns) v)
unfolding seek
seek_lem base before n [] v h0 hn hs hv =
    rw (le→ltb-false (length n) v (omega arith)) (seek_here base before n h0 hn [] v (omega arith))
seek_lem base before n (n2 ∷ ns) v h0 hn hs hv = elim (Bool-cases (ltb (length n) v)) [
  | inl e ↦
      let lt = ltb→lt (length n) v e in
      let m = mul_length-snoc base before n n in
      let (bf, af, r, same, from, to) =
        seek_lem base (before ++ n ∷ []) n2 ns (v - length n) h0 hs.0 hs.1 (omega arith) in
      rw e (bf, af, r, same ∙ append_assoc before (n ∷ []) (n2 ∷ ns), omega arith, omega arith)
  | inr e ↦
      rw e (seek_here base before n h0 hn (n2 ∷ ns) v (omega (arith, ltb-false→le (length n) v e)))
]

seek_from_root :
    (base : ℕ) (nodes : List Node) (v : ℕ)
    → 0 < base
    → Sized base nodes
    → 0 < length nodes
    → v ≤ base * length nodes
    → Sought base [] nodes v (seek [] nodes v)
seek_from_root base [] v h0 hs hl hv = absurd (omega arith)
seek_from_root base (n ∷ ns) v h0 hs hl hv = seek_lem base [] n ns v h0 hs.0 hs.1 hv

-- The outcome of setPosition(v): only the cursor moves, and m_size grows to it.
pub record Moved (b : ByteArray) (v : ℕ) (c : ByteArray) : Type 0 where
  pub valid : IsValid c
  pub at : c.position ≡ v
  pub size_after : c.size ≡ max b.size v
  pub capacity_same : c.capacity ≡ b.capacity
  pub base_same : c.base_size ≡ b.base_size
  pub endian_same : c.endian ≡ b.endian
  pub bytes : content c ≡ content b

-- An offset up to m_capacity is accepted: the cursor moves there from the root.
pub set_position-Moved :
    (b : ByteArray) (v : ℕ)
    → IsValid b
    → v ≤ b.capacity
    → (c : ByteArray) × (set_position b v ≡ some c) × Moved b v c
unfolding set_position
set_position-Moved b v w h =
    let nodes = b.before ++ b.after in
    let total : b.base_size * length nodes ≡ b.capacity =
      rw (length-append b.before b.after) (omega (arith, w.counted)) in
    let (bf, af, e, same, from, to) =
      seek_from_root b.base_size nodes v w.base_pos
        (Sized-append b.base_size b.before b.after w.before_sized w.after_sized)
        (omega (arith, length-append b.before b.after, w.rooted)) (omega arith) in
    let sized = Sized-split b.base_size bf af (
      subst (Sized b.base_size) (sym same)
        (Sized-append b.base_size b.before b.after w.before_sized w.after_sized)) in
    let len : length bf + length af ≡ length nodes = sym (length-append bf af) ∙ ap length same in
    let mul : b.base_size * length bf + b.base_size * length af ≡ b.base_size * length nodes =
      omega (arith, ap (λ (t : ℕ). b.base_size * t) len) in
    (
      record b { position = v; size = max b.size v; before = bf; after = af },
      rw (le→ltb-false b.capacity v h, e) refl,
      record {
        valid = record {
          base_pos = w.base_pos;
          before_sized = sized.0;
          after_sized = sized.1;
          counted = omega arith;
          fits = w.fits;
          from = omega arith;
          to = omega arith;
          in_range = h;
          size_le = max-le b.size v b.capacity w.size_le h;
          rooted = omega (arith, length-append b.before b.after, w.rooted);
        };
        at = refl;
        size_after = refl;
        capacity_same = refl;
        base_same = refl;
        endian_same = refl;
        bytes = sym (flatten-append bf af) ∙ ap flatten same ∙ flatten-append b.before b.after;
      },
    )

past_end : (b : ByteArray) (v : ℕ) → ltb b.capacity v ≡ true → set_position b v ≡ none
unfolding set_position
past_end b v h = rw h refl

-- On a well-formed array, setPosition accepts exactly the offsets up to m_capacity: it moves the
-- cursor there and changes no byte, m_size becomes the offset where that is more, and the array
-- stays well formed. Past m_capacity it throws.
pub set_position_lem :
    (b : ByteArray) (v : ℕ)
    → IsValid b
    → ((v ≤ b.capacity) × ((c : ByteArray) × (set_position b v ≡ some c) × Moved b v c))
      ⊎ ((b.capacity < v) × (set_position b v ≡ none))
set_position_lem b v w = elim (Bool-cases (ltb b.capacity v)) [
  | inl h ↦ inr (ltb→lt _ _ h, past_end b v h)
  | inr h ↦ let k : v ≤ b.capacity = ltb-false→le _ _ h in inl (k, set_position-Moved b v w k)
]

first_node-Sized : (base : ℕ) (xs : List Node) → Sized base xs → Sized base (first_node xs)
unfolding first_node
first_node-Sized base [] h = tt
first_node-Sized base (x ∷ xs) h = (h.0, tt)

length-first_node : (xs : List Node) → 0 < length xs → length (first_node xs) ≡ 1
unfolding first_node
length-first_node [] h = absurd (omega arith)
length-first_node (x ∷ xs) h = refl

-- On a well-formed array, clear leaves a well-formed array with m_position and m_size 0 and the
-- capacity of one node.
pub clear_lem :
    (b : ByteArray)
    → IsValid b
    → IsValid (clear b)
      × ((clear b).position ≡ 0)
      × ((clear b).size ≡ 0)
      × ((clear b).capacity ≡ b.base_size)
unfolding clear
clear_lem b v =
    let nodes = b.before ++ b.after in
    let sized = Sized-append b.base_size b.before b.after v.before_sized v.after_sized in
    let one : length (first_node nodes) ≡ 1 =
      length-first_node nodes (omega (arith, length-append b.before b.after, v.rooted)) in
    let mul : b.base_size * length (first_node nodes) ≡ b.base_size = rw one (omega arith) in
    (
      record {
        base_pos = v.base_pos;
        before_sized = tt;
        after_sized = first_node-Sized b.base_size nodes sized;
        counted = omega arith;
        fits = base_fits;
        from = omega arith;
        to = omega (arith, v.base_pos);
        in_range = omega arith;
        size_le = omega arith;
        rooted = omega arith;
      },
      refl,
      refl,
      refl,
    )
  where
    pick : (k : ℕ) → 0 < k → b.base_size * k ≡ b.capacity → b.base_size < size_mod
    pick zero h e = absurd (omega arith)
    pick (suc k) h e = omega (arith, v.fits)

    base_fits : b.base_size < size_mod
    base_fits = pick (length b.before + length b.after) v.rooted (omega (arith, v.counted))

-- On a well-formed array, with m_position, the bytes and a node together at most 2 ^ 64, the bytes
-- that a write of at least one byte and fewer than 2 ^ 53 puts at m_position are what a read finds after setPosition goes
-- back there; the read ends where the write ended and changes no byte.
pub read-write :
    (b : ByteArray) (buf : List ℕ)
    → IsValid b
    → 0 < length buf
    → b.position + length buf + b.base_size ≤ size_mod
    → length buf < 2 ^ 53
    → (c d e : ByteArray) × (write b buf ≡ some c)
      × (set_position c b.position ≡ some d)
      × (read d (length buf) ≡ some (buf, e))
      × (e.position ≡ c.position)
      × (content e ≡ content c)
read-write b buf v hl small exact =
    let (c, w, wr) = write_lem b buf v hl small exact in
    let lc = length-content wr.valid in
    let room : b.position + length buf ≤ c.capacity =
      omega (arith, wr.valid.in_range, wr.position_after) in
    let (d, s, mv) = set_position-Moved c b.position wr.valid (omega arith) in
    let (e, r, _, pos, _, _, _, _, same) =
      read_lem d (length buf) mv.valid (omega (arith, mv.at, mv.capacity_same))
        (omega (arith, mv.at, mv.capacity_same)) in
    (
      c,
      d,
      e,
      w,
      s,
      r
          ∙ ap (λ t. some (t, e))
              (rw (mv.at, mv.bytes, wr.bytes.2)
                (slice-store (content b ++ wr.bytes.0) b.position buf wr.bytes.1)),
      omega (arith, pos, mv.at, wr.position_after),
      same ∙ mv.bytes,
    )
