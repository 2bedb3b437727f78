-- ===== src/ByteArray/Transfer.antt =====
-- write, read and setPosition as operations on the bytes of the chain.
use exhy.Common.{
  ◌^◌, ℕ, zero, suc, ◌+◌, ◌*◌, ◌%◌, ◌≤◌, ◌<◌, ◌≡◌, ◌≢◌, refl, sym, ap, ◌∙◌, false, List, [], ◌∷◌,
  ◌++◌, none, some, if◌then◌else◌, arith, ltb, ◌==◌, length, flatten, flatten-append,
}
use exhy.ByteArray.{
  Node, ByteArray, Cursor, size_mod, sub_size, add_capacity, cur_size, store, slice, write_loop,
  write, read_loop, read,
}
use exhy.ByteArray.Loops.{
  Sized, length-flatten, Placed, Writes, Reads, write_loop_lem, read_loop_lem,
}
use exhy.ByteArray.Store.{store-append_behind, slice-append_behind}
use exhy.ByteArray.Invariant.{
  IsValid, content, add_capacity-Grown, after-ne-nil, after_nil, length-content,
}

-- position % base is the offset in the node of m_cur.
mod_of_bounds : (base k p : ℕ) → base * k ≤ p → p < base * k + base → base * k + p % base ≡ p
mod_of_bounds base k p h l = grind arith

pub offset_lem :
    {b : ByteArray}
    → IsValid b
    → b.base_size * length b.before + b.position % b.base_size ≡ b.position
offset_lem {b} v = mod_of_bounds b.base_size (length b.before) b.position v.from v.to

-- The first node behind a cursor that is not at the end.
pub node_at :
    {b : ByteArray}
    → IsValid b
    → b.position < b.capacity
    → (n : Node) × (ns : List Node) × (b.after ≡ n ∷ ns)
node_at {b} v h = go b.after (after-ne-nil v h)
  where
    go : (xs : List Node) → xs ≢ [] → (n : Node) × (ns : List Node) × (xs ≡ n ∷ ns)
    go [] e = absurd (e refl)
    go (n ∷ ns) e = (n, ns, refl)

abbrev pub max : ℕ → ℕ → ℕ
max a b = if ltb a b then b else a

-- The outcome of a write of `buf`: the same array with the bytes in place, the cursor behind them.
pub record Written (b : ByteArray) (buf : List ℕ) (c : ByteArray) : Type 0 where
  pub valid : IsValid c
  pub base_same : c.base_size ≡ b.base_size
  pub endian_same : c.endian ≡ b.endian
  pub position_after : c.position ≡ b.position + length buf
  pub size_after : c.size ≡ max b.size (b.position + length buf)
  pub kept : b.position + length buf ≤ b.capacity → c.capacity ≡ b.capacity
  pub bytes :
      (fresh : List ℕ) × (b.position + length buf ≤ length (content b ++ fresh))
      × (content c ≡ store (content b ++ fresh) b.position buf)

-- m_cur's size is m_baseSize where m_cur is not null.
pub cur_size_lem :
    {b : ByteArray} → IsValid b → b.position < b.capacity → cur_size b.after ≡ some b.base_size
unfolding cur_size
cur_size_lem {b} v h = go b.after (after-ne-nil v h) v.after_sized
  where
    go : (xs : List Node) → xs ≢ [] → Sized b.base_size xs → cur_size xs ≡ some b.base_size
    go [] e k = absurd (e refl)
    go (n ∷ ns) e k = ap some k.0

-- m_cur->size - m_position % m_baseSize
abbrev pub rest : ByteArray → ℕ
rest g = sub_size g.base_size (g.position % g.base_size)

module _ (g : ByteArray) (v : IsValid g) where
  pub rest_lem : g.base_size < size_mod → g.position % g.base_size + rest g ≡ g.base_size
  rest_lem h = omega (arith, offset_lem v, v.to, v.base_pos)

  pub base-lt : g.position < g.capacity → g.base_size < size_mod
  base-lt h = go g.after (after-ne-nil v h) v.counted
    where
      go :
          (xs : List Node)
          → xs ≢ []
          → g.capacity ≡ g.base_size * length g.before + g.base_size * length xs
          → g.base_size < size_mod
      go [] e k = absurd (e refl)
      go (n ∷ ns) e k = omega (arith, v.fits)

  -- The loops run from m_cur over the whole rest of the chain.
  write_loop_at :
      (buf : List ℕ)
      → g.position < g.capacity
      → g.position + length buf ≤ g.capacity
      → Writes g.base_size g.before g.after g.position
          (g.position % g.base_size)
          buf
          (write_loop g.before g.after g.position (g.position % g.base_size) (rest g) buf)
  write_loop_at buf h room = go g.after (after-ne-nil v h) v.after_sized v.counted
    where
      go :
          (xs : List Node)
          → xs ≢ []
          → Sized g.base_size xs
          → g.capacity ≡ g.base_size * length g.before + g.base_size * length xs
          → Writes g.base_size g.before xs g.position
              (g.position % g.base_size)
              buf
              (write_loop g.before xs g.position (g.position % g.base_size) (rest g) buf)
      go [] e k c = absurd (e refl)
      go (n ∷ ns) e k c =
          write_loop_lem g.base_size g.before n ns g.position (g.position % g.base_size) (rest g)
            buf v.before_sized k.0 k.1 (rest_lem (base-lt h)) v.base_pos
            (omega (arith, offset_lem v)) (omega (arith, v.fits))

  read_loop_at :
      (k : ℕ)
      → g.position < g.capacity
      → g.position + k ≤ g.capacity
      → Reads g.base_size g.before g.after g.position
          (g.position % g.base_size)
          k
          []
          (read_loop g.before g.after g.position (g.position % g.base_size) (rest g) k [])
  read_loop_at k h room = go g.after (after-ne-nil v h) v.after_sized v.counted
    where
      go :
          (xs : List Node)
          → xs ≢ []
          → Sized g.base_size xs
          → g.capacity ≡ g.base_size * length g.before + g.base_size * length xs
          → Reads g.base_size g.before xs g.position
              (g.position % g.base_size)
              k
              []
              (read_loop g.before xs g.position (g.position % g.base_size) (rest g) k [])
      go [] e s c = absurd (e refl)
      go (n ∷ ns) e s c =
          read_loop_lem g.base_size g.before n ns g.position (g.position % g.base_size) (rest g) k
            [] v.before_sized s.0 s.1 (rest_lem (base-lt h)) v.base_pos
            (omega (arith, offset_lem v)) (omega (arith, v.fits))

  -- The array with a cursor that the loops leave `k` bytes on, whatever m_size becomes.
  Placed-IsValid :
      (k z : ℕ) (c : Cursor)
      → g.position + k ≤ g.capacity
      → z ≤ g.capacity
      → Placed g.base_size
          (length g.before + length g.after)
          (g.base_size * length g.before + g.position % g.base_size + k)
          (g.position + k)
          c
      → IsValid (record g { before = c.before; after = c.after; position = c.position; size = z })
  Placed-IsValid k z c room hz w = record {
    base_pos = v.base_pos;
    before_sized = w.before_sized;
    after_sized = w.after_sized;
    counted = omega (arith, v.counted, ap (λ (t : ℕ). g.base_size * t) w.nodes);
    fits = v.fits;
    from = omega (arith, w.from, w.moved, offset_lem v);
    to = omega (arith, w.to, w.moved, offset_lem v);
    in_range = omega (arith, w.moved);
    size_le = hz;
    rooted = omega (arith, w.nodes, v.rooted);
  }

  store-content :
      (buf : List ℕ)
      → flatten g.before ++ store (flatten g.after) (g.position % g.base_size) buf
        ≡ store (content g) g.position buf
  store-content buf = sym (
      store-append_behind (flatten g.before) (flatten g.after) buf g.position
        (g.position % g.base_size)
        (omega (arith, offset_lem v, length-flatten g.base_size g.before v.before_sized)))

  pub slice-content :
      (k : ℕ)
      → slice (g.position % g.base_size) k (flatten g.after) ≡ slice g.position k (content g)
  slice-content k = sym (
      slice-append_behind g.position (g.position % g.base_size) k (flatten g.before)
        (flatten g.after)
        (omega (arith, offset_lem v, length-flatten g.base_size g.before v.before_sized)))

pub ne_zero : (n : ℕ) → 0 < n → (n == 0) ≡ false
ne_zero n h = ground arith

pub max-le : (a b n : ℕ) → a ≤ n → b ≤ n → max a b ≤ n
max-le a b n h k = ground arith

-- On a well-formed array, with m_position, the bytes and a node together at most 2 ^ 64, a write of
-- at least one byte and fewer than 2 ^ 53 succeeds, at any offset and over any number of nodes: m_position moves behind
-- the bytes, m_size grows to it where it was less, and the chain, which grows where it must, holds
-- the bytes there and all others as before.
pub write_lem :
    (b : ByteArray) (buf : List ℕ)
    → IsValid b
    → 0 < length buf
    → b.position + length buf + b.base_size ≤ size_mod
    → length buf < 2 ^ 53
    → (c : ByteArray) × (write b buf ≡ some c) × Written b buf c
unfolding write
write_lem b buf v hl small exact =
    let g = add_capacity b (length buf) in
    let r = add_capacity-Grown b (length buf) v small exact in
    let h : g.position < g.capacity = omega (arith, r.room) in
    let (c, e, place, bytes) = write_loop_at g r.valid buf h r.room in
    (
      record g {
        before = c.before;
        after = c.after;
        position = c.position;
        size = max g.size c.position;
      },
      rw (ne_zero (length buf) hl, cur_size_lem r.valid h, e),
      record {
        valid =
            Placed-IsValid g r.valid (length buf) (max g.size c.position) c r.room
              (max-le g.size c.position g.capacity r.valid.size_le
                (omega (arith, place.moved, r.room)))
              place;
        base_same = r.base_same;
        endian_same = r.endian_same;
        position_after = omega (arith, place.moved, r.position_same);
        size_after = rw (r.size_same, place.moved, r.position_same) refl;
        kept = r.kept;
        bytes = (
          r.bytes.0,
          omega (arith, ap length r.bytes.1, length-content r.valid, r.room, r.position_same),
          bytes ∙ store-content g r.valid buf ∙ rw (r.bytes.1, r.position_same) refl,
        );
      },
    )

-- On a well-formed array, reading k bytes that lie in the chain succeeds where m_position is before
-- its end: it gives those bytes, moves m_position behind them, and changes no byte and neither
-- m_size nor m_capacity.
pub read_lem :
    (b : ByteArray) (k : ℕ)
    → IsValid b
    → b.position < b.capacity
    → b.position + k ≤ b.capacity
    → (c : ByteArray) × (read b k ≡ some (slice b.position k (content b), c))
      × IsValid c
      × (c.position ≡ b.position + k)
      × (c.size ≡ b.size)
      × (c.capacity ≡ b.capacity)
      × (c.base_size ≡ b.base_size)
      × (c.endian ≡ b.endian)
      × (content c ≡ content b)
unfolding read
read_lem b zero v h room = (b, rw (cur_size_lem v h), v, omega arith, refl, refl, refl, refl, refl)
read_lem b (suc k) v h room =
    let (c, e, place, bytes) = read_loop_at b v (suc k) h room in
    (
      record b { before = c.before; after = c.after; position = c.position },
      rw (cur_size_lem v h, e, ne_zero (suc k) (omega arith), slice-content b v (suc k)),
      Placed-IsValid b v (suc k) b.size c room v.size_le place,
      place.moved,
      refl,
      refl,
      refl,
      refl,
      sym (flatten-append c.before c.after) ∙ ap flatten bytes ∙ flatten-append b.before b.after,
    )

pub write_nothing : (b : ByteArray) → write b [] ≡ some b
unfolding write
write_nothing b = refl

-- At the end of the chain m_cur is null, and read follows it whatever the length, 0 included.
pub read_at_end : (b : ByteArray) (k : ℕ) → IsValid b → b.position ≡ b.capacity → read b k ≡ none
unfolding read cur_size
read_at_end b k v e = rw (after_nil v e)
