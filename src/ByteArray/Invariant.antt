-- ===== src/ByteArray/Invariant.antt =====
-- The well-formed states of a byte array, and growth: what addCapacity does to one.
use exhy.Common.{
  ℕ, zero, suc, ◌+◌, ◌-◌, ◌*◌, ◌≤◌, ◌<◌, ◌≡◌, ◌≢◌, ◌⊎◌, refl, sym, ap, subst, ◌∙◌, inl, inr, List,
  [], ◌∷◌, ◌++◌, arith, tests, leb, leb→le, leb-false→lt, lt→ltb, ◌^◌, ◌/◌, ◌==◌, ==_iff, length,
  flatten, Bool-cases, length-append, flatten-append, append_assoc, append-nil,
}
use exhy.ByteArray.{
  Node, ByteArray, size_mod, add_size, fresh_bytes, new_node, new_nodes, new_byte_array,
  get_capacity, ceil_div, append_nodes, add_capacity,
}
use exhy.ByteArray.Loops.{Sized, Sized-append, length-flatten}

-- The bytes of the whole chain, one per offset.
abbrev pub content : ByteArray → List ℕ
content b = flatten b.before ++ flatten b.after

-- Every node is as long as m_baseSize, m_capacity counts them, and m_cur is the node of m_position.
pub record IsValid (b : ByteArray) : Type 0 where
  pub base_pos : 0 < b.base_size
  pub before_sized : Sized b.base_size b.before
  pub after_sized : Sized b.base_size b.after
  pub counted : b.capacity ≡ b.base_size * length b.before + b.base_size * length b.after
  pub fits : b.capacity < size_mod
  pub from : b.base_size * length b.before ≤ b.position
  pub to : b.position < b.base_size * length b.before + b.base_size
  pub in_range : b.position ≤ b.capacity
  pub size_le : b.size ≤ b.capacity
  -- m_root is never null.
  pub rooted : 0 < length b.before + length b.after

pub length-content : {b : ByteArray} → IsValid b → length (content b) ≡ b.capacity
length-content {b} v = omega (
  arith,
  length-append (flatten b.before) (flatten b.after),
  length-flatten b.base_size b.before v.before_sized,
  length-flatten b.base_size b.after v.after_sized,
  v.counted,
)

length-fresh_bytes : (f : ℕ → ℕ) (i n : ℕ) → length (fresh_bytes f i n) ≡ n
unfolding fresh_bytes
length-fresh_bytes f i zero = refl
length-fresh_bytes f i (suc n) = ap suc (length-fresh_bytes f (i + 1) n)

length-new_node : (u : ℕ → ℕ → ℕ) (k s : ℕ) → length (new_node u k s) ≡ s
unfolding new_node
length-new_node u k s = length-fresh_bytes (u k) 0 s

module _ (u : ℕ → ℕ → ℕ) (base : ℕ) where
  length-new_nodes : (k count : ℕ) → length (new_nodes u k base count) ≡ count
  unfolding new_nodes
  length-new_nodes k zero = refl
  length-new_nodes k (suc count) = ap suc (length-new_nodes (k + 1) count)

  new_nodes-Sized : (k count : ℕ) → Sized base (new_nodes u k base count)
  unfolding new_nodes
  new_nodes-Sized k zero = tt
  new_nodes-Sized k (suc count) = (length-new_node u k base, new_nodes-Sized (k + 1) count)

-- A new byte array is well formed, for every node size from 1 on below 2 ^ 64.
pub new_byte_array-IsValid :
    (u : ℕ → ℕ → ℕ) (base : ℕ) → 0 < base → base < size_mod → IsValid (new_byte_array u base)
unfolding new_byte_array
new_byte_array-IsValid u base h k = record {
  base_pos = h;
  before_sized = tt;
  after_sized = (length-new_node u 0 base, tt);
  counted = omega arith;
  fits = k;
  from = omega arith;
  to = omega arith;
  in_range = omega arith;
  size_le = omega arith;
  rooted = omega arith;
}

-- Rounding up to whole nodes is enough, and by less than a node too much.
whole_nodes : (n d : ℕ) → 0 < d → (n ≤ d * ((n + d - 1) / d)) × (d * ((n + d - 1) / d) < n + d)
whole_nodes n d h = grind arith

ceil_div_bounds :
    (n d : ℕ) → 0 < d → n < 2 ^ 53 → (n ≤ d * ceil_div n d) × (d * ceil_div n d < n + d)
unfolding ceil_div
ceil_div_bounds n d h k = rw (ceil_div, lt→ltb n (2 ^ 53) k) (whole_nodes n d h)

-- What addCapacity leaves: the old bytes with whole fresh nodes behind them, and room for `s` more
-- bytes, by less than a node too much where it grew.
pub record Grown (b : ByteArray) (s : ℕ) (c : ByteArray) : Type 0 where
  pub valid : IsValid c
  pub base_same : c.base_size ≡ b.base_size
  pub position_same : c.position ≡ b.position
  pub size_same : c.size ≡ b.size
  pub endian_same : c.endian ≡ b.endian
  pub room : c.position + s ≤ c.capacity
  pub no_less : b.capacity ≤ c.capacity
  pub no_more : (c.capacity ≡ b.capacity) ⊎ (c.capacity < b.position + s + b.base_size)
  pub kept : b.position + s ≤ b.capacity → c.capacity ≡ b.capacity
  pub bytes : (fresh : List ℕ) × (content c ≡ content b ++ fresh)

pub get_capacity-sub : {b : ByteArray} → IsValid b → get_capacity b ≡ b.capacity - b.position
unfolding get_capacity
get_capacity-sub {b} v = omega (arith, v.in_range, v.fits)

Grown-self : (b : ByteArray) (s : ℕ) → IsValid b → b.position + s ≤ b.capacity → Grown b s b
Grown-self b s v h = record {
  valid = v;
  base_same = refl;
  position_same = refl;
  size_same = refl;
  endian_same = refl;
  room = h;
  no_less = omega arith;
  no_more = inl refl;
  kept = λ _. refl;
  bytes = ([], sym (append-nil (content b)));
}

module _ (b : ByteArray) (v : IsValid b) (s count : ℕ) (nodes bf af : List Node) where
  -- `count` fresh nodes, linked in anywhere so that the cursor keeps its place.
  Grown-linked :
      (flatten bf ++ flatten af ≡ content b ++ flatten nodes)
      → Sized b.base_size bf
      → Sized b.base_size af
      → b.base_size * length bf + b.base_size * length af ≡ b.capacity + b.base_size * count
      → b.base_size * length bf ≤ b.position
      → b.position < b.base_size * length bf + b.base_size
      → b.capacity < b.position + s
      → b.position + s ≤ b.capacity + b.base_size * count
      → b.capacity + b.base_size * count < b.position + s + b.base_size
      → b.position + s + b.base_size ≤ size_mod
      → 0 < length bf + length af
      → Grown b s (record b {
        capacity = add_size b.capacity (count * b.base_size);
        before = bf;
        after = af;
      })
  Grown-linked bytes hb ha counted from to need enough tight small rooted =
      let grown : add_size b.capacity (count * b.base_size) ≡ b.capacity + b.base_size * count =
        omega arith in
      record {
        valid = record {
          base_pos = v.base_pos;
          before_sized = hb;
          after_sized = ha;
          counted = omega arith;
          fits = omega arith;
          from = from;
          to = to;
          in_range = omega (arith, v.in_range);
          size_le = omega (arith, v.size_le);
          rooted = rooted;
        };
        base_same = refl;
        position_same = refl;
        size_same = refl;
        endian_same = refl;
        room = omega arith;
        no_less = omega arith;
        no_more = inr (omega arith);
        kept = λ fits. absurd (omega arith);
        bytes = (flatten nodes, bytes);
      }

-- The position is inside the chain exactly when m_cur is a node.
pub after-ne-nil : {b : ByteArray} → IsValid b → b.position < b.capacity → b.after ≢ []
after-ne-nil {b} v h e =
    let l : b.base_size * length b.after ≡ 0 = rw e (omega arith) in
    omega (arith, v.counted, v.from)

pub after_nil : {b : ByteArray} → IsValid b → b.position ≡ b.capacity → b.after ≡ []
after_nil {b} v h = go b.after v.counted
  where
    go :
        (xs : List Node)
        → b.capacity ≡ b.base_size * length b.before + b.base_size * length xs
        → xs ≡ []
    go [] e = refl
    go (x ∷ xs) e = absurd (omega (arith, v.to))

-- Nodes hung behind a chain whose cursor is not null: the cursor stays, the nodes follow.
append_nodes_lem :
    (base : ℕ) (before after nodes : List Node)
    → after ≢ []
    → Sized base after
    → Sized base nodes
    → ((append_nodes before after nodes).0 ≡ before)
      × Sized base (append_nodes before after nodes).1
      × (length (append_nodes before after nodes).1 ≡ length after + length nodes)
      × (flatten (append_nodes before after nodes).1 ≡ flatten after ++ flatten nodes)
unfolding append_nodes
append_nodes_lem base before [] nodes h ha hn = absurd (h refl)
append_nodes_lem base before (n ∷ ns) nodes h ha hn = (
  refl,
  (ha.0, Sized-append base ns nodes ha.1 hn),
  omega (arith, length-append ns nodes),
  ap (◌++◌ n) (flatten-append ns nodes) ∙ sym (append_assoc n (flatten ns) (flatten nodes)),
)

-- The number of nodes that addCapacity adds, and the nodes.
abbrev missing : ByteArray → ℕ → ℕ
missing b s = ceil_div (s - get_capacity b) b.base_size

abbrev fresh : ByteArray → ℕ → List Node
fresh b s = new_nodes b.uninit (length b.before + length b.after) b.base_size (missing b s)

module _ (b : ByteArray) (v : IsValid b) (s : ℕ) (small : b.position + s + b.base_size ≤ size_mod)
    (need : b.capacity < b.position + s) (exact : s < 2 ^ 53) where
  enough :
      (b.position + s ≤ b.capacity + b.base_size * missing b s)
      × (b.capacity + b.base_size * missing b s < b.position + s + b.base_size)
  enough = omega (
    arith,
    ceil_div_bounds (s - get_capacity b) b.base_size v.base_pos (omega arith),
    get_capacity-sub v,
    v.in_range,
  )

  fresh-Sized : Sized b.base_size (fresh b s)
  fresh-Sized =
      new_nodes-Sized b.uninit b.base_size (length b.before + length b.after) (missing b s)

  length-fresh : length (fresh b s) ≡ missing b s
  length-fresh =
      length-new_nodes b.uninit b.base_size (length b.before + length b.after) (missing b s)

  Grown-from_end :
      (b.position ≡ b.capacity)
      → Grown b s (record b {
        capacity = add_size b.capacity (missing b s * b.base_size);
        before = b.before ++ b.after;
        after = fresh b s;
      })
  Grown-from_end e =
      let l : b.base_size * length (b.before ++ b.after) ≡ b.capacity =
        rw (length-append b.before b.after) (omega (arith, v.counted)) in
      let k : b.base_size * length (fresh b s) ≡ b.base_size * missing b s = rw length-fresh refl in
      Grown-linked b v s (missing b s) (fresh b s) (b.before ++ b.after) (fresh b s)
        (ap (λ t. t ++ flatten (fresh b s)) (flatten-append b.before b.after))
        (Sized-append b.base_size b.before b.after v.before_sized v.after_sized) fresh-Sized
        (omega arith) (omega arith) (omega (arith, v.base_pos)) need enough.0 enough.1 small
        (omega (arith, length-append b.before b.after, v.rooted))

  Grown-hung :
      b.position < b.capacity
      → Grown b s (record b {
        capacity = add_size b.capacity (missing b s * b.base_size);
        before = (append_nodes b.before b.after (fresh b s)).0;
        after = (append_nodes b.before b.after (fresh b s)).1;
      })
  Grown-hung h =
      let (same, sized, len, bytes) =
        append_nodes_lem b.base_size b.before b.after (fresh b s) (after-ne-nil v h) v.after_sized
          fresh-Sized in
      let r = append_nodes b.before b.after (fresh b s) in
      let front : b.base_size * length r.0 ≡ b.base_size * length b.before = rw same refl in
      let back : b.base_size * length r.1
          ≡ b.base_size * length b.after + b.base_size * missing b s =
        rw (len, length-fresh) (omega arith) in
      Grown-linked b v s (missing b s) (fresh b s) r.0 r.1
        (rw (same, bytes) (sym (append_assoc (flatten b.before) (flatten b.after) _)))
        (subst (Sized b.base_size) (sym same) v.before_sized) sized (omega (arith, v.counted))
        (omega (arith, v.from)) (omega (arith, v.to)) need enough.0 enough.1 small
        (omega (arith, ap length same, len, v.rooted))

-- On a well-formed array, with m_position, s and a node together at most 2 ^ 64 and s below 2 ^ 53, addCapacity
-- leaves a well-formed array with room for s more bytes behind m_position and all old bytes, longer
-- by whole nodes and by less than a node too much, and not at all where there was room.
pub add_capacity-Grown :
    (b : ByteArray) (s : ℕ)
    → IsValid b
    → b.position + s + b.base_size ≤ size_mod
    → s < 2 ^ 53
    → Grown b s (add_capacity b s)
unfolding add_capacity
add_capacity-Grown b s v small exact = elim (Bool-cases (s == 0)) [
  | inl e ↦ let e' = (==_iff s 0).0 e in rw e (Grown-self b s v (omega (arith, v.in_range)))
  | inr e ↦ rw e (elim (Bool-cases (leb s (get_capacity b))) [
    | inl h ↦ rw h (Grown-self b s v (omega (tests, leb→le _ _ h, get_capacity-sub v, v.in_range)))
    | inr h ↦
        let need : b.capacity < b.position + s =
          omega (tests, leb-false→lt _ _ h, get_capacity-sub v, v.in_range) in
        rw h (elim (Bool-cases (get_capacity b == 0)) [
          | inl z ↦
              let z' = (==_iff (get_capacity b) 0).0 z in
              rw z (
                Grown-from_end b v s small need exact
                  (omega (arith, get_capacity-sub v, v.in_range)))
          | inr z ↦
              let z' : get_capacity b ≢ 0 = λ q. (cc ((==_iff (get_capacity b) 0).1 q)) in
              rw z
                (Grown-hung b v s small need exact (omega (arith, get_capacity-sub v, v.in_range)))
        ])
  ])
]
