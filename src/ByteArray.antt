-- ===== src/ByteArray.antt =====
-- exhy/exhy_bytearray.h and exhy/exhy_bytearray.cpp: the growing chain of memory nodes with a
-- cursor, and the calls that move bytes through it.
--
-- The chain m_root is `before ++ after`, and m_cur is the first node of `after` (a null pointer where
-- `after` is empty). The result `none` is a read through that null pointer, or the std::out_of_range
-- that setPosition throws.
pub mod Store
pub mod Loops
pub mod Transfer
pub mod Seek
pub mod Codec
pub mod Buffers
pub mod Invariant
mod Runs
pub use exhy.Common.{size_mod, sub_size, add_size}
use exhy.Common.{
  ℕ, zero, suc, ◌+◌, ◌-◌, ◌*◌, ◌/◌, ◌%◌, ◌^◌, Bool, true, false, List, [], ◌∷◌, ◌++◌, Option, none,
  some, ◌>>=◌, if◌then◌else◌, ltb, leb, ◌==◌, length, take, drop,
}

-- A node is its bytes; Node::size is their number.
abbrev pub Node : Type 0
Node = List ℕ

pub data Endian : Type 0 where
  little big : Endian

pub record ByteArray : Type 0 where
  pub base_size : ℕ
  pub position : ℕ
  pub capacity : ℕ
  pub size : ℕ
  pub endian : Endian
  pub before : List Node
  pub after : List Node
  -- What fresh memory holds: byte i of the k-th node that is allocated. `new char[s]` leaves it open.
  pub uninit : ℕ → ℕ → ℕ

pub fresh_bytes : (ℕ → ℕ) → ℕ → ℕ → List ℕ
fresh_bytes f i zero = []
fresh_bytes f i (suc n) = f i ∷ fresh_bytes f (i + 1) n

pub new_node : (ℕ → ℕ → ℕ) → ℕ → ℕ → Node
new_node uninit k s = fresh_bytes (uninit k) 0 s

pub new_byte_array : (ℕ → ℕ → ℕ) → ℕ → ByteArray
new_byte_array uninit base = record {
  base_size = base;
  position = 0;
  capacity = base;
  size = 0;
  endian = big;
  before = [];
  after = new_node uninit 0 base ∷ [];
  uninit = uninit;
}

pub is_little_endian : ByteArray → Bool
is_little_endian b = elim b.endian [ little ↦ true | big ↦ false ]

pub set_is_little_endian : ByteArray → Bool → ByteArray
set_is_little_endian b v = record b { endian = if v then little else big }

pub get_capacity : ByteArray → ℕ
get_capacity b = sub_size b.capacity b.position

pub get_read_size : ByteArray → ℕ
get_read_size b = sub_size b.size b.position

-- A fraction rounded to a whole number, a half to the even one, as doubles are.
unfoldable pub round_even : ℕ → ℕ → ℕ
round_even n d =
    let q = n / d in
    let twice = 2 * (n % d) in if ltb twice d then q else if ltb d twice then q + 1 else q + q % 2

-- The exponent of the highest bit.
unfoldable pub log2 : ℕ → ℕ → ℕ
log2 zero n = 0
log2 (suc fuel) n = let rest = log2 fuel (n / 2) in if ltb n 2 then 0 else rest + 1

-- A size_t as a double, which has 53 bits.
abbrev pub to_double : ℕ → ℕ
to_double n =
    let unit = 2 ^ (log2 64 n - 52) in if ltb n (2 ^ 53) then n else round_even n unit * unit

-- ceil of the quotient of two doubles, which is rounded to 53 bits as well.
abbrev pub ceil_quotient : ℕ → ℕ → ℕ
ceil_quotient n d =
    let exponent = log2 64 (n / d) in
    let scale = 2 ^ (52 - exponent) in
    let unit = 2 ^ (exponent - 52) in
    if n == 0
    then 0
    else if ltb n d
    then 1
    else if ltb exponent 52
    then (round_even (n * scale) d + scale - 1) / scale
    else round_even n (d * unit) * unit

-- ceil(1.0 * size / m_baseSize). For a size below 2 ^ 53 the conversion is exact and the rounding of the quotient does
-- not pass a whole number, so the result is the exact one.
unfoldable pub ceil_div : ℕ → ℕ → ℕ
ceil_div n d = if ltb n (2 ^ 53) then (n + d - 1) / d else ceil_quotient (to_double n) (to_double d)

pub new_nodes : (ℕ → ℕ → ℕ) → ℕ → ℕ → ℕ → List Node
new_nodes uninit k base zero = []
new_nodes uninit k base (suc count) = new_node uninit k base ∷ new_nodes uninit (k + 1) base count

-- Nodes hung behind the last one: they join `after`, unless m_cur is null and stays so.
append_nodes : List Node → List Node → List Node → List Node × List Node
append_nodes before [] nodes = (before ++ nodes, [])
append_nodes before (n ∷ ns) nodes = (before, n ∷ (ns ++ nodes))

pub add_capacity : ByteArray → ℕ → ByteArray
unfolding get_capacity ceil_div append_nodes
add_capacity b size =
    let old_cap = get_capacity b in
    let count = ceil_div (size - old_cap) b.base_size in
    let nodes = new_nodes b.uninit (length b.before + length b.after) b.base_size count in
    let hung = append_nodes b.before b.after nodes in
    let linked : List Node × List Node =
      if old_cap == 0 then (b.before ++ b.after, nodes) else hung in
    let grown = record b {
      capacity = add_size b.capacity (count * b.base_size);
      before = linked.0;
      after = linked.1;
    } in
    if size == 0 then b else if leb size old_cap then b else grown

-- m_cur->size
pub cur_size : List Node → Option ℕ
cur_size [] = none
cur_size (n ∷ ns) = some (length n)

-- memcpy into a node from offset `pos` on.
abbrev pub store : List ℕ → ℕ → List ℕ → List ℕ
store n pos buf = take pos n ++ (buf ++ drop (pos + length buf) n)

-- memcpy out of a node.
abbrev pub slice : ℕ → ℕ → List ℕ → List ℕ
slice pos k n = take k (drop pos n)

-- m_root up to m_cur, m_cur on, and m_position.
pub record Cursor : Type 0 where
  pub before : List Node
  pub after : List Node
  pub position : ℕ

-- The while loop of write; `buf` is what is left of the caller's buffer, `size` its length.
pub write_loop : List Node → List Node → ℕ → ℕ → ℕ → List ℕ → Option Cursor
unfolding cur_size
write_loop before [] position pos_cnode cap_left buf = none
write_loop before (n ∷ ns) position pos_cnode cap_left buf =
    let size = length buf in
    let position' = add_size position size in
    let full = store n pos_cnode (take cap_left buf) in
    let next : Option Cursor = cur_size ns >>= λ s.
    write_loop (before ++ full ∷ []) ns (add_size position cap_left) 0 s (drop cap_left buf) in
    let n' = store n pos_cnode buf in
    if leb size cap_left
    then (if cap_left == size
        then some (record { before = before ++ n' ∷ []; after = ns; position = position' })
        else some (record { before = before; after = n' ∷ ns; position = position' }))
    else next

pub write : ByteArray → List ℕ → Option ByteArray
unfolding cur_size
write b buf =
    let c = add_capacity b (length buf) in
    let pos_cnode = c.position % c.base_size in
    let written : Option ByteArray = cur_size c.after >>= λ s.
    write_loop c.before c.after c.position pos_cnode (sub_size s pos_cnode) buf >>= λ r.
    some (record c {
      before = r.before;
      after = r.after;
      position = r.position;
      size = if ltb c.size r.position then r.position else c.size;
    }) in
    if length buf == 0 then some b else written

-- The while loop of read: the bytes copied so far stand in front.
pub read_loop : List Node → List Node → ℕ → ℕ → ℕ → ℕ → List ℕ → Option (List ℕ × Cursor)
unfolding cur_size
read_loop before [] position pos_cnode cap_left size out = none
read_loop before (n ∷ ns) position pos_cnode cap_left size out =
    let position' = add_size position size in
    let next : Option (List ℕ × Cursor) = cur_size ns >>= λ s.
    read_loop (before ++ n ∷ []) ns (add_size position cap_left) 0 s (size - cap_left)
      (out ++ slice pos_cnode cap_left n) in
    let out' = out ++ slice pos_cnode size n in
    if leb size cap_left
    then (if cap_left == size
        then some (out', record { before = before ++ n ∷ []; after = ns; position = position' })
        else some (out', record { before = before; after = n ∷ ns; position = position' }))
    else next

-- m_cur->size is read before the loop, also when there is nothing to copy.
pub read : ByteArray → ℕ → Option (List ℕ × ByteArray)
unfolding cur_size
read b size =
    let pos_cnode = b.position % b.base_size in
    cur_size b.after >>= λ s.
    (let copied : Option (List ℕ × ByteArray) =
        read_loop b.before b.after b.position pos_cnode (sub_size s pos_cnode) size [] >>= λ r.
        some (r.0, record b { before = r.1.before; after = r.1.after; position = r.1.position }) in
      if size == 0 then some ([], b) else copied)

-- The two steps of setPosition behind the range check: walk past whole nodes, then past a node that
-- ends at `v`.
pub seek : List Node → List Node → ℕ → Option (List Node × List Node)
seek before [] v = none
seek before (n ∷ ns) v =
    let next = seek (before ++ n ∷ []) ns (v - length n) in
    if ltb (length n) v
    then next
    else (if v == length n then some (before ++ n ∷ [], ns) else some (before, n ∷ ns))

pub set_position : ByteArray → ℕ → Option ByteArray
set_position b v =
    let moved : Option ByteArray = seek [] (b.before ++ b.after) v >>= λ r. some (record b {
      position = v;
      size = if ltb b.size v then v else b.size;
      before = r.0;
      after = r.1;
    }) in
    if ltb b.capacity v then none else moved

-- clear deletes every node but the root.
first_node : List Node → List Node
first_node [] = []
first_node (n ∷ ns) = n ∷ []

pub clear : ByteArray → ByteArray
unfolding first_node
clear b = record b {
  position = 0;
  size = 0;
  capacity = b.base_size;
  before = [];
  after = first_node (b.before ++ b.after);
}
