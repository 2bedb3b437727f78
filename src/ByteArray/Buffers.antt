-- ===== src/ByteArray/Buffers.antt =====
-- exhy/exhy_bytearray.cpp: the views of a byte array that move no cursor, getReadBuffers,
-- getWriteBuffers, the const read, toString and toHexString, and the transfer from and to a file.
pub mod Views
pub mod Text
use exhy.Common.{
  ℕ, zero, suc, ◌+◌, ◌-◌, ◌*◌, ◌/◌, ◌%◌, ◌^◌, Bool, true, false, ◌&&◌, List, [], ◌∷◌, ◌++◌, Option,
  none, some, ◌>>=◌, if◌then◌else◌, ltb, leb, ◌==◌, length, map,
}
use exhy.ByteArray.{Node, ByteArray, sub_size, add_capacity, get_read_size, cur_size, slice, write}

-- iov_base is a node of the chain, counted from the root, and an offset in it.
pub record Iovec : Type 0 where
  pub node : ℕ
  pub offset : ℕ
  pub len : ℕ

abbrev iovec : ℕ → ℕ → ℕ → Iovec
iovec k pos len = record { node = k; offset = pos; len = len }

-- The loop of getReadBuffers(buffers, len): `size` is m_cur->size, which it takes for every node.
pub cur_buffers : ℕ → ℕ → List Node → ℕ → ℕ → ℕ → Option (List Iovec)
cur_buffers size k [] pos_cnode cap_left len = none
cur_buffers size k (n ∷ ns) pos_cnode cap_left len =
    let more : Option (List Iovec) = cur_buffers size (k + 1) ns 0 size (len - cap_left) >>= λ r.
    some (iovec k pos_cnode cap_left ∷ r) in
    if leb len cap_left then some (iovec k pos_cnode len ∷ []) else more

pub get_read_buffers : ByteArray → ℕ → Option (List Iovec × ℕ)
unfolding cur_buffers get_read_size cur_size
get_read_buffers b len =
    let len' = if ltb (get_read_size b) len then get_read_size b else len in
    let pos_cnode = b.position % b.base_size in
    let found : Option (List Iovec × ℕ) = cur_size b.after >>= λ s.
    cur_buffers s (length b.before) b.after pos_cnode (sub_size s pos_cnode) len' >>= λ r.
    some (r, len') in
    if len' == 0 then some ([], 0) else found

-- The loops of the other two, which ask each node for its size.
pub node_buffers : ℕ → List Node → ℕ → ℕ → ℕ → Option (List Iovec)
unfolding cur_size
node_buffers k [] npos ncap len = none
node_buffers k (n ∷ ns) npos ncap len =
    let more : Option (List Iovec) = cur_size ns >>= λ s.
    node_buffers (k + 1) ns 0 s (len - ncap) >>= λ r. some (iovec k npos ncap ∷ r) in
    if leb len ncap then some (iovec k npos len ∷ []) else more

-- cur = cur->next, `count` times.
pub skip_nodes : ℕ → List Node → Option (List Node)
skip_nodes zero ns = some ns
skip_nodes (suc count) [] = none
skip_nodes (suc count) (n ∷ ns) = skip_nodes count ns

pub get_read_buffers_at : ByteArray → ℕ → ℕ → Option (List Iovec × ℕ)
unfolding node_buffers skip_nodes get_read_size
get_read_buffers_at b len position =
    let len' = if ltb (get_read_size b) len then get_read_size b else len in
    let npos = position % b.base_size in
    let found : Option (List Iovec × ℕ) =
      skip_nodes (position / b.base_size) (b.before ++ b.after) >>= λ cur. cur_size cur >>= λ s.
      node_buffers (position / b.base_size) cur npos (sub_size s npos) len' >>= λ r.
      some (r, len') in
    if len' == 0 then some ([], 0) else found

pub get_write_buffers : ByteArray → ℕ → Option (ByteArray × List Iovec × ℕ)
unfolding node_buffers cur_size
get_write_buffers b len =
    let c = add_capacity b len in
    let npos = c.position % c.base_size in
    let found : Option (ByteArray × List Iovec × ℕ) = cur_size c.after >>= λ s.
    node_buffers (length c.before) c.after npos (sub_size s npos) len >>= λ r. some (c, r, len) in
    if len == 0 then some (b, [], 0) else found

-- The loop of the const read: `cur` walks along the chain, and every copy is taken from `node`, m_cur's.
pub read_const_loop : Node → List Node → ℕ → ℕ → ℕ → List ℕ → Option (List ℕ)
read_const_loop node [] pos_cnode cap_left size out = none
read_const_loop node (c ∷ cur) pos_cnode cap_left size out =
    let more =
      read_const_loop node cur 0 (length node) (size - cap_left)
        (out ++ slice pos_cnode cap_left node) in
    if leb size cap_left then some (out ++ slice pos_cnode size node) else more

read_const_from : List Node → ℕ → ℕ → Option (List ℕ)
unfolding read_const_loop
read_const_from [] size pos_cnode = none
read_const_from (n ∷ ns) size pos_cnode =
    let copied = read_const_loop n (n ∷ ns) pos_cnode (sub_size (length n) pos_cnode) size [] in
    if size == 0 then some [] else copied

pub read_const : ByteArray → ℕ → ℕ → Option (List ℕ)
unfolding read_const_from
read_const b size position = read_const_from b.after size (position % b.base_size)

pub to_string : ByteArray → Option (List ℕ)
unfolding read_const get_read_size
to_string b =
    let rest = get_read_size b in
    let copied = read_const b rest b.position in if rest == 0 then some [] else copied

hex_digit : ℕ → ℕ
hex_digit d = if ltb d 10 then b'0' + d else b'a' + (d - 10)

-- Two digits and a space for each byte, a new line before every 32nd.
hex_bytes : ℕ → List ℕ → List ℕ
unfolding hex_digit
hex_bytes i [] = []
hex_bytes i (c ∷ cs) =
    let shown = hex_digit (c / 16) ∷ hex_digit (c % 16) ∷ b' ' ∷ hex_bytes (i + 1) cs in
    if ltb 0 i && (i % 32 == 0) then 10 ∷ shown else shown

pub to_hex_string : ByteArray → Option (List ℕ)
unfolding to_string hex_bytes
to_hex_string b = to_string b >>= λ str. some (hex_bytes 0 str)

-- readFromFile: `chunks` are what ifs.read delivers, each of m_baseSize bytes at most, the last of any
-- length down to 0.
pub read_from_file : ByteArray → List (List ℕ) → Option ByteArray
read_from_file b [] = some b
read_from_file b (chunk ∷ chunks) = write b chunk >>= λ c. read_from_file c chunks
