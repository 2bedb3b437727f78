-- ===== src/ByteArray/Buffers/Text.antt =====
-- toString and the const read below it.
use exhy.Common.{
  ℕ, ◌+◌, ◌-◌, ◌%◌, ◌≤◌, ◌<◌, ◌≡◌, refl, sym, ap, subst, ◌∙◌, List, ◌∷◌, ◌++◌, some, true, arith,
  leb, le→leb, lt→leb-false, length, flatten,
}
use exhy.ByteArray.{Node, ByteArray, sub_size, slice, get_read_size}
use exhy.ByteArray.Loops.{Sized}
use exhy.ByteArray.Store.{slice-append_within}
use exhy.ByteArray.Invariant.{IsValid, content}
use exhy.ByteArray.Transfer.{rest, rest_lem, base-lt, slice-content, ne_zero, node_at}
use exhy.ByteArray.Buffers.{read_const_from, read_const, to_string}

left : (b : ByteArray) → IsValid b → b.position < b.size → get_read_size b ≡ b.size - b.position
unfolding get_read_size
left b v h = omega (arith, v.size_le, v.fits)

-- Of n, the node of m_cur, the const read makes its whole result.
module _ (n : Node) (ns : List Node) (pos room : ℕ) (e : sub_size (length n) pos ≡ room) where
  read_const_within :
      (k : ℕ) → 0 < k → k ≤ room → read_const_from (n ∷ ns) k pos ≡ some (slice pos k n)
  unfolding read_const_from
  read_const_within k h l = rw (ne_zero k h, e, le→leb k room l) refl

read_const_over :
    (n n2 : Node) (ns : List Node) (pos room k : ℕ)
    → sub_size (length n) pos ≡ room
    → room < k
    → k ≤ room + length n
    → read_const_from (n ∷ n2 ∷ ns) k pos ≡ some (slice pos room n ++ slice 0 (k - room) n)
unfolding read_const_from
read_const_over n n2 ns pos room k e h l =
    let second : leb (k - room) (length n) ≡ true = le→leb (k - room) (length n) (omega arith) in
    rw (ne_zero k (omega arith), e, lt→leb-false k room h, second) refl

module _ (b : ByteArray) (v : IsValid b) (h : b.position < b.size) where
  room_left : sub_size b.base_size (b.position % b.base_size) ≡ rest b
  room_left = refl

  -- On a well-formed array with m_position below m_size, toString gives the readable bytes where
  -- they all lie in the node of m_cur.
  pub to_string_within :
      b.position % b.base_size + (b.size - b.position) ≤ b.base_size
      → to_string b ≡ some (slice b.position (b.size - b.position) (content b))
  unfolding to_string read_const
  to_string_within fits =
      let k = b.size - b.position in
      let pos = b.position % b.base_size in
      let inside : b.position < b.capacity = omega (arith, v.size_le) in
      let (n, ns, e) = node_at v inside in
      let hn : length n ≡ b.base_size = (subst (Sized b.base_size) e v.after_sized).0 in
      let r = rest_lem b v (base-lt b v inside) in
      let found : read_const_from b.after k pos ≡ some (slice pos k n) =
        ap (λ t. read_const_from t k pos) e
        ∙ read_const_within n ns pos (rest b) (ap (λ t. sub_size t pos) hn) k (omega arith)
            (omega arith) in
      let shown : slice pos k n ≡ slice b.position k (content b) =
        sym (slice-append_within pos k n (flatten ns) (omega arith))
        ∙ ap (λ t. slice pos k (flatten t)) (sym e)
        ∙ slice-content b v k in
      rw (left b v h, ne_zero k (omega arith)) (found ∙ ap some shown)

  -- On a well-formed array with m_position below m_size, where the readable bytes go on into the
  -- next node and end in it or before, toString repeats the node of m_cur instead: behind the bytes
  -- up to its end stand its own first bytes.
  pub to_string_over :
      (n n2 : Node) (ns : List Node)
      → b.after ≡ n ∷ n2 ∷ ns
      → b.base_size < b.position % b.base_size + (b.size - b.position)
      → b.position % b.base_size + (b.size - b.position) ≤ b.base_size + b.base_size
      → to_string b
        ≡ some (
            slice b.position (b.base_size - b.position % b.base_size) (content b)
            ++ slice 0 (b.position % b.base_size + (b.size - b.position) - b.base_size) n)
  unfolding to_string read_const
  to_string_over n n2 ns e over most =
      let k = b.size - b.position in
      let pos = b.position % b.base_size in
      let inside : b.position < b.capacity = omega (arith, v.size_le) in
      let hn : length n ≡ b.base_size = (subst (Sized b.base_size) e v.after_sized).0 in
      let r = rest_lem b v (base-lt b v inside) in
      let room : rest b ≡ b.base_size - pos = omega arith in
      let more : k - rest b ≡ pos + k - b.base_size = omega arith in
      let found : read_const_from b.after k pos
          ≡ some (slice pos (rest b) n ++ slice 0 (k - rest b) n) =
        ap (λ t. read_const_from t k pos) e
        ∙ read_const_over n n2 ns pos (rest b) k (ap (λ t. sub_size t pos) hn) (omega arith)
            (omega arith) in
      let shown : slice pos (rest b) n ≡ slice b.position (rest b) (content b) =
        sym (slice-append_within pos (rest b) n (flatten (n2 ∷ ns)) (omega arith))
        ∙ ap (λ t. slice pos (rest b) (flatten t)) (sym e)
        ∙ slice-content b v (rest b) in
      rw (left b v h, ne_zero k (omega arith))
        (found
          ∙ ap (λ t. some (t ++ slice 0 (k - rest b) n)) shown
          ∙ ap (λ t. some (slice b.position t (content b) ++ slice 0 (k - rest b) n)) room
          ∙ ap (λ t. some (slice b.position (b.base_size - pos) (content b) ++ slice 0 t n)) more)
