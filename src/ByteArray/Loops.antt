-- ===== src/ByteArray/Loops.antt =====
-- The copying loops of write and read, node by node, against one `store` or `slice` on the bytes of
-- the whole chain.
use exhy.Common.{
  ℕ, ◌+◌, ◌-◌, ◌*◌, ◌≤◌, ◌<◌, ◌≡◌, ◌≢◌, refl, ap, ◌∙◌, inl, inr, List, [], ◌∷◌, ◌++◌, Option, some,
  arith, if◌then◌else◌, leb, leb→le, leb-false→lt, tests, ◌==◌, length, take, drop, flatten, All,
  length-append, length-take, length-drop, flatten-append, append_assoc, append-nil, Bool-cases,
  ==_iff,
}
use exhy.ByteArray.{Node, Cursor, size_mod, add_size, store, slice, write_loop, read_loop}
use exhy.ByteArray.Store.{
  length-store, store-append_within, store-append_split, slice-append_within, slice-append_split,
}

abbrev pub Sized : ℕ → List Node → Type 0
Sized base = All (λ n. length n ≡ base)

pub Sized-append :
    (base : ℕ) (xs ys : List Node) → Sized base xs → Sized base ys → Sized base (xs ++ ys)
Sized-append base [] ys h k = k
Sized-append base (x ∷ xs) ys h k = (h.0, Sized-append base xs ys h.1 k)

pub length-flatten :
    (base : ℕ) (xs : List Node) → Sized base xs → length (flatten xs) ≡ base * length xs
length-flatten base [] h = omega arith
length-flatten base (x ∷ xs) h =
    omega (arith, length-append x (flatten xs), length-flatten base xs h.1, h.0)

-- A cursor over `count` nodes of `base` bytes that stands at offset `at`, m_position being `p`.
pub record Placed (base count at p : ℕ) (c : Cursor) : Type 0 where
  pub nodes : length c.before + length c.after ≡ count
  pub before_sized : Sized base c.before
  pub after_sized : Sized base c.after
  pub moved : c.position ≡ p
  pub from : base * length c.before ≤ at
  pub to : at < base * length c.before + base

flatten_one : (n : Node) → flatten (n ∷ []) ≡ n
flatten_one n = append-nil n

flatten_snoc : (before : List Node) (n : Node) → flatten (before ++ n ∷ []) ≡ flatten before ++ n
flatten_snoc before n = flatten-append before (n ∷ []) ∙ ap (◌++◌ (flatten before)) (flatten_one n)

-- The loop's result `r`: it is no null pointer, the bytes of `nodes` behind `before` hold `buf` at
-- offset `pos`, and the cursor stands behind it.
abbrev pub Writes : ℕ → List Node → List Node → ℕ → ℕ → List ℕ → Option Cursor → Type 0
Writes base before nodes p pos buf r =
    (c : Cursor) × (r ≡ some c)
    × Placed base (length before + length nodes) (base * length before + pos + length buf)
        (p + length buf) c
    × (flatten c.before ++ flatten c.after ≡ flatten before ++ store (flatten nodes) pos buf)

abbrev pub Reads :
    ℕ → List Node → List Node → ℕ → ℕ → ℕ → List ℕ → Option (List ℕ × Cursor) → Type 0
Reads base before nodes p pos k out r =
    (c : Cursor) × (r ≡ some (out ++ slice pos k (flatten nodes), c))
    × Placed base (length before + length nodes) (base * length before + pos + k) (p + k) c
    × (c.before ++ c.after ≡ before ++ nodes)

-- An addition that stays below 2 ^ 64.
pub add_size-small : (a b : ℕ) → a + b < size_mod → add_size a b ≡ a + b
add_size-small a b h = omega arith

module _ (base : ℕ) (before : List Node) (n : Node) where
  length-snoc : (x : Node) → length (before ++ x ∷ []) ≡ length before + 1
  length-snoc x = length-append before (x ∷ [])

  pub mul_length-snoc : (x : Node) → base * length (before ++ x ∷ []) ≡ base * length before + base
  mul_length-snoc x = rw (length-snoc x) (omega arith)

module _ (base : ℕ) (before : List Node) (n : Node) (hb : Sized base before)
    (hn : length n ≡ base) where
  snoc-Sized : (x : Node) → length x ≡ base → Sized base (before ++ x ∷ [])
  snoc-Sized x h = Sized-append base before (x ∷ []) hb (h, tt)

  module _ (ns : List Node) (hs : Sized base ns) (p pos k : ℕ) (h0 : 0 < base) where
    -- The cursor behind the node `x`, and within it.
    Placed-next :
        (x : Node)
        → length x ≡ base
        → pos + k ≡ base
        → p + k < size_mod
        → Placed base
            (length before + length (n ∷ ns))
            (base * length before + pos + k)
            (p + k)
            (record { before = before ++ x ∷ []; after = ns; position = add_size p k })
    Placed-next x hx e h = record {
      nodes = omega (arith, length-snoc base before n x);
      before_sized = snoc-Sized x hx;
      after_sized = hs;
      moved = omega arith;
      from = omega (arith, mul_length-snoc base before n x);
      to = omega (arith, mul_length-snoc base before n x);
    }

    Placed-within :
        (x : Node)
        → length x ≡ base
        → pos + k < base
        → p + k < size_mod
        → Placed base
            (length before + length (n ∷ ns))
            (base * length before + pos + k)
            (p + k)
            (record { before = before; after = x ∷ ns; position = add_size p k })
    Placed-within x hx e h = record {
      nodes = refl;
      before_sized = hb;
      after_sized = (hx, hs);
      moved = omega arith;
      from = omega arith;
      to = omega arith;
    }

  module _ (ns : List Node) (hs : Sized base ns) (p pos room : ℕ) (hc : pos + room ≡ base) where
    -- The last round of write: the rest of the buffer fits into the node.
    write_last :
        (buf : List ℕ)
        → 0 < base
        → length buf ≤ room
        → p + length buf < size_mod
        → Writes base before (n ∷ ns) p pos buf (
            if room == length buf
            then some (record {
              before = before ++ store n pos buf ∷ [];
              after = ns;
              position = add_size p (length buf);
            })
            else some (record {
              before = before;
              after = store n pos buf ∷ ns;
              position = add_size p (length buf);
            }))
    write_last buf h0 hl hp =
        let x = store n pos buf in
        let l : length x ≡ base = omega (arith, length-store n pos buf (omega arith)) in
        let w : store (n ++ flatten ns) pos buf ≡ x ++ flatten ns =
          store-append_within n pos buf (flatten ns) (omega arith) in
        elim (Bool-cases (room == length buf)) [
          | inl e ↦
              let e' = (==_iff room (length buf)).0 e in
              rw e (
                _,
                refl,
                Placed-next ns hs p pos (length buf) h0 x l (omega arith) hp,
                rw (flatten_snoc before x, w) (append_assoc (flatten before) x (flatten ns)),
              )
          | inr e ↦
              let e' : room ≢ length buf = λ q. (cc ((==_iff room (length buf)).1 q)) in
              rw e
                (_, refl, Placed-within ns hs p pos (length buf) h0 x l (omega arith) hp, rw w refl)
        ]

    read_last :
        (k : ℕ) (out : List ℕ)
        → 0 < base
        → k ≤ room
        → p + k < size_mod
        → Reads base before (n ∷ ns) p pos k out (
            if room == k
            then some (
              out ++ slice pos k n,
              record { before = before ++ n ∷ []; after = ns; position = add_size p k },
            )
            else some (
              out ++ slice pos k n,
              record { before = before; after = n ∷ ns; position = add_size p k },
            ))
    read_last k out h0 hl hp =
        let w : slice pos k (n ++ flatten ns) ≡ slice pos k n =
          slice-append_within pos k n (flatten ns) (omega arith) in
        elim (Bool-cases (room == k)) [
          | inl e ↦
              let e' = (==_iff room k).0 e in
              rw (e, w)
                (
                  _,
                  refl,
                  Placed-next ns hs p pos k h0 n hn (omega arith) hp,
                  append_assoc before (n ∷ []) ns,
                )
          | inr e ↦
              let e' : room ≢ k = λ q. (cc ((==_iff room k).1 q)) in
              rw (e, w) (_, refl, Placed-within ns hs p pos k h0 n hn (omega arith) hp, refl)
        ]

-- The rounds that follow the first start at the next node.
Placed-from :
    {base count count' at at' p p' : ℕ} {c : Cursor}
    → count ≡ count'
    → at ≡ at'
    → p ≡ p'
    → Placed base count at p c
    → Placed base count' at' p' c
Placed-from e f g h = record {
  nodes = omega (arith, h.nodes);
  before_sized = h.before_sized;
  after_sized = h.after_sized;
  moved = omega (arith, h.moved);
  from = omega (arith, h.from);
  to = omega (arith, h.to);
}

module _ (base : ℕ) (before : List Node) (n : Node) (hn : length n ≡ base) (ns : List Node)
    (p pos room : ℕ) (hc : pos + room ≡ base) where
  Placed-step :
      (x : Node) (k : ℕ) {c : Cursor}
      → room ≤ k
      → p + k < size_mod
      → Placed base
          (length (before ++ x ∷ []) + length ns)
          (base * length (before ++ x ∷ []) + 0 + (k - room))
          (add_size p room + (k - room))
          c
      → Placed base (length before + length (n ∷ ns)) (base * length before + pos + k) (p + k) c
  Placed-step x k h hp =
      Placed-from (omega (arith, length-snoc base before n x))
        (omega (arith, mul_length-snoc base before n x)) (omega arith)

  Writes-step :
      (buf : List ℕ) (r : Option Cursor)
      → room ≤ length buf
      → p + length buf < size_mod
      → Writes base
          (before ++ store n pos (take room buf) ∷ [])
          ns
          (add_size p room)
          0
          (drop room buf)
          r
      → Writes base before (n ∷ ns) p pos buf r
  Writes-step buf r hl hp (c, e, place, bytes) =
      let x = store n pos (take room buf) in
      (
        c,
        e,
        Placed-step x (length buf) hl hp (rw (length-drop room buf) at place),
        bytes
            ∙ rw
                (
                  flatten_snoc before x,
                  store-append_split n pos room buf (flatten ns) (omega arith) hl,
                )
                (append_assoc (flatten before) x _),
      )

  Reads-step :
      (k : ℕ) (out : List ℕ) (r : Option (List ℕ × Cursor))
      → room ≤ k
      → p + k < size_mod
      → Reads base (before ++ n ∷ []) ns (add_size p room) 0 (k - room) (out ++ slice pos room n) r
      → Reads base before (n ∷ ns) p pos k out r
  Reads-step k out r hl hp (c, e, place, bytes) = (
    c,
    rw (slice-append_split pos room k n (flatten ns) (omega arith) hl)
        (e ∙ ap (λ t. some (t, c)) (append_assoc out (slice pos room n) _)),
    Placed-step n k hl hp place,
    bytes ∙ append_assoc before (n ∷ []) ns,
  )

-- With room for the bytes, the loop of write ends without a null pointer.
pub write_loop_lem :
    (base : ℕ) (before : List Node) (n : Node) (ns : List Node) (p pos room : ℕ) (buf : List ℕ)
    → Sized base before
    → length n ≡ base
    → Sized base ns
    → pos + room ≡ base
    → 0 < base
    → pos + length buf ≤ base * length (n ∷ ns)
    → p + length buf < size_mod
    → Writes base before (n ∷ ns) p pos buf (write_loop before (n ∷ ns) p pos room buf)
unfolding write_loop
write_loop_lem base before n [] p pos room buf hb hn hs hc h0 hr hp =
    elim (Bool-cases (leb (length buf) room)) [
      | inl e ↦ rw e (write_last base before n hb hn [] hs p pos room hc buf h0 (leb→le _ _ e) hp)
      | inr e ↦ absurd (omega (tests, leb-false→lt _ _ e))
    ]
write_loop_lem base before n (n2 ∷ ns) p pos room buf hb hn hs hc h0 hr hp =
    elim (Bool-cases (leb (length buf) room)) [
      | inl e ↦
          rw e (write_last base before n hb hn (n2 ∷ ns) hs p pos room hc buf h0 (leb→le _ _ e) hp)
      | inr e ↦
          let lt = leb-false→lt (length buf) room e in
          let x = store n pos (take room buf) in
          let lx : length x ≡ base =
            omega
              (arith, length-store n pos (take room buf) (omega (arith, length-take room buf))) in
          rw e (
            Writes-step base before n hn (n2 ∷ ns) p pos room hc buf _ (omega arith) hp (
              write_loop_lem base (before ++ x ∷ []) n2 ns (add_size p room) 0 (length n2)
                (drop room buf) (Sized-append base before (x ∷ []) hb (lx, tt)) hs.0 hs.1
                (omega (arith, hs.0)) h0 (omega (arith, length-drop room buf))
                (omega (arith, length-drop room buf))))
    ]

-- So does the loop of read, with the bytes that stand there.
pub read_loop_lem :
    (base : ℕ) (before : List Node) (n : Node) (ns : List Node) (p pos room k : ℕ) (out : List ℕ)
    → Sized base before
    → length n ≡ base
    → Sized base ns
    → pos + room ≡ base
    → 0 < base
    → pos + k ≤ base * length (n ∷ ns)
    → p + k < size_mod
    → Reads base before (n ∷ ns) p pos k out (read_loop before (n ∷ ns) p pos room k out)
unfolding read_loop
read_loop_lem base before n [] p pos room k out hb hn hs hc h0 hr hp =
    elim (Bool-cases (leb k room)) [
      | inl e ↦ rw e (read_last base before n hb hn [] hs p pos room hc k out h0 (leb→le _ _ e) hp)
      | inr e ↦ absurd (omega (tests, leb-false→lt _ _ e))
    ]
read_loop_lem base before n (n2 ∷ ns) p pos room k out hb hn hs hc h0 hr hp =
    elim (Bool-cases (leb k room)) [
      | inl e ↦
          rw e (read_last base before n hb hn (n2 ∷ ns) hs p pos room hc k out h0 (leb→le _ _ e) hp)
      | inr e ↦
          let lt = leb-false→lt k room e in
          rw e (
            Reads-step base before n hn (n2 ∷ ns) p pos room hc k out _ (omega arith) hp (
              read_loop_lem base (before ++ n ∷ []) n2 ns (add_size p room) 0 (length n2) (k - room)
                (out ++ slice pos room n) (Sized-append base before (n ∷ []) hb (hn, tt)) hs.0 hs.1
                (omega (arith, hs.0)) h0 (omega arith) (omega arith)))
    ]
