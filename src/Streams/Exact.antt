-- ===== src/Streams/Exact.antt =====
-- The loops end, and deliver all bytes or say that they did not.
use exhy.Common.{
  ℕ, zero, suc, ◌-◌, ◌%◌, ◌^◌, ◌≤◌, ◌<◌, ◌≡◌, ◌⊎◌, refl, ap, ◌∙◌, inl, inr, List, [], ◌∷◌, ◌++◌,
  some, ltb, ltb→lt, lt→ltb, ltb-false→le, arith, Bool-cases, length, length-append, length-drop,
  drop, append-nil, append_assoc,
}
use exhy.Streams.{
  Answer, came, stopped, Result, whole, failed, read_left, read_fix_size, Sent, went, refused,
  write_left, write_fix_size,
}

pub Answer-cases :
    (a : Answer) → ((n : ℕ) × (a ≡ stopped n)) ⊎ ((c : ℕ) × (cs : List ℕ) × (a ≡ came c cs))
Answer-cases (stopped n) = inl (n, refl)
Answer-cases (came c cs) = inr (c, cs, refl)

Sent-cases : (a : Sent) → ((n : ℕ) × (a ≡ refused n)) ⊎ ((n : ℕ) × (a ≡ went n))
Sent-cases (refused n) = inl (n, refl)
Sent-cases (went n) = inr (n, refl)

module _ {S : Type 0} (read : S → ℕ → Answer × S) where
  -- A stream does not hand over more than it is asked for.
  abbrev pub Bounded : Type 0
  Bounded = (s : S) (n c : ℕ) (cs : List ℕ) → (read s n).0 ≡ came c cs → length (c ∷ cs) ≤ n

  -- From the one state of the stream to the other, it handed over these bytes, in this order.
  pub data Reads : S → List ℕ → S → Type 0 where
    nothing : (s : S) → Reads s [] s
    more :
        (s t : S) (n c : ℕ) (cs out : List ℕ)
        → (read s n).0 ≡ came c cs
        → Reads (read s n).1 out t
        → Reads s ((c ∷ cs) ++ out) t

  -- From s, with `left` bytes to go: the stream hands over all of them, or a part and then answers the rest with no
  -- byte.
  abbrev pub Outcome : ℕ → ℕ → S → Result → List ℕ → S → Type 0
  Outcome len left s r out t =
      ((r ≡ whole (len % 2 ^ 32)) × (length out ≡ left) × Reads s out t)
      ⊎ ((n : ℕ) × (u : S) × (r ≡ failed n)
          × (length out < left)
          × Reads s out u
          × (read u (left - length out) ≡ (stopped n, t)))

  further :
      (len left : ℕ) (s : S) (c : ℕ) (cs : List ℕ) {r : Result} {t : S}
      → (read s left).0 ≡ came c cs
      → length (c ∷ cs) ≤ left
      → (rest : List ℕ) → Outcome len (left - length (c ∷ cs)) (read s left).1 r rest t
      → Outcome len left s r ((c ∷ cs) ++ rest) t
  further len left s c cs q l rest (inl (e, w, d)) =
      inl (e, omega (arith, length-append (c ∷ cs) rest), more s _ left c cs rest q d)
  further len left s c cs q l rest (inr (n, u, e, w, d, f)) =
      let i = length-append (c ∷ cs) rest in
      let z : left - length ((c ∷ cs) ++ rest) ≡ left - length (c ∷ cs) - length rest =
        omega (arith, i) in
      inr (n, u, e, omega (arith, i), more s u left c cs rest q d, rw z f)

  read_loop_lem :
      (fuel len left : ℕ) (out : List ℕ) (s : S)
      → Bounded
      → left < fuel
      → (r : Result) × (rest : List ℕ) × (t : S) × (read_left read fuel len left out s
          ≡ some (r, out ++ rest, t))
        × Outcome len left s r rest t
  unfolding read_left
  read_loop_lem zero len left out s b h = absurd (omega arith)
  read_loop_lem (suc fuel) len left out s b h = elim (Bool-cases (ltb 0 left)) [
    | inr k ↦ (
      whole (len % 2 ^ 32),
      [],
      s,
      rw (read_left, k, append-nil out) refl,
      inl (refl, omega (arith, ltb-false→le 0 left k), nothing s),
    )
    | inl k ↦ elim (Answer-cases (read s left).0) [
      | inl (n, q) ↦
          let z : left - 0 ≡ left = omega arith in
          (
            failed n,
            [],
            (read s left).1,
            rw (read_left, k, q, append-nil out) refl,
            inr (n, s, refl, ltb→lt 0 left k, nothing s, rw z (ap (λ a. (a, (read s left).1)) q)),
          )
      | inr (c, cs, q) ↦
          let l = b s left c cs q in
          let next = left - length (c ∷ cs) in
          let (r, rest, t, e, o) =
            read_loop_lem fuel len next (out ++ c ∷ cs) (read s left).1 b (omega arith) in
          (
            r,
            (c ∷ cs) ++ rest,
            t,
            rw (read_left, k, q) (e ∙ ap (λ ys. some (r, ys, t)) (append_assoc out (c ∷ cs) rest)),
            further len left s c cs q l rest o,
          )
    ]
  ]

  -- readFixSize of fewer than 2 ^ 63 bytes, on a stream that never hands over more than it is asked for, returns, within one turn more than the
  -- number of bytes: either the length, as an int, and then it has read that many bytes, or the answer of the stream
  -- that was not positive, and then it has read fewer. The bytes are those that the stream handed over, in order.
  pub read_fix_size_lem :
      (len : ℕ) (s : S)
      → Bounded
      → len < 2 ^ 63
      → (r : Result) × (out : List ℕ) × (t : S) × (read_fix_size read len s ≡ some (r, out, t))
        × Outcome len len s r out t
  unfolding read_fix_size
  read_fix_size_lem len s b k =
      rw (read_fix_size, lt→ltb len (2 ^ 63) k)
        (read_loop_lem (suc len) len len [] s b (omega arith))

module _ {S : Type 0} (write : S → List ℕ → Sent × S) where
  -- From the one state of the stream to the other it took bytes from the front of what it was offered each time.
  pub data Writes : S → List ℕ → List ℕ → S → Type 0 where
    offered : (s : S) (left : List ℕ) → Writes s left left s
    took :
        (s t : S) (n : ℕ) (left rest : List ℕ)
        → (write s left).0 ≡ went n
        → Writes (write s left).1 (drop (suc n) left) rest t
        → Writes s left rest t

  abbrev pub WriteOutcome : ℕ → S → List ℕ → Result → S → Type 0
  WriteOutcome len s left r t =
      ((r ≡ whole (len % 2 ^ 32)) × Writes s left [] t)
      ⊎ ((n : ℕ) × (u : S) × (rest : List ℕ) × (r ≡ failed n)
          × (0 < length rest)
          × Writes s left rest u
          × (write u rest ≡ (refused n, t)))

  onward :
      (len : ℕ) (s : S) (left : List ℕ) (n : ℕ) {r : Result} {t : S}
      → (write s left).0 ≡ went n
      → WriteOutcome len (write s left).1 (drop (suc n) left) r t
      → WriteOutcome len s left r t
  onward len s left n q (inl (e, w)) = inl (e, took s _ n left [] q w)
  onward len s left n q (inr (k, u, rest, e, p, w, f)) =
      inr (k, u, rest, e, p, took s u n left rest q w, f)

  write_loop_lem :
      (fuel len : ℕ) (left : List ℕ) (s : S)
      → length left < fuel
      → (r : Result) × (t : S) × (write_left write fuel len left s ≡ some (r, t))
        × WriteOutcome len s left r t
  unfolding write_left
  write_loop_lem zero len left s h = absurd (omega arith)
  write_loop_lem (suc fuel) len [] s h = (whole (len % 2 ^ 32), s, refl, inl (refl, offered s []))
  write_loop_lem (suc fuel) len (c ∷ cs) s h = elim (Sent-cases (write s (c ∷ cs)).0) [
    | inl (n, q) ↦ (
      failed n,
      (write s (c ∷ cs)).1,
      rw (write_left, lt→ltb 0 (suc (length cs)) (omega arith), q) refl,
      inr (
        n,
        s,
        c ∷ cs,
        refl,
        omega arith,
        offered s (c ∷ cs),
        ap (λ a. (a, (write s (c ∷ cs)).1)) q,
      ),
    )
    | inr (n, q) ↦
        let (r, t, e, o) =
          write_loop_lem fuel len (drop n cs) (write s (c ∷ cs)).1
            (omega (arith, length-drop n cs)) in
        (
          r,
          t,
          rw (write_left, lt→ltb 0 (suc (length cs)) (omega arith), q) e,
          onward len s (c ∷ cs) n q o,
        )
  ]

  -- writeFixSize of fewer than 2 ^ 63 bytes returns, within one turn more than the number of bytes: either the length, as an int, and then the
  -- stream has taken all bytes, each from the front of what was left, or the answer of the stream that was not
  -- positive, to an offer of bytes that were left.
  pub write_fix_size_lem :
      (buffer : List ℕ) (s : S)
      → length buffer < 2 ^ 63
      → (r : Result) × (t : S) × (write_fix_size write buffer s ≡ some (r, t))
        × WriteOutcome (length buffer) s buffer r t
  unfolding write_fix_size
  write_fix_size_lem buffer s k =
      rw (write_fix_size, lt→ltb (length buffer) (2 ^ 63) k)
        (write_loop_lem (suc (length buffer)) (length buffer) buffer s (omega arith))
