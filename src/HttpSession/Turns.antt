-- ===== src/HttpSession/Turns.antt =====
-- The loop of recvRequest ends, and the machine gets the bytes of the stream in their order.
use exhy.Common.Text.{Bytes}
use exhy.Common.{
  ==_iff, ◌^◌, ◌%◌, ℕ, zero, suc, ◌+◌, ◌-◌, ◌≤◌, ◌<◌, Bool, true, false, ◌≡◌, refl, ap, ◌⊎◌, inl,
  inr, List, [], ◌∷◌, ◌++◌, some, ◌==◌, arith, Bool-cases, length, length-append, length-drop, take,
  append-nil,
}
use exhy.Streams.{Answer, came, stopped}
use exhy.Streams.Exact.{Answer-cases, Bounded, Reads, nothing, more}
use exhy.HttpParser.{Event, HttpRequestParser, execute, has_error}
use exhy.HttpSession.Buffer.{refilled}
use exhy.HttpSession.{give_up, finished, again, Head, lost, head, decide, recv_head}

module _ {S : Type 0} (read : S → ℕ → Answer × S) (supply : S → ℕ) where
  -- The stream has so many bytes to give at most.
  abbrev pub Finite : Type 0
  Finite =
      (s : S) (n c : ℕ) (cs : List ℕ)
      → (read s n).0 ≡ came c cs
      → supply (read s n).1 + length (c ∷ cs) ≤ supply s

module _ {S M : Type 0} (read : S → ℕ → Answer × S) (machine : M → Bytes → List Event × ℕ × M)
    (failed_machine finish_machine : M → Bool) (buff_size : ℕ) where
  -- Execute was called on texts that fit the buffer and took these bytes off their fronts. No call reported an error,
  -- and only the last one may have finished.
  pub data Fed : HttpRequestParser M → Bytes → HttpRequestParser M → Type 0 where
    idle : (p : HttpRequestParser M) → Fed p [] p
    feed :
        (p q : HttpRequestParser M) (text eaten : Bytes)
        → length text ≤ buff_size
        → has_error failed_machine (execute machine text p).2 ≡ false
        → (finish_machine (execute machine text p).2.parser ≡ false)
          ⊎ (q ≡ (execute machine text p).2)
        → Fed (execute machine text p).2 eaten q
        → Fed p (take (execute machine text p).0 text ++ eaten) q

  -- From s and the text in the buffer to u and the text `left`: the machine took what was in front.
  abbrev pub Passed : S → Bytes → HttpRequestParser M → S → Bytes → HttpRequestParser M → Type 0
  Passed s text p u left q =
      (got : Bytes) × (eaten : Bytes) × Reads read s got u
      × Fed p eaten q
      × (text ++ got ≡ eaten ++ left)

  -- The head is parsed: no error, the machine is through, and the buffer is not full.
  abbrev pub IsHead : S → Bytes → HttpRequestParser M → S → Bytes → HttpRequestParser M → Type 0
  IsHead s text p u left q =
      Passed s text p u left q
      × (has_error failed_machine q ≡ false)
      × (finish_machine q.parser ≡ true)
      × (length left < buff_size)

  -- Execute reports an error, or leaves the buffer full.
  abbrev pub IsOver : Bytes → HttpRequestParser M → Type 0
  IsOver text q =
      (has_error failed_machine (execute machine text q).2 ≡ true)
      ⊎ ((has_error failed_machine (execute machine text q).2 ≡ false)
          × (length (execute machine text q).1 ≡ buff_size))

  -- The stream gave no byte, or what it gave ended in an error or filled the buffer.
  abbrev pub IsLost : S → Bytes → HttpRequestParser M → S → Type 0
  IsLost s text p t =
      (u : S) × (left : Bytes) × (q : HttpRequestParser M) × Passed s text p u left q
      × (((n : ℕ) × (read u (buff_size - length left) ≡ (stopped n, t)))
          ⊎ ((c : ℕ) × (cs : Bytes) × (read u (buff_size - length left) ≡ (came c cs, t))
              × IsOver (left ++ c ∷ cs) q))

  abbrev pub HeadOutcome : S → Bytes → HttpRequestParser M → Head S M → Type 0
  HeadOutcome s text p x =
      ((t : S) × (x ≡ lost t) × IsLost s text p t)
      ⊎ ((left : Bytes) × (q : HttpRequestParser M) × (u : S) × (x ≡ head left q u)
          × IsHead s text p u left q)

  -- A turn's read and the bytes that the machine took of it, before the rest.
  Passed-more :
      (s : S) (text : Bytes) (p : HttpRequestParser M) (c : ℕ) (cs : Bytes)
      → (read s (buff_size - length text)).0 ≡ came c cs
      → length (text ++ c ∷ cs) ≤ buff_size
      → has_error failed_machine (execute machine (text ++ c ∷ cs) p).2 ≡ false
      → {u : S} (left : Bytes) → {q : HttpRequestParser M}
      → (finish_machine (execute machine (text ++ c ∷ cs) p).2.parser ≡ false)
        ⊎ (q ≡ (execute machine (text ++ c ∷ cs) p).2)
      → Passed
          (read s (buff_size - length text)).1
          (execute machine (text ++ c ∷ cs) p).1
          (execute machine (text ++ c ∷ cs) p).2
          u
          left
          q
      → Passed s text p u left q
  unfolding execute
  Passed-more s text p c cs e l ok left fin (got, eaten, r, f, w) = (
    (c ∷ cs) ++ got,
    take (execute machine (text ++ c ∷ cs) p).0 (text ++ c ∷ cs) ++ eaten,
    more s _ (buff_size - length text) c cs got e r,
    feed p _ (text ++ c ∷ cs) eaten l ok fin f,
    refilled text (c ∷ cs) got (execute machine (text ++ c ∷ cs) p).0 eaten left w,
  )

  same_test : (n b : ℕ) → n ≤ b → b < 2 ^ 31 → (n % 2 ^ 32 == b % 2 ^ 32) ≡ (n == b)
  same_test n b l h =
      let m : n % 2 ^ 32 ≡ n = omega arith in let k : b % 2 ^ 32 ≡ b = omega arith in rw (m, k) refl

  -- The tests after execute, by what they decide.
  decide-cases :
      (r : ℕ × Bytes × HttpRequestParser M)
      → length r.1 ≤ buff_size
      → buff_size < 2 ^ 31
      → ((decide machine failed_machine finish_machine buff_size r ≡ give_up)
          × ((has_error failed_machine r.2 ≡ true)
              ⊎ ((has_error failed_machine r.2 ≡ false) × (length r.1 ≡ buff_size))))
        ⊎ ((decide machine failed_machine finish_machine buff_size r ≡ finished r.1 r.2)
            × (has_error failed_machine r.2 ≡ false)
            × (finish_machine r.2.parser ≡ true)
            × ((length r.1 == buff_size) ≡ false))
        ⊎ ((decide machine failed_machine finish_machine buff_size r ≡ again r.1 r.2)
            × (has_error failed_machine r.2 ≡ false)
            × (finish_machine r.2.parser ≡ false))
  decide-cases r l b =
      let w = same_test (length r.1) buff_size l b in
      elim (Bool-cases (has_error failed_machine r.2)) [
        | inl h ↦ inl (rw h refl, inl h)
        | inr h ↦ elim (Bool-cases (length r.1 == buff_size)) [
          | inl k ↦ inl (rw (h, w, k) refl, inr (h, (==_iff (length r.1) buff_size).0 k))
          | inr k ↦ elim (Bool-cases (finish_machine r.2.parser)) [
            | inl f ↦ inr (inl (rw (h, w, k, f) refl, h, f, k))
            | inr f ↦ inr (inr (rw (h, w, k, f) refl, h, f))
          ]
        ]
      ]

  here : (s : S) (text : Bytes) (p : HttpRequestParser M) → Passed s text p s text p
  here s text p = ([], [], nothing s, idle p, append-nil text)

  answered : (s : S) (n : ℕ) (a : Answer) → (read s n).0 ≡ a → read s n ≡ (a, (read s n).1)
  answered s n a e = ap (λ z. (z, (read s n).1)) e

  under : (n b : ℕ) → n ≤ b → (n == b) ≡ false → n < b
  under n b l h = ground arith

  left_fits :
      (text : Bytes) (p : HttpRequestParser M)
      → length text ≤ buff_size
      → length (execute machine text p).1 ≤ buff_size
  unfolding execute
  left_fits text p l = omega (arith, length-drop (execute machine text p).0 text)

  outcome_more :
      (s : S) (text : Bytes) (p : HttpRequestParser M) (c : ℕ) (cs : Bytes)
      → (read s (buff_size - length text)).0 ≡ came c cs
      → length (text ++ c ∷ cs) ≤ buff_size
      → has_error failed_machine (execute machine (text ++ c ∷ cs) p).2 ≡ false
      → finish_machine (execute machine (text ++ c ∷ cs) p).2.parser ≡ false
      → {x : Head S M}
      → HeadOutcome
          (read s (buff_size - length text)).1
          (execute machine (text ++ c ∷ cs) p).1
          (execute machine (text ++ c ∷ cs) p).2
          x
      → HeadOutcome s text p x
  outcome_more s text p c cs e l ok fin (inl (t, z, (u, left, q, w, why))) =
      inl (t, z, (u, left, q, Passed-more s text p c cs e l ok left (inl fin) w, why))
  outcome_more s text p c cs e l ok fin (inr (left, q, u, z, (w, k, o, n))) =
      inr (left, q, u, z, (Passed-more s text p c cs e l ok left (inl fin) w, k, o, n))

  pub recv_head_lem :
      (supply : S → ℕ)
      → Bounded read
      → Finite read supply
      → (fuel : ℕ) (s : S) (text : Bytes) (p : HttpRequestParser M) → length text ≤ buff_size
      → buff_size < 2 ^ 31
      → supply s < fuel
      → (x : Head S M) × (recv_head read machine failed_machine finish_machine buff_size fuel s text
            p
          ≡ some x)
        × HeadOutcome s text p x
  unfolding recv_head
  recv_head_lem supply b f zero s text p l bs h = absurd (omega arith)
  recv_head_lem supply b f (suc fuel) s text p l bs h =
      let room = buff_size - length text in
      elim (Answer-cases (read s room).0) [
        | inl (n, e) ↦
            let why = answered s room (stopped n) e in
            (
              lost (read s room).1,
              rw (recv_head, e) refl,
              inl ((read s room).1, refl, (s, text, p, here s text p, inl (n, why))),
            )
        | inr (c, cs, e) ↦
            let most = b s room c cs e in
            let fits : length (text ++ c ∷ cs) ≤ buff_size =
              omega (arith, length-append text (c ∷ cs)) in
            let r = execute machine (text ++ c ∷ cs) p in
            let small = left_fits (text ++ c ∷ cs) p fits in
            let why = answered s room (came c cs) e in
            elim (decide-cases r small bs) [
              | inl (g, over) ↦ (
                lost (read s room).1,
                rw (recv_head, e, g) refl,
                inl ((read s room).1, refl, (s, text, p, here s text p, inr (c, cs, why, over))),
              )
              | inr (inl (g, k, o, n)) ↦ (
                head r.1 r.2 (read s room).1,
                rw (recv_head, e, g) refl,
                inr (
                  r.1,
                  r.2,
                  (read s room).1,
                  refl,
                  (
                    Passed-more s text p c cs e fits k r.1 (inr refl)
                        (here (read s room).1 r.1 r.2),
                    k,
                    o,
                    under (length r.1) buff_size small n,
                  ),
                ),
              )
              | inr (inr (g, k, o)) ↦
                  let less_left = f s room c cs e in
                  let (x, z, y) =
                    recv_head_lem supply b f fuel (read s room).1 r.1 r.2 small bs (omega arith) in
                  (x, rw (recv_head, e, g) z, outcome_more s text p c cs e fits k o y)
            ]
      ]
