-- ===== src/HttpSession/Receive.antt =====
-- recvRequest as a whole: it ends, and what it returns.
use exhy.Common.Text.{Bytes}
use exhy.Common.{
  ℕ, ◌-◌, ◌%◌, ◌^◌, ◌≤◌, ◌<◌, Bool, true, false, ◌≡◌, refl, ap, ◌∙◌, ◌⊎◌, inl, inr, List, [], ◌++◌,
  Option, some, ltb, ltb→lt, lt→ltb, ltb-false→le, arith, Bool-cases, length, take,
}
use exhy.Streams.{Answer, stopped, read_fix_size}
use exhy.Streams.Exact.{Bounded, Reads, read_fix_size_lem}
use exhy.Http.Messages.{HttpRequest, init}
use exhy.HttpParser.{Event, HttpRequestParser, new_http_request_parser}
use exhy.HttpSession.{
  Received, null, received, is_positive, with_body, fill_body, body_length, recv_body, recv_rest,
  recv_request,
}
use exhy.HttpSession.Turns.{Finite, IsHead, IsLost, recv_head_lem}

module _ {S : Type 0} (read : S → ℕ → Answer × S) where
  -- The stream failed after fewer bytes than were left.
  abbrev pub IsShort : ℕ → S → S → Type 0
  IsShort left u t =
      (n : ℕ) × (out : Bytes) × (v : S) × (length out < left)
      × Reads read u out v
      × (read v (left - length out) ≡ (stopped n, t))

  -- The rest of the body comes from the stream, or the stream fails.
  abbrev pub IsFilled : HttpRequest → Bytes → ℕ → S → Received S → Type 0
  IsFilled r text left u x =
      ((out : Bytes) × (t : S) × (x ≡ received (with_body r (text ++ out)) t)
        × (length out ≡ left)
        × Reads read u out t)
      ⊎ ((t : S) × (x ≡ null t) × IsShort left u t)

  -- With a content length n: no body where n is no positive int; else n bytes of the buffer, or all of the buffer and
  -- the rest from the stream.
  abbrev pub BodyOutcome : ℕ → HttpRequest → Bytes → S → Received S → Type 0
  BodyOutcome n r text u x =
      ((is_positive n ≡ false) × (x ≡ received (init r) u))
      ⊎ ((is_positive n ≡ true) × (n ≤ length text) × (x ≡ received (with_body r (take n text)) u))
      ⊎ ((is_positive n ≡ true) × (length text < n) × IsFilled r text (n - length text) u x)

  positive_part : (n k : ℕ) → is_positive n ≡ true → k < n → is_positive ((n - k) % 2 ^ 32) ≡ true
  positive_part n k h l =
      let small : n < 2 ^ 31 = ground arith in
      let same : (n - k) % 2 ^ 32 ≡ n - k = omega arith in
      let low : 0 < n - k = omega arith in
      let high : n - k < 2 ^ 31 = omega arith in
      rw (same, lt→ltb 0 (n - k) low, lt→ltb (n - k) (2 ^ 31) high) refl

  below : (n k : ℕ) → is_positive n ≡ true → n - k < 2 ^ 63
  below n k h = let small : n < 2 ^ 31 = ground arith in omega arith

  filled :
      (r : HttpRequest) (text : Bytes) (n : ℕ) (u : S)
      → Bounded read
      → is_positive n ≡ true
      → length text < n
      → (x : Received S) × (fill_body r text (read_fix_size read (n - length text) u) ≡ some x)
        × IsFilled r text (n - length text) u x
  filled r text n u b h l =
      let left = n - length text in
      let small = below n (length text) h in
      let (res, out, t, e, o) = read_fix_size_lem read left u b small in
      elim o [
        | inl (q, w, d) ↦ (
          received (with_body r (text ++ out)) t,
          ap (fill_body r text) e ∙ rw (q, positive_part n (length text) h l) refl,
          inl (out, t, refl, w, d),
        )
        | inr (k, v, q, w, d, z) ↦
            (null t, ap (fill_body r text) e ∙ rw q refl, inr (t, refl, (k, out, v, w, d, z)))
      ]

  recv_body_lem :
      (cast : Bytes → Option ℕ) (r : HttpRequest) (text : Bytes) (u : S)
      → Bounded read
      → (x : Received S) × (recv_body read cast r text u ≡ some x)
        × BodyOutcome (body_length cast r) r text u x
  unfolding recv_body
  recv_body_lem cast r text u b =
      let n = body_length cast r in
      elim (Bool-cases (is_positive n)) [
        | inr h ↦ (received (init r) u, rw (recv_body, h) refl, inl (h, refl))
        | inl h ↦ elim (Bool-cases (ltb (length text) n)) [
          | inr k ↦ (
            received (with_body r (take n text)) u,
            rw (recv_body, h, k) refl,
            inr (inl (h, ltb-false→le (length text) n k, refl)),
          )
          | inl k ↦
              let l = ltb→lt (length text) n k in
              let (x, e, o) = filled r text n u b h l in
              (x, rw (recv_body, h, k) e, inr (inr (h, l, o)))
        ]
      ]

module _ {S M : Type 0} (read : S → ℕ → Answer × S) (machine : M → Bytes → List Event × ℕ × M)
    (failed_machine finish_machine : M → Bool) (buff_size : ℕ) (cast : Bytes → Option ℕ) where
  -- It closes before the head is parsed, or the head is parsed and the body has an outcome.
  abbrev pub RequestOutcome : M → S → Received S → Type 0
  RequestOutcome start s x =
      ((t : S) × (x ≡ null t)
        × IsLost read machine failed_machine finish_machine buff_size s []
            (new_http_request_parser start) t)
      ⊎ ((left : Bytes) × (q : HttpRequestParser M) × (u : S) × IsHead read machine failed_machine
            finish_machine buff_size s [] (new_http_request_parser start) u left q
          × BodyOutcome read (body_length cast q.parsed.request) q.parsed.request left u x)

  -- On a stream that never hands over more than it is asked for, and no more than `supply` bytes in all, and with a
  -- buffer of fewer than 2 ^ 31 bytes, recvRequest ends within one turn of its loop more than that number. Either it
  -- closes: the stream gave no byte, or what it gave ended in an error of the parser or left the buffer full. Or the
  -- head is parsed: the machine took, from texts that fit the buffer, all that the stream handed over but for what is
  -- left in the buffer, in order and none twice, and reported no error, and its end; then a
  -- content length that is a positive int n makes the body the first n bytes of the buffer, or the buffer with the
  -- rest of the n bytes read from the stream, where it closes if the stream fails; otherwise there is no body.
  pub recv_request_lem :
      (supply : S → ℕ)
      → Bounded read
      → Finite read supply
      → (fuel : ℕ) (start : M) (s : S) → supply s < fuel
      → buff_size < 2 ^ 31
      → (x : Received S) × (recv_request read machine failed_machine finish_machine cast buff_size
            fuel start s
          ≡ some x)
        × RequestOutcome start s x
  unfolding recv_request
  recv_request_lem supply b f fuel start s h bs =
      let (y, e, o) =
        recv_head_lem read machine failed_machine finish_machine buff_size supply b f fuel s []
          (new_http_request_parser start) (omega arith) bs h in
      elim o [
        | inl (t, z, w) ↦ (null t, ap (recv_rest read cast) e ∙ rw z refl, inl (t, refl, w))
        | inr (left, q, u, z, w) ↦
            let (x, g, k) = recv_body_lem read cast q.parsed.request left u b in
            (x, ap (recv_rest read cast) e ∙ rw z g, inr (left, q, u, w, k))
      ]
