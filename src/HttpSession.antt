-- ===== src/HttpSession.antt =====
-- exhy/http/http_session.cpp: HttpSession, which receives requests and sends responses over a stream.
--
-- The arguments: `read` and `write` of the stream, as in Streams; the machine of the request parser with
-- http_parser_has_error (`failed_machine`) and http_parser_finish (`finish_machine`), and its state `start` after http_parser_init;
-- `cast`, which is lexical_cast to uint64_t; and `buff_size`, which is below 2 ^ 31, so that offsets and lengths fit an int. The buffer is its first `offset`
-- bytes.
mod Buffer
pub mod Turns
pub mod Receive
mod Runs
use exhy.Common.Text.{Bytes}
use exhy.Common.{
  ℕ, zero, suc, ◌-◌, ◌%◌, ◌^◌, Bool, true, false, ◌&&◌, List, [], ◌∷◌, ◌++◌, Option, none, some,
  ◌==◌, ltb, if◌then◌else◌, length, take,
}
use exhy.Streams.{Answer, came, stopped, Result, whole, failed, read_fix_size, Sent, write_fix_size}
use exhy.Http.Messages.{HttpRequest, HttpResponse, init, dump_response}
use exhy.HttpParser.{
  Event, HttpRequestParser, new_http_request_parser, Executed, execute, has_error,
  get_content_length,
}

-- How a turn of the loop ends.
pub data Turn (M : Type 0) : Type 0 where
  give_up : Turn M
  finished : Bytes → HttpRequestParser M → Turn M
  again : Bytes → HttpRequestParser M → Turn M

-- After the loop: close() was called, or there is a parsed head, the rest of the buffer and the stream.
pub data Head (S M : Type 0) : Type 0 where
  lost : S → Head S M
  head : Bytes → HttpRequestParser M → S → Head S M

-- recvRequest: close() was called and a null pointer returned, or a request; with the stream, before close().
pub data Received (S : Type 0) : Type 0 where
  null : S → Received S
  received : HttpRequest → S → Received S

-- A 32-bit pattern is a positive int.
abbrev pub is_positive : ℕ → Bool
is_positive n = ltb 0 n && ltb n (2 ^ 31)

module _ {M : Type 0} (machine : M → Bytes → List Event × ℕ × M)
    (failed_machine finish_machine : M → Bool) (buff_size : ℕ) where
  -- The tests after execute; both sides of offset == (int)buff_size are the patterns of ints.
  abbrev pub decide : Executed M → Turn M
  decide r =
      if has_error failed_machine r.2
      then give_up
      else if length r.1 % 2 ^ 32 == buff_size % 2 ^ 32
      then give_up
      else if finish_machine r.2.parser
      then finished r.1 r.2
      else again r.1 r.2

  abbrev pub turn : Bytes → HttpRequestParser M → Turn M
  turn text p = decide (execute machine text p)

module _ {S M : Type 0} (read : S → ℕ → Answer × S) (machine : M → Bytes → List Event × ℕ × M)
    (failed_machine finish_machine : M → Bool) (buff_size : ℕ) where
  -- The loop, on fuel; the buffer has room for what is read into it.
  unfoldable pub recv_head : ℕ → S → Bytes → HttpRequestParser M → Option (Head S M)
  recv_head zero s text p = none
  recv_head (suc fuel) s text p =
      let r = read s (buff_size - length text) in
      elim r.0 [
        | stopped n ↦ some (lost r.1)
        | came c cs ↦
            elim (turn machine failed_machine finish_machine buff_size (text ++ c ∷ cs) p) [
              | give_up ↦ some (lost r.1)
              | finished rest q ↦ some (head rest q r.1)
              | again rest q ↦ recv_head fuel r.1 rest q
            ]
      ]

abbrev pub with_body : HttpRequest → Bytes → HttpRequest
with_body r text = init (record r { body = text })

-- What readFixSize answered for the rest of the body.
abbrev pub fill_body :
    {S : Type 0} → HttpRequest → Bytes → Option (Result × Bytes × S) → Option (Received S)
fill_body r text none = none
fill_body r text (some (failed n, out, s)) = some (null s)
fill_body r text (some (whole k, out, s)) =
    if is_positive k then some (received (with_body r (text ++ out)) s) else some (null s)

-- getContentLength, as an int.
abbrev pub body_length : (Bytes → Option ℕ) → HttpRequest → ℕ
body_length cast r = get_content_length cast r % 2 ^ 32

module _ {S : Type 0} (read : S → ℕ → Answer × S) (cast : Bytes → Option ℕ) where
  unfoldable pub recv_body : HttpRequest → Bytes → S → Option (Received S)
  recv_body r text s =
      let n = body_length cast r in
      if is_positive n
      then (if ltb (length text) n
          then fill_body r text (read_fix_size read (n - length text) s)
          else some (received (with_body r (take n text)) s))
      else some (received (init r) s)

  abbrev pub recv_rest : {M : Type 0} → Option (Head S M) → Option (Received S)
  recv_rest none = none
  recv_rest (some (lost s)) = some (null s)
  recv_rest (some (head text p s)) = recv_body p.parsed.request text s

unfoldable pub recv_request :
    {S M : Type 0}
    → (S → ℕ → Answer × S)
    → (M → Bytes → List Event × ℕ × M)
    → (M → Bool)
    → (M → Bool)
    → (Bytes → Option ℕ)
    → ℕ
    → ℕ
    → M
    → S
    → Option (Received S)
recv_request read machine failed_machine finish_machine cast buff_size fuel start s =
    recv_rest read cast (
      recv_head read machine failed_machine finish_machine buff_size fuel s []
        (new_http_request_parser start))

-- sendResponse.
unfoldable pub send_response :
    {S : Type 0} → (S → List ℕ → Sent × S) → HttpResponse → S → Option (Result × S)
send_response write rsp s = write_fix_size write (dump_response rsp) s
