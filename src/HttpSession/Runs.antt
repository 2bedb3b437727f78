-- ===== src/HttpSession/Runs.antt =====
-- Runs of the session: a stream that hands over a byte at a time, and a machine that knows one head, the letter H.
use exhy.Common.Text.{Bytes, codes}
use exhy.Common.Decimal.{number}
use exhy.Common.{
  ℕ, zero, suc, Bool, true, false, ◌≡◌, refl, List, [], ◌∷◌, Option, some, arith, length,
}
use exhy.Streams.{Answer, came, stopped}
use exhy.Streams.Exact.{Bounded}
use exhy.Http.Messages.{init}
use exhy.HttpParser.{Event, http_field, new_http_request_parser}
use exhy.HttpSession.{Received, null, received, recv_request}
use exhy.HttpSession.Turns.{Finite}
use exhy.HttpSession.Receive.{RequestOutcome, recv_request_lem}

abbrev singles : Bytes → ℕ → Answer × Bytes
singles [] n = (stopped 0, [])
singles (c ∷ cs) zero = (stopped 0, c ∷ cs)
singles (c ∷ cs) (suc n) = (came c [], cs)

singles-Bounded : Bounded singles
singles-Bounded [] n c cs q = cc
singles-Bounded (d ∷ ds) zero c cs q = cc
singles-Bounded (d ∷ ds) (suc n) c cs q = let e : cs ≡ [] = cc in rw e (omega arith)

singles-Finite : Finite singles (length {A = ℕ})
singles-Finite [] n c cs q = cc
singles-Finite (d ∷ ds) zero c cs q = cc
singles-Finite (d ∷ ds) (suc n) c cs q = let e : cs ≡ [] = cc in rw e (omega arith)

abbrev one_head : Bool → Bytes → List Event × ℕ × Bool
one_head m text = (http_field (codes "Content-Length") (codes "3") ∷ [], 1, true)

abbrev never : Bool → Bool
never m = false

abbrev itself : Bool → Bool
itself m = m

abbrev cast_number : Bytes → Option ℕ
cast_number v = some (number 0 v)

recv_request_lem_example :
    (x : Received Bytes) × (recv_request singles one_head never itself cast_number 16 5 false
        (codes "Habc")
      ≡ some x)
    × RequestOutcome singles one_head never itself 16 cast_number false (codes "Habc") x
recv_request_lem_example =
    recv_request_lem singles one_head never itself 16 cast_number length singles-Bounded
      singles-Finite 5 false (codes "Habc") (omega arith) (omega arith)

abbrev body_of : Option (Received Bytes) → Bytes
body_of (some (received r s)) = r.body
body_of other = []

request_run :
    body_of (recv_request singles one_head never itself cast_number 16 5 false (codes "Habc"))
    ≡ codes "abc"
unfolding recv_request exhy.HttpSession.recv_head exhy.HttpParser.execute exhy.HttpParser.callbacks
    exhy.HttpParser.callback exhy.HttpParser.on_request_http_field exhy.HttpSession.recv_body
    exhy.Http.Messages.map_find exhy.Http.Messages.map_set exhy.Http.Messages.key_less
    exhy.Http.Messages.lower exhy.Streams.read_fix_size exhy.Streams.read_left init
request_run = refl

short_request_run :
    recv_request singles one_head never itself cast_number 16 5 false (codes "Hab") ≡ some (null [])
unfolding recv_request exhy.HttpSession.recv_head exhy.HttpParser.execute exhy.HttpParser.callbacks
    exhy.HttpParser.callback exhy.HttpParser.on_request_http_field exhy.HttpSession.recv_body
    exhy.Http.Messages.map_find exhy.Http.Messages.map_set exhy.Http.Messages.key_less
    exhy.Http.Messages.lower exhy.Streams.read_fix_size exhy.Streams.read_left
short_request_run = refl
