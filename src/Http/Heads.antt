-- ===== src/Http/Heads.antt =====
-- A peer finds the head and the body of a printed message again, where no part of the head has a carriage return.
use exhy.Common.Text.{Bytes, codes}
use exhy.Common.Decimal.{decimal, number, number-decimal}
use exhy.Common.{
  ℕ, ◌<◌, ◌^◌, Bool, true, false, not, ◌&&◌, ◌≡◌, refl, ap, ◌∙◌, inl, inr, List, [], ◌∷◌, ◌++◌, map,
  Bool-cases, All, length,
}
use exhy.Http.{http_method_to_string}
use exhy.Http.Messages.{
  MapType, HttpRequest, HttpResponse, case_eq, optional, version_text, dump_request, dump_response,
}
use exhy.Http.Framing.{IsLine, IsFull, IsNonempty, read_head, read_head-unlines}
use exhy.Http.Clean.{
  IsLine-append, decimal-IsLine, is_line, is_line_lem, status_text-IsLine, request_text-IsLine,
}
use exhy.Http.Lines.{
  header_lines, connection_lines, length_lines, cookie_line, response_lines, request_lines,
  dump_response_lem, dump_request_lem,
}

abbrev pub IsEntry : Bytes × Bytes → Type 0
IsEntry e = IsLine e.0 × IsLine e.1

-- No part of the head has a carriage return.
abbrev pub IsCleanResponse : HttpResponse → Type 0
IsCleanResponse r = IsLine r.reason × All IsEntry r.headers × All IsLine r.cookies

abbrev pub IsCleanRequest : HttpRequest → Type 0
IsCleanRequest r = IsLine r.path × IsLine r.query × IsLine r.fragment × All IsEntry r.headers

header-IsNonempty : (k v : Bytes) → IsNonempty (k ++ codes ": " ++ v)
header-IsNonempty [] v = tt
header-IsNonempty (c ∷ k) v = tt

header_lines-IsFull :
    (websocket : Bool) (m : MapType) → All IsEntry m → All IsFull (header_lines websocket m)
unfolding header_lines
header_lines-IsFull websocket [] h = tt
header_lines-IsFull websocket ((k, v) ∷ m) ((hk, hv), hs) =
    let rest = header_lines-IsFull websocket m hs in
    elim (Bool-cases (not websocket && case_eq k (codes "connection"))) [
      | inl h ↦ rw (header_lines, h) rest
      | inr h ↦
          let colon = IsLine-append k (codes ": ") hk (refl, (refl, tt)) in
          rw (header_lines, h)
            ((IsLine-append (k ++ codes ": ") v colon hv, header-IsNonempty k v), rest)
    ]

cookies-IsFull : (cs : List Bytes) → All IsLine cs → All IsFull (map cookie_line cs)
unfolding is_line
cookies-IsFull [] h = tt
cookies-IsFull (c ∷ cs) (h, hs) =
    let name = is_line_lem (codes "Set-Cookie: ") refl in
    ((IsLine-append (codes "Set-Cookie: ") c name h, tt), cookies-IsFull cs hs)

connection_lines-IsFull : (websocket close : Bool) → All IsFull (connection_lines websocket close)
unfolding is_line
connection_lines-IsFull true close = tt
connection_lines-IsFull false true = ((is_line_lem (codes "connection: close") refl, tt), tt)
connection_lines-IsFull false false = ((is_line_lem (codes "connection: keep-alive") refl, tt), tt)

length_lines-IsFull :
    (c : ℕ) (name body : Bytes) → IsLine (c ∷ name) → All IsFull (length_lines (c ∷ name) body)
length_lines-IsFull c name [] h = tt
length_lines-IsFull c name (d ∷ body) h =
    let number = decimal-IsLine (length (d ∷ body)) in
    let colon = IsLine-append (c ∷ name) (codes ": ") h (refl, (refl, tt)) in
    ((IsLine-append ((c ∷ name) ++ codes ": ") (decimal (length (d ∷ body))) colon number, tt), tt)

All-append : (P : Bytes → Type 0) (xs ys : List Bytes) → All P xs → All P ys → All P (xs ++ ys)
All-append P [] ys h k = k
All-append P (x ∷ xs) ys (h, hs) k = (h, All-append P xs ys hs k)

space-IsNonempty : (l k : Bytes) → IsNonempty (l ++ codes " " ++ k)
space-IsNonempty [] k = tt
space-IsNonempty (c ∷ l) k = tt

request_lines-IsFull :
    (r : HttpRequest)
    → IsLine r.path
    → IsLine r.query
    → IsLine r.fragment
    → All IsEntry r.headers
    → All IsFull (request_lines r)
unfolding is_line
request_lines-IsFull r hp hq hf hh =
    let headers = header_lines r.websocket r.headers in
    let connection = connection_lines r.websocket r.close in
    let last = length_lines (codes "content-length2") r.body in
    let first = connection_lines-IsFull r.websocket r.close in
    let entries = header_lines-IsFull r.websocket r.headers hh in
    let two = All-append IsFull connection headers first entries in
    let name = is_line_lem (codes "content-length2") refl in
    (
      (
        request_text-IsLine r hp hq hf,
        space-IsNonempty
            (codes (http_method_to_string r.method)
              ++ codes " "
              ++ r.path
              ++ optional (codes "?") r.query
              ++ optional (codes "#") r.fragment)
            (version_text r.version),
      ),
      All-append IsFull (connection ++ headers) last two
          (length_lines-IsFull b'c' (codes "ontent-length2") r.body name),
    )

response_lines-IsFull :
    (r : HttpResponse)
    → IsLine r.reason
    → All IsEntry r.headers
    → All IsLine r.cookies
    → All IsFull (response_lines r)
unfolding is_line
response_lines-IsFull r hr hh hc =
    let headers = header_lines r.websocket r.headers in
    let cookies = map cookie_line r.cookies in
    let connection = connection_lines r.websocket r.close in
    let last = length_lines (codes "content-length") r.body in
    let first = header_lines-IsFull r.websocket r.headers hh in
    let two = All-append IsFull headers cookies first (cookies-IsFull r.cookies hc) in
    let link = connection_lines-IsFull r.websocket r.close in
    let three = All-append IsFull (headers ++ cookies) connection two link in
    let name = is_line_lem (codes "content-length") refl in
    (
      (status_text-IsLine r.version r.status r.reason hr, tt),
      All-append IsFull (headers ++ cookies ++ connection) last three
          (length_lines-IsFull b'c' (codes "ontent-length") r.body name),
    )

-- Where no part of the head has a carriage return and the body is shorter than 2 ^ 64 bytes, a peer that reads lines up
-- to the first empty one finds in a printed request: the request line; the connection line unless it is websocket; the
-- headers, but for the connection header unless it is websocket; and, with a body that is not empty, the line of
-- content-length2, whose number reads back as the length. What is left is the body. The cookies are not printed.
pub dump_request-lines :
    (r : HttpRequest)
    → IsCleanRequest r
    → length r.body < 2 ^ 64
    → (read_head [] (dump_request r) ≡ (request_lines r, r.body))
      × (number 0 (decimal (length r.body)) ≡ length r.body)
dump_request-lines r (hp, hq, hf, hh) l = (
  ap (read_head []) (dump_request_lem r)
      ∙ read_head-unlines (request_lines r) r.body (request_lines-IsFull r hp hq hf hh),
  number-decimal (length r.body) l,
)

-- Where no part of the head has a carriage return and the body is shorter than 2 ^ 64 bytes, a peer that reads lines up
-- to the first empty one finds in a printed response: the status line; the headers, but for the connection header
-- unless it is websocket; one line for each cookie; the connection line unless it is websocket; and, with a body that
-- is not empty, the content-length line, whose number reads back as the length. What is left is the body.
pub dump_response-lines :
    (r : HttpResponse)
    → IsCleanResponse r
    → length r.body < 2 ^ 64
    → (read_head [] (dump_response r) ≡ (response_lines r, r.body))
      × (number 0 (decimal (length r.body)) ≡ length r.body)
dump_response-lines r (hr, hh, hc) l = (
  ap (read_head []) (dump_response_lem r)
      ∙ read_head-unlines (response_lines r) r.body (response_lines-IsFull r hr hh hc),
  number-decimal (length r.body) l,
)
