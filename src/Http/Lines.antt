-- ===== src/Http/Lines.antt =====
-- The lines that make up a printed response and a printed request.
use exhy.Common.Text.{Bytes, codes}
use exhy.Common.Decimal.{decimal}
use exhy.Common.{
  Bool, true, false, not, ◌&&◌, ◌≡◌, refl, inl, inr, List, [], ◌∷◌, ◌++◌, if◌then◌else◌, map,
  Bool-cases, append_assoc, length,
}
use exhy.Http.{http_method_to_string}
use exhy.Http.Messages.{
  MapType, HttpRequest, HttpResponse, case_eq, crlf, optional, version_text, dump_headers,
  dump_connection, dump_body, dump_request, dump_cookies, reason_text, dump_response,
}
use exhy.Http.Framing.{unlines}

-- The headers that are printed: with websocket all, otherwise all but the connection header.
unfoldable pub header_lines : Bool → MapType → List Bytes
header_lines websocket [] = []
header_lines websocket ((k, v) ∷ m) =
    let rest = header_lines websocket m in
    if not websocket && case_eq k (codes "connection") then rest else (k ++ codes ": " ++ v) ∷ rest

abbrev pub connection_lines : Bool → Bool → List Bytes
connection_lines true close = []
connection_lines false close =
    (codes "connection: " ++ (if close then codes "close" else codes "keep-alive")) ∷ []

abbrev pub length_lines : Bytes → Bytes → List Bytes
length_lines name [] = []
length_lines name (c ∷ body) = (name ++ codes ": " ++ decimal (length (c ∷ body))) ∷ []

abbrev pub cookie_line : Bytes → Bytes
cookie_line c = codes "Set-Cookie: " ++ c

abbrev pub response_lines : HttpResponse → List Bytes
response_lines r =
    (version_text r.version
        ++ codes " "
        ++ decimal r.status
        ++ codes " "
        ++ reason_text r.reason r.status)
      ∷ header_lines r.websocket r.headers
    ++ map cookie_line r.cookies
    ++ connection_lines r.websocket r.close
    ++ length_lines (codes "content-length") r.body

unlines-append : (xs ys : List Bytes) → unlines (xs ++ ys) ≡ unlines xs ++ unlines ys
unlines-append [] ys = refl
unlines-append (x ∷ xs) ys = rw (unlines-append xs ys) (simp (append_assoc))

dump_headers_lem :
    (websocket : Bool) (m : MapType) → dump_headers websocket m ≡ unlines (header_lines websocket m)
unfolding dump_headers header_lines
dump_headers_lem websocket [] = refl
dump_headers_lem websocket ((k, v) ∷ m) =
    elim (Bool-cases (not websocket && case_eq k (codes "connection"))) [
      | inl h ↦ rw (dump_headers, header_lines, h) (dump_headers_lem websocket m)
      | inr h ↦
          rw (dump_headers, header_lines, h, dump_headers_lem websocket m) (simp (append_assoc))
    ]

dump_cookies_lem : (cs : List Bytes) → dump_cookies cs ≡ unlines (map cookie_line cs)
unfolding dump_cookies
dump_cookies_lem [] = refl
dump_cookies_lem (c ∷ cs) = rw (dump_cookies_lem cs) (simp (append_assoc))

dump_connection_lem :
    (websocket close : Bool)
    → dump_connection websocket close ≡ unlines (connection_lines websocket close)
dump_connection_lem true close = refl
dump_connection_lem false true = refl
dump_connection_lem false false = refl

dump_body_lem :
    (name body : Bytes) → dump_body name body ≡ unlines (length_lines name body) ++ crlf ++ body
dump_body_lem name [] = refl
dump_body_lem name (c ∷ body) = simp (append_assoc)

pub dump_response_lem :
    (r : HttpResponse) → dump_response r ≡ unlines (response_lines r) ++ crlf ++ r.body
unfolding dump_response
dump_response_lem r = simp (
  dump_response, dump_headers_lem, dump_cookies_lem, dump_connection_lem, dump_body_lem,
  unlines-append, append_assoc,
)

abbrev pub request_lines : HttpRequest → List Bytes
request_lines r =
    (codes (http_method_to_string r.method)
        ++ codes " "
        ++ r.path
        ++ optional (codes "?") r.query
        ++ optional (codes "#") r.fragment
        ++ codes " "
        ++ version_text r.version)
      ∷ connection_lines r.websocket r.close
    ++ header_lines r.websocket r.headers
    ++ length_lines (codes "content-length2") r.body

pub dump_request_lem :
    (r : HttpRequest) → dump_request r ≡ unlines (request_lines r) ++ crlf ++ r.body
unfolding dump_request
dump_request_lem r = simp (
  dump_request, dump_headers_lem, dump_connection_lem, dump_body_lem, unlines-append, append_assoc,
)
