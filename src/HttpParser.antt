-- ===== src/HttpParser.antt =====
-- exhy/http/http_parser.cpp and .h: HttpRequestParser, the callbacks and the object around the machine of Ragel.
--
-- The machine (http11_parser.cpp, which Ragel generates) is an argument `machine`: its state, the text it is given, the
-- callbacks it makes on the way, how many bytes it took, which are at most the text's, and its
-- state after that. Text is as in Http.Messages.
pub mod Callbacks
pub mod Responses
mod Runs
use Prim.Native.String.{String}
use exhy.Common.Text.{Bytes, codes}
use exhy.Common.{
  ℕ, Bool, true, false, not, ◌&&◌, ◌||◌, List, [], ◌∷◌, Option, none, some, ◌==◌, if◌then◌else◌,
  drop,
}
use exhy.Http.{HttpMethod, invalid_method, method_number, chars_to_http_method}
use exhy.Http.Messages.{HttpRequest, new_http_request, map_find, set_header}

-- A callback with its text. That of the method runs on to the end of the buffer, as the callback reads it.
pub data Event : Type 0 where
  request_method : String → Event
  request_uri : Event
  fragment : Bytes → Event
  request_path : Bytes → Event
  query_string : Bytes → Event
  http_version : Bytes → Event
  header_done : Event
  http_field : Bytes → Bytes → Event

-- strncmp(at, literal, length) == 0, where `text` is the length bytes from at, none of them NUL.
unfoldable pub starts : Bytes → Bytes → Bool
starts [] literal = true
starts (c ∷ cs) [] = false
starts (c ∷ cs) (d ∷ ds) = let rest = starts cs ds in c == d && rest

-- m_data and m_error.
pub record Parsed : Type 0 where
  pub request : HttpRequest
  pub error : ℕ

abbrev pub set_error : ℕ → Parsed → Parsed
set_error v p = record p { error = v }

abbrev pub is_valid : HttpMethod → Bool
is_valid m = not (method_number m == method_number invalid_method)

unfoldable pub on_request_method : String → Parsed → Parsed
on_request_method at p =
    let m = chars_to_http_method at in
    if is_valid m then record p { request = record p.request { method = m } } else set_error 1000 p

unfoldable pub on_request_version : Bytes → Parsed → Parsed
on_request_version text p =
    if starts text (codes "HTTP/1.1")
    then record p { request = record p.request { version = 17 } }
    else if starts text (codes "HTTP/1.0")
    then record p { request = record p.request { version = 16 } }
    else set_error 1001 p

unfoldable pub on_request_http_field : Bytes → Bytes → Parsed → Parsed
on_request_http_field [] value p = p
on_request_http_field (c ∷ field) value p = record p {
  request = set_header (c ∷ field) value p.request;
}

unfoldable pub callback : Event → Parsed → Parsed
callback (request_method at) p = on_request_method at p
callback request_uri p = p
callback (fragment text) p = record p { request = record p.request { fragment = text } }
callback (request_path text) p = record p { request = record p.request { path = text } }
callback (query_string text) p = record p { request = record p.request { query = text } }
callback (http_version text) p = on_request_version text p
callback header_done p = p
callback (http_field field value) p = on_request_http_field field value p

unfoldable pub callbacks : List Event → Parsed → Parsed
callbacks [] p = p
callbacks (e ∷ es) p = callbacks es (callback e p)

abbrev pub new_parsed : Parsed
new_parsed = record { request = new_http_request 17 true; error = 0 }

pub record HttpRequestParser (M : Type 0) : Type 0 where
  pub parser : M
  pub parsed : Parsed

abbrev pub new_http_request_parser : {M : Type 0} → M → HttpRequestParser M
new_http_request_parser start = record { parser = start; parsed = new_parsed }

-- How many bytes were taken, those that are left in the buffer, and the parser.
abbrev pub Executed : Type 0 → Type 0
Executed M = ℕ × Bytes × HttpRequestParser M

unfoldable pub execute :
    {M : Type 0} → (M → Bytes → List Event × ℕ × M) → Bytes → HttpRequestParser M → Executed M
execute machine text p =
    let r = machine p.parser text in
    (r.1, drop r.1 text, record { parser = r.2; parsed = callbacks r.0 p.parsed })

-- hasError; `failed` is http_parser_has_error.
abbrev pub has_error : {M : Type 0} → (M → Bool) → HttpRequestParser M → Bool
has_error failed p = not (p.parsed.error == 0) || failed p.parser

abbrev pub cast_or : ℕ → Option ℕ → ℕ
cast_or def none = def
cast_or def (some n) = n

abbrev pub get_as : (Bytes → Option ℕ) → ℕ → Option Bytes → ℕ
get_as cast def none = def
get_as cast def (some v) = cast_or def (cast v)

-- getContentLength; `cast` is lexical_cast to uint64_t, `none` where it throws.
abbrev pub get_content_length : (Bytes → Option ℕ) → HttpRequest → ℕ
get_content_length cast r = get_as cast 0 (map_find (codes "content-length") r.headers)
