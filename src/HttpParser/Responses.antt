-- ===== src/HttpParser/Responses.antt =====
-- exhy/http/http_parser.cpp: the callbacks of HttpResponseParser, around the machine of httpclient_parser.cpp.
--
-- As for requests, with on_response_status reading on behind its length, from a digit.
use exhy.Common.Text.{Bytes, codes}
use exhy.Common.{
  ℕ, ◌+◌, ◌-◌, ◌*◌, Bool, true, ◌&&◌, ◌||◌, ◌≡◌, refl, ◌∙◌, inl, inr, List, [], ◌∷◌, ◌==◌, leb,
  if◌then◌else◌, Bool-cases,
}
use exhy.Http.Messages.{HttpResponse, new_http_response, map_set}
use exhy.HttpParser.{starts}
use exhy.HttpParser.Callbacks.{and_swap}

pub data ResponseEvent : Type 0 where
  reason_phrase : Bytes → ResponseEvent
  status_code : Bytes → ResponseEvent
  chunk_size : ResponseEvent
  response_version : Bytes → ResponseEvent
  response_header_done : ResponseEvent
  last_chunk : ResponseEvent
  response_field : Bytes → Bytes → ResponseEvent

-- atoi of a text that begins with a digit: the number of its digits up to the first other character.
abbrev pub atoi : ℕ → Bytes → ℕ
atoi acc [] = acc
atoi acc (c ∷ cs) =
    let rest = atoi (acc * 10 + (c - b'0')) cs in if leb b'0' c && leb c b'9' then rest else acc

pub record ParsedResponse : Type 0 where
  pub response : HttpResponse
  pub error : ℕ

abbrev pub new_parsed_response : ParsedResponse
new_parsed_response = record { response = new_http_response 17 true; error = 0 }

unfoldable pub on_response_version : Bytes → ParsedResponse → ParsedResponse
on_response_version text p =
    if starts text (codes "HTTP/1.1")
    then record p { response = record p.response { version = 17 } }
    else if starts text (codes "HTTP/1.0")
    then record p { response = record p.response { version = 16 } }
    else record p { error = 1001 }

unfoldable pub on_response_http_field : Bytes → Bytes → ParsedResponse → ParsedResponse
on_response_http_field [] value p = p
on_response_http_field (c ∷ field) value p = record p {
  response = record p.response { headers = map_set (c ∷ field) value p.response.headers };
}

unfoldable pub response_callback : ResponseEvent → ParsedResponse → ParsedResponse
response_callback (reason_phrase text) p = record p {
  response = record p.response { reason = text };
}
response_callback (status_code at) p = record p {
  response = record p.response { status = atoi 0 at };
}
response_callback chunk_size p = p
response_callback (response_version text) p = on_response_version text p
response_callback response_header_done p = p
response_callback last_chunk p = p
response_callback (response_field field value) p = on_response_http_field field value p

unfoldable pub response_callbacks : List ResponseEvent → ParsedResponse → ParsedResponse
response_callbacks [] p = p
response_callbacks (e ∷ es) p = response_callbacks es (response_callback e p)

-- The callbacks that set no error.
abbrev pub is_accepted_response : ResponseEvent → Bool
is_accepted_response (response_version text) =
    starts text (codes "HTTP/1.1") || starts text (codes "HTTP/1.0")
is_accepted_response (reason_phrase text) = true
is_accepted_response (status_code at) = true
is_accepted_response chunk_size = true
is_accepted_response response_header_done = true
is_accepted_response last_chunk = true
is_accepted_response (response_field field value) = true

pub are_accepted_responses : List ResponseEvent → Bool
are_accepted_responses [] = true
are_accepted_responses (e ∷ es) =
    let rest = are_accepted_responses es in is_accepted_response e && rest

response_callback-error :
    (e : ResponseEvent) (p : ParsedResponse)
    → ((response_callback e p).error == 0) ≡ (is_accepted_response e && (p.error == 0))
unfolding response_callback on_response_version on_response_http_field
response_callback-error (response_version text) p =
    elim (Bool-cases (starts text (codes "HTTP/1.1"))) [
      | inl h ↦ rw (response_callback, on_response_version, h) refl
      | inr h ↦ elim (Bool-cases (starts text (codes "HTTP/1.0"))) [
        | inl g ↦ rw (response_callback, on_response_version, h, g) refl
        | inr g ↦ rw (response_callback, on_response_version, h, g) refl
      ]
    ]
response_callback-error (reason_phrase text) p = refl
response_callback-error (status_code at) p = refl
response_callback-error chunk_size p = refl
response_callback-error response_header_done p = refl
response_callback-error last_chunk p = refl
response_callback-error (response_field [] value) p = refl
response_callback-error (response_field (c ∷ field) value) p = refl

-- There is no error just if there was none before and every version was the beginning of HTTP/1.1 or HTTP/1.0.
pub response_callbacks_lem :
    (es : List ResponseEvent) (p : ParsedResponse)
    → ((response_callbacks es p).error == 0) ≡ (are_accepted_responses es && (p.error == 0))
unfolding response_callbacks are_accepted_responses
response_callbacks_lem [] p = refl
response_callbacks_lem (e ∷ es) p =
    response_callbacks_lem es (response_callback e p)
    ∙ rw (response_callback-error e p)
        (and_swap (are_accepted_responses es) (is_accepted_response e) (p.error == 0))
