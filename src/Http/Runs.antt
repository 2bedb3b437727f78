-- ===== src/Http/Runs.antt =====
-- Tests of the tables, the headers and the dumps, and the theorems at concrete inputs.
use exhy.Common.Text.{codes}
use exhy.Common.Decimal.{decimal, number}
use exhy.Common.{true, false, ◌≡◌, ◌≢◌, refl, ◌⊎◌, [], ◌∷◌, arith}
use exhy.Http.{http_method_to_string, string_to_http_method, http_msearch, chars_to_http_method}
use exhy.Http.Names.{http_method_round}
use exhy.Http.Messages.{
  lower, key_less, map_find, map_set, map_erase, HttpRequest, HttpResponse, new_http_request,
  new_http_response, get_header, set_header, del_header, set_cookie, dump_request, dump_response,
  init,
}
use exhy.Http.Clean.{is_line, is_line_lem}
use exhy.Http.Headers.{fold, header_lem}
use exhy.Http.Framing.{read_head}
use exhy.Http.Lines.{response_lines, request_lines}
use exhy.Http.Heads.{dump_response-lines, dump_request-lines}

abbrev a_request : HttpRequest
a_request = record (new_http_request 17 true) {
  query = codes "x=1";
  body = codes "hi";
  headers = (codes "Host", codes "a") ∷ [];
}

abbrev a_response : HttpResponse
a_response =
    record (set_cookie (λ n. []) (codes "k") (codes "v") 0 [] [] true
      (new_http_response 17 false)) { body = codes "abc" }

http_method_round_example :
    (string_to_http_method (http_method_to_string http_msearch) ≡ http_msearch)
    × (chars_to_http_method (http_method_to_string http_msearch) ≡ http_msearch)
http_method_round_example = http_method_round http_msearch

header_lem_example :
    ((fold (codes "HOST") ≡ fold (codes "host"))
      × (get_header (codes "host") [] (set_header (codes "HOST") (codes "b") a_request) ≡ codes "b")
      × (get_header (codes "host") [] (del_header (codes "HOST") a_request) ≡ []))
    ⊎ ((fold (codes "HOST") ≢ fold (codes "host"))
        × (get_header (codes "host") [] (set_header (codes "HOST") (codes "b") a_request)
            ≡ get_header (codes "host") [] a_request)
        × (get_header (codes "host") [] (del_header (codes "HOST") a_request)
            ≡ get_header (codes "host") [] a_request))
header_lem_example = header_lem a_request (codes "HOST") (codes "host") (codes "b") []

request_runs :
    dump_request a_request
    ≡ codes "GET /?x=1 HTTP/1.1\r\nconnection: close\r\nHost: a\r\ncontent-length2: 2\r\n\r\nhi"
unfolding dump_request http_method_to_string exhy.Http.method_strings exhy.Http.method_number
    decimal exhy.Http.Messages.dump_headers exhy.Http.Messages.case_eq lower
request_runs = refl

response_runs :
    dump_response a_response
    ≡ codes
        "HTTP/1.1 200 OK\r\nSet-Cookie: k=v;secure\r\nconnection: keep-alive\r\ncontent-length: 3\r\n\r\nabc"
unfolding dump_response decimal exhy.Http.http_status_to_string exhy.Http.status_message
    exhy.Http.Messages.dump_headers exhy.Http.Messages.dump_cookies
response_runs = refl

dump_response-lines_example :
    (read_head [] (dump_response a_response) ≡ (response_lines a_response, codes "abc"))
    × (number 0 (decimal 3) ≡ 3)
unfolding is_line
dump_response-lines_example =
    dump_response-lines a_response (tt, tt, ((is_line_lem (codes "k=v;secure") refl), tt))
      (omega arith)

dump_request-lines_example :
    (read_head [] (dump_request a_request) ≡ (request_lines a_request, codes "hi"))
    × (number 0 (decimal 2) ≡ 2)
unfolding is_line
dump_request-lines_example =
    dump_request-lines a_request
      (
        is_line_lem (codes "/") refl,
        is_line_lem (codes "x=1") refl,
        tt,
        ((is_line_lem (codes "Host") refl, is_line_lem (codes "a") refl), tt),
      )
      (omega arith)
