-- ===== src/Http/Messages.antt =====
-- exhy/http/http.h and exhy/http/http.cpp: requests and responses, their headers, and how they are printed.
--
-- Text is the list of its bytes, none of them NUL. A map with CaseInsensitiveLess is the list of its entries in order;
-- m_version is an uint8_t, and a status is its code. The query, the body parameters and the cookies of a request are
-- never parsed (initQueryParam, initBodyParam and initCookies do nothing), so the three maps have the same functions.
use exhy.Common.Text.{Bytes, codes}
use exhy.Common.Decimal.{decimal}
use exhy.Common.{
  ℕ, ◌+◌, ◌/◌, ◌%◌, Bool, true, false, not, ◌&&◌, List, [], ◌∷◌, ◌++◌, Option, none, some, ltb, leb,
  ◌==◌, if◌then◌else◌, length,
}
use exhy.Http.{HttpMethod, http_get, http_method_to_string, http_status_to_string}

-- tolower in the C locale.
unfoldable pub lower : ℕ → ℕ
lower c = if leb b'A' c && leb c b'Z' then c + 32 else c

-- strcasecmp(lhs, rhs) < 0.
unfoldable pub key_less : Bytes → Bytes → Bool
key_less [] [] = false
key_less [] (d ∷ ds) = true
key_less (c ∷ cs) [] = false
key_less (c ∷ cs) (d ∷ ds) =
    let rest = key_less cs ds in
    if ltb (lower c) (lower d) then true else if ltb (lower d) (lower c) then false else rest

-- strcasecmp(lhs, rhs) == 0.
unfoldable pub case_eq : Bytes → Bytes → Bool
case_eq [] [] = true
case_eq [] (d ∷ ds) = false
case_eq (c ∷ cs) [] = false
case_eq (c ∷ cs) (d ∷ ds) = let rest = case_eq cs ds in lower c == lower d && rest

abbrev pub MapType : Type 0
MapType = List (Bytes × Bytes)

unfoldable pub map_find : Bytes → MapType → Option Bytes
map_find key [] = none
map_find key ((k, v) ∷ m) =
    let rest = map_find key m in
    if not (key_less k key) && not (key_less key k) then some v else rest

-- m[key] = val: an entry that is equivalent keeps its key.
unfoldable pub map_set : Bytes → Bytes → MapType → MapType
map_set key val [] = (key, val) ∷ []
map_set key val ((k, v) ∷ m) =
    let rest = map_set key val m in
    if key_less key k
    then (key, val) ∷ (k, v) ∷ m
    else if key_less k key
    then (k, v) ∷ rest
    else (k, val) ∷ m

-- m.erase(key): the entries that are equivalent go.
unfoldable pub map_erase : Bytes → MapType → MapType
map_erase key [] = []
map_erase key ((k, v) ∷ m) =
    let rest = map_erase key m in
    if not (key_less k key) && not (key_less key k) then rest else (k, v) ∷ rest

pub record HttpRequest : Type 0 where
  pub method : HttpMethod
  pub version : ℕ
  pub close : Bool
  pub websocket : Bool
  pub path : Bytes
  pub query : Bytes
  pub fragment : Bytes
  pub body : Bytes
  pub headers : MapType
  pub params : MapType
  pub cookies : MapType

abbrev pub new_http_request : ℕ → Bool → HttpRequest
new_http_request version close = record {
  method = http_get;
  version = version;
  close = close;
  websocket = false;
  path = codes "/";
  query = [];
  fragment = [];
  body = [];
  headers = [];
  params = [];
  cookies = [];
}

pub record HttpResponse : Type 0 where
  pub status : ℕ
  pub version : ℕ
  pub close : Bool
  pub websocket : Bool
  pub body : Bytes
  pub reason : Bytes
  pub headers : MapType
  pub cookies : List Bytes

abbrev pub new_http_response : ℕ → Bool → HttpResponse
new_http_response version close = record {
  status = 200;
  version = version;
  close = close;
  websocket = false;
  body = [];
  reason = [];
  headers = [];
  cookies = [];
}

abbrev pub create_response : HttpRequest → HttpResponse
create_response r = new_http_response r.version r.close

abbrev pub value_or : Bytes → Option Bytes → Bytes
value_or def none = def
value_or def (some v) = v

abbrev pub get_header : Bytes → Bytes → HttpRequest → Bytes
get_header key def r = value_or def (map_find key r.headers)

abbrev pub set_header : Bytes → Bytes → HttpRequest → HttpRequest
set_header key val r = record r { headers = map_set key val r.headers }

abbrev pub del_header : Bytes → HttpRequest → HttpRequest
del_header key r = record r { headers = map_erase key r.headers }

abbrev pub has_header : Bytes → HttpRequest → Bool
has_header key r = elim (map_find key r.headers) [ none ↦ false | some v ↦ true ]

-- init: the connection header decides m_close; without one it stays.
unfoldable pub init : HttpRequest → HttpRequest
init r = elim (get_header (codes "connection") [] r) [
  | [] ↦ r
  | c ∷ cs ↦ record r { close = not (case_eq (c ∷ cs) (codes "keep-alive")) }
]

abbrev pub set_redirect : Bytes → HttpResponse → HttpResponse
set_redirect uri r = record r { status = 302; headers = map_set (codes "Location") uri r.headers }

abbrev pub crlf : Bytes
crlf = b'\r' ∷ b'\n' ∷ []

abbrev pub optional : Bytes → Bytes → Bytes
optional mark [] = []
optional mark (c ∷ cs) = mark ++ c ∷ cs

-- setCookie; `time` is what Time2Str makes of `expired`.
abbrev pub set_cookie :
    (ℕ → Bytes) → Bytes → Bytes → ℕ → Bytes → Bytes → Bool → HttpResponse → HttpResponse
set_cookie time key val expired path domain secure r = record r {
  cookies =
      r.cookies
      ++ (key
          ++ codes "="
          ++ val
          ++ (if ltb 0 expired then codes ";expires=" ++ time expired ++ codes " GMT" else [])
          ++ optional (codes ";domain=") domain
          ++ optional (codes ";path=") path
          ++ (if secure then codes ";secure" else []))
        ∷ [];
}

abbrev pub version_text : ℕ → Bytes
version_text v = codes "HTTP/" ++ decimal (v / 16) ++ codes "." ++ decimal (v % 16)

-- The loop over the headers.
unfoldable pub dump_headers : Bool → MapType → Bytes
dump_headers websocket [] = []
dump_headers websocket ((k, v) ∷ m) =
    let rest = dump_headers websocket m in
    if not websocket && case_eq k (codes "connection")
    then rest
    else k ++ codes ": " ++ v ++ crlf ++ rest

abbrev pub dump_connection : Bool → Bool → Bytes
dump_connection true close = []
dump_connection false close =
    codes "connection: " ++ (if close then codes "close" else codes "keep-alive") ++ crlf

-- The end of both dumps, with the name that each gives to the length.
abbrev pub dump_body : Bytes → Bytes → Bytes
dump_body name [] = crlf
dump_body name (c ∷ body) =
    name ++ codes ": " ++ decimal (length (c ∷ body)) ++ crlf ++ crlf ++ c ∷ body

unfoldable pub dump_request : HttpRequest → Bytes
dump_request r =
    codes (http_method_to_string r.method)
    ++ codes " "
    ++ r.path
    ++ optional (codes "?") r.query
    ++ optional (codes "#") r.fragment
    ++ codes " "
    ++ version_text r.version
    ++ crlf
    ++ dump_connection r.websocket r.close
    ++ dump_headers r.websocket r.headers
    ++ dump_body (codes "content-length2") r.body

unfoldable pub dump_cookies : List Bytes → Bytes
dump_cookies [] = []
dump_cookies (c ∷ cs) = codes "Set-Cookie: " ++ c ++ crlf ++ dump_cookies cs

abbrev pub reason_text : Bytes → ℕ → Bytes
reason_text [] status = codes (http_status_to_string status)
reason_text (c ∷ cs) status = c ∷ cs

unfoldable pub dump_response : HttpResponse → Bytes
dump_response r =
    version_text r.version
    ++ codes " "
    ++ decimal r.status
    ++ codes " "
    ++ reason_text r.reason r.status
    ++ crlf
    ++ dump_headers r.websocket r.headers
    ++ dump_cookies r.cookies
    ++ dump_connection r.websocket r.close
    ++ dump_body (codes "content-length") r.body
