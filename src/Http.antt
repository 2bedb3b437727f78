-- ===== src/Http.antt =====
-- exhy/http/http.h and exhy/http/http.cpp: the tables of methods and status codes, and the conversions
-- between a method and its name.
--
-- std::string is the native String; strcmp and strncmp are equality and the test for a prefix on strings
-- without NUL.
pub mod Names
pub mod Messages
pub mod Headers
pub mod Framing
pub mod Lines
pub mod Clean
pub mod Heads
mod Runs
use Prim.Native.String.{String}
use text.Mathlib.Text.{starts_with, ◌==◌ as str_eq}
use exhy.Common.{ℕ, Bool, List, [], ◌∷◌, Option, none, some, if◌then◌else◌, ◌==◌, get_elem?}

pub data HttpMethod : Type 0 where
  http_delete http_get http_head http_post http_put : HttpMethod
  http_connect http_options http_trace http_copy http_lock : HttpMethod
  http_mkcol http_move http_propfind http_proppatch http_search : HttpMethod
  http_unlock http_bind http_rebind http_unbind http_acl : HttpMethod
  http_report http_mkactivity http_checkout http_merge http_msearch : HttpMethod
  http_notify http_subscribe http_unsubscribe http_patch http_purge : HttpMethod
  http_mkcalendar http_link http_unlink http_source invalid_method : HttpMethod

-- The rows of HTTP_METHOD_MAP, in order.
abbrev pub http_method_map : List (HttpMethod × String)
http_method_map =
    (http_delete, "DELETE")
    ∷ (http_get, "GET")
    ∷ (http_head, "HEAD")
    ∷ (http_post, "POST")
    ∷ (http_put, "PUT")
    ∷ (http_connect, "CONNECT")
    ∷ (http_options, "OPTIONS")
    ∷ (http_trace, "TRACE")
    ∷ (http_copy, "COPY")
    ∷ (http_lock, "LOCK")
    ∷ (http_mkcol, "MKCOL")
    ∷ (http_move, "MOVE")
    ∷ (http_propfind, "PROPFIND")
    ∷ (http_proppatch, "PROPPATCH")
    ∷ (http_search, "SEARCH")
    ∷ (http_unlock, "UNLOCK")
    ∷ (http_bind, "BIND")
    ∷ (http_rebind, "REBIND")
    ∷ (http_unbind, "UNBIND")
    ∷ (http_acl, "ACL")
    ∷ (http_report, "REPORT")
    ∷ (http_mkactivity, "MKACTIVITY")
    ∷ (http_checkout, "CHECKOUT")
    ∷ (http_merge, "MERGE")
    ∷ (http_msearch, "M-SEARCH")
    ∷ (http_notify, "NOTIFY")
    ∷ (http_subscribe, "SUBSCRIBE")
    ∷ (http_unsubscribe, "UNSUBSCRIBE")
    ∷ (http_patch, "PATCH")
    ∷ (http_purge, "PURGE")
    ∷ (http_mkcalendar, "MKCALENDAR")
    ∷ (http_link, "LINK")
    ∷ (http_unlink, "UNLINK")
    ∷ (http_source, "SOURCE")
    ∷ []

-- The numbers of the enumeration.
pub method_number : HttpMethod → ℕ
method_number http_delete = 0
method_number http_get = 1
method_number http_head = 2
method_number http_post = 3
method_number http_put = 4
method_number http_connect = 5
method_number http_options = 6
method_number http_trace = 7
method_number http_copy = 8
method_number http_lock = 9
method_number http_mkcol = 10
method_number http_move = 11
method_number http_propfind = 12
method_number http_proppatch = 13
method_number http_search = 14
method_number http_unlock = 15
method_number http_bind = 16
method_number http_rebind = 17
method_number http_unbind = 18
method_number http_acl = 19
method_number http_report = 20
method_number http_mkactivity = 21
method_number http_checkout = 22
method_number http_merge = 23
method_number http_msearch = 24
method_number http_notify = 25
method_number http_subscribe = 26
method_number http_unsubscribe = 27
method_number http_patch = 28
method_number http_purge = 29
method_number http_mkcalendar = 30
method_number http_link = 31
method_number http_unlink = 32
method_number http_source = 33
method_number invalid_method = 34

pub method_strings : List (HttpMethod × String) → List String
method_strings [] = []
method_strings (row ∷ rows) = row.1 ∷ method_strings rows

-- s_method_string[idx], with the test of idx against the table's length.
pub http_method_to_string : HttpMethod → String
http_method_to_string m = elim (get_elem? (method_strings http_method_map) (method_number m)) [
  | none ↦ "<unknow>"
  | some s ↦ s
]

pub first_equal : String → List (HttpMethod × String) → HttpMethod
first_equal m [] = invalid_method
first_equal m (row ∷ rows) = let rest = first_equal m rows in if str_eq row.1 m then row.0 else rest

pub string_to_http_method : String → HttpMethod
string_to_http_method m = first_equal m http_method_map

pub first_prefix : String → List (HttpMethod × String) → HttpMethod
first_prefix m [] = invalid_method
first_prefix m (row ∷ rows) =
    let rest = first_prefix m rows in if starts_with m row.1 then row.0 else rest

pub chars_to_http_method : String → HttpMethod
chars_to_http_method m = first_prefix m http_method_map

-- The rows of HTTP_STATUS_MAP, in order; a status is its code.
abbrev pub http_status_map : List (ℕ × String)
http_status_map =
    (100, "Continue")
    ∷ (101, "Switching Protocols")
    ∷ (102, "Processing")
    ∷ (200, "OK")
    ∷ (201, "Created")
    ∷ (202, "Accepted")
    ∷ (203, "Non-Authoritative Information")
    ∷ (204, "No Content")
    ∷ (205, "Reset Content")
    ∷ (206, "Partial Content")
    ∷ (207, "Multi-Status")
    ∷ (208, "Already Reported")
    ∷ (226, "IM Used")
    ∷ (300, "Multiple Choices")
    ∷ (301, "Moved Permanently")
    ∷ (302, "Found")
    ∷ (303, "See Other")
    ∷ (304, "Not Modified")
    ∷ (305, "Use Proxy")
    ∷ (307, "Temporary Redirect")
    ∷ (308, "Permanent Redirect")
    ∷ (400, "Bad Request")
    ∷ (401, "Unauthorized")
    ∷ (402, "Payment Required")
    ∷ (403, "Forbidden")
    ∷ (404, "Not Found")
    ∷ (405, "Method Not Allowed")
    ∷ (406, "Not Acceptable")
    ∷ (407, "Proxy Authentication Required")
    ∷ (408, "Request Timeout")
    ∷ (409, "Conflict")
    ∷ (410, "Gone")
    ∷ (411, "Length Required")
    ∷ (412, "Precondition Failed")
    ∷ (413, "Payload Too Large")
    ∷ (414, "URI Too Long")
    ∷ (415, "Unsupported Media Type")
    ∷ (416, "Range Not Satisfiable")
    ∷ (417, "Expectation Failed")
    ∷ (421, "Misdirected Request")
    ∷ (422, "Unprocessable Entity")
    ∷ (423, "Locked")
    ∷ (424, "Failed Dependency")
    ∷ (426, "Upgrade Required")
    ∷ (428, "Precondition Required")
    ∷ (429, "Too Many Requests")
    ∷ (431, "Request Header Fields Too Large")
    ∷ (451, "Unavailable For Legal Reasons")
    ∷ (500, "Internal Server Error")
    ∷ (501, "Not Implemented")
    ∷ (502, "Bad Gateway")
    ∷ (503, "Service Unavailable")
    ∷ (504, "Gateway Timeout")
    ∷ (505, "HTTP Version Not Supported")
    ∷ (506, "Variant Also Negotiates")
    ∷ (507, "Insufficient Storage")
    ∷ (508, "Loop Detected")
    ∷ (510, "Not Extended")
    ∷ (511, "Network Authentication Required")
    ∷ []

pub status_message : ℕ → List (ℕ × String) → String
status_message s [] = "<unknow>"
status_message s (row ∷ rows) =
    let rest = status_message s rows in if row.0 == s then row.1 else rest

pub http_status_to_string : ℕ → String
http_status_to_string s = status_message s http_status_map
