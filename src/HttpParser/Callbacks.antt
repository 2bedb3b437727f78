-- ===== src/HttpParser/Callbacks.antt =====
-- What the callbacks leave in the request.
use exhy.Common.Text.{Bytes, codes}
use exhy.Common.{
  Bool, true, false, ◌&&◌, ◌||◌, ◌≡◌, ◌≢◌, refl, ap, ◌∙◌, ◌⊎◌, inl, inr, List, [], ◌∷◌, Option,
  some, ◌==◌, if◌then◌else◌, Bool-cases, ==_iff,
}
use exhy.Http.{chars_to_http_method}
use exhy.Http.Messages.{lower, case_eq, map_find}
use exhy.Http.Headers.{fold, find-set_same, find-set_other}
use exhy.HttpParser.{
  Event, request_method, request_uri, fragment, request_path, query_string, http_version,
  header_done, http_field, starts, Parsed, is_valid, on_request_method, on_request_version,
  on_request_http_field, callback, callbacks,
}

-- The callbacks that set no error.
abbrev pub is_accepted : Event → Bool
is_accepted (request_method at) = is_valid (chars_to_http_method at)
is_accepted (http_version text) = starts text (codes "HTTP/1.1") || starts text (codes "HTTP/1.0")
is_accepted request_uri = true
is_accepted (fragment text) = true
is_accepted (request_path text) = true
is_accepted (query_string text) = true
is_accepted header_done = true
is_accepted (http_field field value) = true

pub are_accepted : List Event → Bool
are_accepted [] = true
are_accepted (e ∷ es) = let rest = are_accepted es in is_accepted e && rest

-- A field that counts as `key` gives it its value.
abbrev pub update : Bytes → Event → Option Bytes → Option Bytes
update key (http_field [] value) v = v
update key (http_field (c ∷ field) value) v = if case_eq (c ∷ field) key then some value else v
update key (request_method at) v = v
update key request_uri v = v
update key (fragment text) v = v
update key (request_path text) v = v
update key (query_string text) v = v
update key (http_version text) v = v
update key header_done v = v

-- The value of the last field that counts as `key`, or what was there.
pub latest : Bytes → List Event → Option Bytes → Option Bytes
latest key [] v = v
latest key (e ∷ es) v = latest key es (update key e v)

case_eq_cases :
    (k j : Bytes)
    → ((case_eq k j ≡ true) × (fold k ≡ fold j)) ⊎ ((case_eq k j ≡ false) × (fold k ≢ fold j))
unfolding case_eq
case_eq_cases [] [] = inl (refl, refl)
case_eq_cases [] (d ∷ ds) = inr (refl, λ e. cc)
case_eq_cases (c ∷ cs) [] = inr (refl, λ e. cc)
case_eq_cases (c ∷ cs) (d ∷ ds) = elim (Bool-cases (lower c == lower d)) [
  | inl h ↦
      let q : lower c ≡ lower d = (==_iff (lower c) (lower d)).0 h in
      elim (case_eq_cases cs ds) [
        | inl (g, e) ↦ inl (rw (case_eq, h) g, cc)
        | inr (g, n) ↦ inr (rw (case_eq, h) g, λ e. n (cc))
      ]
  | inr h ↦ inr (
    rw (case_eq, h) refl,
    λ e. let q : lower c ≡ lower d = cc in cc (h, (==_iff (lower c) (lower d)).1 q),
  )
]

callback-error :
    (e : Event) (p : Parsed) → ((callback e p).error == 0) ≡ (is_accepted e && (p.error == 0))
unfolding callback on_request_method on_request_version on_request_http_field
callback-error (request_method at) p = elim (Bool-cases (is_valid (chars_to_http_method at))) [
  | inl h ↦ rw (callback, on_request_method, h) refl
  | inr h ↦ rw (callback, on_request_method, h) refl
]
callback-error (http_version text) p = elim (Bool-cases (starts text (codes "HTTP/1.1"))) [
  | inl h ↦ rw (callback, on_request_version, h) refl
  | inr h ↦ elim (Bool-cases (starts text (codes "HTTP/1.0"))) [
    | inl g ↦ rw (callback, on_request_version, h, g) refl
    | inr g ↦ rw (callback, on_request_version, h, g) refl
  ]
]
callback-error request_uri p = refl
callback-error (fragment text) p = refl
callback-error (request_path text) p = refl
callback-error (query_string text) p = refl
callback-error header_done p = refl
callback-error (http_field [] value) p = refl
callback-error (http_field (c ∷ field) value) p = refl

callback-headers :
    (key : Bytes) (e : Event) (p : Parsed)
    → map_find key (callback e p).request.headers ≡ update key e (map_find key p.request.headers)
unfolding callback on_request_method on_request_version on_request_http_field
callback-headers key (request_method at) p =
    elim (Bool-cases (is_valid (chars_to_http_method at))) [
      | inl h ↦ rw (callback, on_request_method, h) refl
      | inr h ↦ rw (callback, on_request_method, h) refl
    ]
callback-headers key (http_version text) p = elim (Bool-cases (starts text (codes "HTTP/1.1"))) [
  | inl h ↦ rw (callback, on_request_version, h) refl
  | inr h ↦ elim (Bool-cases (starts text (codes "HTTP/1.0"))) [
    | inl g ↦ rw (callback, on_request_version, h, g) refl
    | inr g ↦ rw (callback, on_request_version, h, g) refl
  ]
]
callback-headers key request_uri p = refl
callback-headers key (fragment text) p = refl
callback-headers key (request_path text) p = refl
callback-headers key (query_string text) p = refl
callback-headers key header_done p = refl
callback-headers key (http_field [] value) p = refl
callback-headers key (http_field (c ∷ field) value) p = elim (case_eq_cases (c ∷ field) key) [
  | inl (h, e) ↦ rw h (find-set_same (c ∷ field) key value p.request.headers e)
  | inr (h, n) ↦ rw h (find-set_other (c ∷ field) key value p.request.headers n)
]

pub and_swap : (a b c : Bool) → (a && (b && c)) ≡ ((b && a) && c)
and_swap true true c = refl
and_swap true false c = refl
and_swap false true c = refl
and_swap false false c = refl

-- After any callbacks, a header has the value of the last field of its name, in whatever case, or the value from
-- before, where fields with an empty name do not count; and there is no error just if there was none before, every
-- method was a known one, and every version was the beginning of HTTP/1.1 or HTTP/1.0: a field with an empty name sets
-- none.
pub callbacks_lem :
    (es : List Event) (p : Parsed) (key : Bytes)
    → (map_find key (callbacks es p).request.headers
        ≡ latest key es (map_find key p.request.headers))
      × (((callbacks es p).error == 0) ≡ (are_accepted es && (p.error == 0)))
unfolding callbacks latest are_accepted
callbacks_lem [] p key = (refl, refl)
callbacks_lem (e ∷ es) p key =
    let (h, r) = callbacks_lem es (callback e p) key in
    (
      h ∙ ap (latest key es) (callback-headers key e p),
      r ∙ rw (callback-error e p) (and_swap (are_accepted es) (is_accepted e) (p.error == 0)),
    )
