-- ===== src/Http/Clean.antt =====
-- No text that the dumps write themselves has a carriage return.
use Prim.Native.String.{String}
use exhy.Common.Text.{Bytes, codes}
use exhy.Common.Decimal.{decimal, IsDigit, decimal-IsDigit}
use exhy.Common.Alls.{All-weaken}
use exhy.Common.{
  ℕ, zero, suc, ◌/◌, ◌%◌, Bool, true, false, not, ◌&&◌, ◌≡◌, refl, inl, inr, List, [], ◌∷◌, ◌++◌,
  ◌==◌, arith, Bool-cases, none, some, get_elem?,
}
use exhy.Http.{
  HttpMethod, method_strings, http_method_map, method_number, http_method_to_string,
  http_status_to_string, http_status_map, status_message,
}
use exhy.Http.Messages.{HttpRequest, optional, version_text, reason_text}
use exhy.Http.Framing.{IsLine}

pub IsLine-append : (l k : Bytes) → IsLine l → IsLine k → IsLine (l ++ k)
IsLine-append [] k h g = g
IsLine-append (c ∷ l) k (h, hs) g = (h, IsLine-append l k hs g)

pub decimal-IsLine : (n : ℕ) → IsLine (decimal n)
decimal-IsLine n =
    All-weaken IsDigit (λ c. (c == b'\r') ≡ false) (decimal n) (λ c h. ground arith)
      (decimal-IsDigit n)

unfoldable pub is_line : Bytes → Bool
is_line [] = true
is_line (c ∷ l) = let rest = is_line l in not (c == b'\r') && rest

pub is_line_lem : (l : Bytes) → is_line l ≡ true → IsLine l
unfolding is_line
is_line_lem [] h = tt
is_line_lem (c ∷ l) h = (ground arith, is_line_lem l (ground arith))

rows_are_lines : List (ℕ × String) → Bool
rows_are_lines [] = true
rows_are_lines (row ∷ rows) = let rest = rows_are_lines rows in is_line (codes row.1) && rest

status_message-IsLine :
    (s : ℕ) (rows : List (ℕ × String))
    → rows_are_lines rows ≡ true
    → is_line (codes (status_message s rows)) ≡ true
unfolding rows_are_lines status_message is_line
status_message-IsLine s [] h = refl
status_message-IsLine s (row ∷ rows) h =
    let ih = status_message-IsLine s rows (ground arith) in
    elim (Bool-cases (row.0 == s)) [
      | inl k ↦ rw (status_message, k) (ground arith)
      | inr k ↦ rw (status_message, k) ih
    ]

table_are_lines : rows_are_lines http_status_map ≡ true
unfolding rows_are_lines is_line
table_are_lines = refl

reason_text-IsLine : (reason : Bytes) (s : ℕ) → IsLine reason → IsLine (reason_text reason s)
unfolding http_status_to_string
reason_text-IsLine [] s h =
    is_line_lem (codes (status_message s http_status_map))
      (status_message-IsLine s http_status_map table_are_lines)
reason_text-IsLine (c ∷ cs) s h = h

strings_are_lines : List String → Bool
strings_are_lines [] = true
strings_are_lines (s ∷ ss) = let rest = strings_are_lines ss in is_line (codes s) && rest

get_elem?-IsLine :
    (ss : List String) (i : ℕ)
    → strings_are_lines ss ≡ true
    → is_line (codes (elim (get_elem? ss i) [ none ↦ "<unknow>" | some s ↦ s ])) ≡ true
unfolding strings_are_lines is_line
get_elem?-IsLine [] i h = refl
get_elem?-IsLine (s ∷ ss) zero h = ground arith
get_elem?-IsLine (s ∷ ss) (suc i) h = get_elem?-IsLine ss i (ground arith)

methods_are_lines : strings_are_lines (method_strings http_method_map) ≡ true
unfolding strings_are_lines is_line method_strings
methods_are_lines = refl

method_text-IsLine : (m : HttpMethod) → IsLine (codes (http_method_to_string m))
unfolding http_method_to_string
method_text-IsLine m =
    is_line_lem (codes (http_method_to_string m))
      (get_elem?-IsLine (method_strings http_method_map) (method_number m) methods_are_lines)

version_text-IsLine : (v : ℕ) → IsLine (version_text v)
unfolding is_line
version_text-IsLine v =
    let http = is_line_lem (codes "HTTP/") refl in
    let major = IsLine-append (codes "HTTP/") (decimal (v / 16)) http (decimal-IsLine (v / 16)) in
    let dot = IsLine-append (codes "HTTP/" ++ decimal (v / 16)) (codes ".") major (refl, tt) in
    IsLine-append (codes "HTTP/" ++ decimal (v / 16) ++ codes ".") (decimal (v % 16)) dot
      (decimal-IsLine (v % 16))

space-IsLine : (l k : Bytes) → IsLine l → IsLine k → IsLine (l ++ codes " " ++ k)
space-IsLine l k h g = IsLine-append (l ++ codes " ") k (IsLine-append l (codes " ") h (refl, tt)) g

optional-IsLine : (mark l : Bytes) → IsLine mark → IsLine l → IsLine (optional mark l)
optional-IsLine mark [] h g = tt
optional-IsLine mark (c ∷ l) h g = IsLine-append mark (c ∷ l) h g

pub status_text-IsLine :
    (v s : ℕ) (reason : Bytes)
    → IsLine reason
    → IsLine (version_text v ++ codes " " ++ decimal s ++ codes " " ++ reason_text reason s)
status_text-IsLine v s reason h =
    let status =
      space-IsLine (version_text v) (decimal s) (version_text-IsLine v) (decimal-IsLine s) in
    space-IsLine (version_text v ++ codes " " ++ decimal s) (reason_text reason s) status
      (reason_text-IsLine reason s h)

pub request_text-IsLine :
    (r : HttpRequest)
    → IsLine r.path
    → IsLine r.query
    → IsLine r.fragment
    → IsLine (
        codes (http_method_to_string r.method)
        ++ codes " "
        ++ r.path
        ++ optional (codes "?") r.query
        ++ optional (codes "#") r.fragment
        ++ codes " "
        ++ version_text r.version)
request_text-IsLine r hp hq hf =
    let method = codes (http_method_to_string r.method) in
    let mark = optional (codes "?") r.query in
    let hash = optional (codes "#") r.fragment in
    let path = space-IsLine method r.path (method_text-IsLine r.method) hp in
    let query = optional-IsLine (codes "?") r.query (refl, tt) hq in
    let fragment = optional-IsLine (codes "#") r.fragment (refl, tt) hf in
    let two = IsLine-append (method ++ codes " " ++ r.path) mark path query in
    let three = IsLine-append (method ++ codes " " ++ r.path ++ mark) hash two fragment in
    space-IsLine (method ++ codes " " ++ r.path ++ mark ++ hash) (version_text r.version) three
      (version_text-IsLine r.version)
