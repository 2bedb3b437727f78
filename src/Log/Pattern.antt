-- ===== src/Log/Pattern.antt =====
-- LogFormatter: the parser of a pattern, and format.
--
-- The outer loop stands on the text from `i` on; it is on fuel, since it goes on from where an item ends. The inner
-- loop walks the text behind the '%', with `n` and `fmt_begin` counted from there.
pub mod Scan
pub mod Print
pub mod Ends
use exhy.Common.{
  ℕ, zero, suc, ◌+◌, ◌-◌, Bool, true, false, not, ◌&&◌, ◌||◌, List, [], ◌∷◌, ◌++◌, Option, none,
  some, ◌>>=◌, leb, ◌==◌, length, take, drop,
}
use exhy.Log.{Bytes, codes, LogLevel, LogEvent, FormatItem, string_item, format_items, make_item}

-- isalpha in the C locale.
unfoldable pub is_alpha : ℕ → Bool
is_alpha c = leb b'A' c && leb c b'Z' || leb b'a' c && leb c b'z'

-- The test of the first `if`, beside fmt_status.
unfoldable pub ends_name : ℕ → Bool
ends_name c = not (is_alpha c) && not (c == b'{') && not (c == b'}')

-- A tuple of `vec`: the kind 0 is text, 1 an item.
pub record Part : Type 0 where
  pub str : Bytes
  pub fmt : Bytes
  pub kind : ℕ

-- What the inner loop leaves in its variables.
pub record Found : Type 0 where
  pub fmt_status : ℕ
  pub str : Bytes
  pub fmt : Bytes
  pub n : ℕ

-- `str` after ++n: the text to the end when the end is reached and no name was cut.
abbrev pub at_end : Bytes → Bytes → Bytes → Bytes
at_end rest [] [] = rest
at_end rest (c ∷ cs) str = str
at_end rest [] (c ∷ str) = c ∷ str

-- The loop with fmt_status 1.
unfoldable pub scan_fmt : Bytes → Bytes → ℕ → ℕ → Bytes → Found
scan_fmt rest [] n fmt_begin str = record { fmt_status = 1; str = str; fmt = []; n = n }
scan_fmt rest (c ∷ cs) n fmt_begin str = elim (c == b'}') [
  | true ↦ record {
    fmt_status = 0;
    str = str;
    fmt = take (n - fmt_begin - 1) (drop (fmt_begin + 1) rest);
    n = n + 1;
  }
  | false ↦ scan_fmt rest cs (n + 1) fmt_begin (at_end rest cs str)
]

-- The loop with fmt_status 0.
unfoldable pub scan_name : Bytes → Bytes → ℕ → Bytes → Found
scan_name rest [] n str = record { fmt_status = 0; str = str; fmt = []; n = n }
scan_name rest (c ∷ cs) n str = elim (ends_name c) [
  | true ↦ record { fmt_status = 0; str = take n rest; fmt = []; n = n }
  | false ↦ elim (c == b'{') [
    | true ↦ scan_fmt rest cs (n + 1) n (take n rest)
    | false ↦ scan_name rest cs (n + 1) (at_end rest cs str)
  ]
]

-- nstr, vec and m_error.
pub record Parse : Type 0 where
  pub nstr : Bytes
  pub vec : List Part
  pub error : Bool

abbrev pub text_part : Bytes → Part
text_part s = record { str = s; fmt = []; kind = 0 }

unfoldable pub flush : Bytes → List Part → List Part
flush [] vec = vec
flush (c ∷ nstr) vec = vec ++ text_part (c ∷ nstr) ∷ []

abbrev pub append : ℕ → Parse → Parse
append c s = record s { nstr = s.nstr ++ c ∷ [] }

-- The item found ends the text before it.
unfoldable pub push_item : Found → Parse → Parse
push_item f s = record s {
  nstr = [];
  vec = flush s.nstr s.vec ++ record { str = f.str; fmt = f.fmt; kind = 1 } ∷ [];
}

abbrev pub push_error : Found → Parse → Parse
push_error f s = record s {
  vec = s.vec ++ record { str = codes "<<pattern_error>>"; fmt = f.fmt; kind = 0 } ∷ [];
  error = true;
}

abbrev pub starts_percent : Bytes → Bool
starts_percent [] = false
starts_percent (c ∷ cs) = c == b'%'

-- `continue` on "%%" passes the first '%' alone; an unfinished format goes on behind the '%'.
unfoldable pub parse_loop : ℕ → Bytes → Parse → Option Parse
parse_loop zero cs s = none
parse_loop (suc fuel) [] s = some s
parse_loop (suc fuel) (c ∷ cs) s = elim (c == b'%') [
  | false ↦ parse_loop fuel cs (append c s)
  | true ↦ elim (starts_percent cs) [
    | true ↦ parse_loop fuel cs (append b'%' s)
    | false ↦
        let f = scan_name cs cs 0 [] in
        elim (f.fmt_status == 0) [
          | true ↦ parse_loop fuel (drop f.n cs) (push_item f s)
          | false ↦ parse_loop fuel cs (push_error f s)
        ]
  ]
]

pub record LogFormatter : Type 0 where
  pub pattern : Bytes
  pub items : List FormatItem
  pub error : Bool

abbrev pub error_item : Bytes → FormatItem
error_item str = string_item (codes "<<error_format %" ++ str ++ codes ">>")

unfoldable pub add_part : Part → List FormatItem × Bool → List FormatItem × Bool
add_part p (items, error) = elim (p.kind == 0) [
  | true ↦ (items ++ string_item p.str ∷ [], error)
  | false ↦ elim (make_item p.str p.fmt) [
    | none ↦ (items ++ error_item p.str ∷ [], true)
    | some i ↦ (items ++ i ∷ [], error)
  ]
]

unfoldable pub add_parts : List Part → List FormatItem × Bool → List FormatItem × Bool
add_parts [] s = s
add_parts (p ∷ ps) s = add_parts ps (add_part p s)

abbrev pub no_parse : Parse
no_parse = record { nstr = []; vec = []; error = false }

unfoldable pub make_items : Bytes → Parse → LogFormatter
make_items pattern s =
    let made : List FormatItem × Bool = add_parts (flush s.nstr s.vec) ([], s.error) in
    record { pattern = pattern; items = made.0; error = made.1 }

-- The constructor with init. A turn of the loop passes a byte at least, and the last one only sees the end.
unfoldable pub new_log_formatter : Bytes → Option LogFormatter
new_log_formatter pattern = do
  s ← parse_loop (suc (length pattern)) pattern no_parse
  some (make_items pattern s)

module _ (strftime : Bytes → ℕ → Bytes) where
  unfoldable pub format : LogFormatter → LogLevel → LogEvent → Bytes
  format f level event = format_items strftime f.items level event
