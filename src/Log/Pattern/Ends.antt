-- ===== src/Log/Pattern/Ends.antt =====
-- The parser of a pattern ends.
use exhy.Common.{
  ℕ, zero, suc, ◌<◌, ◌≡◌, refl, some, Bool-cases, inl, inr, [], ◌∷◌, ◌==◌, arith, length, drop,
  length-drop,
}
use exhy.Log.{Bytes}
use exhy.Log.Pattern.{
  LogFormatter, Parse, parse_loop, scan_name, starts_percent, push_item, push_error, append,
  make_items, no_parse, new_log_formatter,
}

parse_loop-terminates :
    (fuel : ℕ) (cs : Bytes) (s : Parse)
    → length cs < fuel
    → (t : Parse) × (parse_loop fuel cs s ≡ some t)
unfolding parse_loop
parse_loop-terminates zero cs s h = elim h [ ]
parse_loop-terminates (suc fuel) [] s h = (s, refl)
parse_loop-terminates (suc fuel) (c ∷ cs) s h =
    let f = scan_name cs cs 0 [] in
    let n = parse_loop-terminates fuel cs (append c s) (omega arith) in
    let p = parse_loop-terminates fuel cs (append b'%' s) (omega arith) in
    let i =
      parse_loop-terminates fuel (drop f.n cs) (push_item f s)
        (omega (arith, length-drop f.n cs)) in
    let e = parse_loop-terminates fuel cs (push_error f s) (omega arith) in
    elim (Bool-cases (c == b'%')) [
      | inr k ↦ rw (parse_loop, k) n
      | inl k ↦ elim (Bool-cases (starts_percent cs)) [
        | inl q ↦ rw (parse_loop, k, q) p
        | inr q ↦ elim (Bool-cases (f.fmt_status == 0)) [
          | inl z ↦ rw (parse_loop, k, q, z) i
          | inr z ↦ rw (parse_loop, k, q, z) e
        ]
      ]
    ]

-- The constructor makes a formatter of every pattern: the loop of init, which goes on from where an item ends,
-- passes the whole pattern within one turn more than the pattern has bytes.
pub new_log_formatter-terminates :
    (pattern : Bytes) → (f : LogFormatter) × (new_log_formatter pattern ≡ some f)
unfolding new_log_formatter
new_log_formatter-terminates pattern =
    let (s, e) = parse_loop-terminates (suc (length pattern)) pattern no_parse (omega arith) in
    (make_items pattern s, rw e refl)
