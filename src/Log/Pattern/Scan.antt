-- ===== src/Log/Pattern/Scan.antt =====
-- Patterns as people write them, as tokens, and what the parser's loops do on them.
use exhy.Common.{
  ℕ, suc, ◌+◌, ◌-◌, ◌≡◌, ◌≢◌, refl, sym, ap, ◌∙◌, true, false, List, [], ◌∷◌, ◌++◌, ◌==◌, arith,
  length, take, drop, All, append-nil, append_assoc, length-append, take-append_len,
  drop-append_len, drop-drop, take_all,
}
use exhy.Log.{Bytes}
use exhy.Log.Pattern.{
  is_alpha, ends_name, Found, scan_fmt, scan_name, Parse, append, push_item, push_error,
  starts_percent, parse_loop, at_end,
}

-- Text, `%name` and `%name{fmt}`.
pub data Token : Type 0 where
  plain : Bytes → Token
  named : Bytes → Token
  formatted : Bytes → Bytes → Token

abbrev pub print : List Token → Bytes
print [] = []
print (plain t ∷ ts) = t ++ print ts
print (named k ∷ ts) = b'%' ∷ (k ++ print ts)
print (formatted k f ∷ ts) = b'%' ∷ (k ++ b'{' ∷ (f ++ b'}' ∷ print ts))

abbrev pub IsAlpha : Bytes → Type 0
IsAlpha k = All (λ c. is_alpha c ≡ true) k

abbrev pub Lacks : ℕ → Bytes → Type 0
Lacks d t = All (λ c. (c == d) ≡ false) t

-- A name without a format ends here.
abbrev pub Ends : Bytes → Type 0
Ends [] = Unit
Ends (c ∷ cs) = ends_name c ≡ true

abbrev pub IsPattern : List Token → Type 0
IsPattern [] = Unit
IsPattern (plain t ∷ ts) = Lacks b'%' t × IsPattern ts
IsPattern (named k ∷ ts) = (k ≢ []) × IsAlpha k × Ends (print ts) × IsPattern ts
IsPattern (formatted k f ∷ ts) = IsAlpha k × Lacks b'}' f × IsPattern ts

pub at_end_inner :
    (rest f tail : Bytes) (c : ℕ) (str : Bytes) → at_end rest (f ++ c ∷ tail) str ≡ str
at_end_inner rest [] tail c str = refl
at_end_inner rest (d ∷ f) tail c str = refl

pub scan_fmt_lem :
    (rest f tail : Bytes) (n b : ℕ) (str : Bytes)
    → Lacks b'}' f
    → scan_fmt rest (f ++ b'}' ∷ tail) n b str ≡ record {
      fmt_status = 0;
      str = str;
      fmt = take (n + length f - b - 1) (drop (b + 1) rest);
      n = n + length f + 1;
    }
unfolding scan_fmt
scan_fmt_lem rest [] tail n b str h = let e : n + 0 ≡ n = omega arith in rw e refl
scan_fmt_lem rest (c ∷ f) tail n b str (h, hs) =
    let e : n + suc (length f) ≡ n + 1 + length f = omega arith in
    rw (scan_fmt, h, at_end_inner rest f tail b'}' str, e)
      (scan_fmt_lem rest f tail (n + 1) b str hs)

pub is_alpha-ends_name : (c : ℕ) → is_alpha c ≡ true → (ends_name c ≡ false) × ((c == b'{') ≡ false)
unfolding is_alpha ends_name
is_alpha-ends_name c h = ground arith

pub scan_name-alpha :
    (rest cs : Bytes) (c n : ℕ) (str : Bytes)
    → is_alpha c ≡ true
    → scan_name rest (c ∷ cs) n str ≡ scan_name rest cs (n + 1) (at_end rest cs str)
unfolding scan_name
scan_name-alpha rest cs c n str h = let (e, b) = is_alpha-ends_name c h in rw (scan_name, e, b) refl

pub scan_name-formatted :
    (rest k more : Bytes) (n : ℕ)
    → IsAlpha k
    → scan_name rest (k ++ b'{' ∷ more) n []
      ≡ scan_fmt rest more (n + length k + 1) (n + length k) (take (n + length k) rest)
unfolding scan_name ends_name is_alpha
scan_name-formatted rest [] more n h = let e : n + 0 ≡ n = omega arith in rw e refl
scan_name-formatted rest (c ∷ k) more n (h, hs) =
    let e : n + suc (length k) ≡ n + 1 + length k = omega arith in
    scan_name-alpha rest (k ++ b'{' ∷ more) c n [] h
    ∙ rw (at_end_inner rest k more b'{' [], e) (scan_name-formatted rest k more (n + 1) hs)

pub scan_name-ends :
    (rest tail : Bytes) (c n : ℕ)
    → ends_name c ≡ true
    → scan_name rest (c ∷ tail) n [] ≡ record { fmt_status = 0; str = take n rest; fmt = []; n = n }
unfolding scan_name
scan_name-ends rest tail c n h = rw (scan_name, h) refl

pub scan_name-named :
    (rest k tail : Bytes) (n : ℕ)
    → length rest ≡ n + length (k ++ tail)
    → k ≢ []
    → IsAlpha k
    → Ends tail
    → scan_name rest (k ++ tail) n []
      ≡ record { fmt_status = 0; str = take (n + length k) rest; fmt = []; n = n + length k }
unfolding scan_name
scan_name-named rest [] tail n e ne h ends = absurd (ne refl)
scan_name-named rest (c ∷ []) [] n e ne h ends =
    scan_name-alpha rest [] c n [] h.0 ∙ rw (take_all (n + 1) rest (omega arith)) refl
scan_name-named rest (c ∷ []) (d ∷ tail) n e ne h ends =
    scan_name-alpha rest (d ∷ tail) c n [] h.0 ∙ scan_name-ends rest tail d (n + 1) ends
scan_name-named rest (c ∷ d ∷ k) tail n e ne h ends =
    let i : n + suc (suc (length k)) ≡ n + 1 + suc (length k) = omega arith in
    scan_name-alpha rest (d ∷ (k ++ tail)) c n [] h.0
    ∙ rw i (scan_name-named rest (d ∷ k) tail (n + 1) (omega arith) (λ p. cc) h.1 ends)

pub parse_text :
    (t tail : Bytes) (fuel : ℕ) (s : Parse)
    → Lacks b'%' t
    → parse_loop (length t + fuel) (t ++ tail) s
      ≡ parse_loop fuel tail (record s { nstr = s.nstr ++ t })
unfolding parse_loop
parse_text [] tail fuel s h =
    let e : 0 + fuel ≡ fuel = omega arith in rw (e, append-nil s.nstr) refl
parse_text (c ∷ t) tail fuel s (h, hs) =
    let e : suc (length t) + fuel ≡ suc (length t + fuel) = omega arith in
    rw (e, parse_loop, h)
      (parse_text t tail fuel (append c s) hs ∙ rw (append_assoc s.nstr (c ∷ []) t) refl)

pub is_alpha-not_percent : (c : ℕ) → is_alpha c ≡ true → (c == b'%') ≡ false
unfolding is_alpha
is_alpha-not_percent c h = ground arith

pub starts_percent-formatted :
    (k more : Bytes) → IsAlpha k → starts_percent (k ++ b'{' ∷ more) ≡ false
starts_percent-formatted [] more h = refl
starts_percent-formatted (c ∷ k) more (h, hs) = is_alpha-not_percent c h

pub starts_percent-named :
    (k tail : Bytes) → k ≢ [] → IsAlpha k → starts_percent (k ++ tail) ≡ false
starts_percent-named [] tail ne h = absurd (ne refl)
starts_percent-named (c ∷ k) tail ne (h, hs) = is_alpha-not_percent c h

-- What the inner loop leaves of an item.
abbrev pub item_found : Bytes → Bytes → ℕ → Found
item_found str fmt n = record { fmt_status = 0; str = str; fmt = fmt; n = n }

pub parse_item :
    (cs : Bytes) (fuel : ℕ) (s : Parse) (str fmt : Bytes) (n : ℕ)
    → starts_percent cs ≡ false
    → scan_name cs cs 0 [] ≡ record { fmt_status = 0; str = str; fmt = fmt; n = n }
    → parse_loop (suc fuel) (b'%' ∷ cs) s
      ≡ parse_loop fuel
          (drop n cs)
          (push_item (record { fmt_status = 0; str = str; fmt = fmt; n = n }) s)
unfolding parse_loop
parse_item cs fuel s str fmt n p e =
    rw (parse_loop, p)
      (ap
        (λ (f : Found). elim (f.fmt_status == 0) [
          | true ↦ parse_loop fuel (drop f.n cs) (push_item f s)
          | false ↦ parse_loop fuel cs (push_error f s)
        ])
        e)

pub scan-named :
    (k tail : Bytes)
    → k ≢ []
    → IsAlpha k
    → Ends tail
    → scan_name (k ++ tail) (k ++ tail) 0 []
      ≡ record { fmt_status = 0; str = k; fmt = []; n = length k }
scan-named k tail ne h ends =
    let e : 0 + length k ≡ length k = omega arith in
    scan_name-named (k ++ tail) k tail 0 (omega arith) ne h ends
    ∙ rw (e, take-append_len k tail (length k) refl) refl

pub drop-append_cons : (k m : Bytes) (c n : ℕ) → n ≡ length k + 1 → drop n (k ++ c ∷ m) ≡ m
drop-append_cons k m c n e =
    rw (← append_assoc k (c ∷ []) m)
      (drop-append_len (k ++ c ∷ []) m n (omega (arith, length-append k (c ∷ []))))

pub scan-formatted :
    (k f tail : Bytes)
    → IsAlpha k
    → Lacks b'}' f
    → scan_name (k ++ b'{' ∷ (f ++ b'}' ∷ tail)) (k ++ b'{' ∷ (f ++ b'}' ∷ tail)) 0 []
      ≡ record { fmt_status = 0; str = k; fmt = f; n = length k + 1 + (length f + 1) }
scan-formatted k f tail h hf =
    let rest : Bytes = k ++ b'{' ∷ (f ++ b'}' ∷ tail) in
    let n : ℕ = length k in
    let e : 0 + n ≡ n = omega arith in
    let a : n + 1 + length f - n - 1 ≡ length f = omega arith in
    let b : n + 1 + length f + 1 ≡ n + 1 + (length f + 1) = omega arith in
    scan_name-formatted rest k (f ++ b'}' ∷ tail) 0 h
    ∙ rw (e, take-append_len k (b'{' ∷ (f ++ b'}' ∷ tail)) n refl)
        (scan_fmt_lem rest f tail (n + 1) n k hf
          ∙ rw
              (
                a,
                b,
                drop-append_cons k (f ++ b'}' ∷ tail) b'{' (n + 1) refl,
                take-append_len f (b'}' ∷ tail) (length f) refl,
              )
              refl)

pub drop-formatted :
    (k f tail : Bytes)
    → drop (length k + 1 + (length f + 1)) (k ++ b'{' ∷ (f ++ b'}' ∷ tail)) ≡ tail
drop-formatted k f tail =
    let e : length f + 1 + (length k + 1) ≡ length k + 1 + (length f + 1) = omega arith in
    rw (← e) (
      sym (drop-drop (length f + 1) (length k + 1) _)
      ∙ rw (drop-append_cons k (f ++ b'}' ∷ tail) b'{' (length k + 1) refl)
          (drop-append_cons f tail b'}' (length f + 1) refl))
