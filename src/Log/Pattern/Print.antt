-- ===== src/Log/Pattern/Print.antt =====
-- What the formatter of a pattern prints.
use exhy.Common.{
  ℕ, zero, suc, ◌+◌, ◌-◌, ◌<◌, ◌≡◌, refl, sym, ap, subst, inl, inr, ◌∙◌, Bool, true, false, List,
  [], ◌∷◌, ◌++◌, Option, none, some, ◌==◌, arith, length, append-nil, append_assoc, length-append,
  drop-append_len, Bool-cases, Option-cases,
}
use exhy.Log.{
  Bytes, LogLevel, LogEvent, FormatItem, string_item, item_format, format_items, make_item,
}
use exhy.Log.Pattern.{
  Part, Found, Parse, flush, push_item, parse_loop, add_part, add_parts, no_parse, make_items,
  LogFormatter, new_log_formatter, error_item, format,
}
use exhy.Log.Pattern.Scan.{
  item_found, Token, plain, named, formatted, print, IsPattern, parse_text,
  starts_percent-formatted, starts_percent-named, parse_item, scan-named, scan-formatted,
  drop-formatted,
}

module _ (strftime : Bytes → ℕ → Bytes) (level : LogLevel) (event : LogEvent) where
  -- What one item prints, by its name and format.
  shown : Bytes → Bytes → Bytes
  shown k f = elim (make_item k f) [
    | none ↦ item_format strftime (error_item k) level event
    | some i ↦ item_format strftime i level event
  ]

  pub printed : List Token → Bytes
  printed [] = []
  printed (plain t ∷ ts) = t ++ printed ts
  printed (named k ∷ ts) = shown k [] ++ printed ts
  printed (formatted k f ∷ ts) = shown k f ++ printed ts

  part_text : Part → Bytes
  part_text p = elim (p.kind == 0) [ true ↦ p.str | false ↦ shown p.str p.fmt ]

  parts_text : List Part → Bytes
  parts_text [] = []
  parts_text (p ∷ ps) = part_text p ++ parts_text ps

  parts_text-append : (ps qs : List Part) → parts_text (ps ++ qs) ≡ parts_text ps ++ parts_text qs
  unfolding parts_text
  parts_text-append [] qs = refl
  parts_text-append (p ∷ ps) qs =
      rw (parts_text-append ps qs)
        (sym (append_assoc (part_text p) (parts_text ps) (parts_text qs)))

  parts_text-flush : (t : Bytes) (ps : List Part) → parts_text (flush t ps) ≡ parts_text ps ++ t
  unfolding flush parts_text part_text
  parts_text-flush [] ps = sym (append-nil (parts_text ps))
  parts_text-flush (c ∷ t) ps = rw (parts_text-append ps _, append-nil t) refl

  state_text : Parse → Bytes
  state_text s = parts_text s.vec ++ s.nstr

  state_text-push_item :
      (f : Found) (s : Parse) → state_text (push_item f s) ≡ state_text s ++ shown f.str f.fmt
  unfolding state_text push_item parts_text part_text
  state_text-push_item f s =
      append-nil _
      ∙ parts_text-append (flush s.nstr s.vec) _
      ∙ rw (parts_text-flush s.nstr s.vec, append-nil (shown f.str f.fmt)) refl

  format_items-concat :
      (is : List FormatItem) (i : FormatItem)
      → format_items strftime (is ++ i ∷ []) level event
        ≡ format_items strftime is level event ++ item_format strftime i level event
  unfolding format_items
  format_items-concat [] i = append-nil _
  format_items-concat (j ∷ is) i =
      rw (format_items-concat is i) (sym (append_assoc (item_format strftime j level event) _ _))

  format_items-add_part :
      (p : Part) (s : List FormatItem × Bool)
      → format_items strftime (add_part p s).0 level event
        ≡ format_items strftime s.0 level event ++ part_text p
  unfolding add_part part_text shown item_format
  format_items-add_part p (items, error) = elim (Bool-cases (p.kind == 0)) [
    | inl k ↦ rw (add_part, part_text, k) (format_items-concat items (string_item p.str))
    | inr k ↦ elim (Option-cases (make_item p.str p.fmt)) [
      | inl m ↦ rw (add_part, part_text, shown, k, m) (format_items-concat items (error_item p.str))
      | inr (i, m) ↦ rw (add_part, part_text, shown, k, m) (format_items-concat items i)
    ]
  ]

  format_items-add_parts :
      (ps : List Part) (s : List FormatItem × Bool)
      → format_items strftime (add_parts ps s).0 level event
        ≡ format_items strftime s.0 level event ++ parts_text ps
  unfolding add_parts parts_text
  format_items-add_parts [] s = sym (append-nil _)
  format_items-add_parts (p ∷ ps) s =
      format_items-add_parts ps (add_part p s)
      ∙ rw (format_items-add_part p s)
          (append_assoc (format_items strftime s.0 level event) (part_text p) (parts_text ps))

  Printed : Parse → Option Parse → Bytes → Type 0
  Printed s o t = (s' : Parse) × (o ≡ some s') × (state_text s' ≡ state_text s ++ t)

  Printed-parse_text :
      (t : Bytes) (s : Parse) (o : Option Parse) (u : Bytes)
      → Printed (record s { nstr = s.nstr ++ t }) o u
      → Printed s o (t ++ u)
  unfolding Printed state_text
  Printed-parse_text t s o u (s', e, d) = (s', e, d ∙ text)
    where
      text : state_text (record s { nstr = s.nstr ++ t }) ++ u ≡ state_text s ++ (t ++ u)
      text =
          ap (λ z. z ++ u) (sym (append_assoc (parts_text s.vec) s.nstr t))
          ∙ append_assoc (parts_text s.vec ++ s.nstr) t u

  Printed-push_item :
      (f : Found) (s : Parse) (o : Option Parse) (u : Bytes)
      → Printed (push_item f s) o u
      → Printed s o (shown f.str f.fmt ++ u)
  unfolding Printed
  Printed-push_item f s o u (s', e, d) =
      (s', e, d ∙ rw (state_text-push_item f s) (append_assoc (state_text s) (shown f.str f.fmt) u))

  parse_loop-print :
      (ts : List Token) (fuel : ℕ) (s : Parse)
      → IsPattern ts
      → length (print ts) < fuel
      → Printed s (parse_loop fuel (print ts) s) (printed ts)
  unfolding Printed parse_loop printed
  parse_loop-print ts zero s h l = absurd (omega arith)
  parse_loop-print [] (suc fuel) s h l = (s, refl, sym (append-nil _))
  parse_loop-print (plain t ∷ ts) (suc fuel) s (h, hs) l =
      let m = length-append t (print ts) in
      let e : length t + (suc fuel - length t) ≡ suc fuel = omega (arith, m) in
      subst (λ n. Printed s (parse_loop n (t ++ print ts) s) (t ++ printed ts)) e
        (Printed-parse_text t s _ (printed ts) (
          rw (parse_text t (print ts) (suc fuel - length t) s h)
            (parse_loop-print ts (suc fuel - length t) _ hs (omega (arith, m)))))
  parse_loop-print (named k ∷ ts) (suc fuel) s (ne, h, ends, hs) l =
      subst (λ o. Printed s o (shown k [] ++ printed ts))
        (sym (
          parse_item (k ++ print ts) fuel s k [] (length k) (starts_percent-named k (print ts) ne h)
            (scan-named k (print ts) ne h ends)))
        (Printed-push_item (item_found k [] (length k)) s _ (printed ts) (
          rw (drop-append_len k (print ts) (length k) refl) (
            parse_loop-print ts fuel (push_item (item_found k [] (length k)) s) hs
              (omega (arith, length-append k (print ts))))))
  parse_loop-print (formatted k f ∷ ts) (suc fuel) s (h, hf, hs) l =
      subst (λ o. Printed s o (shown k f ++ printed ts))
        (sym (
          parse_item (k ++ b'{' ∷ (f ++ b'}' ∷ print ts)) fuel s k f _
            (starts_percent-formatted k (f ++ b'}' ∷ print ts) h)
            (scan-formatted k f (print ts) h hf)))
        (Printed-push_item (item_found k f (length k + 1 + (length f + 1))) s _ (printed ts) (
          rw (drop-formatted k f (print ts)) (
            parse_loop-print ts fuel (push_item (item_found k f (length k + 1 + (length f + 1))) s)
              hs
              (omega (
                arith,
                length-append k (b'{' ∷ (f ++ b'}' ∷ print ts)),
                length-append f (b'}' ∷ print ts),
              )))))

  -- For a pattern printed from tokens, the constructor's loop ends and format prints every token: its text, or
  -- what the table's item of that name and format prints, and the error text for a name that the table lacks. The
  -- texts hold no '%', names are letters, formats hold no '}', and a name without a format is not empty and is not
  -- followed by a letter or a brace.
  pub format-print :
      (ts : List Token)
      → IsPattern ts
      → (f : LogFormatter) × (new_log_formatter (print ts) ≡ some f)
        × (format strftime f level event ≡ printed ts)
  unfolding new_log_formatter make_items format Printed state_text parts_text format_items
  format-print ts h =
      let (s, e, d) = parse_loop-print ts (suc (length (print ts))) no_parse h (omega arith) in
      (
        make_items (print ts) s,
        rw e refl,
        format_items-add_parts (flush s.nstr s.vec) ([], s.error)
            ∙ parts_text-flush s.nstr s.vec
            ∙ d,
      )
