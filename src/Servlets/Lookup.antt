-- ===== src/Servlets/Lookup.antt =====
-- What the calls that add and delete servlets mean for those that look them up.
use Prim.Native.String.{String}
use text.Mathlib.Text.{◌==◌ as str_eq}
use text.Mathlib.TextEquality.{eq_iff}
use exhy.Common.{
  ℕ, Bool, true, false, ◌≡◌, ◌≢◌, refl, sym, ap, ◌∙◌, inl, inr, List, [], ◌∷◌, none, some,
  Bool-cases,
}
use exhy.Servlets.{
  ServletDispatch, find_entry, put_entry, erase_entry, add_servlet, del_servlet, get_servlet,
  first_glob, get_matched_servlet,
}

eq_self : (s : String) → str_eq s s ≡ true
eq_self s = (eq_iff s s).1 refl

eq_not : (s t : String) → s ≢ t → str_eq s t ≡ false
eq_not s t h = elim (Bool-cases (str_eq s t)) [ inl e ↦ absurd (h ((eq_iff s t).0 e)) | inr e ↦ e ]

-- One entry to a key.
abbrev pub Unique : List (String × ℕ) → Type 0
Unique [] = Unit
Unique (e ∷ es) = (find_entry e.0 es ≡ none) × Unique es

find_entry-put_self :
    (uri : String) (slt : ℕ) (es : List (String × ℕ))
    → find_entry uri (put_entry uri slt es) ≡ some slt
unfolding find_entry put_entry
find_entry-put_self uri slt [] = rw (eq_self uri) refl
find_entry-put_self uri slt (e ∷ es) = elim (Bool-cases (str_eq e.0 uri)) [
  | inl h ↦ rw (h, eq_self uri) refl
  | inr h ↦ rw (h, h) (find_entry-put_self uri slt es)
]

find_entry-put_other :
    (uri other : String) (slt : ℕ) (es : List (String × ℕ))
    → uri ≢ other
    → find_entry other (put_entry uri slt es) ≡ find_entry other es
unfolding find_entry put_entry
find_entry-put_other uri other slt [] h = rw (eq_not uri other h) refl
find_entry-put_other uri other slt (e ∷ es) h = elim (Bool-cases (str_eq e.0 uri)) [
  | inl k ↦ let same : e.0 ≡ uri = (eq_iff e.0 uri).0 k in rw (k, same, eq_not uri other h) refl
  | inr k ↦ elim (Bool-cases (str_eq e.0 other)) [
    | inl j ↦ rw (k, j) refl
    | inr j ↦ rw (k, j) (find_entry-put_other uri other slt es h)
  ]
]

find_entry-erase_self :
    (uri : String) (es : List (String × ℕ)) → Unique es → find_entry uri (erase_entry uri es) ≡ none
unfolding find_entry erase_entry
find_entry-erase_self uri [] u = refl
find_entry-erase_self uri (e ∷ es) u = elim (Bool-cases (str_eq e.0 uri)) [
  | inl h ↦ rw h (ap (λ s. find_entry s es) (sym ((eq_iff e.0 uri).0 h)) ∙ u.0)
  | inr h ↦ rw (h, h) (find_entry-erase_self uri es u.1)
]

find_entry-erase_other :
    (uri other : String) (es : List (String × ℕ))
    → uri ≢ other
    → find_entry other (erase_entry uri es) ≡ find_entry other es
unfolding find_entry erase_entry
find_entry-erase_other uri other [] h = refl
find_entry-erase_other uri other (e ∷ es) h = elim (Bool-cases (str_eq e.0 uri)) [
  | inl k ↦ let same : e.0 ≡ uri = (eq_iff e.0 uri).0 k in rw (k, same, eq_not uri other h) refl
  | inr k ↦ elim (Bool-cases (str_eq e.0 other)) [
    | inl j ↦ rw (k, j) refl
    | inr j ↦ rw (k, j) (find_entry-erase_other uri other es h)
  ]
]

-- With one entry to a path: after addServlet the path is answered by the new servlet, whatever patterns
-- match it; after delServlet as if no servlet had been added for it, by the first pattern that matches or
-- else by the default. All other paths are answered as before by either call.
pub add_servlet_lem :
    (fnmatch : String → String → Bool) (uri other : String) (slt : ℕ) (d : ServletDispatch)
    → Unique d.datas
    → uri ≢ other
    → (get_matched_servlet fnmatch uri (add_servlet uri slt d) ≡ slt)
      × (get_servlet uri (del_servlet uri d) ≡ none)
      × (get_matched_servlet fnmatch uri (del_servlet uri d)
          ≡ (elim (first_glob fnmatch uri d.globs) [ some s ↦ s | none ↦ d.default_servlet ]))
      × (get_matched_servlet fnmatch other (add_servlet uri slt d)
          ≡ get_matched_servlet fnmatch other d)
      × (get_matched_servlet fnmatch other (del_servlet uri d)
          ≡ get_matched_servlet fnmatch other d)
unfolding get_matched_servlet add_servlet del_servlet get_servlet
add_servlet_lem fnmatch uri other slt d u h = (
  rw (get_matched_servlet, find_entry-put_self uri slt d.datas) refl,
  find_entry-erase_self uri d.datas u,
  rw (get_matched_servlet, find_entry-erase_self uri d.datas u) refl,
  rw (get_matched_servlet, find_entry-put_other uri other slt d.datas h) refl,
  rw (get_matched_servlet, find_entry-erase_other uri other d.datas h) refl,
)
