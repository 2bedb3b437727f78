-- ===== src/Http/Headers.antt =====
-- The maps of headers are maps whose keys are compared without case.
use exhy.Common.Text.{Bytes}
use exhy.Common.{
  ℕ, Bool, true, false, not, ◌&&◌, ◌≡◌, ◌≢◌, refl, sym, ap, ◌∙◌, ◌⊎◌, inl, inr, [], ◌∷◌, map, none,
  some, ltb, arith, if◌then◌else◌, Bool-cases,
}
use exhy.Http.Messages.{
  lower, key_less, MapType, map_find, map_set, map_erase, HttpRequest, value_or, get_header,
  set_header, del_header,
}

-- A key without its case.
abbrev pub fold : Bytes → Bytes
fold k = map lower k

lex : Bytes → Bytes → Bool
lex [] [] = false
lex [] (d ∷ ds) = true
lex (c ∷ cs) [] = false
lex (c ∷ cs) (d ∷ ds) =
    let rest = lex cs ds in if ltb c d then true else if ltb d c then false else rest

key_less-lex : (k j : Bytes) → key_less k j ≡ lex (fold k) (fold j)
unfolding key_less lex
key_less-lex [] [] = refl
key_less-lex [] (d ∷ ds) = refl
key_less-lex (c ∷ cs) [] = refl
key_less-lex (c ∷ cs) (d ∷ ds) = rw (key_less-lex cs ds) refl

lex_self : (k : Bytes) → lex k k ≡ false
unfolding lex
lex_self [] = refl
lex_self (c ∷ cs) = ground (arith, lex_self cs)

lex_step :
    (c d : ℕ) (r q : Bool)
    → (if ltb c d then true else if ltb d c then false else r) ≡ false
    → (if ltb d c then true else if ltb c d then false else q) ≡ false
    → (c ≡ d) × (r ≡ false) × (q ≡ false)
lex_step c d r q h g = ground arith

lex_total : (k j : Bytes) → lex k j ≡ false → lex j k ≡ false → k ≡ j
unfolding lex
lex_total [] [] h g = refl
lex_total [] (d ∷ ds) h g = cc
lex_total (c ∷ cs) [] h g = cc
lex_total (c ∷ cs) (d ∷ ds) h g =
    let (e, r, q) = lex_step c d (lex cs ds) (lex ds cs) h g in let t = lex_total cs ds r q in cc

-- The map's test for equivalent keys.
abbrev same : Bytes → Bytes → Bool
same k j = not (key_less k j) && not (key_less j k)

same_cases :
    (k j : Bytes)
    → ((same k j ≡ true) × (fold k ≡ fold j) × (key_less k j ≡ false) × (key_less j k ≡ false))
      ⊎ ((same k j ≡ false) × (fold k ≢ fold j))
same_cases k j = elim (Bool-cases (key_less k j)) [
  | inl h ↦ inr (rw h refl, λ e. cc (key_less-lex k j, h, ap (lex (fold k)) e, lex_self (fold k)))
  | inr h ↦ elim (Bool-cases (key_less j k)) [
    | inl g ↦
        inr (rw (h, g) refl, λ e. cc (key_less-lex j k, g, ap (lex (fold j)) e, lex_self (fold j)))
    | inr g ↦ inl (
      rw (h, g) refl,
      lex_total (fold k) (fold j) (sym (key_less-lex k j) ∙ h) (sym (key_less-lex j k) ∙ g),
      h,
      g,
    )
  ]
]

same-true : (k j : Bytes) → fold k ≡ fold j → same k j ≡ true
same-true k j e = elim (same_cases k j) [ inl h ↦ h.0 | inr h ↦ absurd (h.1 e) ]

same-false : (k j : Bytes) → fold k ≢ fold j → same k j ≡ false
same-false k j e = elim (same_cases k j) [ inl h ↦ absurd (e h.1) | inr h ↦ h.0 ]

key_less_apart : (k j : Bytes) → key_less k j ≡ true → fold k ≢ fold j
key_less_apart k j h = elim (same_cases k j) [ inl g ↦ cc (g.2, h) | inr g ↦ g.1 ]

key_less_both : (k j : Bytes) → key_less k j ≡ false → key_less j k ≡ false → fold k ≡ fold j
key_less_both k j h g =
    lex_total (fold k) (fold j) (sym (key_less-lex k j) ∙ h) (sym (key_less-lex j k) ∙ g)

find_here : (i k v : Bytes) (m : MapType) → fold k ≡ fold i → map_find i ((k, v) ∷ m) ≡ some v
unfolding map_find
find_here i k v m e = rw (map_find, same-true k i e) refl

find_further :
    (i k v : Bytes) (m : MapType) → fold k ≢ fold i → map_find i ((k, v) ∷ m) ≡ map_find i m
unfolding map_find
find_further i k v m e = rw (map_find, same-false k i e) refl

pub find-set_same :
    (key i val : Bytes) (m : MapType)
    → fold key ≡ fold i
    → map_find i (map_set key val m) ≡ some val
unfolding map_set
find-set_same key i val [] e = find_here i key val [] e
find-set_same key i val ((k, v) ∷ m) e = elim (Bool-cases (key_less key k)) [
  | inl h ↦ rw (map_set, h) (find_here i key val ((k, v) ∷ m) e)
  | inr h ↦ elim (Bool-cases (key_less k key)) [
    | inl g ↦
        rw (map_set, h, g)
          (find_further i k v (map_set key val m) (λ q. key_less_apart k key g (q ∙ sym e))
            ∙ find-set_same key i val m e)
    | inr g ↦ rw (map_set, h, g) (find_here i k val m (key_less_both k key g h ∙ e))
  ]
]

-- Behind an entry of another key, two maps that agree on `i` agree still.
find_under :
    (i k v : Bytes) (m n : MapType)
    → map_find i m ≡ map_find i n
    → map_find i ((k, v) ∷ m) ≡ map_find i ((k, v) ∷ n)
unfolding map_find
find_under i k v m n h = rw h refl

pub find-set_other :
    (key i val : Bytes) (m : MapType)
    → fold key ≢ fold i
    → map_find i (map_set key val m) ≡ map_find i m
unfolding map_set
find-set_other key i val [] ne = find_further i key val [] ne
find-set_other key i val ((k, v) ∷ m) ne = elim (Bool-cases (key_less key k)) [
  | inl h ↦ rw (map_set, h) (find_further i key val ((k, v) ∷ m) ne)
  | inr h ↦ elim (Bool-cases (key_less k key)) [
    | inl g ↦
        rw (map_set, h, g) (find_under i k v (map_set key val m) m (find-set_other key i val m ne))
    | inr g ↦
        let apart : fold k ≢ fold i = λ q. ne (sym (key_less_both k key g h) ∙ q) in
        rw (map_set, h, g) (find_further i k val m apart ∙ sym (find_further i k v m apart))
  ]
]

find-erase_same :
    (key i : Bytes) (m : MapType) → fold key ≡ fold i → map_find i (map_erase key m) ≡ none
unfolding map_erase map_find
find-erase_same key i [] e = refl
find-erase_same key i ((k, v) ∷ m) e = elim (same_cases k key) [
  | inl h ↦ rw (map_erase, h.0) (find-erase_same key i m e)
  | inr h ↦
      rw (map_erase, h.0)
        (find_further i k v (map_erase key m) (λ q. h.1 (q ∙ sym e)) ∙ find-erase_same key i m e)
]

find-erase_other :
    (key i : Bytes) (m : MapType) → fold key ≢ fold i → map_find i (map_erase key m) ≡ map_find i m
unfolding map_erase
find-erase_other key i [] ne = refl
find-erase_other key i ((k, v) ∷ m) ne = elim (same_cases k key) [
  | inl h ↦
      rw (map_erase, h.0)
        (find-erase_other key i m ne ∙ sym (find_further i k v m (λ q. ne (sym h.1 ∙ q))))
  | inr h ↦ rw (map_erase, h.0) (find_under i k v (map_erase key m) m (find-erase_other key i m ne))
]

-- Two header names count as one where they differ in case only. After setHeader a name that counts as the one set is
-- answered with the value, and after delHeader with the default; the answers for all other names stay.
pub header_lem :
    (r : HttpRequest) (key i val def : Bytes)
    → ((fold key ≡ fold i)
        × (get_header i def (set_header key val r) ≡ val)
        × (get_header i def (del_header key r) ≡ def))
      ⊎ ((fold key ≢ fold i)
          × (get_header i def (set_header key val r) ≡ get_header i def r)
          × (get_header i def (del_header key r) ≡ get_header i def r))
header_lem r key i val def = elim (same_cases key i) [
  | inl h ↦ inl (
    h.1,
    ap (value_or def) (find-set_same key i val r.headers h.1),
    ap (value_or def) (find-erase_same key i r.headers h.1),
  )
  | inr h ↦ inr (
    h.1,
    ap (value_or def) (find-set_other key i val r.headers h.1),
    ap (value_or def) (find-erase_other key i r.headers h.1),
  )
]
