-- ===== src/Http/Framing.antt =====
-- What a peer reads of a printed message: its lines up to the first empty one, and the body behind that.
use exhy.Common.Text.{Bytes}
use exhy.Common.{
  true, false, ◌&&◌, ◌≡◌, refl, ap, ◌∙◌, List, [], ◌∷◌, ◌++◌, ◌==◌, All, append_assoc, append-nil,
}
use exhy.Http.Messages.{crlf}

-- A line has no carriage return.
abbrev pub IsLine : Bytes → Type 0
IsLine l = All (λ c. (c == b'\r') ≡ false) l

end_line : Bytes → List Bytes × Bytes → Bytes → List Bytes × Bytes
end_line [] r rest = ([], rest)
end_line (c ∷ cs) r rest = ((c ∷ cs) ∷ r.0, r.1)

-- The lines before the first empty line, and the text behind it.
pub read_head : Bytes → Bytes → List Bytes × Bytes
read_head line [] = (line ∷ [], [])
read_head line (c ∷ []) = ((line ++ c ∷ []) ∷ [], [])
read_head line (c ∷ d ∷ cs) = elim (c == b'\r' && d == b'\n') [
  | true ↦ end_line line (read_head [] cs) cs
  | false ↦ read_head (line ++ c ∷ []) (d ∷ cs)
]

abbrev pub unlines : List Bytes → Bytes
unlines [] = []
unlines (l ∷ ls) = l ++ crlf ++ unlines ls

read_line :
    (line l rest : Bytes)
    → IsLine l
    → read_head line (l ++ crlf ++ rest) ≡ end_line (line ++ l) (read_head [] rest) rest
unfolding read_head
read_line line [] rest h = rw (append-nil line) refl
read_line line (c ∷ []) rest (h, hs) =
    rw (read_head, h)
      (read_line (line ++ c ∷ []) [] rest tt ∙ rw (append-nil (line ++ c ∷ [])) refl)
read_line line (c ∷ d ∷ l) rest (h, hs) =
    rw (read_head, h)
      (read_line (line ++ c ∷ []) (d ∷ l) rest hs ∙ rw (append_assoc line (c ∷ []) (d ∷ l)) refl)

unlines_split :
    (l : Bytes) (ls : List Bytes) (body : Bytes)
    → unlines (l ∷ ls) ++ crlf ++ body ≡ l ++ crlf ++ (unlines ls ++ crlf ++ body)
unlines_split l ls body = simp (append_assoc)

abbrev pub IsNonempty : Bytes → Type 0
IsNonempty [] = ⊥
IsNonempty (c ∷ l) = Unit

abbrev pub IsFull : Bytes → Type 0
IsFull l = IsLine l × IsNonempty l

pub read_head-unlines :
    (ls : List Bytes) (body : Bytes)
    → All IsFull ls
    → read_head [] (unlines ls ++ crlf ++ body) ≡ (ls, body)
unfolding end_line read_head
read_head-unlines [] body h = refl
read_head-unlines ([] ∷ ls) body ((h, ne), hs) = absurd ne
read_head-unlines ((c ∷ l) ∷ ls) body ((h, ne), hs) =
    ap (read_head []) (unlines_split (c ∷ l) ls body)
    ∙ read_line [] (c ∷ l) (unlines ls ++ crlf ++ body) h
    ∙ rw (read_head-unlines ls body hs) refl
