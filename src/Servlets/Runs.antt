-- ===== src/Servlets/Runs.antt =====
-- A run of the servlets' theorem on a concrete dispatcher.
use Prim.Native.String.{String}
use text.Mathlib.Text.{◌==◌ as str_eq}
use exhy.Common.{Bool, true, ◌≡◌, ◌≢◌, refl, ap, [], ◌∷◌, none, some}
use exhy.Servlets.{
  ServletDispatch, find_entry, add_servlet, del_servlet, get_servlet, first_glob,
  get_matched_servlet,
}
use exhy.Servlets.Lookup.{Unique, add_servlet_lem}

abbrev dispatch : ServletDispatch
dispatch = record {
  datas = ("/a", 1) ∷ ("/b", 2) ∷ [];
  globs = ("/*", 3) ∷ [];
  default_servlet = 0;
}

abbrev any_path : String → String → Bool
any_path pattern uri = true

dispatch-Unique : Unique dispatch.datas
unfolding find_entry
dispatch-Unique = (refl, (refl, tt))

abbrev path_a : String
path_a = "/a"

abbrev path_b : String
path_b = "/b"

a-ne-b : path_a ≢ path_b
a-ne-b h =
    let same : str_eq path_a path_b ≡ str_eq path_b path_b = ap (λ s. str_eq s path_b) h in cc

add_servlet_lem_example :
    (get_matched_servlet any_path "/a" (add_servlet "/a" 9 dispatch) ≡ 9)
    × (get_servlet "/a" (del_servlet "/a" dispatch) ≡ none)
    × (get_matched_servlet any_path "/a" (del_servlet "/a" dispatch)
        ≡ (elim (first_glob any_path "/a" dispatch.globs) [ some s ↦ s | none ↦ 0 ]))
    × (get_matched_servlet any_path "/b" (add_servlet "/a" 9 dispatch)
        ≡ get_matched_servlet any_path "/b" dispatch)
    × (get_matched_servlet any_path "/b" (del_servlet "/a" dispatch)
        ≡ get_matched_servlet any_path "/b" dispatch)
add_servlet_lem_example = add_servlet_lem any_path "/a" "/b" 9 dispatch dispatch-Unique a-ne-b
