-- ===== src/Servlets.antt =====
-- exhy/http/http_servlet.h and exhy/http/http_servlet.cpp: which servlet answers a path.
--
-- A servlet is known by a number; m_datas is an association list with one entry to a key. `fnmatch` is
-- not code of the repository: the parameter says whether a pattern matches a path.
pub mod Lookup
mod Runs
use Prim.Native.String.{String}
use text.Mathlib.Text.{◌==◌ as str_eq}
use exhy.Common.{ℕ, Bool, true, false, not, List, [], ◌∷◌, ◌++◌, Option, none, some, if◌then◌else◌}

pub record ServletDispatch : Type 0 where
  pub datas : List (String × ℕ)
  pub globs : List (String × ℕ)
  pub default_servlet : ℕ

-- ServletDispatch(): the NotFoundServlet answers every path.
pub new_dispatch : ℕ → ServletDispatch
new_dispatch not_found = record { datas = []; globs = []; default_servlet = not_found }

-- m_datas.find, and the loop of getGlobServlet.
pub find_entry : String → List (String × ℕ) → Option ℕ
find_entry uri [] = none
find_entry uri (e ∷ es) = let rest = find_entry uri es in if str_eq e.0 uri then some e.1 else rest

-- m_datas[uri] = slt.
pub put_entry : String → ℕ → List (String × ℕ) → List (String × ℕ)
put_entry uri slt [] = (uri, slt) ∷ []
put_entry uri slt (e ∷ es) =
    let rest = put_entry uri slt es in if str_eq e.0 uri then (uri, slt) ∷ es else e ∷ rest

-- The loop that erases the first entry of a path; for the map the only one.
pub erase_entry : String → List (String × ℕ) → List (String × ℕ)
erase_entry uri [] = []
erase_entry uri (e ∷ es) = let rest = erase_entry uri es in if str_eq e.0 uri then es else e ∷ rest

pub add_servlet : String → ℕ → ServletDispatch → ServletDispatch
add_servlet uri slt d = record d { datas = put_entry uri slt d.datas }

pub add_glob_servlet : String → ℕ → ServletDispatch → ServletDispatch
add_glob_servlet uri slt d = record d { globs = erase_entry uri d.globs ++ (uri, slt) ∷ [] }

pub del_servlet : String → ServletDispatch → ServletDispatch
del_servlet uri d = record d { datas = erase_entry uri d.datas }

pub del_glob_servlet : String → ServletDispatch → ServletDispatch
del_glob_servlet uri d = record d { globs = erase_entry uri d.globs }

pub get_servlet : String → ServletDispatch → Option ℕ
get_servlet uri d = find_entry uri d.datas

pub get_glob_servlet : String → ServletDispatch → Option ℕ
get_glob_servlet uri d = find_entry uri d.globs

pub first_glob : (String → String → Bool) → String → List (String × ℕ) → Option ℕ
first_glob fnmatch uri [] = none
first_glob fnmatch uri (e ∷ es) =
    let rest = first_glob fnmatch uri es in if fnmatch e.0 uri then some e.1 else rest

pub get_matched_servlet : (String → String → Bool) → String → ServletDispatch → ℕ
get_matched_servlet fnmatch uri d = elim (find_entry uri d.datas) [
  | some slt ↦ slt
  | none ↦ elim (first_glob fnmatch uri d.globs) [ some slt ↦ slt | none ↦ d.default_servlet ]
]
