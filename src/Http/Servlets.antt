-- ===== src/Http/Servlets.antt =====
-- acid/http/servlet.{h,cpp}: the servlets by their URIs and glob patterns. A string is the list of
-- its bytes, m_datas is an association list, and `fnmatch` is the test of the C library, an argument.
pub mod Maps
pub mod Dispatch
use acid_compute.Prelude.{
  ℕ, Bool, true, false, Option, none, some, List, [], ◌∷◌, ◌++◌, ◌==◌, if◌then◌else◌,
}

-- A Servlet: one that was handed over, a new object of a class, or the one of the constructor.
pub data Servlet : Type 0 where
  held : ℕ → Servlet
  created : ℕ → Servlet
  not_found : Servlet

-- HoldServletCreator and ServletCreator<T>.
pub data Creator : Type 0 where
  hold : Servlet → Creator
  create : ℕ → Creator

unfoldable pub get : Creator → Servlet
get (hold s) = s
get (create t) = created t

-- Equality of std::string.
abbrev pub same : List ℕ → List ℕ → Bool
same [] [] = true
same [] (y ∷ ys) = false
same (x ∷ xs) [] = false
same (x ∷ xs) (y ∷ ys) = let rest = same xs ys in if x == y then rest else false

abbrev pub Entries : Type 0
Entries = List (List ℕ × Creator)

pub record ServletDispatch : Type 0 where
  pub datas : Entries
  pub globs : Entries
  pub default : Servlet

unfoldable pub make_dispatch : ServletDispatch
make_dispatch = record { datas = []; globs = []; default = not_found }

-- The creator under a key: `find`, and the loop of get_glob_servlet.
unfoldable pub find : List ℕ → Entries → Option Creator
find u [] = none
find u ((v, c) ∷ es) = let rest = find u es in if same u v then some c else rest

-- `m_datas[uri] = creator`
unfoldable pub assign : List ℕ → Creator → Entries → Entries
assign u c [] = (u, c) ∷ []
assign u c ((v, d) ∷ es) =
    let rest = assign u c es in if same u v then (v, c) ∷ es else (v, d) ∷ rest

-- The loops that erase the first entry of a key and leave, and m_datas.erase.
unfoldable pub erase : List ℕ → Entries → Entries
erase u [] = []
erase u ((v, d) ∷ es) = let rest = erase u es in if same u v then es else (v, d) ∷ rest

unfoldable pub add_servlet_creator : List ℕ → Creator → ServletDispatch → ServletDispatch
unfolding assign
add_servlet_creator u c d = record d { datas = assign u c d.datas }

-- A FunctionServlet is a servlet that is handed over too.
unfoldable pub add_servlet : List ℕ → Servlet → ServletDispatch → ServletDispatch
unfolding add_servlet_creator
add_servlet u s d = add_servlet_creator u (hold s) d

unfoldable pub add_glob_servlet_creator : List ℕ → Creator → ServletDispatch → ServletDispatch
unfolding erase
add_glob_servlet_creator u c d = record d { globs = erase u d.globs ++ ((u, c) ∷ []) }

unfoldable pub add_glob_servlet : List ℕ → Servlet → ServletDispatch → ServletDispatch
unfolding add_glob_servlet_creator
add_glob_servlet u s d = add_glob_servlet_creator u (hold s) d

unfoldable pub del_servlet : List ℕ → ServletDispatch → ServletDispatch
unfolding erase
del_servlet u d = record d { datas = erase u d.datas }

unfoldable pub del_glob_servlet : List ℕ → ServletDispatch → ServletDispatch
unfolding erase
del_glob_servlet u d = record d { globs = erase u d.globs }

unfoldable pub set_default : Servlet → ServletDispatch → ServletDispatch
set_default s d = record d { default = s }

-- What a creator that may be missing gives, `none` for nullptr.
unfoldable pub got : Option Creator → Option Servlet
unfolding get
got none = none
got (some c) = some (get c)

unfoldable pub get_servlet : List ℕ → ServletDispatch → Option Servlet
unfolding find got
get_servlet u d = got (find u d.datas)

unfoldable pub get_glob_servlet : List ℕ → ServletDispatch → Option Servlet
unfolding find got
get_glob_servlet u d = got (find u d.globs)

-- The servlet of a creator, or else another one.
unfoldable pub or_else : Option Creator → Servlet → Servlet
unfolding get
or_else none s = s
or_else (some c) s = get c

module _ (fnmatch : List ℕ → List ℕ → Bool) where
  -- The first glob that matches.
  unfoldable pub first_match : List ℕ → Entries → Option Creator
  first_match u [] = none
  first_match u ((g, c) ∷ es) = let rest = first_match u es in if fnmatch g u then some c else rest

  unfoldable pub get_matched_servlet : List ℕ → ServletDispatch → Servlet
  unfolding find or_else first_match
  get_matched_servlet u d = or_else (find u d.datas) (or_else (first_match u d.globs) d.default)

  -- The servlet whose handle runs on a request for the path, and the result, which is not that one's.
  unfoldable pub handle : List ℕ → ServletDispatch → Servlet × ℕ
  unfolding get_matched_servlet
  handle u d = (get_matched_servlet u d, 0)
