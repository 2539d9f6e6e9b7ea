-- ===== src/Http/Names/Spelling.antt =====
-- Names and back.
use Prim.Native.String.{String}
use acid_compute.Prelude.{ℕ, ◌≡◌, ◌≢◌, refl, sym, ◌∙◌, ◌⊎◌, inl, inr, List, [], ◌∷◌, Bool-cases}
use acid_compute.Http.Servlets.Maps.{same→≡}
use acid_compute.Http.Texts.{codes, c_str, equals}
use acid_compute.Http.Names.{
  HttpMethod, delete, invalid_method, method_map, HttpContentType, text_html, invalid_type, named,
  string_to_method, http_method_to_string, string_to_content_type, http_context_type_to_string,
}

method_read : (m : HttpMethod) → string_to_method (http_method_to_string m) ≡ m
unfolding string_to_method http_method_to_string equals
method_read delete = refl
method_read m = refl

pub content_type_read :
    (t : HttpContentType)
    → t ≢ invalid_type
    → string_to_content_type (http_context_type_to_string t) ≡ t
unfolding string_to_content_type http_context_type_to_string equals
content_type_read text_html h = refl
content_type_read invalid_type h = absurd (h refl)
content_type_read t h = refl

-- Every entry says what `f` says.
abbrev Agree : (HttpMethod → List ℕ) → List (HttpMethod × String) → Type 0
Agree f [] = Unit
Agree f ((m, s) ∷ rest) = (f m ≡ c_str (codes s)) × Agree f rest

named_agrees :
    (f : HttpMethod → List ℕ) (t : List ℕ) (entries : List (HttpMethod × String))
    → Agree f entries
    → (named t entries invalid_method ≡ invalid_method)
      ⊎ (f (named t entries invalid_method) ≡ c_str t)
unfolding named equals
named_agrees f t [] a = inl refl
named_agrees f t ((m, s) ∷ rest) a = elim (Bool-cases (equals t (codes s))) [
  | inl e ↦ rw e (inr (a.0 ∙ sym (same→≡ (c_str t) (c_str (codes s)) e)))
  | inr e ↦ rw e (named_agrees f t rest a.1)
]

methods-Agree : Agree http_method_to_string method_map
unfolding http_method_to_string
methods-Agree = search

-- A method's text is read as that method (the one of INVALID_METHOD, "<unknown>", too), and a text
-- that is read as another one than INVALID_METHOD is that method's text, up to a zero byte.
pub method_names :
    ((m : HttpMethod) → string_to_method (http_method_to_string m) ≡ m)
    × ((t : List ℕ)
        → (string_to_method t ≡ invalid_method)
          ⊎ (http_method_to_string (string_to_method t) ≡ c_str t))
unfolding string_to_method
method_names = (method_read, λ t. named_agrees http_method_to_string t method_map methods-Agree)
