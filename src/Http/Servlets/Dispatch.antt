-- ===== src/Http/Servlets/Dispatch.antt =====
-- What the table of servlets answers after each change.
use acid_compute.Prelude.{
  ℕ, ◌≡◌, refl, sym, ap, ◌∙◌, Bool, true, false, Option, none, some, List, [], ◌∷◌, ◌++◌,
  if◌then◌else◌, Bool-cases, Option-cases, option_clash, inl, inr, ◌⊎◌,
}
use acid_compute.Http.Servlets.{
  Servlet, Creator, hold, same, Entries, ServletDispatch, find, erase, add_servlet,
  add_glob_servlet, del_servlet, del_glob_servlet, get_servlet, get_glob_servlet, first_match,
  get_matched_servlet, got,
}
use acid_compute.Http.Servlets.Maps.{
  same_refl, find-assign, find-erase, find-append, IsUnique, assign-IsUnique, erase-IsUnique,
  append-IsUnique,
}

-- No URI and no glob is there twice.
pub record IsValid (d : ServletDispatch) : Type 0 where
  pub datas : IsUnique d.datas
  pub globs : IsUnique d.globs

add_glob_servlet-IsValid :
    (u : List ℕ) (s : Servlet) (d : ServletDispatch) → IsValid d → IsValid (add_glob_servlet u s d)
unfolding add_glob_servlet
add_glob_servlet-IsValid u s d v = record {
  datas = v.datas;
  globs =
      append-IsUnique u (hold s) (erase u d.globs) (erase-IsUnique u d.globs v.globs)
        (find-erase u u d.globs v.globs ∙ rw (same_refl u));
}

got_if : (b : Bool) (o p : Option Creator) → got (if b then o else p) ≡ (if b then got o else got p)
got_if true o p = refl
got_if false o p = refl

find_glob :
    (u w : List ℕ) (s : Servlet) (d : ServletDispatch)
    → IsValid d
    → find w (erase u d.globs ++ ((u, hold s) ∷ []))
      ≡ (if same w u then some (hold s) else find w d.globs)
find_glob u w s d v =
    find-append w u (hold s) (erase u d.globs) (find-erase u u d.globs v.globs ∙ rw (same_refl u))
    ∙ elim (Bool-cases (same w u)) [
      | inl e ↦ rw e
      | inr e ↦ rw (e, find-erase w u d.globs v.globs, e)
    ]

-- The changes keep a table without double entries so. After add_servlet and add_glob_servlet the URI or
-- glob has the new servlet, after del_servlet and del_glob_servlet it has none, and every other URI or
-- glob has what it had.
pub tables_updated :
    (u w : List ℕ) (s : Servlet) (d : ServletDispatch)
    → IsValid d
    → (IsValid (add_servlet u s d)
        × IsValid (add_glob_servlet u s d)
        × IsValid (del_servlet u d)
        × IsValid (del_glob_servlet u d))
      × (get_servlet w (add_servlet u s d) ≡ (if same w u then some s else get_servlet w d))
      × (get_servlet w (del_servlet u d) ≡ (if same w u then none else get_servlet w d))
      × (get_glob_servlet w (add_glob_servlet u s d)
          ≡ (if same w u then some s else get_glob_servlet w d))
      × (get_glob_servlet w (del_glob_servlet u d)
          ≡ (if same w u then none else get_glob_servlet w d))
unfolding add_servlet del_servlet del_glob_servlet add_glob_servlet get_servlet get_glob_servlet
tables_updated u w s d v = (
  (
    record { datas = assign-IsUnique u (hold s) d.datas v.datas; globs = v.globs },
    add_glob_servlet-IsValid u s d v,
    record { datas = erase-IsUnique u d.datas v.datas; globs = v.globs },
    record { datas = v.datas; globs = erase-IsUnique u d.globs v.globs },
  ),
  ap got (find-assign w u (hold s) d.datas) ∙ got_if (same w u) (some (hold s)) (find w d.datas),
  ap got (find-erase w u d.datas v.datas) ∙ got_if (same w u) none (find w d.datas),
  ap got (find_glob u w s d v) ∙ got_if (same w u) (some (hold s)) (find w d.globs),
  ap got (find-erase w u d.globs v.globs) ∙ got_if (same w u) none (find w d.globs),
)

module _ (fnmatch : List ℕ → List ℕ → Bool) where
  first_match-append :
      (w u : List ℕ) (c : Creator) (es : Entries)
      → first_match fnmatch w (es ++ ((u, c) ∷ []))
        ≡ elim (first_match fnmatch w es) as (λ _. Option Creator) [
          | none ↦ if fnmatch u w then some c else none
          | some k ↦ some k
        ]
  unfolding first_match
  first_match-append w u c [] = refl
  first_match-append w u c ((g, k) ∷ es) = elim (Bool-cases (fnmatch g w)) [
    | inl h ↦ rw h
    | inr h ↦ rw h (first_match-append w u c es)
  ]

  -- Whatever fnmatch accepts: after add_servlet a request for the URI goes to the new servlet and any other
  -- request where it went. After add_glob_servlet a request goes where it would go if that glob had been
  -- deleted, unless it has no URI of its own and no other glob matches: then it goes to the new servlet if
  -- the new glob matches and to the default one if not.
  pub requests_rerouted :
      (u w : List ℕ) (s : Servlet) (d : ServletDispatch)
      → (get_matched_servlet fnmatch w (add_servlet u s d)
          ≡ (if same w u then s else get_matched_servlet fnmatch w d))
        × (get_servlet w d ≡ none
            → first_match fnmatch w (del_glob_servlet u d).globs ≡ none
            → get_matched_servlet fnmatch w (add_glob_servlet u s d)
              ≡ (if fnmatch u w then s else d.default))
        × (((t : Servlet) × (get_servlet w d ≡ some t))
              ⊎ ((c : Creator) × (first_match fnmatch w (del_glob_servlet u d).globs ≡ some c))
            → get_matched_servlet fnmatch w (add_glob_servlet u s d)
              ≡ get_matched_servlet fnmatch w (del_glob_servlet u d))
  unfolding add_servlet del_glob_servlet add_glob_servlet get_servlet get_matched_servlet
  requests_rerouted u w s d = (
    rw (find-assign w u (hold s) d.datas)
        (elim (Bool-cases (same w u)) [ inl h ↦ rw h | inr h ↦ rw h ]),
    λ e f. elim (Option-cases (find w d.datas)) [
      | inl n ↦
          rw (n, first_match-append w u (hold s) (erase u d.globs), f)
            (elim (Bool-cases (fnmatch u w)) [ inl h ↦ rw h | inr h ↦ rw h ])
      | inr (c, n) ↦ option_clash (sym (rw n at e))
    ],
    λ o. elim o [
      | inl (t, e) ↦ elim (Option-cases (find w d.datas)) [
        | inl n ↦ option_clash (rw n at e)
        | inr (c, n) ↦ rw n
      ]
      | inr (c, f) ↦ rw (first_match-append w u (hold s) (erase u d.globs), f)
    ],
  )
