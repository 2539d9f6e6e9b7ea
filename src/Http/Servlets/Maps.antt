-- ===== src/Http/Servlets/Maps.antt =====
-- Association lists keyed by strings.
use mathlib.Core.Path.{subst}
use acid_compute.Prelude.{
  ℕ, ◌≡◌, refl, sym, ◌∙◌, true, false, none, some, List, [], ◌∷◌, ◌++◌, ◌==◌, ==_iff, if◌then◌else◌,
  Bool-cases, bool_clash, option_clash, inl, inr,
}
use acid_compute.Http.Servlets.{Creator, same, Entries, find, assign, erase}

pub same_refl : (u : List ℕ) → same u u ≡ true
same_refl [] = refl
same_refl (x ∷ xs) = rw ((==_iff x x).1 refl, same_refl xs)

pub same→≡ : (u v : List ℕ) → same u v ≡ true → u ≡ v
same→≡ [] [] e = refl
same→≡ [] (y ∷ ys) e = bool_clash (sym e)
same→≡ (x ∷ xs) [] e = bool_clash (sym e)
same→≡ (x ∷ xs) (y ∷ ys) e = elim (Bool-cases (x == y)) [
  | inl h ↦ rw ((==_iff x y).0 h, same→≡ xs ys (rw h at e))
  | inr h ↦ bool_clash (sym (rw h at e))
]

-- Two strings that a third one tells apart.
pub not_both : (u v w : List ℕ) → same u v ≡ false → same w v ≡ true → same w u ≡ false
not_both u v w h e = elim (Bool-cases (same w u)) [
  | inl f ↦ bool_clash (sym (subst (λ t. same t v ≡ true) (same→≡ w u f) e) ∙ h)
  | inr f ↦ f
]

pub same_sym : (u v : List ℕ) → same u v ≡ false → same v u ≡ false
same_sym u v h = not_both u v v h (same_refl v)

pub not_found_cons :
    (u v : List ℕ) (d : Creator) (es : Entries)
    → find u ((v, d) ∷ es) ≡ none
    → (same u v ≡ false) × (find u es ≡ none)
unfolding find
not_found_cons u v d es e = elim (Bool-cases (same u v)) [
  | inl h ↦ option_clash (sym (rw h at e))
  | inr h ↦ (h, rw h at e)
]

-- What is found after an assignment.
pub find-assign :
    (w u : List ℕ) (c : Creator) (es : Entries)
    → find w (assign u c es) ≡ (if same w u then some c else find w es)
unfolding find assign
find-assign w u c [] = refl
find-assign w u c ((v, d) ∷ es) = elim (Bool-cases (same u v)) [
  | inl h ↦
      let here : v ≡ u = sym (same→≡ u v h) in
      elim (Bool-cases (same w u)) [ inl e ↦ rw (h, here, e) | inr e ↦ rw (h, here, e) ]
  | inr h ↦ elim (Bool-cases (same w v)) [
    | inl e ↦ rw (h, e, not_both u v w h e)
    | inr e ↦ rw (h, e, find-assign w u c es)
  ]
]

-- No key stands twice.
abbrev pub IsUnique : Entries → Type 0
IsUnique [] = Unit
IsUnique ((v, c) ∷ es) = (find v es ≡ none) × IsUnique es

pub find-erase :
    (w u : List ℕ) (es : Entries)
    → IsUnique es
    → find w (erase u es) ≡ (if same w u then none else find w es)
unfolding find erase
find-erase w u [] q = elim (Bool-cases (same w u)) [ inl e ↦ rw e | inr e ↦ rw e ]
find-erase w u ((v, d) ∷ es) q = elim (Bool-cases (same u v)) [
  | inl h ↦
      let here : v ≡ u = sym (same→≡ u v h) in
      elim (Bool-cases (same w u)) [
        | inl e ↦ rw (h, e) (subst (λ t. find t es ≡ none) (sym (same→≡ w u e ∙ same→≡ u v h)) q.0)
        | inr e ↦ rw (h, here, e)
      ]
  | inr h ↦ elim (Bool-cases (same w v)) [
    | inl e ↦ rw (h, e, not_both u v w h e)
    | inr e ↦ rw (h, e, find-erase w u es q.1)
  ]
]

-- What is found after an entry is appended.
pub find-append :
    (w u : List ℕ) (c : Creator) (es : Entries)
    → find u es ≡ none
    → find w (es ++ ((u, c) ∷ [])) ≡ (if same w u then some c else find w es)
unfolding find
find-append w u c [] q = refl
find-append w u c ((v, d) ∷ es) q = elim (Bool-cases (same u v)) [
  | inl h ↦ option_clash (sym (rw h at q))
  | inr h ↦ elim (Bool-cases (same w v)) [
    | inl e ↦ rw (e, not_both u v w h e)
    | inr e ↦ rw (e, find-append w u c es (rw h at q))
  ]
]

pub assign-IsUnique :
    (u : List ℕ) (c : Creator) (es : Entries) → IsUnique es → IsUnique (assign u c es)
unfolding assign
assign-IsUnique u c [] q = (unfold find in refl, tt)
assign-IsUnique u c ((v, d) ∷ es) q = elim (Bool-cases (same u v)) [
  | inl h ↦ rw h q
  | inr h ↦ rw h (find-assign v u c es ∙ rw (same_sym u v h, q.0), assign-IsUnique u c es q.1)
]

pub erase-IsUnique : (u : List ℕ) (es : Entries) → IsUnique es → IsUnique (erase u es)
unfolding erase
erase-IsUnique u [] q = tt
erase-IsUnique u ((v, d) ∷ es) q = elim (Bool-cases (same u v)) [
  | inl h ↦ rw h q.1
  | inr h ↦ rw h (find-erase v u es q.1 ∙ rw (same_sym u v h, q.0), erase-IsUnique u es q.1)
]

pub append-IsUnique :
    (u : List ℕ) (c : Creator) (es : Entries)
    → IsUnique es
    → find u es ≡ none
    → IsUnique (es ++ ((u, c) ∷ []))
append-IsUnique u c [] q e = (unfold find in refl, tt)
append-IsUnique u c ((v, d) ∷ es) q e =
    let (other, rest) = not_found_cons u v d es e in
    (find-append v u c es rest ∙ rw (same_sym u v other, q.0), append-IsUnique u c es q.1 rest)
