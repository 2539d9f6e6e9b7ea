-- ===== src/Http/Headers.antt =====
-- std::map<std::string, std::string, CaseInsensitiveLess> of acid/http/http.h: the entries in the
-- comparator's order. Keys that are neither less than the other are the same key.
pub mod Entries
use acid_compute.Prelude.{ℕ, Bool, true, false, Option, none, some, List, [], ◌∷◌, if◌then◌else◌}
use acid_compute.Http.Texts.{less_ignoring_case}

abbrev pub Text : Type 0
Text = List ℕ

abbrev pub MapType : Type 0
MapType = List (Text × Text)

-- find()
unfoldable pub find : Text → MapType → Option Text
find k [] = none
find k ((j, w) ∷ m) =
    if less_ignoring_case k j then none else if less_ignoring_case j k then find k m else some w

-- `map[k] = v`
unfoldable pub put : Text → Text → MapType → MapType
put k v [] = (k, v) ∷ []
put k v ((j, w) ∷ m) =
    let rest = put k v m in
    if less_ignoring_case k j
    then (k, v) ∷ (j, w) ∷ m
    else if less_ignoring_case j k
    then (j, w) ∷ rest
    else (j, v) ∷ m

unfoldable pub erase : Text → MapType → MapType
erase k [] = []
erase k ((j, w) ∷ m) =
    let rest = erase k m in
    if less_ignoring_case k j
    then (j, w) ∷ m
    else if less_ignoring_case j k
    then (j, w) ∷ rest
    else m

unfoldable pub or_default : Text → Option Text → Text
or_default d none = d
or_default d (some v) = v

abbrev pub is_there : Option Text → Bool
is_there none = false
is_there (some v) = true
