-- ===== src/Http/Headers/Entries.antt =====
-- What is in a map after its operations.
use acid_compute.Prelude.{◌≡◌, refl, true, none, some, [], ◌∷◌, if◌then◌else◌, arith}
use acid_compute.Http.Texts.{less_ignoring_case, equals_ignoring_case, folded}
use acid_compute.Http.Texts.Order.{ties, less_irrefl, less_trans, equals_iff}
use acid_compute.Http.Headers.{Text, MapType, find, put, erase}

-- The keys rise.
abbrev pub Above : Text → MapType → Type 0
Above k [] = Unit
Above k ((j, w) ∷ m) = (less_ignoring_case k j ≡ true) × Above k m

abbrev pub IsSorted : MapType → Type 0
IsSorted [] = Unit
IsSorted ((j, w) ∷ m) = Above j m × IsSorted m

pub Above-less : (i k : Text) (m : MapType) → less_ignoring_case i k ≡ true → Above k m → Above i m
Above-less i k [] h a = tt
Above-less i k ((j, w) ∷ m) h a = (less_trans i k j h a.0, Above-less i k m h a.1)

Above-put :
    (i k v : Text) (m : MapType) → less_ignoring_case i k ≡ true → Above i m → Above i (put k v m)
unfolding put
Above-put i k v [] h a = (h, tt)
Above-put i k v ((j, w) ∷ m) h a = ground (arith, Above-put i k v m)

Above-erase : (i k : Text) (m : MapType) → Above i m → Above i (erase k m)
unfolding erase
Above-erase i k [] a = tt
Above-erase i k ((j, w) ∷ m) a = ground (arith, Above-erase i k m)

Above-same : (i k : Text) (m : MapType) → folded i ≡ folded k → Above i m → Above k m
unfolding less_ignoring_case
Above-same i k [] e a = tt
Above-same i k ((j, w) ∷ m) e a = (rw (← e) a.0, Above-same i k m e a.1)

pub put-IsSorted : (k v : Text) (m : MapType) → IsSorted m → IsSorted (put k v m)
unfolding put
put-IsSorted k v [] s = (tt, tt)
put-IsSorted k v ((j, w) ∷ m) s =
    ground (arith, put-IsSorted k v m, Above-put j k v m, Above-less k j m)

pub erase-IsSorted : (k : Text) (m : MapType) → IsSorted m → IsSorted (erase k m)
unfolding erase
erase-IsSorted k [] s = tt
erase-IsSorted k ((j, w) ∷ m) s = ground (arith, erase-IsSorted k m, Above-erase j k m)

find-put_nil :
    (j k v : Text) → find j ((k, v) ∷ []) ≡ (if equals_ignoring_case k j then some v else none)
unfolding find less_ignoring_case
find-put_nil j k v =
    ground
      (arith, ties j k, (equals_iff k j).0, (equals_iff k j).1, less_irrefl j k, less_irrefl k j)

-- What is found after an insertion.
pub find-put :
    (j k v : Text) (m : MapType)
    → IsSorted m
    → find j (put k v m) ≡ (if equals_ignoring_case k j then some v else find j m)
unfolding find put
find-put j k v [] s = find-put_nil j k v
find-put j k v ((i, w) ∷ m) s = ground (
  arith,
  find-put j k v m,
  ties j k,
  ties j i,
  ties k i,
  equals_iff k j,
  less_irrefl j k,
  less_irrefl k j,
  less_irrefl j i,
  less_irrefl i j,
  less_irrefl k i,
  less_irrefl i k,
  less_trans j k i,
  less_trans i j k,
  less_trans j i k,
  less_trans k i j,
)

find-Above : (k : Text) (m : MapType) → Above k m → find k m ≡ none
unfolding find
find-Above k [] a = refl
find-Above k ((j, w) ∷ m) a = rw (a.0) refl

-- What is found after a removal.
pub find-erase :
    (j k : Text) (m : MapType)
    → IsSorted m
    → find j (erase k m) ≡ (if equals_ignoring_case k j then none else find j m)
unfolding find erase
find-erase j k [] s = ground arith
find-erase j k ((i, w) ∷ m) s = ground (
  arith,
  find-erase j k m,
  find-Above j m,
  Above-less j i m,
  Above-same i j m,
  ties j k,
  ties j i,
  ties k i,
  equals_iff k j,
  less_irrefl j i,
  less_irrefl i j,
  less_irrefl j k,
  less_irrefl k j,
  less_irrefl k i,
  less_irrefl i k,
  less_trans j k i,
  less_trans k i j,
  less_trans j i k,
  less_trans i j k,
)
