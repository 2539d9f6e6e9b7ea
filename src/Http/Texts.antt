-- ===== src/Http/Texts.antt =====
-- The texts of acid/http/http.{h,cpp}, lists of bytes, and what the code asks of the C library:
-- strcmp, strcasecmp in the "C" locale, and the digits that a stream prints.
pub mod Order
use Prim.Native.Char.{code}
use Prim.Native.String.{String}
use acid_compute.Prelude.{
  ℕ, zero, suc, ◌+◌, ◌/◌, ◌%◌, Bool, true, false, ◌&&◌, List, [], ◌∷◌, ◌++◌, map, ◌==◌, ltb, leb,
  if◌then◌else◌,
}
use acid_compute.Http.Servlets.{same}

-- The code points of a literal, which are its bytes.
abbrev pub codes : String → List ℕ
codes String.[] = []
codes (String.◌∷◌ c s) = code c ∷ codes s

-- What c_str() shows: the bytes in front of the first 0.
abbrev pub c_str : List ℕ → List ℕ
c_str [] = []
c_str (x ∷ xs) = let rest = c_str xs in if x == 0 then [] else x ∷ rest

-- strcmp(a.c_str(), b.c_str()) == 0
unfoldable pub equals : List ℕ → List ℕ → Bool
equals a b = same (c_str a) (c_str b)

abbrev pub lower : ℕ → ℕ
lower c = if leb b'A' c && leb c b'Z' then c + 32 else c

unfoldable pub folded : List ℕ → List ℕ
folded a = map lower (c_str a)

abbrev pub below : List ℕ → List ℕ → Bool
below xs [] = false
below [] (y ∷ ys) = true
below (x ∷ xs) (y ∷ ys) =
    let rest = below xs ys in if ltb x y then true else if x == y then rest else false

-- strcasecmp(a.c_str(), b.c_str()) == 0 and < 0
unfoldable pub equals_ignoring_case : List ℕ → List ℕ → Bool
unfolding folded
equals_ignoring_case a b = same (folded a) (folded b)

unfoldable pub less_ignoring_case : List ℕ → List ℕ → Bool
unfolding folded
less_ignoring_case a b = below (folded a) (folded b)

abbrev pub digits : ℕ → ℕ → List ℕ → List ℕ
digits zero n ds = ds
digits (suc f) n ds =
    let more = digits f (n / 10) ((b'0' + n % 10) ∷ ds) in
    if ltb n 10 then (b'0' + n) ∷ ds else more

-- A size_t has 20 digits at most.
unfoldable pub decimal : ℕ → List ℕ
decimal n = digits 20 n []
