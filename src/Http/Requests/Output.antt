-- ===== src/Http/Requests/Output.antt =====
-- What dump prints of the headers.
use acid_compute.Prelude.{◌≡◌, refl, true, false, [], ◌∷◌, arith}
use acid_compute.Http.Texts.{codes, equals_ignoring_case}
use acid_compute.Http.Texts.Order.{equals_iff, ties}
use acid_compute.Http.Headers.{Text, MapType, put, erase}
use acid_compute.Http.Requests.{HttpRequest, set_header, del_header, header_lines, dump}

module _ (k : Text) (conn : equals_ignoring_case k (codes "connection") ≡ true) where
  header_lines-put :
      (v : Text) (m : MapType) → header_lines false (put k v m) ≡ header_lines false m
  unfolding header_lines put
  header_lines-put v [] = ground arith
  header_lines-put v ((j, w) ∷ m) = ground (
    arith,
    header_lines-put v m,
    ties k j,
    equals_iff k (codes "connection"),
    equals_iff j (codes "connection"),
  )

  header_lines-erase : (m : MapType) → header_lines false (erase k m) ≡ header_lines false m
  unfolding header_lines erase
  header_lines-erase [] = refl
  header_lines-erase ((j, w) ∷ m) = ground (
    arith,
    header_lines-erase m,
    ties k j,
    equals_iff k (codes "connection"),
    equals_iff j (codes "connection"),
  )

-- Unless the request is for a websocket, its text does not depend on a Connection header, in any
-- spelling of the name: setting or deleting it changes nothing, since m_close alone is printed.
pub dump_ignores_connection :
    (k v : Text) (r : HttpRequest)
    → equals_ignoring_case k (codes "connection") ≡ true
    → r.websocket ≡ false
    → (dump (set_header k v r) ≡ dump r) × (dump (del_header k r) ≡ dump r)
unfolding dump set_header del_header
dump_ignores_connection k v r conn plain = (
  simp (plain, header_lines-put k conn v r.headers),
  simp (plain, header_lines-erase k conn r.headers),
)
