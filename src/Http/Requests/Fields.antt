-- ===== src/Http/Requests/Fields.antt =====
-- The headers of a request, and its m_close.
use acid_compute.Prelude.{
  ◌≡◌, ◌≢◌, refl, bool_clash, sym, ap, ◌∙◌, true, false, none, [], ◌∷◌, if◌then◌else◌, arith,
}
use acid_compute.Http.Texts.{codes, equals_ignoring_case}
use acid_compute.Http.Texts.Order.{equals_iff}
use acid_compute.Http.Names.{
  HttpContentType, invalid_type, string_to_content_type, http_context_type_to_string,
}
use acid_compute.Http.Names.Spelling.{content_type_read}
use acid_compute.Http.Headers.{Text, find}
use acid_compute.Http.Headers.Entries.{IsSorted, find-put, find-erase, put-IsSorted, erase-IsSorted}
use acid_compute.Http.Requests.{
  HttpRequest, get_header, set_header, del_header, has_header, set_content_type, get_content_type,
  init, is_empty,
}

get_after :
    (j d : Text) (k v : Text) (r : HttpRequest)
    → IsSorted r.headers
    → get_header j d (set_header k v r) ≡ (if equals_ignoring_case k j then v else get_header j d r)
unfolding get_header set_header
get_after j d k v r s = ground (arith, find-put j k v r.headers s)

get_without :
    (j d : Text) (k : Text) (r : HttpRequest)
    → IsSorted r.headers
    → get_header j d (del_header k r) ≡ (if equals_ignoring_case k j then d else get_header j d r)
unfolding get_header del_header
get_without j d k r s = ground (arith, find-erase j k r.headers s)

has_after :
    (j k v : Text) (r : HttpRequest)
    → IsSorted r.headers
    → has_header j (set_header k v r) ≡ (if equals_ignoring_case k j then true else has_header j r)
unfolding has_header set_header
has_after j k v r s = ground (arith, find-put j k v r.headers s)

has_without :
    (j k : Text) (r : HttpRequest)
    → IsSorted r.headers
    → has_header j (del_header k r) ≡ (if equals_ignoring_case k j then false else has_header j r)
unfolding has_header del_header
has_without j k r s = ground (arith, find-erase j k r.headers s)

sorted_after :
    (k v : Text) (r : HttpRequest) → IsSorted r.headers → IsSorted (set_header k v r).headers
unfolding set_header
sorted_after k v r s = put-IsSorted k v r.headers s

sorted_without :
    (k : Text) (r : HttpRequest) → IsSorted r.headers → IsSorted (del_header k r).headers
unfolding del_header
sorted_without k r s = erase-IsSorted k r.headers s

-- In a request whose headers are in the map's order: behind set_header exactly the header of that
-- name, whatever the case of its letters, has the new value, and behind del_header exactly that one
-- is missing, for get_header and has_header; both keep the order, with one entry for each name.
pub headers_updated :
    (j d k v : Text) (r : HttpRequest)
    → IsSorted r.headers
    → (get_header j d (set_header k v r)
        ≡ (if equals_ignoring_case k j then v else get_header j d r))
      × (has_header j (set_header k v r)
          ≡ (if equals_ignoring_case k j then true else has_header j r))
      × (get_header j d (del_header k r)
          ≡ (if equals_ignoring_case k j then d else get_header j d r))
      × (has_header j (del_header k r)
          ≡ (if equals_ignoring_case k j then false else has_header j r))
      × IsSorted (set_header k v r).headers
      × IsSorted (del_header k r).headers
headers_updated j d k v r s = (
  get_after j d k v r s,
  has_after j k v r s,
  get_without j d k r s,
  has_without j k r s,
  sorted_after k v r s,
  sorted_without k r s,
)

-- A content type set by its number, but INVALID_TYPE, is the one that the request then has.
pub content_type_round_trip :
    (t : HttpContentType) (r : HttpRequest)
    → t ≢ invalid_type
    → IsSorted r.headers
    → get_content_type (set_content_type t r) ≡ t
unfolding get_content_type set_content_type
content_type_round_trip t r ne s =
    let name = codes "Content-Type" in
    let self = get_after name [] name (http_context_type_to_string t) r s in
    ap string_to_content_type (self ∙ rw ((equals_iff name name).1 refl) refl)
    ∙ content_type_read t ne

empty_not_kept :
    (c : Text) → is_empty c ≡ true → equals_ignoring_case c (codes "keep-alive") ≡ false
unfolding equals_ignoring_case
empty_not_kept [] h = refl
empty_not_kept (x ∷ c) h = bool_clash (sym h)

-- init() never keeps a connection open that was to be closed, whatever the Connection header says,
-- and without the header it closes every connection.
pub init_closes :
    (r : HttpRequest)
    → (r.close ≡ true → (init r).close ≡ true)
      × (find (codes "Connection") r.headers ≡ none → (init r).close ≡ true)
unfolding init get_header
init_closes r =
    let name = codes "Connection" in
    let unkept = empty_not_kept (get_header name [] r) in
    (λ c. ground (arith, unkept), λ c. ground (arith, unkept))
