-- ===== src/Http/Responses/Replies.antt =====
-- The headers and the text of a response.
use acid_compute.Prelude.{◌≡◌, ◌≢◌, refl, ap, ◌∙◌, true, false, [], ◌++◌, if◌then◌else◌, arith}
use acid_compute.Http.Texts.{codes, equals_ignoring_case}
use acid_compute.Http.Texts.Order.{equals_iff}
use acid_compute.Http.Names.{
  HttpContentType, invalid_type, string_to_content_type, http_context_type_to_string,
}
use acid_compute.Http.Names.Spelling.{content_type_read}
use acid_compute.Http.Headers.{Text, put}
use acid_compute.Http.Headers.Entries.{IsSorted, find-put}
use acid_compute.Http.Requests.{header_lines, line_end, is_empty, connection_line}
use acid_compute.Http.Responses.{
  HttpResponse, get_header, set_header, set_content_type, get_content_type, dump, status_line,
  length_line,
}

get_after :
    (j d : Text) (k v : Text) (r : HttpResponse)
    → IsSorted r.headers
    → get_header j d (set_header k v r) ≡ (if equals_ignoring_case k j then v else get_header j d r)
unfolding get_header set_header
get_after j d k v r s = ground (arith, find-put j k v r.headers s)

length_not_added :
    (k v : Text) (r : HttpResponse)
    → IsSorted r.headers
    → equals_ignoring_case k (codes "Content-Length") ≡ true
    → is_empty v ≡ false
    → length_line (set_header k v r) ≡ []
unfolding length_line
length_not_added k v r s same filled = ground (arith, get_after (codes "Content-Length") [] k v r s)

-- After set_header of a text that is not empty under the name Content-Length, in any case of its
-- letters, a response with a body is printed with that header and no other line for the length.
pub given_length_printed :
    (k v : Text) (r : HttpResponse)
    → IsSorted r.headers
    → equals_ignoring_case k (codes "Content-Length") ≡ true
    → is_empty v ≡ false
    → is_empty r.body ≡ false
    → dump (set_header k v r)
      ≡ status_line r
        ++ connection_line "Connection: " r.websocket r.close
        ++ header_lines r.websocket (put k v r.headers)
        ++ (line_end ++ r.body)
unfolding dump set_header
given_length_printed k v r s same filled body =
    let end : (if is_empty r.body
          then line_end
          else length_line (set_header k v r) ++ line_end ++ r.body)
        ≡ line_end ++ r.body =
      rw (body, length_not_added k v r s same filled) refl in
    ap
      (λ t.
        status_line r
        ++ connection_line "Connection: " r.websocket r.close
        ++ header_lines r.websocket (put k v r.headers)
        ++ t)
      end

-- A content type set by its number, but INVALID_TYPE, is the one that the response then has.
pub reply_type_round_trip :
    (t : HttpContentType) (r : HttpResponse)
    → t ≢ invalid_type
    → IsSorted r.headers
    → get_content_type (set_content_type t r) ≡ t
unfolding get_content_type set_content_type
reply_type_round_trip t r ne s =
    let name = codes "Content-Type" in
    let self = get_after name [] name (http_context_type_to_string t) r s in
    ap string_to_content_type (self ∙ rw ((equals_iff name name).1 refl) refl)
    ∙ content_type_read t ne
