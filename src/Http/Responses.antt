-- ===== src/Http/Responses.antt =====
-- HttpResponse of acid/http/http.{h,cpp}, in the way of the requests.
pub mod Replies
use acid_compute.Prelude.{ℕ, Bool, true, false, List, [], ◌∷◌, ◌++◌, if◌then◌else◌, length}
use acid_compute.Http.Texts.{codes, decimal}
use acid_compute.Http.Names.{
  HttpContentType, http_status_to_string, http_context_type_to_string, string_to_content_type,
}
use acid_compute.Http.Headers.{Text, MapType, find, put, erase, or_default, is_there}
use acid_compute.Http.Requests.{is_empty, line_end, version_text, connection_line, header_lines}

pub record HttpResponse : Type 0 where
  pub status : ℕ
  pub version : ℕ
  pub close : Bool
  pub websocket : Bool
  pub body : Text
  pub reason : Text
  pub headers : MapType
  pub cookies : List Text

unfoldable pub make_response : ℕ → Bool → HttpResponse
make_response version close = record {
  status = 200;
  version = version;
  close = close;
  websocket = false;
  body = [];
  reason = [];
  headers = [];
  cookies = [];
}

unfoldable pub get_header : Text → Text → HttpResponse → Text
unfolding or_default
get_header key def r = or_default def (find key r.headers)

unfoldable pub set_header : Text → Text → HttpResponse → HttpResponse
set_header key val r = record r { headers = put key val r.headers }

unfoldable pub del_header : Text → HttpResponse → HttpResponse
del_header key r = record r { headers = erase key r.headers }

-- The `val` of the caller is not written.
unfoldable pub has_header : Text → HttpResponse → Bool
has_header key r = is_there (find key r.headers)

unfoldable pub set_content_type : HttpContentType → HttpResponse → HttpResponse
unfolding set_header
set_content_type t r = set_header (codes "Content-Type") (http_context_type_to_string t) r

unfoldable pub get_content_type : HttpResponse → HttpContentType
unfolding get_header
get_content_type r = string_to_content_type (get_header (codes "Content-Type") [] r)

unfoldable pub status_line : HttpResponse → Text
status_line r =
    version_text r.version
    ++ codes " "
    ++ decimal r.status
    ++ codes " "
    ++ (if is_empty r.reason then http_status_to_string r.status else r.reason)
    ++ line_end

unfoldable pub length_line : HttpResponse → Text
unfolding get_header
length_line r =
    if is_empty (get_header (codes "Content-Length") [] r)
    then codes "Content-Length: " ++ decimal (length r.body) ++ line_end
    else []

unfoldable pub dump : HttpResponse → Text
unfolding status_line length_line
dump r =
    status_line r
    ++ connection_line "Connection: " r.websocket r.close
    ++ header_lines r.websocket r.headers
    ++ (if is_empty r.body then line_end else length_line r ++ line_end ++ r.body)
