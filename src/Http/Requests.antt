-- ===== src/Http/Requests.antt =====
-- HttpRequest of acid/http/http.{h,cpp}. The getters and setters of a member are the record's field
-- and its update. A text that `dump` streams is the list of its bytes.
pub mod Fields
pub mod Output
use Prim.Native.String.{String}
use acid_compute.Prelude.{
  ℕ, ◌/◌, ◌%◌, Bool, true, false, ◌&&◌, not, Option, List, [], ◌∷◌, ◌++◌, if◌then◌else◌, length,
}
use acid_compute.Http.Texts.{codes, decimal, equals_ignoring_case}
use acid_compute.Http.Names.{
  HttpMethod, get, HttpContentType, http_method_to_string, http_context_type_to_string,
  string_to_content_type,
}
use acid_compute.Http.Headers.{Text, MapType, find, put, erase, or_default, is_there}

pub record HttpRequest : Type 0 where
  pub method : HttpMethod
  pub version : ℕ
  pub close : Bool
  pub websocket : Bool
  pub path : Text
  pub query : Text
  pub fragment : Text
  pub body : Text
  pub headers : MapType
  pub params : MapType
  pub cookies : MapType

unfoldable pub make_request : ℕ → Bool → HttpRequest
make_request version close = record {
  method = get;
  version = version;
  close = close;
  websocket = false;
  path = codes "/";
  query = [];
  fragment = [];
  body = [];
  headers = [];
  params = [];
  cookies = [];
}

unfoldable pub get_header : Text → Text → HttpRequest → Text
unfolding or_default
get_header key def r = or_default def (find key r.headers)

unfoldable pub get_param : Text → Text → HttpRequest → Text
unfolding or_default
get_param key def r = or_default def (find key r.params)

unfoldable pub get_cookie : Text → Text → HttpRequest → Text
unfolding or_default
get_cookie key def r = or_default def (find key r.cookies)

unfoldable pub set_header : Text → Text → HttpRequest → HttpRequest
set_header key val r = record r { headers = put key val r.headers }

unfoldable pub set_param : Text → Text → HttpRequest → HttpRequest
set_param key val r = record r { params = put key val r.params }

unfoldable pub set_cookie : Text → Text → HttpRequest → HttpRequest
set_cookie key val r = record r { cookies = put key val r.cookies }

unfoldable pub del_header : Text → HttpRequest → HttpRequest
del_header key r = record r { headers = erase key r.headers }

unfoldable pub del_param : Text → HttpRequest → HttpRequest
del_param key r = record r { params = erase key r.params }

unfoldable pub del_cookie : Text → HttpRequest → HttpRequest
del_cookie key r = record r { cookies = erase key r.cookies }

-- The `val` of the caller is not written.
unfoldable pub has_header : Text → HttpRequest → Bool
has_header key r = is_there (find key r.headers)

unfoldable pub has_param : Text → HttpRequest → Bool
has_param key r = is_there (find key r.params)

unfoldable pub has_cookie : Text → HttpRequest → Bool
has_cookie key r = is_there (find key r.cookies)

unfoldable pub set_content_type : HttpContentType → HttpRequest → HttpRequest
unfolding set_header
set_content_type t r = set_header (codes "Content-Type") (http_context_type_to_string t) r

unfoldable pub get_content_type : HttpRequest → HttpContentType
unfolding get_header
get_content_type r = string_to_content_type (get_header (codes "Content-Type") [] r)

abbrev pub is_empty : Text → Bool
is_empty [] = true
is_empty (x ∷ xs) = false

abbrev pub line_end : Text
line_end = 13 ∷ 10 ∷ []

-- `prefix` and the text, unless that is empty.
abbrev pub marked : String → Text → Text
marked prefix t = (if is_empty t then [] else codes prefix) ++ t

abbrev pub version_text : ℕ → Text
version_text v = codes "HTTP/" ++ decimal (v / 16) ++ codes "." ++ decimal (v % 16)

unfoldable pub start_line : HttpRequest → Text
start_line r =
    http_method_to_string r.method
    ++ codes " "
    ++ r.path
    ++ marked "?" r.query
    ++ marked "#" r.fragment
    ++ codes " "
    ++ version_text r.version
    ++ line_end

abbrev pub connection_line : String → Bool → Bool → Text
connection_line name websocket close =
    if websocket
    then []
    else codes name ++ (if close then codes "close" else codes "keep-alive") ++ line_end

-- The loop over m_headers.
unfoldable pub header_lines : Bool → MapType → Text
header_lines websocket [] = []
header_lines websocket ((k, v) ∷ m) =
    let rest = header_lines websocket m in
    if not websocket && equals_ignoring_case k (codes "connection")
    then rest
    else k ++ codes ": " ++ v ++ line_end ++ rest

abbrev pub body_lines : Text → Text
body_lines b =
    if is_empty b
    then line_end
    else codes "Content-Length: " ++ decimal (length b) ++ line_end ++ line_end ++ b

unfoldable pub dump : HttpRequest → Text
unfolding start_line
dump r =
    start_line r
    ++ connection_line "connection: " r.websocket r.close
    ++ header_lines r.websocket r.headers
    ++ body_lines r.body

unfoldable pub init : HttpRequest → HttpRequest
unfolding get_header
init r =
    let connection = get_header (codes "Connection") [] r in
    if is_empty connection
    then record r {
      close = if equals_ignoring_case connection (codes "keep-alive") then false else true;
    }
    else r
