-- ===== src/Http/Names.antt =====
-- The names of acid/http/http.{h,cpp}: the tables of HTTP_METHOD_MAP, HTTP_STATUS_MAP and
-- HTTP_CONTENT_TYPE in their order, and the functions over them. A status is a number, since
-- set_status takes any.
pub mod Spelling
use Prim.Native.String.{String}
use acid_compute.Prelude.{
  ℕ, zero, suc, Bool, Option, none, some, List, [], ◌∷◌, map, ◌==◌, if◌then◌else◌, get_elem?,
}
use acid_compute.Http.Texts.{codes, equals}

pub data HttpMethod : Type 0 where
  delete get head post put connect options trace copy lock mkcol move propfind proppatch :
      HttpMethod
  search unlock bind rebind unbind acl report mkactivity checkout merge msearch notify : HttpMethod
  subscribe unsubscribe patch purge mkcalendar link unlink source invalid_method : HttpMethod

abbrev pub method_map : List (HttpMethod × String)
method_map =
    (delete, "DELETE")
    ∷ (get, "GET")
    ∷ (head, "HEAD")
    ∷ (post, "POST")
    ∷ (put, "PUT")
    ∷ (connect, "CONNECT")
    ∷ (options, "OPTIONS")
    ∷ (trace, "TRACE")
    ∷ (copy, "COPY")
    ∷ (lock, "LOCK")
    ∷ (mkcol, "MKCOL")
    ∷ (move, "MOVE")
    ∷ (propfind, "PROPFIND")
    ∷ (proppatch, "PROPPATCH")
    ∷ (search, "SEARCH")
    ∷ (unlock, "UNLOCK")
    ∷ (bind, "BIND")
    ∷ (rebind, "REBIND")
    ∷ (unbind, "UNBIND")
    ∷ (acl, "ACL")
    ∷ (report, "REPORT")
    ∷ (mkactivity, "MKACTIVITY")
    ∷ (checkout, "CHECKOUT")
    ∷ (merge, "MERGE")
    ∷ (msearch, "M - SEARCH")
    ∷ (notify, "NOTIFY")
    ∷ (subscribe, "SUBSCRIBE")
    ∷ (unsubscribe, "UNSUBSCRIBE")
    ∷ (patch, "PATCH")
    ∷ (purge, "PURGE")
    ∷ (mkcalendar, "MKCALENDAR")
    ∷ (link, "LINK")
    ∷ (unlink, "UNLINK")
    ∷ (source, "SOURCE")
    ∷ []

-- The underlying number.
abbrev pub method_code : HttpMethod → ℕ
method_code delete = 0
method_code get = 1
method_code head = 2
method_code post = 3
method_code put = 4
method_code connect = 5
method_code options = 6
method_code trace = 7
method_code copy = 8
method_code lock = 9
method_code mkcol = 10
method_code move = 11
method_code propfind = 12
method_code proppatch = 13
method_code search = 14
method_code unlock = 15
method_code bind = 16
method_code rebind = 17
method_code unbind = 18
method_code acl = 19
method_code report = 20
method_code mkactivity = 21
method_code checkout = 22
method_code merge = 23
method_code msearch = 24
method_code notify = 25
method_code subscribe = 26
method_code unsubscribe = 27
method_code patch = 28
method_code purge = 29
method_code mkcalendar = 30
method_code link = 31
method_code unlink = 32
method_code source = 33
method_code invalid_method = 34

pub data HttpContentType : Type 0 where
  text_html text_plain text_xml image_gif image_jpeg image_png application_xhtml : HttpContentType
  application_atom application_json application_pdf application_msword application_stream :
      HttpContentType
  application_urlencoded application_form_data invalid_type : HttpContentType

abbrev pub content_type_map : List (HttpContentType × String)
content_type_map =
    (text_html, "text/html")
    ∷ (text_plain, "text/plain")
    ∷ (text_xml, "text/xml")
    ∷ (image_gif, "image/gif")
    ∷ (image_jpeg, "image/jpeg")
    ∷ (image_png, "image/png")
    ∷ (application_xhtml, "application/xhtml+xml")
    ∷ (application_atom, "application/atom+xml")
    ∷ (application_json, "application/json")
    ∷ (application_pdf, "application/pdf")
    ∷ (application_msword, "application/msword")
    ∷ (application_stream, "application/octet-stream")
    ∷ (application_urlencoded, "application/x-www-form-urlencoded")
    ∷ (application_form_data, "application/form-data")
    ∷ []

abbrev pub content_type_code : HttpContentType → ℕ
content_type_code text_html = 0
content_type_code text_plain = 1
content_type_code text_xml = 2
content_type_code image_gif = 3
content_type_code image_jpeg = 4
content_type_code image_png = 5
content_type_code application_xhtml = 6
content_type_code application_atom = 7
content_type_code application_json = 8
content_type_code application_pdf = 9
content_type_code application_msword = 10
content_type_code application_stream = 11
content_type_code application_urlencoded = 12
content_type_code application_form_data = 13
content_type_code invalid_type = 14

abbrev pub status_map : List (ℕ × String)
status_map =
    (100, "Continue")
    ∷ (101, "Switching Protocols")
    ∷ (102, "Processing")
    ∷ (200, "OK")
    ∷ (201, "Created")
    ∷ (202, "Accepted")
    ∷ (203, "Non - Authoritative Information")
    ∷ (204, "No Content")
    ∷ (205, "Reset Content")
    ∷ (206, "Partial Content")
    ∷ (207, "Multi - Status")
    ∷ (208, "Already Reported")
    ∷ (226, "IM Used")
    ∷ (300, "Multiple Choices")
    ∷ (301, "Moved Permanently")
    ∷ (302, "Found")
    ∷ (303, "See Other")
    ∷ (304, "Not Modified")
    ∷ (305, "Use Proxy")
    ∷ (307, "Temporary Redirect")
    ∷ (308, "Permanent Redirect")
    ∷ (400, "Bad Request")
    ∷ (401, "Unauthorized")
    ∷ (402, "Payment Required")
    ∷ (403, "Forbidden")
    ∷ (404, "Not Found")
    ∷ (405, "Method Not Allowed")
    ∷ (406, "Not Acceptable")
    ∷ (407, "Proxy Authentication Required")
    ∷ (408, "Request Timeout")
    ∷ (409, "Conflict")
    ∷ (410, "Gone")
    ∷ (411, "Length Required")
    ∷ (412, "Precondition Failed")
    ∷ (413, "Payload Too Large")
    ∷ (414, "URI Too Long")
    ∷ (415, "Unsupported Media Type")
    ∷ (416, "Range Not Satisfiable")
    ∷ (417, "Expectation Failed")
    ∷ (421, "Misdirected Request")
    ∷ (422, "Unprocessable Entity")
    ∷ (423, "Locked")
    ∷ (424, "Failed Dependency")
    ∷ (426, "Upgrade Required")
    ∷ (428, "Precondition Required")
    ∷ (429, "Too Many Requests")
    ∷ (431, "Request Header Fields Too Large")
    ∷ (451, "Unavailable For Legal Reasons")
    ∷ (500, "Internal Server Error")
    ∷ (501, "Not Implemented")
    ∷ (502, "Bad Gateway")
    ∷ (503, "Service Unavailable")
    ∷ (504, "Gateway Timeout")
    ∷ (505, "HTTP Version Not Supported")
    ∷ (506, "Variant Also Negotiates")
    ∷ (507, "Insufficient Storage")
    ∷ (508, "Loop Detected")
    ∷ (510, "Not Extended")
    ∷ (511, "Network Authentication Required")
    ∷ []

-- The first entry whose text strcmp takes for the same.
pub named : {A : Type 0} → List ℕ → List (A × String) → A → A
named t [] none_of = none_of
named t ((a, s) ∷ rest) none_of = if equals t (codes s) then a else named t rest none_of

pub text_at : {A : Type 0} → ℕ → List (A × String) → List ℕ → List ℕ
text_at i [] out_of_range = out_of_range
text_at zero ((a, s) ∷ rest) out_of_range = codes s
text_at (suc i) ((a, s) ∷ rest) out_of_range = text_at i rest out_of_range

pub text_of : ℕ → List (ℕ × String) → List ℕ → List ℕ
text_of c [] other = other
text_of c ((n, s) ∷ rest) other = if c == n then codes s else text_of c rest other

unfoldable pub string_to_method : List ℕ → HttpMethod
unfolding named
string_to_method t = named t method_map invalid_method

unfoldable pub string_to_content_type : List ℕ → HttpContentType
unfolding named
string_to_content_type t = named t content_type_map application_urlencoded

unfoldable pub http_method_to_string : HttpMethod → List ℕ
unfolding text_at
http_method_to_string m = text_at (method_code m) method_map (codes "<unknown>")

unfoldable pub http_status_to_string : ℕ → List ℕ
unfolding text_of
http_status_to_string s = text_of s status_map (codes "<unknown>")

unfoldable pub http_context_type_to_string : HttpContentType → List ℕ
unfolding text_at
http_context_type_to_string t = text_at (content_type_code t) content_type_map (codes "text/plain")
