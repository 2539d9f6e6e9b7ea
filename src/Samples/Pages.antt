-- ===== src/Samples/Pages.antt =====
-- Requests and responses.
use acid_compute.Prelude.{◌≡◌, ◌≢◌, true, false, [], ◌++◌, none, refl, if◌then◌else◌}
use acid_compute.Http.Texts.{codes, equals_ignoring_case, less_ignoring_case, decimal}
use acid_compute.Http.Names.{http_method_to_string, text_html, invalid_type}
use acid_compute.Http.Headers.{MapType, put, find}
use acid_compute.Http.Headers.Entries.{IsSorted}
use acid_compute.Http.Requests
use acid_compute.Http.Requests.{
  HttpRequest, make_request, init, line_end, connection_line, header_lines,
}
use acid_compute.Http.Requests.Fields.{headers_updated, content_type_round_trip, init_closes}
use acid_compute.Http.Requests.Output.{dump_ignores_connection}
use acid_compute.Http.Responses
use acid_compute.Http.Responses.{HttpResponse, make_response, status_line}
use acid_compute.Http.Responses.Replies.{given_length_printed}

abbrev two_headers : MapType
two_headers = put (codes "host") (codes "acid") (put (codes "ACCEPT") (codes "*/*") [])

abbrev request : HttpRequest
request = record (make_request 17 true) { headers = two_headers }

abbrev page : HttpResponse
page = record (make_response 17 true) { body = codes "acid"; headers = two_headers }

two_headers-IsSorted : IsSorted two_headers
unfolding put less_ignoring_case
two_headers-IsSorted = search

start_line_test :
    Requests.dump request
    ≡ codes "GET / HTTP/1.1"
      ++ line_end
      ++ codes "connection: close"
      ++ line_end
      ++ codes "ACCEPT: */*"
      ++ line_end
      ++ codes "host: acid"
      ++ line_end
      ++ line_end
unfolding Requests.dump make_request put equals_ignoring_case header_lines decimal
    http_method_to_string less_ignoring_case
start_line_test = refl

headers_updated_example :
    (Requests.get_header (codes "Host") [] (Requests.set_header (codes "HOST") (codes "b") request)
      ≡ (if equals_ignoring_case (codes "HOST") (codes "Host")
          then codes "b"
          else Requests.get_header (codes "Host") [] request))
    × (Requests.has_header (codes "Host") (Requests.set_header (codes "HOST") (codes "b") request)
        ≡ (if equals_ignoring_case (codes "HOST") (codes "Host")
            then true
            else Requests.has_header (codes "Host") request))
    × (Requests.get_header (codes "Host") [] (Requests.del_header (codes "HOST") request) ≡ (
        if equals_ignoring_case (codes "HOST") (codes "Host")
        then []
        else Requests.get_header (codes "Host") [] request))
    × (Requests.has_header (codes "Host") (Requests.del_header (codes "HOST") request) ≡ (
        if equals_ignoring_case (codes "HOST") (codes "Host")
        then false
        else Requests.has_header (codes "Host") request))
    × IsSorted (Requests.set_header (codes "HOST") (codes "b") request).headers
    × IsSorted (Requests.del_header (codes "HOST") request).headers
headers_updated_example =
    headers_updated (codes "Host") [] (codes "HOST") (codes "b") request two_headers-IsSorted

html_is_valid : text_html ≢ invalid_type
html_is_valid e = cc

content_type_round_trip_example :
    Requests.get_content_type (Requests.set_content_type text_html request) ≡ text_html
content_type_round_trip_example =
    content_type_round_trip text_html request html_is_valid two_headers-IsSorted

init_closes_example :
    (true ≡ true → (init request).close ≡ true)
    × (find (codes "Connection") two_headers ≡ none → (init request).close ≡ true)
unfolding make_request
init_closes_example = init_closes request

dump_ignores_connection_example :
    (Requests.dump (Requests.set_header (codes "CONNECTION") (codes "x") request)
      ≡ Requests.dump request)
    × (Requests.dump (Requests.del_header (codes "CONNECTION") request) ≡ Requests.dump request)
unfolding equals_ignoring_case make_request
dump_ignores_connection_example =
    dump_ignores_connection (codes "CONNECTION") (codes "x") request refl refl

given_length_printed_example :
    Responses.dump (Responses.set_header (codes "content-length") (codes "4") page)
    ≡ status_line page
      ++ connection_line "Connection: " page.websocket page.close
      ++ header_lines page.websocket (put (codes "content-length") (codes "4") page.headers)
      ++ (line_end ++ codes "acid")
unfolding equals_ignoring_case
given_length_printed_example =
    given_length_printed (codes "content-length") (codes "4") page two_headers-IsSorted refl refl
      refl
