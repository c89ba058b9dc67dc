-- ===== src/Http/Response.antt =====
-- HttpResponse.h and HttpResponse.cpp: the response, its setters and how it is written out.
use http.Prelude.{ℕ, Bool, true, false, List, [], ◌∷◌, ◌++◌, text_eq, take}
use http.Std.Text.{Text, codes, c_string}
use http.Std.Number.{to_string}
use http.Std.Map.{lookup, insert_sorted}
use http.Http.Request.{or_empty}

-- The values of HttpResponse::HttpStatusCode that the program names. A code is its number.
abbrev pub unknown_status : ℕ
unknown_status = 0

abbrev pub ok_200 : ℕ
ok_200 = 200

abbrev pub no_content_204 : ℕ
no_content_204 = 204

abbrev pub moved_permanently_301 : ℕ
moved_permanently_301 = 301

abbrev pub bad_request_400 : ℕ
bad_request_400 = 400

abbrev pub forbidden_403 : ℕ
forbidden_403 = 403

abbrev pub not_found_404 : ℕ
not_found_404 = 404

abbrev pub internal_server_error_500 : ℕ
internal_server_error_500 = 500

-- `isFile_` is never read or set.
pub record HttpResponse : Type 0 where
  pub http_version : Text
  pub status_code : ℕ
  pub status_message : Text
  pub close_connection : Bool
  pub headers : List (Text × Text)
  pub body : Text

-- HttpResponse(close)
abbrev pub new_response : Bool → HttpResponse
new_response close = record {
  http_version = [];
  status_code = unknown_status;
  status_message = [];
  close_connection = close;
  headers = [];
  body = [];
}

abbrev pub set_version : Text → HttpResponse → HttpResponse
set_version version r = record r { http_version = version }

abbrev pub set_status_code : ℕ → HttpResponse → HttpResponse
set_status_code code r = record r { status_code = code }

abbrev pub set_status_message : Text → HttpResponse → HttpResponse
set_status_message m r = record r { status_message = m }

abbrev pub set_close_connection : Bool → HttpResponse → HttpResponse
set_close_connection on r = record r { close_connection = on }

unfoldable pub add_header : Text → Text → HttpResponse → HttpResponse
add_header key value r = record r { headers = insert_sorted key value r.headers }

abbrev pub set_content_type : Text → HttpResponse → HttpResponse
set_content_type = add_header (codes "Content-Type")

abbrev pub set_content_length : ℕ → HttpResponse → HttpResponse
set_content_length n = add_header (codes "Content-Length") (to_string n)

abbrev pub set_body : Text → HttpResponse → HttpResponse
set_body body r = record r { body = body }

abbrev pub set_status_line : Text → ℕ → Text → HttpResponse → HttpResponse
set_status_line version code message r = record r {
  http_version = version;
  status_code = code;
  status_message = message;
}

abbrev pub get_header : Text → HttpResponse → Text
get_header field r = or_empty (lookup field r.headers)

abbrev pub clear_headers : HttpResponse → HttpResponse
clear_headers r = record r { headers = [] }

-- snprintf of "%s %d " into a buffer of `size` bytes, the last of them for the end of the text.
unfoldable pub version_and_code : ℕ → Text → ℕ → Text
version_and_code size version code =
    take size (c_string version ++ b' ' ∷ (to_string code ++ b' ' ∷ []))

-- statusLine(), over a buffer of 64 bytes
unfoldable pub status_line : HttpResponse → Text
status_line r = version_and_code 63 r.http_version r.status_code ++ r.status_message

abbrev pub end_of_line : Text → Text
end_of_line rest = 13 ∷ 10 ∷ rest

unfoldable pub header_lines : List (Text × Text) → Text → Text
header_lines [] rest = rest
header_lines ((key, value) ∷ hs) rest =
    key ++ b':' ∷ b' ' ∷ (value ++ end_of_line (header_lines hs rest))

abbrev pub connection_line : Bool → Text
connection_line true = codes "Connection: close"
connection_line false = codes "Connection: Keep-Alive"

-- appendToBuffer, over a buffer of 32 bytes: the bytes that it appends
unfoldable pub append_to_buffer : HttpResponse → Text
append_to_buffer r =
    version_and_code 31 r.http_version r.status_code
    ++ (r.status_message
        ++ end_of_line (
            connection_line r.close_connection
            ++ end_of_line (header_lines r.headers (end_of_line r.body))))
