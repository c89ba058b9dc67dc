-- ===== src/Http/Request.antt =====
-- HttpRequest.h and HttpRequest.cpp: the parsed request and its setters. A range [start, end) of
-- bytes is the text that it holds. The assertion in `setMethod` is off in the release build.
pub mod Query
use http.Prelude.{
  ℕ, Bool, true, false, List, [], ◌∷◌, Option, none, some, same, text_eq, if◌then◌else◌, foldl,
}
use http.Std.Text.{Text, codes, isspace, cut, split}
use http.Std.Number.{skip_space}
use http.Std.Map.{lookup, insert, insert_sorted}

-- HttpRequest::Method
pub data Method : Type 0 where
  invalid get post head put delete options : Method

abbrev pub is_invalid : Method → Bool
is_invalid invalid = true
is_invalid _ = false

-- `receive_time` is the muduo timestamp that the caller passes, by its number.
pub record HttpRequest : Type 0 where
  pub method : Method
  pub version : Text
  pub path : Text
  pub path_parameters : List (Text × Text)
  pub query_parameters : List (Text × Text)
  pub receive_time : ℕ
  pub headers : List (Text × Text)
  pub content : Text
  pub content_length : ℕ

-- HttpRequest()
abbrev pub new_request : HttpRequest
new_request = record {
  method = invalid;
  version = codes "Unknown";
  path = [];
  path_parameters = [];
  query_parameters = [];
  receive_time = 0;
  headers = [];
  content = [];
  content_length = 0;
}

abbrev pub set_receive_time : ℕ → HttpRequest → HttpRequest
set_receive_time t r = record r { receive_time = t }

unfoldable pub method_of : Text → Method
method_of m =
    if same m (codes "GET")
    then get
    else if same m (codes "POST")
    then post
    else if same m (codes "PUT")
    then put
    else if same m (codes "DELETE")
    then delete
    else if same m (codes "OPTIONS")
    then options
    else invalid

-- The result says whether the method is a valid one.
unfoldable pub set_method : Text → HttpRequest → Bool × HttpRequest
set_method m r =
    (if is_invalid (method_of m) then false else true, record r { method = method_of m })

abbrev pub set_path : Text → HttpRequest → HttpRequest
set_path p r = record r { path = p }

abbrev pub set_version : Text → HttpRequest → HttpRequest
set_version v r = record r { version = v }

unfoldable pub set_path_parameters : Text → Text → HttpRequest → HttpRequest
set_path_parameters key value r = record r { path_parameters = insert key value r.path_parameters }

-- A missing key reads as the empty text.
abbrev pub or_empty : Option Text → Text
or_empty none = []
or_empty (some v) = v

abbrev pub get_path_parameters : Text → HttpRequest → Text
get_path_parameters key r = or_empty (lookup key r.path_parameters)

abbrev pub get_query_parameters : Text → HttpRequest → Text
get_query_parameters key r = or_empty (lookup key r.query_parameters)

-- One `key=value` pair; a pair with no `=` is dropped.
unfoldable pub add_pair : HttpRequest → Text → HttpRequest
add_pair r pair = elim (cut b'=' pair) [
  | none ↦ r
  | some (key, value) ↦ record r { query_parameters = insert key value r.query_parameters }
]

-- The loop over the parts between `&`, and the last part.
unfoldable pub set_query_parameters : Text → HttpRequest → HttpRequest
set_query_parameters argument r = foldl add_pair r (split b'&' argument)

-- The text without the white space at its end.
unfoldable pub trim_end : Text → Text
trim_end [] = []
trim_end (c ∷ s) = elim (trim_end s) [ [] ↦ if isspace c then [] else c ∷ [] | d ∷ t ↦ c ∷ d ∷ t ]

-- A header line, given by what stands before its colon and behind it.
unfoldable pub add_header : Text → Text → HttpRequest → HttpRequest
add_header key value r = record r {
  headers = insert_sorted key (trim_end (skip_space value)) r.headers;
}

abbrev pub get_header : Text → HttpRequest → Text
get_header field r = or_empty (lookup field r.headers)

abbrev pub set_body : Text → HttpRequest → HttpRequest
set_body body r = record r { content = body }

abbrev pub set_content_length : ℕ → HttpRequest → HttpRequest
set_content_length n r = record r { content_length = n }

-- HttpRequest::swap exchanges these seven fields; the body and its length stay where they are. The
-- result is what the object that it is called on holds afterwards.
unfoldable pub swap : HttpRequest → HttpRequest → HttpRequest
swap this that = record this {
  method = that.method;
  path = that.path;
  path_parameters = that.path_parameters;
  query_parameters = that.query_parameters;
  version = that.version;
  headers = that.headers;
  receive_time = that.receive_time;
}
