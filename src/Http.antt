-- ===== src/Http.antt =====
-- The functions of server/core/http_session.cpp that answer a request. A string is the sequence of its
-- bytes, which are ASCII here.
pub mod Below
pub mod Answers
pub mod Session
use Prim.Native.Char.{Char, code}
use Prim.Native.String.{String, [], ◌∷◌, ◌++◌, len}
use beast_lounge.Base.{
  ℕ, Bool, true, false, Option, none, some, ◌&&◌, ◌||◌, not, ◌==◌, if◌then◌else◌,
}

-- path.rfind(".") and the rest of the path from there
unfoldable pub extension : String → Option String
extension [] = none
extension (c ∷ path) = elim (extension path) [
  | some ext ↦ some ext
  | none ↦ if code c == b'.' then some (c ∷ path) else none
]

-- target.find("..") != npos
unfoldable pub starts_dots : String → Bool
starts_dots [] = false
starts_dots (c ∷ []) = false
starts_dots (c ∷ d ∷ rest) = code c == b'.' && code d == b'.'

unfoldable pub has_dots : String → Bool
unfolding starts_dots
has_dots [] = false
has_dots (c ∷ rest) = starts_dots (c ∷ rest) || has_dots rest

-- Whether the last character is a slash, and the string without it.
unfoldable pub ends_slash : String → Bool
ends_slash [] = false
ends_slash (c ∷ []) = code c == b'/'
ends_slash (c ∷ d ∷ rest) = ends_slash (d ∷ rest)

unfoldable pub drop_last : String → String
drop_last [] = []
drop_last (c ∷ []) = []
drop_last (c ∷ d ∷ rest) = c ∷ drop_last (d ∷ rest)

-- path_cat(base, path), where the separator is a slash
unfoldable pub path_cat : String → String → String
unfolding ends_slash drop_last
path_cat [] path = path
path_cat (c ∷ base) path =
    (if ends_slash (c ∷ base) then drop_last (c ∷ base) else c ∷ base) ++ path

-- The verbs that handle_request() tells apart.
pub data Verb : Type 0 where
  get head other : Verb

abbrev pub is_other : Verb → Bool
is_other get = false
is_other head = false
is_other other = true

pub record Request : Type 0 where
  pub method : Verb
  pub target : String
  pub version : ℕ
  pub keep_alive : Bool

pub data Status : Type 0 where
  ok bad_request not_found internal_server_error : Status

pub record Response : Type 0 where
  pub status : Status
  pub version : ℕ
  pub server : String
  pub content_type : String
  pub keep_alive : Bool
  pub content_length : ℕ
  pub body : String

-- What comes of opening a file: its bytes, or no_such_file_or_directory, or an error with its message.
pub data Opened : Type 0 where
  contents : String → Opened
  missing : Opened
  failed : String → Opened

-- Of Boost.Beast: the comparison of strings without regard to case, and the version.
pub record Beast : Type 0 where
  pub iequals : String → String → Bool
  pub version_string : String

unfoldable pub starts_slash : String → Bool
starts_slash [] = false
starts_slash (c ∷ rest) = code c == b'/'

-- What the path is that handle_request() opens, if it gets so far.
unfoldable pub request_path : String → String → String
unfolding path_cat ends_slash
request_path doc_root target =
    let path = path_cat doc_root target in if ends_slash target then path ++ "index.html" else path

module _ (beast : Beast) where
  -- The comparisons of mime_type(), in their order
  unfoldable pub type_of : String → String
  type_of ext =
      if beast.iequals ext ".htm"
      then "text/html"
      else if beast.iequals ext ".html"
      then "text/html"
      else if beast.iequals ext ".php"
      then "text/html"
      else if beast.iequals ext ".css"
      then "text/css"
      else if beast.iequals ext ".txt"
      then "text/plain"
      else if beast.iequals ext ".js"
      then "application/javascript"
      else if beast.iequals ext ".json"
      then "application/json"
      else if beast.iequals ext ".xml"
      then "application/xml"
      else if beast.iequals ext ".swf"
      then "application/x-shockwave-flash"
      else if beast.iequals ext ".flv"
      then "video/x-flv"
      else if beast.iequals ext ".png"
      then "image/png"
      else if beast.iequals ext ".jpe"
      then "image/jpeg"
      else if beast.iequals ext ".jpeg"
      then "image/jpeg"
      else if beast.iequals ext ".jpg"
      then "image/jpeg"
      else if beast.iequals ext ".gif"
      then "image/gif"
      else if beast.iequals ext ".bmp"
      then "image/bmp"
      else if beast.iequals ext ".ico"
      then "image/vnd.microsoft.icon"
      else if beast.iequals ext ".tiff"
      then "image/tiff"
      else if beast.iequals ext ".tif"
      then "image/tiff"
      else if beast.iequals ext ".svg"
      then "image/svg+xml"
      else if beast.iequals ext ".svgz"
      then "image/svg+xml"
      else "application/text"

  unfoldable pub mime_type : String → String
  unfolding extension type_of
  mime_type path = elim (extension path) [ some ext ↦ type_of ext | none ↦ type_of "" ]

  -- The lambdas of handle_request(), whose body and length prepare_payload() takes.
  module _ (req : Request) where
    unfoldable pub text_response : Status → String → Response
    text_response status body = record {
      status = status;
      version = req.version;
      server = beast.version_string;
      content_type = "text/html";
      keep_alive = req.keep_alive;
      content_length = len body;
      body = body;
    }

    abbrev pub bad_request_response : String → Response
    bad_request_response why = text_response bad_request why

    abbrev pub not_found_response : String → Response
    not_found_response target =
        text_response not_found ("The resource '" ++ target ++ "' was not found.")

    abbrev pub server_error_response : String → Response
    server_error_response what =
        text_response internal_server_error ("An error occurred: '" ++ what ++ "'")

    -- The responses to HEAD and to GET, of a file that was opened.
    unfoldable pub file_response : String → String → Response
    unfolding mime_type
    file_response path bytes = record {
      status = ok;
      version = req.version;
      server = beast.version_string;
      content_type = mime_type path;
      keep_alive = req.keep_alive;
      content_length = len bytes;
      body = elim req.method [ head ↦ "" | get ↦ bytes | other ↦ bytes ];
    }

  -- The end of handle_request(), after it tried to open the file
  unfoldable pub send_opened : Request → String → Opened → Response
  unfolding file_response text_response
  send_opened req path missing = not_found_response req req.target
  send_opened req path (failed message) = server_error_response req message
  send_opened req path (contents bytes) = file_response req path bytes

  -- handle_request(doc_root, req, send): the path that it opens, if it does, and what it sends
  unfoldable pub handle_request : (String → Opened) → String → Request → Option String × Response
  unfolding starts_slash has_dots request_path send_opened text_response
  handle_request opens doc_root req =
      if is_other req.method
      then (none, bad_request_response req "Unknown HTTP-method")
      else if not (starts_slash req.target) || has_dots req.target
      then (none, bad_request_response req "Illegal request-target")
      else let path = request_path doc_root req.target in
        (some path, send_opened req path (opens path))
