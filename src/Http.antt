-- ===== src/Http.antt =====
-- HTTP messages as the handlers read and write them: header fields, and the response so far.
pub mod Fields
use verm.Prelude.{
  ℕ, ◌+◌, Bool, true, false, Option, none, some, List, [], ◌∷◌, ◌++◌, Bytes, codes, bytes_eq, ◌==◌,
  if◌then◌else◌,
}

-- Header fields by their canonical names, each with one value.
abbrev pub Header : Type 0
Header = List (Bytes × Bytes)

-- `header.Get(name)`: empty if there is no such field
unfoldable pub get : Header → Bytes → Bytes
get [] name = []
get ((k, v) ∷ h) name = if bytes_eq k name then v else get h name

-- `header.Del(name)`
unfoldable pub del : Header → Bytes → Header
del [] name = []
del ((k, v) ∷ h) name = let rest = del h name in if bytes_eq k name then rest else (k, v) ∷ rest

-- `header.Set(name, value)`
unfoldable pub set_field : Header → Bytes → Bytes → Header
set_field h name value = (name, value) ∷ del h name

-- A request as the handlers read it: the method, the path of the URL, the values of its query for
-- `forward`, the header.
pub record HttpRequest : Type 0 where
  pub method : Bytes
  pub path : Bytes
  pub forward_values : List Bytes
  pub header : Header

-- `http.ResponseWriter`; the status is 0 until `WriteHeader` is called.
pub record Response : Type 0 where
  pub status : ℕ
  pub header : Header
  pub body : Bytes

abbrev pub empty_response : Response
empty_response = record { status = 0; header = []; body = [] }

-- `w.Header().Set(name, value)`
unfoldable pub set_header : Bytes → Bytes → Response → Response
set_header name value w = record w { header = set_field w.header name value }

-- `w.WriteHeader(code)`; only the first call counts
unfoldable pub write_header : ℕ → Response → Response
write_header code w = if w.status == 0 then record w { status = code } else w

-- `w.Write(b)`, which sends the status 200 if there is none yet
unfoldable pub write : Bytes → Response → Response
unfolding write_header
write b w = let v = write_header 200 w in record v { body = v.body ++ b }

-- `http.Error(w, message, code)`
unfoldable pub http_error : Bytes → ℕ → Response → Response
unfolding set_header write_header write
http_error message code w = write (message ++ (10 ∷ [])) (
    write_header code (
      set_header (codes "X-Content-Type-Options") (codes "nosniff")
        (set_header (codes "Content-Type") (codes "text/plain; charset=utf-8") w)))
