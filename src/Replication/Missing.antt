-- ===== src/Replication/Missing.antt =====
-- replication_missing.go and `queueMissingFiles` of replication_resync.go: a server lists the files
-- that it does not have, and the other one takes them up. Also `gzipAccepted` of gzip_server.go.
pub mod Exchange
use verm.Prelude.{
  ℕ, Bool, true, false, not, ◌&&◌, ◌||◌, Option, some, List, [], ◌∷◌, ◌++◌, append-nil,
  append_assoc, Bytes, codes, bytes_eq, has_prefix, drop, leb, ◌==◌, if◌then◌else◌, ◌≡◌, refl, sym,
  ap, ◌∙◌, subst, All,
}
use verm.Errors.{Result, ok, err, ◌>>=◌}
use verm.Storage.{Storage, Node, file, find}
use verm.Stream.{Stream, whole, Gunzip, encoding_decoder}
use verm.UrlPath.{clean}
use verm.Http.{
  HttpRequest, Response, Header, get, del, set_field, set_header, write_header, write,
  empty_response,
}
use verm.Http.Fields.{get-set_field, get-set_other, write-write_header}
use verm.Replication.Lines.{scan_lines, write_lines, IsLine, scan_lines-write_lines}

-- `\w` of the regular expressions
abbrev is_word : ℕ → Bool
is_word c =
    (leb b'0' c && leb c b'9')
    || (leb b'A' c && leb c b'Z')
    || c == b'_'
    || (leb b'a' c && leb c b'z')

starts_word : Bytes → Bool
starts_word [] = false
starts_word (c ∷ s) = is_word c

-- `gzip\b` or `x-gzip\b` at the front
gzip_here : Bytes → Bool
unfolding starts_word
gzip_here s =
    (has_prefix s (codes "gzip") && not (starts_word (drop 4 s)))
    || (has_prefix s (codes "x-gzip") && not (starts_word (drop 6 s)))

-- `gzipExpression.MatchString`; the Boolean says whether a word character stands in front.
unfoldable pub matches_gzip : Bool → Bytes → Bool
unfolding gzip_here
matches_gzip behind_word [] = false
matches_gzip behind_word (c ∷ s) =
    (not behind_word && gzip_here (c ∷ s)) || matches_gzip (is_word c) s

-- `gzipAccepted`
unfoldable pub gzip_accepted : HttpRequest → Bool
gzip_accepted req =
    let accept = get req.header (codes "Accept-Encoding") in
    bytes_eq accept [] || matches_gzip false accept

-- whether `os.Stat` finds a regular file
abbrev is_regular : Option Node → Bool
is_regular (some (file b)) = true
is_regular _ = false

-- `pathExists`
unfoldable pub path_exists : Storage → Bytes → Bytes → Bool
path_exists s root filepath = is_regular (find (root ++ clean filepath) s)

-- The test of `listMissingFiles` for a line.
unfoldable pub is_missing : Storage → Bytes → Bytes → Bool
unfolding path_exists
is_missing s root line =
    not (path_exists s root line) && not (path_exists s root (line ++ codes ".gz"))

unfoldable pub filter : (Bytes → Bool) → List Bytes → List Bytes
filter test [] = []
filter test (l ∷ ls) = let rest = filter test ls in if test l then l ∷ rest else rest

-- The loop of `listMissingFiles`.
list_loop : (Bytes → Bool) → List Bytes → Bytes
list_loop test [] = []
list_loop test (l ∷ ls) =
    let rest = list_loop test ls in if test l then (l ++ 13 ∷ 10 ∷ []) ++ rest else rest

-- The two branches of `serveMissing` that write a list; `compress` is what a `gzip.Writer` makes of it.
unfoldable pub respond : Bool → (Bytes → Bytes) → Bytes → Response → Response
respond true compress text w = write (compress text) (
    write_header 200 (
      set_header (codes "Content-Type") (codes "text/plain")
        (set_header (codes "Content-Encoding") (codes "gzip") w)))
respond false compress text w = write text (write_header 200 w)

module _ (s : Storage) (root : Bytes) (limit : ℕ) where
  -- `listMissingFiles`: what it writes for the bytes that it reads
  unfoldable pub list_missing_files : Bytes → Bytes
  unfolding list_loop is_missing
  list_missing_files input = list_loop (is_missing s root) (scan_lines limit input)

  -- The response of `serveMissing`.
  unfoldable pub respond_missing : (Bytes → Bytes) → HttpRequest → Bytes → Response → Response
  unfolding list_missing_files
  respond_missing compress req input w =
      respond (gzip_accepted req) compress (list_missing_files input) w

  -- `serveMissing`; the body of the request is a stream.
  unfoldable pub serve_missing :
      Gunzip → (Bytes → Bytes) → HttpRequest → Stream → Response → Result Response
  unfolding respond_missing
  serve_missing gunzip compress req body w =
      let v = set_header (codes "Content-Type") (codes "text/plain") w in
      encoding_decoder gunzip (get req.header (codes "Content-Encoding")) body
      >>= (λ input. ok (respond_missing compress req input.bytes v))

-- `queueMissingFiles`: the locations that are handed to `enqueueMissingFile`. What could be read of
-- the response is used even when reading it failed.
queued : ℕ → Result Stream → List Bytes
queued limit (err why) = []
queued limit (ok input) = scan_lines limit input.bytes

unfoldable pub queue_missing_files : ℕ → Gunzip → Header → Stream → List Bytes
unfolding queued
queue_missing_files limit gunzip header body =
    queued limit
      (encoding_decoder gunzip (get header (codes "Content-Encoding")) (whole body.bytes))
