-- ===== src/Server/Files.antt =====
-- `serveFile` and `openFile` of server.go, and `unpackAndServeContent` of gzip_server.go: GET and HEAD.
pub mod Served
pub mod Unpacked
pub mod Forwarded
mod Examples
use verm.Prelude.{
  ℕ, suc, drop, ◌+◌, Bool, true, false, ◌||◌, Option, none, some, List, [], ◌∷◌, ◌++◌, Bytes, codes,
  bytes_eq, length, if◌then◌else◌,
}
use verm.Prelude.Int.{ℤ, pos, pos_part}
use verm.Storage.{Storage, Node, file, directory, closed, find}
use verm.Stream.{Stream, whole, Gunzip, ReadEnd, nil, eof}
use verm.Seeker.{Source, GzipSeeker, new_gzip_seeker, seek, read_on, copied, bind_option, size}
use verm.UrlPath.{clean, ext}
use verm.Http.{
  HttpRequest, Response, get, del, set_header, write_header, write, http_error, empty_response,
}
use verm.Ranges.{HttpRange}
use verm.ServeContent.{Sought, refused, at, seek_file, serve_content, content_type_field}
use verm.ServeContent.Conditional.{check_last_modified, check_etag}
use verm.Replication.Missing.{gzip_accepted}
use verm.Forwarding.Request.{Replicas, forward_if_needed}
use verm.Server.{LogStatistics}

-- `openFile`: the contents of a regular file; a directory is an error.
unfoldable pub open_served : Storage → Bytes → Bytes → Option Bytes
open_served s root path = elim (find (root ++ path) s) [
  | none ↦ none
  | some n ↦ elim n [ file b ↦ some b | directory ↦ none | closed ↦ none ]
]

-- The file that is served, and whether it is stored compressed.
unfoldable pub or_compressed : Option Bytes → Option Bytes → Option (Bytes × Bool)
or_compressed (some b) compressed = some (b, false)
or_compressed none (some b) = some (b, true)
or_compressed none none = none

-- What the server takes from libraries and from other servers: times, the MIME table, gzip, the
-- boundaries and the error text of `serve_content`, and the replicas.
pub record Outside : Type 0 where
  pub modtime : Bytes → ℕ
  pub parse_time : Bytes → Option ℕ
  pub format_time : ℕ → Bytes
  pub type_by_extension : Bytes → Bytes
  pub gunzip : Gunzip
  pub gunzip_error : Bytes
  -- What a `Read` of the decoder of a compressed file delivers, given the sizes of the reads since its
  -- last start, and the size of this one; and whether the file can be wound back.
  pub unpack_read : Bytes → List ℕ → ℕ → Bytes × ReadEnd
  pub rewinds : Bytes → Bool
  pub boundary : Bytes
  pub counting_boundary : Bytes
  pub seek_error : Bytes
  pub replicas : Replicas

module _ (o : Outside) where
  -- `serveContent` as the server calls it for a file
  abbrev serve_bytes : HttpRequest → Bytes → Response → Option Response
  serve_bytes r content w =
      serve_content o.boundary o.counting_boundary (seek_file o.seek_error content) r
        (pos (length content)) content w

  -- The decoder of a compressed file; its state are the sizes of the reads since its last start.
  unfoldable pub decoder : Bytes → Source (List ℕ)
  decoder compressed = record {
    read = λ n reads. (
      (o.unpack_read compressed reads n).0,
      (o.unpack_read compressed reads n).1,
      reads ++ n ∷ [],
    );
    seek_start = λ reads. if o.rewinds compressed then some reads else none;
    reset = λ reads. some [];
  }

  -- What the outcome of a seek is for `serveContent`: the bytes are those that the seeker reads.
  unfoldable pub sought : Bytes → ℕ → Option (ℤ × ReadEnd × GzipSeeker (List ℕ)) → Sought
  sought compressed fuel none = refused []
  sought compressed fuel (some (position, nil, s)) = at (read_on (decoder compressed) fuel s)
  sought compressed fuel (some (position, eof, s)) = refused (codes "EOF")
  sought compressed fuel (some (position, _, s)) = refused o.gunzip_error

  -- The seeker behind the ranges that were copied from it before, one after the other.
  unfoldable pub after_ranges :
      Bytes → ℕ → List HttpRange → GzipSeeker (List ℕ) → Option (GzipSeeker (List ℕ))
  after_ranges compressed fuel [] s = some s
  after_ranges compressed fuel (ra ∷ ranges) s =
      bind_option (seek (decoder compressed) fuel ra.start 0 s) (λ out.
        after_ranges compressed fuel ranges (copied (decoder compressed) fuel ra.length out.2))

  -- A seek of the seeker, and what is read behind it.
  unfoldable pub seek_seeker : Bytes → ℕ → GzipSeeker (List ℕ) → List HttpRange → ℤ → Sought
  seek_seeker compressed fuel s earlier start = sought compressed fuel (
      bind_option (after_ranges compressed fuel earlier s)
        (λ t. seek (decoder compressed) fuel start 0 t))

  unfoldable pub serve_seeker :
      HttpRequest
      → Bytes
      → Bytes
      → Option (Option (GzipSeeker (List ℕ)))
      → Response
      → Option Response
  serve_seeker r compressed unpacked none w = none
  serve_seeker r compressed unpacked (some none) w =
      some (http_error (codes "Couldn't decompress file " ++ o.gunzip_error) 500 w)
  serve_seeker r compressed unpacked (some (some s)) w =
      serve_content o.boundary o.counting_boundary
        (seek_seeker compressed (suc (length unpacked)) s) r (size (decoder compressed) s) unpacked
        w

  -- `unpackAndServeContent` with a decoder that could be made, for the stream that it decodes.
  unfoldable pub serve_unpacked : HttpRequest → Bytes → Stream → Response → Option Response
  serve_unpacked r compressed unpacked w =
      if bytes_eq (get r.header (codes "Range")) []
      then some (write unpacked.bytes (write_header 200 w))
      else serve_seeker r compressed unpacked.bytes
          (new_gzip_seeker (decoder compressed) (suc (length unpacked.bytes)) []) w

  unfoldable pub unpack_and_serve_content : HttpRequest → Bytes → Response → Option Response
  unpack_and_serve_content r compressed w = elim (o.gunzip (whole compressed)) [
    | none ↦ some (http_error (codes "Couldn't create decompressor") 500 w)
    | some unpacked ↦ serve_unpacked r compressed unpacked w
  ]

  -- The last `if` of `serveFile`.
  unfoldable pub send_file : HttpRequest → Bytes → Bool → Response → Option Response
  send_file r content false w = serve_bytes r content w
  send_file r content true w =
      if gzip_accepted r
      then serve_bytes r content (set_header (codes "Content-Encoding") (codes "gzip") w)
      else if bytes_eq r.method (codes "HEAD")
      then some (write_header 200 w)
      else unpack_and_serve_content r content w

  -- The fields that are set before the file is sent.
  unfoldable pub describe : Bytes → Response → Response
  describe path w =
      let content_type = o.type_by_extension (ext path) in
      set_header content_type_field
        (if bytes_eq content_type [] then codes "application/octet-stream" else content_type)
        (set_header (codes "ETag") path
          (set_header (codes "Last-Modified") (o.format_time (o.modtime path)) w))

  -- The answer for a client that is up to date.
  unfoldable pub not_modified : Response → Response
  not_modified w = write_header 304 (record w { header = del w.header (codes "Content-Length") })

  -- The part of `serveFile` behind the opening of the file; the test of the tag changes the response
  -- only if the test of the time fails.
  unfoldable pub serve_found : HttpRequest → Bytes → Bytes × Bool → Response → Option Response
  serve_found r path (content, compressed) w =
      if check_last_modified o.parse_time r (o.modtime path)
      then some (not_modified w)
      else (let (v, fresh) = check_etag r path w in
          if fresh then some (not_modified v) else send_file r content compressed (describe path v))

  unfoldable pub with_count : LogStatistics → Option Response → Option (Response × LogStatistics)
  with_count stats none = none
  with_count stats (some w) = some (w, record stats { get_requests = stats.get_requests + 1 })

  -- The part for a file that is not stored here, behind the attempt to forward the read.
  unfoldable pub after_forwarding :
      LogStatistics → Option (Option Response) → Option (Response × LogStatistics)
  after_forwarding stats none = none
  after_forwarding stats (some (some v)) = some (
    v,
    record stats {
      get_requests = stats.get_requests + 1;
      get_requests_found_on_replica = stats.get_requests_found_on_replica + 1;
    },
  )
  after_forwarding stats (some none) = some (
    http_error (codes "404 page not found") 404 empty_response,
    record stats {
      get_requests = stats.get_requests + 1;
      get_requests_not_found = stats.get_requests_not_found + 1;
    },
  )

  unfoldable pub serve_absent : HttpRequest → LogStatistics → Option (Response × LogStatistics)
  serve_absent r stats = after_forwarding stats (forward_if_needed o.replicas r empty_response)

  -- `serveFile`; `none` is a panic.
  unfoldable pub serve_file :
      Bytes → Storage → HttpRequest → LogStatistics → Option (Response × LogStatistics)
  serve_file root s r stats =
      let path = clean r.path in
      elim (or_compressed (open_served s root path) (open_served s root (path ++ codes ".gz"))) [
        | none ↦ serve_absent r stats
        | some found ↦ with_count stats (serve_found r path found empty_response)
      ]
