-- ===== src/Server/Files/Served.antt =====
-- A GET of a stored file, without conditions and ranges.
use verm.Prelude.{
  List, ℕ, ◌+◌, Bool, true, false, none, some, [], ◌∷◌, ◌++◌, Bytes, codes, bytes_eq, length, take,
  ◌≡◌, refl, ap, ap₂, ◌∙◌, arith,
}
use verm.Prelude.Int.{ℤ, pos, ltbℤ}
use verm.Storage.{Storage, file, find}
use verm.Stream.{Stream, whole}
use verm.UrlPath.{clean}
use verm.Http.{HttpRequest, Response, get, set_header, write_header, write, empty_response}
use verm.Http.Fields.{write-write_header}
use verm.Ranges.{HttpRange, parse_range, sum_ranges_size, sum_from}
use verm.ServeContent.{
  Sought, seek_file, serve_content, serve_ranges, checked_ranges, send, send_body, set_length,
  slice,
}
use verm.ServeContent.Single.{set_header-Keeps, set_length-Keeps, slice_front, ranges_other}
use verm.ServeContent.Conditional.{
  check_last_modified, check_etag, check_if_none_match, check_if_range,
}
use verm.Replication.Missing.{gzip_accepted}
use verm.Server.{LogStatistics}
use verm.Server.Files.{
  Outside, open_served, or_compressed, serve_found, send_file, describe, unpack_and_serve_content,
  serve_unpacked, serve_file, with_count,
}

-- A response with status 200 and the bytes.
pub record IsWhole (content : Bytes) (v : Response) : Type 0 where
  pub status : v.status ≡ 200
  pub body : v.body ≡ content

take_all : (content : Bytes) → take (length content) content ≡ content
unfolding take
take_all [] = refl
take_all (c ∷ content) = ap (λ t. c ∷ t) (take_all content)

checked_ranges_nil :
    (boundary counting_boundary : Bytes) (seek : List HttpRange → ℤ → Sought) (n : ℕ)
    → checked_ranges boundary counting_boundary seek (pos n) [] ≡ []
unfolding checked_ranges sum_ranges_size sum_from
checked_ranges_nil boundary counting_boundary seek n =
    let sized : ltbℤ (pos n) (pos 0) ≡ false = ground arith in rw sized refl

module _ (r : HttpRequest) (not_head : bytes_eq r.method (codes "HEAD") ≡ false)
    (no_range : get r.header (codes "Range") ≡ []) where
  send-IsWhole :
      (content : Bytes) (w : Response)
      → w.status ≡ 0
      → w.body ≡ []
      → IsWhole content (send r true 200 (pos (length content)) content w)
  unfolding send send_body
  send-IsWhole content w fresh empty =
      let n = length content in
      let ranges = set_header (codes "Accept-Ranges") (codes "bytes") w in
      let v = set_length (pos n) ranges in
      let a = set_header-Keeps (codes "Accept-Ranges") (codes "bytes") w ranges_other in
      let b = set_length-Keeps (pos n) ranges in
      let e =
        write-write_header 200 (slice content 0 (pos n)) v (b.status_eq ∙ a.status_eq ∙ fresh)
          refl in
      let front = slice_front content n ∙ take_all content in
      rw not_head (record {
        status = ap (λ (x : Response). x.status) e;
        body =
            ap (λ (x : Response). x.body) e
            ∙ ap₂ (λ x y. x ++ y) (b.body_eq ∙ a.body_eq ∙ empty) front;
      })

  serve_content-IsWhole :
      (boundary counting_boundary : Bytes) (seek : List HttpRange → ℤ → Sought) (content : Bytes)
      (w : Response)
      → w.status ≡ 0
      → w.body ≡ []
      → (v : Response) × (serve_content boundary counting_boundary seek r
            (pos (length content))
            content
            w
          ≡ some v)
        × IsWhole content v
  unfolding serve_content checked_ranges serve_ranges sum_ranges_size sum_from parse_range bytes_eq
  serve_content-IsWhole boundary counting_boundary seek content w fresh empty =
      let sized : ltbℤ (pos (length content)) (pos 0) ≡ false = ground arith in
      (
        send r true 200 (pos (length content)) content w,
        rw (sized, no_range)
            (ap
              (λ q.
                serve_ranges boundary counting_boundary seek r (pos (length content)) content q w)
              (checked_ranges_nil boundary counting_boundary seek (length content))),
        send-IsWhole content w fresh empty,
      )

-- A request that asks for the whole file and makes no condition.
pub record IsPlain (o : Outside) (r : HttpRequest) : Type 0 where
  pub not_head : bytes_eq r.method (codes "HEAD") ≡ false
  pub no_range : get r.header (codes "Range") ≡ []
  pub no_tag : get r.header (codes "If-None-Match") ≡ []
  pub no_if_range : get r.header (codes "If-Range") ≡ []
  pub no_time : check_last_modified o.parse_time r (o.modtime (clean r.path)) ≡ false

open_served-file :
    (s : Storage) (root path content : Bytes)
    → find (root ++ path) s ≡ some (file content)
    → open_served s root path ≡ some content
unfolding open_served
open_served-file s root path content e = rw (open_served, e) refl

pub open_served-none :
    (s : Storage) (root path : Bytes)
    → find (root ++ path) s ≡ none
    → open_served s root path ≡ none
unfolding open_served
open_served-none s root path e = rw (open_served, e) refl

module _ (o : Outside) (root : Bytes) (r : HttpRequest) (plain : IsPlain o r) where
  unchecked : (path : Bytes) (w : Response) → check_etag r path w ≡ (w, false)
  unfolding check_etag check_if_none_match check_if_range bytes_eq
  unchecked path w = rw (plain.no_tag, plain.no_if_range) refl

  serve_found-plain :
      (content : Bytes) (compressed : Bool)
      → serve_found o r (clean r.path) (content, compressed) empty_response
        ≡ send_file o r content compressed (describe o (clean r.path) empty_response)
  unfolding serve_found
  serve_found-plain content compressed =
      rw (plain.no_time, unchecked (clean r.path) empty_response) refl

  describe_fresh :
      (path : Bytes)
      → ((describe o path empty_response).status ≡ 0) × ((describe o path empty_response).body ≡ [])
  unfolding describe set_header
  describe_fresh path = (refl, refl)

  unpacked_sent :
      (stored : Bytes) (unpacked : Stream)
      → gzip_accepted r ≡ false
      → o.gunzip (whole stored) ≡ some unpacked
      → (w : Response)
      → send_file o r stored true w ≡ some (write unpacked.bytes (write_header 200 w))
  unfolding send_file unpack_and_serve_content serve_unpacked bytes_eq
  unpacked_sent stored unpacked refused decoded w =
      rw (refused, plain.not_head, unpack_and_serve_content, decoded, plain.no_range) refl

  module _ (s : Storage) (stats : LogStatistics) where
    -- The answer that `serve_file` gives for a file that was found.
    IsServed : Bytes → Type 0
    IsServed content =
        (v : Response) × (stats' : LogStatistics) × (serve_file o root s r stats ≡ some (v, stats'))
        × IsWhole content v
        × (stats'.get_requests ≡ stats.get_requests + 1)

    found-IsServed :
        (stored : Bytes) (compressed : Bool) (content : Bytes)
        → or_compressed
            (open_served s root (clean r.path))
            (open_served s root (clean r.path ++ codes ".gz"))
          ≡ some (stored, compressed)
        → (v : Response) × (send_file o r stored compressed
              (describe o (clean r.path) empty_response)
            ≡ some v)
          × IsWhole content v
        → IsServed content
    unfolding IsServed serve_file with_count
    found-IsServed stored compressed content e (v, f, h) = (
      v,
      record stats { get_requests = stats.get_requests + 1 },
      rw (serve_file, e, serve_found-plain stored compressed, f) refl,
      h,
      refl,
    )

    -- A plain GET of a path where a regular file stands is answered with status 200 and the bytes of the
    -- file, and counted once.
    pub serve_file-stored :
        (content : Bytes)
        → find (root ++ clean r.path) s ≡ some (file content)
        → (v : Response) × (stats' : LogStatistics) × (serve_file o root s r stats
            ≡ some (v, stats'))
          × IsWhole content v
          × (stats'.get_requests ≡ stats.get_requests + 1)
    unfolding IsServed send_file or_compressed
    serve_file-stored content e =
        let (fresh, empty) = describe_fresh (clean r.path) in
        found-IsServed content false content (opened e) (
          serve_content-IsWhole r plain.not_head plain.no_range o.boundary o.counting_boundary
            (seek_file o.seek_error content) content (describe o (clean r.path) empty_response)
            fresh empty)
      where
        opened :
            find (root ++ clean r.path) s ≡ some (file content)
            → or_compressed
                (open_served s root (clean r.path))
                (open_served s root (clean r.path ++ codes ".gz"))
              ≡ some (content, false)
        opened e =
            ap (λ c. or_compressed c (open_served s root (clean r.path ++ codes ".gz")))
              (open_served-file s root (clean r.path) content e)

    -- A plain GET of a path where no file stands, but a compressed one beside it, by a client that takes
    -- no gzip, is answered with status 200 and the decoded bytes, and counted once.
    pub serve_file-unpacked :
        (stored : Bytes) (unpacked : Stream)
        → find (root ++ clean r.path) s ≡ none
        → find (root ++ (clean r.path ++ codes ".gz")) s ≡ some (file stored)
        → gzip_accepted r ≡ false
        → o.gunzip (whole stored) ≡ some unpacked
        → (v : Response) × (stats' : LogStatistics) × (serve_file o root s r stats
            ≡ some (v, stats'))
          × IsWhole unpacked.bytes v
          × (stats'.get_requests ≡ stats.get_requests + 1)
    unfolding IsServed or_compressed
    serve_file-unpacked stored unpacked absent e refused decoded =
        let (fresh, empty) = describe_fresh (clean r.path) in
        let w = describe o (clean r.path) empty_response in
        let sent = write-write_header 200 unpacked.bytes w fresh refl in
        found-IsServed stored true unpacked.bytes
          (ap₂ or_compressed (open_served-none s root (clean r.path) absent)
            (open_served-file s root (clean r.path ++ codes ".gz") stored e))
          (
            write unpacked.bytes (write_header 200 w),
            unpacked_sent stored unpacked refused decoded w,
            record {
              status = ap (λ (x : Response). x.status) sent;
              body = ap (λ (x : Response). x.body) sent ∙ ap (λ b. b ++ unpacked.bytes) empty;
            },
          )
