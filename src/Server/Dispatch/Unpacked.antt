-- ===== src/Server/Dispatch/Unpacked.antt =====
-- What was posted compressed is read by a client that takes no gzip.
use verm.Prelude.{
  ℕ, ◌+◌, false, none, some, List, [], ◌∷◌, ◌++◌, Bytes, codes, ◌≡◌, ◌≢◌, ap, sym, ◌∙◌, Lacks,
}
use verm.Errors.{Error}
use verm.Storage.{Storage, find}
use verm.Stream.{whole}
use verm.Host.{Host, IsHost}
use verm.UrlPath.{clean}
use verm.UrlPath.Clean.{clean_of_IsClean}
use verm.Http.{Response, get}
use verm.Upload.Types.{Job}
use verm.Upload.Packed.{IsPacked, upload_file-IsHeld}
use verm.Upload.Location.{upload_file-IsLocation}
use verm.Server.{LogStatistics, ServerRequest, location_field}
use verm.Server.Posted.{serve_http_post-located}
use verm.Server.Files.{Outside}
use verm.Server.Files.Served.{IsWhole, IsPlain, serve_file-unpacked}
use verm.Replication.Missing.{gzip_accepted}
use verm.Replication.Targets.{NamedTarget}
use verm.Server.Dispatch.{leave, serve_http}
use verm.Server.Dispatch.ReadBack.{Serving, Serving-Keeps, posts, served_by_get}

module _ {h : Host} (w : IsHost h) (o : Outside) (types : Bytes → Bytes) (message : Error → Bytes)
    (fuel : ℕ) (root : Bytes) (limit : ℕ) (compress : Bytes → Bytes)
    (targets : List NamedTarget) where
  -- A file that is posted compressed, under a path that begins with a slash, is read back unpacked: if
  -- the answer has another status than 500, then whatever requests are served afterward, a plain GET
  -- of its Location by a client that takes no gzip is answered with status 200 and the bytes that the
  -- body is unpacked to, if no uncompressed file stands there, and no extension has a slash.
  pub serve_http_reads_unpacked :
      (req : ServerRequest) (stats : LogStatistics) (s : Storage) (v : Response)
      (stats' : LogStatistics) (s' : Storage) (jobs : List Job) (p : Bytes) (t : Storage)
      (reading : ServerRequest) (now : LogStatistics)
      → ((b : Bytes) → o.gunzip (whole b) ≡ h.gunzip (whole b))
      → req.http.method ≡ codes "POST"
      → req.upload.path ≡ b'/' ∷ p
      → IsPacked h types req.upload
      → ((content_type : Bytes) → Lacks b'/' (types content_type))
      → serve_http h o types message fuel root limit compress targets req stats s
        ≡ some (v, stats', s', jobs)
      → v.status ≢ 500
      → Serving w o types message fuel root limit compress targets s' t
      → reading.http.method ≡ codes "GET"
      → reading.http.path ≡ get v.header location_field
      → IsPlain o reading.http
      → gzip_accepted reading.http ≡ false
      → find (root ++ get v.header location_field) t ≡ none
      → (contents : Bytes) × (h.gunzip req.upload.body ≡ some (whole contents))
        × (v' : Response) × (after : LogStatistics) × (serve_http h o types message fuel root limit
              compress targets reading now t
            ≡ some (v', after, t, []))
        × IsWhole contents v'
  unfolding serve_http leave
  serve_http_reads_unpacked req stats s v stats' s' jobs p t reading now same_gunzip post rooted
        packed lacks e good served gets at_location plain refused alone =
      let (before, after, q) =
        posts w o types message fuel root limit compress targets req stats s v stats' s' jobs post
          e in
      let (l, new, o', same) =
        serve_http_post-located w types message fuel root limit compress req before s v after s'
          jobs q good in
      let path_eq : reading.http.path ≡ l = at_location ∙ sym same in
      let place =
        upload_file-IsLocation w types fuel root req.upload s l new s' jobs p rooted lacks o' in
      let held = upload_file-IsHeld w types fuel root req.upload false s l new s' jobs packed o' in
      let kept =
        Serving-Keeps w o types message fuel root limit compress targets s' t served
          (root ++ (l ++ codes ".gz")) _ held.found in
      let clean_eq : clean reading.http.path ≡ l =
        ap clean path_eq ∙ clean_of_IsClean place.is_clean in
      let (v', counted, r, is_whole, count) =
        serve_file-unpacked o root reading.http plain t
          (record now { connections_current = now.connections_current + 1 }) held.bytes
          (whole held.contents) (ap (λ k. find (root ++ k) t) (clean_eq ∙ same) ∙ alone)
          (ap (λ k. find (root ++ (k ++ codes ".gz")) t) clean_eq ∙ kept) refused
          (same_gunzip held.bytes ∙ held.unpacks) in
      (
        held.contents,
        held.posted,
        v',
        _,
        ap leave (
            served_by_get w o types message fuel root limit compress targets reading _ t v' counted
              gets (rw path_eq place.long) r),
        is_whole,
      )
