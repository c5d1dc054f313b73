-- ===== src/Server/Dispatch/ReadBack.antt =====
-- What was posted to the server is read from it.
use verm.Prelude.{
  ℕ, ◌≤◌, ◌<◌, ◌+◌, true, false, Option, none, some, List, [], ◌∷◌, ◌++◌, Bytes, codes, bytes_eq,
  bytes_eq_iff, ◌≡◌, ◌≢◌, refl, ap, sym, ◌∙◌, Lacks, length, arith, Bool-cases, inl, inr,
}
use verm.Errors.{Error}
use verm.Storage.{Storage, Keeps, find}
use verm.Storage.Laws.{Keeps-refl, Keeps-trans}
use verm.Host.{Host, IsHost}
use verm.UrlPath.{clean}
use verm.UrlPath.Clean.{clean_of_IsClean}
use verm.Http.{Response, get}
use verm.Upload.Types.{Job}
use verm.Upload.Raw.{IsRaw, upload_file_raw}
use verm.Upload.Location.{upload_file-IsLocation}
use verm.Server.{LogStatistics, ServerRequest, Handled, location_field, serve_http_post}
use verm.Server.Posted.{serve_http_post-located}
use verm.Server.Files.{Outside, serve_file}
use verm.Server.Files.Served.{IsWhole, IsPlain, serve_file-stored}
use verm.Replication.Targets.{NamedTarget}
use verm.Server.Dispatch.{without_files, leave, serve_http_get_or_head, serve_method, serve_http}
use verm.Server.Dispatch.WriteOnce.{serve_http-Keeps}

-- A long path is not one of the special ones.
long_ne : (l d : Bytes) → length d < 40 → 40 ≤ length l → bytes_eq l d ≡ false
long_ne l d short long = elim (Bool-cases (bytes_eq l d)) [
  | inl e ↦ let same = (bytes_eq_iff l d).0 e in absurd (ground (arith, ap length same))
  | inr e ↦ e
]

pub leave_inv :
    (o : Option Handled) (v : Response) (stats : LogStatistics) (s : Storage) (jobs : List Job)
    → leave o ≡ some (v, stats, s, jobs)
    → (stats' : LogStatistics) × (o ≡ some (v, stats', s, jobs))
unfolding leave
leave_inv none v stats s jobs e = cc
leave_inv (some (w, st, t, js)) v stats s jobs e = (st, ground arith)

module _ {h : Host} (w : IsHost h) (o : Outside) (types : Bytes → Bytes) (message : Error → Bytes)
    (fuel : ℕ) (root : Bytes) (limit : ℕ) (compress : Bytes → Bytes)
    (targets : List NamedTarget) where
  -- The requests that are served one after the other, from some files to others.
  pub data Serving (s : Storage) : Storage → Type 0 where
    idle : Serving s s
    next :
        (t u : Storage) (req : ServerRequest) (stats stats' : LogStatistics) (v : Response)
        (jobs : List Job)
        → Serving s t
        → serve_http h o types message fuel root limit compress targets req stats t
          ≡ some (v, stats', u, jobs)
        → Serving s u

  pub Serving-Keeps : (s t : Storage) → Serving s t → Keeps s t
  Serving-Keeps s _ idle = Keeps-refl s
  Serving-Keeps s u (next t _ req stats stats' v jobs before e) =
      Keeps-trans s t u (Serving-Keeps s t before) (
        serve_http-Keeps w o types message fuel root limit compress targets req stats t v stats' u
          jobs e)

  module _ (req : ServerRequest) where
    served_by_post :
        (stats : LogStatistics) (s : Storage)
        → req.http.method ≡ codes "POST"
        → serve_method h o types message fuel root limit compress targets req stats s
          ≡ serve_http_post h types message fuel root limit compress req stats s
    unfolding serve_method bytes_eq
    served_by_post stats s method =
        let get : bytes_eq req.http.method (codes "GET") ≡ false =
          ap (λ m. bytes_eq m (codes "GET")) method in
        let head : bytes_eq req.http.method (codes "HEAD") ≡ false =
          ap (λ m. bytes_eq m (codes "HEAD")) method in
        let post : bytes_eq req.http.method (codes "POST") ≡ true =
          ap (λ m. bytes_eq m (codes "POST")) method in
        rw (get, head, post) refl

    pub posts :
        (stats : LogStatistics) (s : Storage) (v : Response) (stats' : LogStatistics) (s' : Storage)
        (jobs : List Job)
        → req.http.method ≡ codes "POST"
        → serve_http h o types message fuel root limit compress targets req stats s
          ≡ some (v, stats', s', jobs)
        → (before after : LogStatistics) × (serve_http_post h types message fuel root limit compress
              req before s
            ≡ some (v, after, s', jobs))
    unfolding serve_http
    posts stats s v stats' s' jobs method e =
        let (after, q) = leave_inv _ v stats' s' jobs e in
        (_, after, sym (served_by_post _ s method) ∙ q)

    pub served_by_get :
        (stats : LogStatistics) (s : Storage) (v : Response) (after : LogStatistics)
        → req.http.method ≡ codes "GET"
        → 40 ≤ length req.http.path
        → serve_file o root s req.http stats ≡ some (v, after)
        → serve_method h o types message fuel root limit compress targets req stats s
          ≡ some (v, after, s, [])
    unfolding serve_method bytes_eq serve_http_get_or_head without_files
    served_by_get stats s v after method long served =
        let get : bytes_eq req.http.method (codes "GET") ≡ true =
          ap (λ m. bytes_eq m (codes "GET")) method in
        rw
          (
            get,
            long_ne req.http.path (codes "/") (omega arith) long,
            long_ne req.http.path (codes "/_statistics") (omega arith) long,
            served,
          )
          refl

  -- A file that is posted raw, under a path that begins with a slash, is read back: if the answer has
  -- another status than 500, then whatever requests are served afterward, a plain GET of the Location
  -- that it gave is answered with status 200 and the bytes that were posted, and changes no file, if no
  -- extension has a slash.
  pub serve_http_reads_back :
      (req : ServerRequest) (stats : LogStatistics) (s : Storage) (v : Response)
      (stats' : LogStatistics) (s' : Storage) (jobs : List Job) (p : Bytes) (t : Storage)
      (reading : ServerRequest) (now : LogStatistics)
      → req.http.method ≡ codes "POST"
      → req.upload.path ≡ b'/' ∷ p
      → IsRaw h types req.upload
      → ((content_type : Bytes) → Lacks b'/' (types content_type))
      → serve_http h o types message fuel root limit compress targets req stats s
        ≡ some (v, stats', s', jobs)
      → v.status ≢ 500
      → Serving s' t
      → reading.http.method ≡ codes "GET"
      → reading.http.path ≡ get v.header location_field
      → IsPlain o reading.http
      → (v' : Response) × (after : LogStatistics) × (serve_http h o types message fuel root limit
            compress targets reading now t
          ≡ some (v', after, t, []))
        × IsWhole req.upload.body.bytes v'
  unfolding serve_http leave
  serve_http_reads_back req stats s v stats' s' jobs p t reading now post rooted raw lacks e good
        served gets at_location plain =
      let (before, after, q) = posts req stats s v stats' s' jobs post e in
      let (l, new, o', same) =
        serve_http_post-located w types message fuel root limit compress req before s v after s'
          jobs q good in
      let path_eq : reading.http.path ≡ l = at_location ∙ sym same in
      let place =
        upload_file-IsLocation w types fuel root req.upload s l new s' jobs p rooted lacks o' in
      let kept =
        Serving-Keeps s' t served (root ++ l) _
          (upload_file_raw w types fuel root req.upload false s l new s' jobs raw o') in
      let clean_eq : clean reading.http.path ≡ l =
        ap clean path_eq ∙ clean_of_IsClean place.is_clean in
      let (v', counted, r, whole, count) =
        serve_file-stored o root reading.http plain t
          (record now { connections_current = now.connections_current + 1 }) req.upload.body.bytes
          (ap (λ k. find (root ++ k) t) clean_eq ∙ kept) in
      (v', _, ap leave (served_by_get reading _ t v' counted gets (rw path_eq place.long) r), whole)
