-- ===== src/Server/Dispatch/Delivered.antt =====
-- `Put` of replication_jobs.go and the handler for PUT of the target: what one server pushes, another
-- one stores.
use verm.Prelude.{
  ℕ, true, false, Option, none, some, List, [], ◌++◌, Bytes, codes, bytes_eq, ◌==◌, ◌≡◌, refl, ap,
  sym, ◌∙◌, arith,
}
use verm.Errors.{Error}
use verm.Storage.{Storage, file, find}
use verm.Stream.{whole}
use verm.Host.{Host, IsHost}
use verm.Http.{Response, get}
use verm.Upload.Types.{Job}
use verm.Upload.Opening.{media_type_or_default}
use verm.Upload.Raw.{upload_file_raw}
use verm.Upload.Integrity.{IsVerified, upload_file-IsVerified}
use verm.Replication.Push.{
  PutRequest, open_file, opened_node, choose_opened, open_location, put_request, put,
}
use verm.Replication.Targets.{NamedTarget}
use verm.Server.{LogStatistics, ServerRequest, Handled, location_field, serve_http_put}
use verm.Server.Posted.{serve_http_put-located}
use verm.Server.Files.{Outside}
use verm.Server.Dispatch.{serve_method, serve_http}
use verm.Server.Dispatch.ReadBack.{leave_inv}

-- The request as the target receives it; `path_of` is the path of a URL.
unfoldable pub received : (Bytes → Bytes) → PutRequest → ServerRequest
received path_of q = record {
  http = record { method = codes "PUT"; path = path_of q.url; forward_values = []; header = [] };
  upload = record {
    path = path_of q.url;
    content_type = q.content_type;
    content_encoding = q.content_encoding;
    body = q.body;
    form_file = none;
  };
  redirect = [];
}

-- The status that the client sees; a handler that panics closes the connection.
unfoldable pub status_of : Option Handled → Option ℕ
status_of none = none
status_of (some (v, stats, s, jobs)) = some v.status

open_location_raw :
    (s : Storage) (root location content : Bytes)
    → find (root ++ (location ++ codes ".gz")) s ≡ none
    → find (root ++ location) s ≡ some (file content)
    → open_location s root location ≡ some ([], whole content)
unfolding open_location open_file choose_opened opened_node
open_location_raw s root location content packed plain = rw (open_file, packed, plain) refl

-- What a push that succeeds was answered.
put_taken :
    (answer : PutRequest → Option Handled) (s : Storage)
    (root hostname port location content : Bytes)
    → open_location s root location ≡ some ([], whole content)
    → put (λ q. status_of (answer q)) s root hostname port location ≡ true
    → (v : Response) × (stats : LogStatistics) × (t : Storage) × (jobs : List Job) × (answer
          (put_request hostname port location ([], whole content))
        ≡ some (v, stats, t, jobs))
      × (v.status ≡ 201)
unfolding put status_of
put_taken answer s root hostname port location content opened e = go _ refl (rw (put, opened) at e)
  where
    go :
        (o : Option Handled)
        → answer (put_request hostname port location ([], whole content)) ≡ o
        → elim (status_of o) [ none ↦ false | some status ↦ status == 201 ] ≡ true
        → (v : Response) × (stats : LogStatistics) × (t : Storage) × (jobs : List Job) × (answer
              (put_request hostname port location ([], whole content))
            ≡ some (v, stats, t, jobs))
          × (v.status ≡ 201)
    go none q p = cc
    go (some (v, stats, t, jobs)) q p = (v, stats, t, jobs, q, ground (arith, p))

module _ {h : Host} (w : IsHost h) (o : Outside) (types : Bytes → Bytes) (message : Error → Bytes)
    (fuel : ℕ) (root : Bytes) (limit : ℕ) (compress : Bytes → Bytes)
    (targets : List NamedTarget) where
  served_by_put :
      (req : ServerRequest) (stats : LogStatistics) (s : Storage)
      → req.http.method ≡ codes "PUT"
      → serve_method h o types message fuel root limit compress targets req stats s
        ≡ serve_http_put h types message fuel root limit compress req stats s
  unfolding serve_method bytes_eq
  served_by_put req stats s method =
      let get : bytes_eq req.http.method (codes "GET") ≡ false =
        ap (λ m. bytes_eq m (codes "GET")) method in
      let head : bytes_eq req.http.method (codes "HEAD") ≡ false =
        ap (λ m. bytes_eq m (codes "HEAD")) method in
      let post : bytes_eq req.http.method (codes "POST") ≡ false =
        ap (λ m. bytes_eq m (codes "POST")) method in
      let put : bytes_eq req.http.method (codes "PUT") ≡ true =
        ap (λ m. bytes_eq m (codes "PUT")) method in
      rw (get, head, post, put) refl

  -- The target, as the client of `Put` finds it.
  abbrev pub target : (Bytes → Bytes) → LogStatistics → Storage → PutRequest → Option Handled
  target path_of stats t q =
      serve_http h o types message fuel root limit compress targets (received path_of q) stats t

  -- If `Put` reports that a file, which is stored uncompressed, was taken by the target, then the target
  -- has checked the name against the contents, and stores, under the location in its response, the
  -- same bytes.
  pub put_delivers :
      (path_of : Bytes → Bytes) (s : Storage) (mine hostname port location content : Bytes)
      (stats : LogStatistics) (t : Storage)
      → find (mine ++ (location ++ codes ".gz")) s ≡ none
      → find (mine ++ location) s ≡ some (file content)
      → path_of (codes "http://" ++ (hostname ++ (codes ":" ++ (port ++ location)))) ≡ location
      → bytes_eq location (codes "/_missing") ≡ false
      → bytes_eq
          (media_type_or_default h types (codes "application/octet-stream"))
          (codes "multipart/form-data")
        ≡ false
      → put (λ q. status_of (target path_of stats t q)) s mine hostname port location ≡ true
      → (v : Response) × (after : LogStatistics) × (t' : Storage) × (jobs : List Job) × (target
            path_of stats t
            (put_request hostname port location ([], whole content))
          ≡ some (v, after, t', jobs))
        × (find (root ++ get v.header location_field) t' ≡ some (file content))
        × IsVerified h types
            (received path_of (put_request hostname port location ([], whole content))).upload
  unfolding serve_http received put_request
  put_delivers path_of s mine hostname port location content stats t packed stands path_eq other
        form e =
      let (v, after, t', jobs, answered, good) =
        put_taken (target path_of stats t) s mine hostname port location content
          (open_location_raw s mine location content packed stands) e in
      let req = received path_of (put_request hostname port location ([], whole content)) in
      let (stats', q) = leave_inv _ v after t' jobs answered in
      let (l, new, uploaded, same) =
        serve_http_put-located h types message fuel root limit compress req _ t v stats' t' jobs
          (ap (λ p. bytes_eq p (codes "/_missing")) path_eq ∙ other)
          (sym (served_by_put req _ t refl) ∙ q) good in
      (
        v,
        after,
        t',
        jobs,
        answered,
        ap (λ k. find (root ++ k) t') (sym same)
            ∙ upload_file_raw w types fuel root req.upload true t l new t' jobs
                (record { no_form = form; no_encoding = refl }) uploaded,
        upload_file-IsVerified h types fuel root req.upload t l new t' jobs uploaded,
      )
