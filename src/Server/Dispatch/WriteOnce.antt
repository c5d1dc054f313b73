-- ===== src/Server/Dispatch/WriteOnce.antt =====
-- No request changes or removes a file.
use verm.Prelude.{
  ℕ, Bool, true, false, ◌||◌, Option, none, some, List, [], Bytes, codes, bytes_eq, if◌then◌else◌,
  ◌≡◌, refl, ap, subst, some_inj,
}
use verm.Errors.{Error, Result}
use verm.Storage.{Storage, Keeps}
use verm.Storage.Laws.{Keeps-refl}
use verm.Host.{Host, IsHost}
use verm.Http.{Response}
use verm.Upload.{upload_file}
use verm.Upload.Types.{Job}
use verm.Upload.WriteOnce.{upload_file-Keeps}
use verm.Server.{LogStatistics, ServerRequest, Handled, serve_http_post, serve_http_put, with_files}
use verm.Server.Posted.{with_files_inv}
use verm.Server.Files.{Outside}
use verm.Replication.Targets.{NamedTarget}
use verm.Server.Dispatch.{without_files, leave, serve_method, serve_http}

-- If a handler returns, it has kept the files.
IsKeeping : Storage → Option Handled → Type 0
IsKeeping s o =
    (v : Response) (stats : LogStatistics) (s' : Storage) (jobs : List Job)
    → o ≡ some (v, stats, s', jobs)
    → Keeps s s'

IsKeeping-same :
    (s : Storage) (v : Response) (stats : LogStatistics) (jobs : List Job)
    → IsKeeping s (some (v, stats, s, jobs))
unfolding IsKeeping
IsKeeping-same s v stats jobs v' stats' s' jobs' e =
    subst (Keeps s) (ap (λ (x : Handled). x.2) (some_inj e)) (Keeps-refl s)

without_files-IsKeeping :
    (s : Storage) (o : Option (Response × LogStatistics)) → IsKeeping s (without_files s o)
unfolding IsKeeping without_files
without_files-IsKeeping s none v stats s' jobs e = cc
without_files-IsKeeping s (some (w, st)) v stats s' jobs e =
    unfold IsKeeping in IsKeeping-same s w st [] v stats s' jobs e

leave-IsKeeping : (s : Storage) (o : Option Handled) → IsKeeping s o → IsKeeping s (leave o)
unfolding IsKeeping leave
leave-IsKeeping s none k v stats s' jobs e = cc
leave-IsKeeping s (some (w, st, t, js)) k v stats s' jobs e =
    subst (Keeps s) (ap (λ (x : Handled). x.2) (some_inj e)) (k w st t js refl)

branch-IsKeeping :
    (s : Storage) (b : Bool) (x y : Option Handled)
    → IsKeeping s x
    → IsKeeping s y
    → IsKeeping s (if b then x else y)
branch-IsKeeping s true x y k l = k
branch-IsKeeping s false x y k l = l

module _ {h : Host} (w : IsHost h) (o : Outside) (types : Bytes → Bytes) (message : Error → Bytes)
    (fuel : ℕ) (root : Bytes) (limit : ℕ) (compress : Bytes → Bytes)
    (targets : List NamedTarget) where
  with_files-IsKeeping :
      (answer : Result (Bytes × Bool) → Response × LogStatistics) (req : ServerRequest)
      (replicating : Bool) (s : Storage)
      → IsKeeping s (with_files answer (upload_file h types fuel root req.upload replicating s))
  unfolding IsKeeping
  with_files-IsKeeping answer req replicating s v stats s' jobs e =
      let (r, q, a) = with_files_inv answer _ v stats s' jobs e in
      upload_file-Keeps w types fuel root req.upload replicating s r s' jobs q

  serve_method-IsKeeping :
      (req : ServerRequest) (stats : LogStatistics) (s : Storage)
      → IsKeeping s (serve_method h o types message fuel root limit compress targets req stats s)
  unfolding serve_method serve_http_post serve_http_put
  serve_method-IsKeeping req stats s =
      branch-IsKeeping s
        (bytes_eq req.http.method (codes "GET") || bytes_eq req.http.method (codes "HEAD")) _ _
        (without_files-IsKeeping s _)
        (branch-IsKeeping s (bytes_eq req.http.method (codes "POST")) _ _
          (with_files-IsKeeping _ req false s)
          (branch-IsKeeping s (bytes_eq req.http.method (codes "PUT")) _ _
            (branch-IsKeeping s (bytes_eq req.http.path (codes "/_missing")) _ _
              (IsKeeping-same s _ _ []) (with_files-IsKeeping _ req true s))
            (IsKeeping-same s _ stats [])))

  -- A request of any method that is answered leaves every file of the store in place, with the same
  -- bytes, whatever other processes add meanwhile.
  pub serve_http-Keeps :
      (req : ServerRequest) (stats : LogStatistics) (s : Storage) (v : Response)
      (stats' : LogStatistics) (s' : Storage) (jobs : List Job)
      → serve_http h o types message fuel root limit compress targets req stats s
        ≡ some (v, stats', s', jobs)
      → Keeps s s'
  unfolding serve_http IsKeeping
  serve_http-Keeps req stats s v stats' s' jobs e =
      leave-IsKeeping s _ (serve_method-IsKeeping req _ s) v stats' s' jobs e
