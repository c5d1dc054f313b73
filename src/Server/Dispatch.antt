-- ===== src/Server/Dispatch.antt =====
-- `ServeHTTP` and `serveHTTPGetOrHead` of server.go: which handler gets a request.
pub mod WriteOnce
pub mod ReadBack
pub mod Unpacked
pub mod Delivered
mod Examples
use verm.Prelude.{
  ℕ, ◌+◌, ◌-◌, Bool, true, false, ◌||◌, Option, none, some, List, [], ◌∷◌, ◌++◌, Bytes, codes,
  bytes_eq, if◌then◌else◌,
}
use verm.Errors.{Error}
use verm.Storage.{Storage}
use verm.Host.{Host}
use verm.Http.{HttpRequest, Response, write_header, write, http_error, empty_response}
use verm.Upload.Types.{Job}
use verm.Server.{LogStatistics, ServerRequest, Handled, serve_http_post, serve_http_put}
use verm.Server.Files.{Outside, serve_file}
use verm.Server.Statistics.{serve_statistics}
use verm.Replication.Targets.{NamedTarget}

-- A handler that changes no file.
unfoldable pub without_files : Storage → Option (Response × LogStatistics) → Option Handled
without_files s none = none
without_files s (some (w, stats)) = some (w, stats, s, [])

-- The deferred change of `ConnectionsCurrent`.
unfoldable pub leave : Option Handled → Option Handled
leave none = none
leave (some (w, stats, s, jobs)) =
    some (w, record stats { connections_current = stats.connections_current - 1 }, s, jobs)

-- The text that `serveRoot` writes.
unfoldable pub root_page : Bytes
root_page =
    codes "<!DOCTYPE html><html><head><title>Verm - Upload</title></head><body>"
    ++ (codes
          "<!-- this form will let you test out verm manually.  don't emulate it in API clients - it's simpler to use raw posts.  you should also insist on posting to an application-specific directory name. -->"
        ++ (codes "<form method='post' enctype='multipart/form-data'>"
            ++ (codes "<input type='hidden' name='redirect' value='1'/>"
                ++ (codes "<input type='file' name='uploaded_file'/>"
                    ++ (codes "<input type='submit' value='Upload'/>"
                        ++ (codes "</form>" ++ (codes "</body></html>" ++ 10 ∷ [])))))))

module _ (h : Host) (o : Outside) (extension_by_type : Bytes → Bytes) (message : Error → Bytes)
    (fuel : ℕ) (root : Bytes) (limit : ℕ) (compress : Bytes → Bytes)
    (targets : List NamedTarget) where
  -- `serveHTTPGetOrHead`
  unfoldable pub serve_http_get_or_head :
      HttpRequest → LogStatistics → Storage → Option (Response × LogStatistics)
  serve_http_get_or_head r stats s =
      if bytes_eq r.path (codes "/")
      then some (write root_page (write_header 200 empty_response), stats)
      else if bytes_eq r.path (codes "/_statistics")
      then some (write (serve_statistics stats targets) (write_header 200 empty_response), stats)
      else serve_file o root s r stats

  -- The choice by the method.
  unfoldable pub serve_method : ServerRequest → LogStatistics → Storage → Option Handled
  serve_method req stats s =
      if bytes_eq req.http.method (codes "GET") || bytes_eq req.http.method (codes "HEAD")
      then without_files s (serve_http_get_or_head req.http stats s)
      else if bytes_eq req.http.method (codes "POST")
      then serve_http_post h extension_by_type message fuel root limit compress req stats s
      else if bytes_eq req.http.method (codes "PUT")
      then serve_http_put h extension_by_type message fuel root limit compress req stats s
      else some (http_error (codes "Method not supported") 405 empty_response, stats, s, [])

  -- `ServeHTTP`, without the line of the log.
  unfoldable pub serve_http : ServerRequest → LogStatistics → Storage → Option Handled
  serve_http req stats s =
      leave
        (serve_method req (record stats { connections_current = stats.connections_current + 1 }) s)
