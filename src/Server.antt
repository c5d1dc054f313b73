-- ===== src/Server.antt =====
-- server.go and the counters of log_statistics.go: the handlers for POST and PUT.
pub mod Posted
pub mod Files
pub mod Dispatch
pub mod Statistics
mod Examples
use verm.Prelude.{
  ℕ, ◌+◌, Bool, true, false, Option, none, some, List, [], ◌∷◌, Bytes, codes, bytes_eq,
  if◌then◌else◌,
}
use verm.Errors.{
  Error, Result, ok, err, wrong_location, unknown_encoding, mkdir_failed, tempfile_failed,
  open_failed, sync_failed, link_failed, bad_gzip, no_form_file, read_failed,
}
use verm.Storage.{Storage}
use verm.Stream.{Stream}
use verm.Host.{Host}
use verm.Http.{HttpRequest, Response, get, set_header, write_header, http_error, empty_response}
use verm.Upload.{upload_file}
use verm.Upload.Types.{Request, Job}
use verm.Replication.Missing.{serve_missing}

-- `LogStatistics`
pub record LogStatistics : Type 0 where
  pub get_requests : ℕ
  pub get_requests_found_on_replica : ℕ
  pub get_requests_not_found : ℕ
  pub post_requests : ℕ
  pub post_requests_new_file_stored : ℕ
  pub post_requests_failed : ℕ
  pub put_requests : ℕ
  pub put_requests_new_file_stored : ℕ
  pub put_requests_missing_file_checks : ℕ
  pub put_requests_failed : ℕ
  pub replication_push_attempts : ℕ
  pub replication_push_attempts_failed : ℕ
  pub connections_current : ℕ

-- A request: what the handlers read of it, what `UploadFile` reads of it, and the form value
-- `redirect`.
pub record ServerRequest : Type 0 where
  pub http : HttpRequest
  pub upload : Request
  pub redirect : Bytes

abbrev pub location_field : Bytes
location_field = codes "Location"

-- What a handler changes: the response, the counters and the files; and the jobs it hands to the
-- replication targets.
abbrev pub Handled : Type 0
Handled = Response × LogStatistics × Storage × List Job

-- The two branches of `serveHTTPPost` behind `UploadFile`; `message` is the text of an error.
unfoldable pub answer_post :
    (Error → Bytes)
    → Bytes
    → Result (Bytes × Bool)
    → LogStatistics
    → Response
    → Response × LogStatistics
answer_post message redirect (err e) stats w =
    (http_error (message e) 500 w, record stats { post_requests = stats.post_requests + 1 })
answer_post message redirect (ok (location, new_file)) stats w =
    let status = if bytes_eq redirect (codes "1") then 303 else 201 in
    (
      write_header status (set_header location_field location w),
      record stats {
        post_requests = stats.post_requests + 1;
        post_requests_new_file_stored =
            if new_file
            then stats.post_requests_new_file_stored + 1
            else stats.post_requests_new_file_stored;
      },
    )

-- The status for an error of a PUT.
unfoldable pub put_error_status : Error → ℕ
put_error_status (wrong_location location) = 422
put_error_status _ = 500

unfoldable pub answer_put :
    (Error → Bytes) → Result (Bytes × Bool) → LogStatistics → Response → Response × LogStatistics
unfolding put_error_status
answer_put message (err e) stats w = (
  http_error (message e) (put_error_status e) w,
  record stats {
    put_requests = stats.put_requests + 1;
    put_requests_failed = stats.put_requests_failed + 1;
  },
)
answer_put message (ok (location, new_file)) stats w = (
  write_header 201 (set_header location_field location w),
  record stats {
    put_requests = stats.put_requests + 1;
    put_requests_new_file_stored =
        if new_file
        then stats.put_requests_new_file_stored + 1
        else stats.put_requests_new_file_stored;
  },
)

-- The error of `serveMissing` is dropped; its response has a content type then, and no body.
missing_response : Result Response → Response
missing_response (ok v) = v
missing_response (err e) = set_header (codes "Content-Type") (codes "text/plain") empty_response

-- A handler behind `UploadFile`.
unfoldable pub with_files :
    (Result (Bytes × Bool) → Response × LogStatistics)
    → Option (Result (Bytes × Bool) × Storage × List Job)
    → Option Handled
with_files answer none = none
with_files answer (some (r, s, jobs)) = let (w, stats) = answer r in some (w, stats, s, jobs)

-- `limit` and `compress` are those of `serveMissing`.
module _ (h : Host) (extension_by_type : Bytes → Bytes) (message : Error → Bytes) (fuel : ℕ)
    (root : Bytes) (limit : ℕ) (compress : Bytes → Bytes) where
  -- `serveHTTPPost`; `none` is what it is for `upload_file`.
  unfoldable pub serve_http_post : ServerRequest → LogStatistics → Storage → Option Handled
  unfolding answer_post with_files
  serve_http_post req stats s =
      with_files (λ r. answer_post message req.redirect r stats empty_response)
        (upload_file h extension_by_type fuel root req.upload false s)

  -- `serveHTTPPut`
  unfoldable pub serve_http_put : ServerRequest → LogStatistics → Storage → Option Handled
  unfolding answer_put with_files missing_response
  serve_http_put req stats s =
      if bytes_eq req.http.path (codes "/_missing")
      then some (
        missing_response
            (serve_missing s root limit h.gunzip compress req.http req.upload.body empty_response),
        record stats {
          put_requests = stats.put_requests + 1;
          put_requests_missing_file_checks = stats.put_requests_missing_file_checks + 1;
        },
        s,
        [],
      )
      else with_files (λ r. answer_put message r stats empty_response)
          (upload_file h extension_by_type fuel root req.upload true s)
