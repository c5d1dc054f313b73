-- ===== src/Server/Examples.antt =====
-- A POST and a PUT of a file, handled.
use verm.Prelude.{
  none, some, ◌+◌, ◌⊎◌, true, false, some, [], ◌∷◌, ◌++◌, Bytes, codes, ◌≡◌, refl, arith, bytes_eq,
}
use verm.Stream.{eof}
use verm.Storage.{file}
use verm.Errors.{Error}
use verm.Upload.Opening.Input.{IsOf}
use verm.Upload.ContentAddressed.{IsContentAddressed}
use verm.Upload.Types.{FileUpload}
use verm.Upload.Types.{Request}
use verm.Http.{Response, get, set_header, set_field, del, write_header}
use verm.Server.{LogStatistics, ServerRequest, location_field, serve_http_post, serve_http_put}
use verm.Replication.Queue.{started}
use verm.Replication.Targets.{NamedTarget}
use verm.Server.Statistics.{serve_statistics, queue_label, queue_metric}
use verm.Server.Statistics.Lines.{scrape}
use verm.Server.Statistics.Scraped.{counters, IsLabelled, scrape-serve_statistics}
use verm.Server.Dispatch.{serve_http, serve_method, leave}
use verm.Server.Dispatch.WriteOnce.{serve_http-Keeps}
use verm.Server.Files.{Outside}
use verm.Storage.{Keeps}
use verm.Server.Posted.{
  serve_http_post-IsContentAddressed, serve_http_post-failed_uncounted, serve_http_put-counted,
}
use verm.Upload.Samples.{host, host-IsHost}
use verm.Upload.Examples.{
  types, post, stored_name, stored, put_gzip, posts, puts, posts_collided, collided,
}

abbrev pub no_requests : LogStatistics
no_requests = record {
  get_requests = 0;
  get_requests_found_on_replica = 0;
  get_requests_not_found = 0;
  post_requests = 0;
  post_requests_new_file_stored = 0;
  post_requests_failed = 0;
  put_requests = 0;
  put_requests_new_file_stored = 0;
  put_requests_missing_file_checks = 0;
  put_requests_failed = 0;
  replication_push_attempts = 0;
  replication_push_attempts_failed = 0;
  connections_current = 0;
}

abbrev pub message : Error → Bytes
message e = codes "error"

-- The handlers run the uploads above.
abbrev request : Request → ServerRequest
request r = record {
  http = record { method = []; path = r.path; forward_values = []; header = [] };
  upload = r;
  redirect = [];
}

abbrev pub created : Bytes → Response
created l = record { status = 201; header = (location_field, l) ∷ []; body = [] }

abbrev posted : LogStatistics
posted = record no_requests { post_requests = 1; post_requests_new_file_stored = 1 }

abbrev received : LogStatistics
received = record no_requests { put_requests = 1; put_requests_new_file_stored = 1 }

handles_post :
    serve_http_post host types message 4 (codes "/var") 100 (λ b. b) (request post) no_requests []
    ≡ some (
      created stored_name,
      posted,
      stored,
      record { location = stored_name; replicating = false } ∷ [],
    )
unfolding serve_http_post bytes_eq set_header set_field del write_header
handles_post = rw posts refl

handles_put :
    serve_http_put host types message 4
      (codes "/var")
      100
      (λ b. b)
      (request put_gzip)
      no_requests
      []
    ≡ some (
      created (stored_name ++ codes ".txt"),
      received,
      (codes "/var" ++ (stored_name ++ codes ".txt.gz"), file (31 ∷ codes "hello")) ∷ [],
      record { location = stored_name ++ codes ".txt"; replicating = true } ∷ [],
    )
unfolding serve_http_put bytes_eq set_header set_field del write_header
handles_put = rw puts refl

serve_http_post-IsContentAddressed_example :
    (up : FileUpload) × (up.root ≡ codes "/var")
    × IsOf host types post false up
    × IsContentAddressed host types up (get (created stored_name).header location_field) stored
serve_http_post-IsContentAddressed_example =
    serve_http_post-IsContentAddressed host-IsHost types message 4 (codes "/var") 100 (λ b. b)
      (request post) no_requests [] _ _ _ _ handles_post (λ e. absurd (omega (arith, e)))

serve_http_post-failed_uncounted_run :
    posted.post_requests_failed ≡ no_requests.post_requests_failed
serve_http_post-failed_uncounted_run =
    serve_http_post-failed_uncounted host types message 4 (codes "/var") 100 (λ b. b) (request post)
      no_requests [] _ _ _ _ handles_post

other_path : bytes_eq (request put_gzip).http.path (codes "/_missing") ≡ false
unfolding bytes_eq
other_path = refl

serve_http_put-counted_example :
    (received.put_requests ≡ no_requests.put_requests + 1)
    × ((((created (stored_name ++ codes ".txt")).status ≡ 201)
          × (received.put_requests_failed ≡ no_requests.put_requests_failed))
        ⊎ ((((created (stored_name ++ codes ".txt")).status ≡ 422)
              ⊎ ((created (stored_name ++ codes ".txt")).status ≡ 500))
            × (received.put_requests_failed ≡ no_requests.put_requests_failed + 1)))
serve_http_put-counted_example =
    serve_http_put-counted host types message 4 (codes "/var") 100 (λ b. b) (request put_gzip)
      no_requests [] _ _ _ _ other_path handles_put

abbrev pub outside : Outside
outside = record {
  modtime = λ path. 5;
  parse_time = λ text. none;
  format_time = λ t. [];
  type_by_extension = λ e. [];
  gunzip = λ s. some s;
  gunzip_error = [];
  unpack_read = λ compressed reads n. ([], eof);
  rewinds = λ compressed. true;
  boundary = [];
  counting_boundary = [];
  seek_error = [];
  replicas = record {
    targets = [];
    takes_url = λ url. true;
    proxy_client = λ request. none;
    arrival = λ outcomes. outcomes;
  };
}

abbrev pub posting : ServerRequest
posting = record (request post) {
  http = record { method = codes "POST"; path = codes "/docs/"; forward_values = []; header = [] };
}

abbrev pub posted_once : LogStatistics
posted_once = record no_requests { post_requests = 1; post_requests_new_file_stored = 1 }

-- The whole server handles a POST whose name is taken by other bytes.
pub handles :
    serve_http host outside types message 5
      (codes "/var")
      100
      (λ b. b)
      []
      posting
      no_requests
      collided
    ≡ some (
      created (stored_name ++ codes "_2"),
      posted_once,
      (codes "/var" ++ (stored_name ++ codes "_2"), file (codes "hello")) ∷ collided,
      record { location = stored_name ++ codes "_2"; replicating = false } ∷ [],
    )
unfolding serve_http serve_method leave serve_http_post bytes_eq set_header set_field del
    write_header
handles = rw posts_collided refl

serve_http-Keeps_example :
    Keeps collided ((codes "/var" ++ (stored_name ++ codes "_2"), file (codes "hello")) ∷ collided)
serve_http-Keeps_example =
    serve_http-Keeps host-IsHost outside types message 5 (codes "/var") 100 (λ b. b) [] posting
      no_requests collided _ _ _ _ handles

abbrev replica : NamedTarget
replica = record {
  hostname = codes "replica";
  port = codes "3404";
  queues = record started { unfinished_jobs = 7 };
}

replica-IsLabelled : IsLabelled replica
replica-IsLabelled = record {
  host = record { no_line = ground arith; no_space = ground arith; no_hash = ground arith };
  port = record { no_line = ground arith; no_space = ground arith; no_hash = ground arith };
  small = omega arith;
}

scrape-serve_statistics_example :
    scrape (serve_statistics posted_once (replica ∷ []))
    ≡ counters posted_once
      ++ (codes "verm_replication_queue_length{target=\"replica:3404\"}", 7) ∷ []
unfolding queue_label queue_metric
scrape-serve_statistics_example =
    scrape-serve_statistics posted_once (replica ∷ []) (replica-IsLabelled, tt)
