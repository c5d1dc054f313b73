-- ===== src/Server/Dispatch/Examples.antt =====
-- A file that is posted under a name that is taken, and read back.
use verm.Prelude.{
  has_prefix, true, false, ap, ◌==◌, some, drop, none, List, [], ◌∷◌, ◌++◌, Bytes, codes, bytes_eq,
  ◌≡◌, refl, arith,
}
use verm.Storage.{Storage, file, find}
use verm.Stream.{whole}
use verm.Upload.Types.{Job}
use verm.Upload.Integrity.{IsVerified}
use verm.Replication.Push.{put, put_request, open_location, open_file, choose_opened, opened_node}
use verm.Server.Dispatch.Unpacked.{serve_http_reads_unpacked}
use verm.Upload.Packed.{IsPacked}
use verm.Replication.Missing.{gzip_accepted, matches_gzip}
use verm.Server.Files.{Outside}
use verm.Server.Dispatch.Delivered.{received, status_of, put_delivers}
use verm.Http.{Response, get, del, set_header, set_field, write_header, http_error}
use verm.Upload.Samples.{host, host-IsHost}
use verm.Upload.Opening.{media_type_or_default}
use verm.Upload.Raw.{IsRaw}
use verm.Upload.Examples.{
  types, post, stored_name, stored, collided, puts_plain, post_gzip, posts_gzip, stored_gzip,
}
use verm.ServeContent.Conditional.{check_last_modified}
use verm.Server.{LogStatistics, ServerRequest, location_field, serve_http_put, serve_http_post}
use verm.Server.Files.Served.{IsWhole, IsPlain}
use verm.Server.Dispatch.{serve_http, serve_method, leave}
use verm.Server.Dispatch.ReadBack.{idle, next, serve_http_reads_back}
use verm.Server.Examples.{no_requests, message, outside, posting, posted_once, created, handles}

abbrev location : Bytes
location = stored_name ++ codes "_2"

abbrev files : Storage
files = (codes "/var" ++ location, file (codes "hello")) ∷ collided

abbrev asking : Bytes → Bytes → ServerRequest
asking method path = record posting {
  http = record { method = method; path = path; forward_values = []; header = [] };
}

deletes :
    serve_http host outside types message 5
      (codes "/var")
      100
      (λ b. b)
      []
      (asking (codes "DELETE") location)
      posted_once
      files
    ≡ some (
      http_error (codes "Method not supported") 405 (record { status = 0; header = []; body = [] }),
      posted_once,
      files,
      [],
    )
unfolding serve_http serve_method leave bytes_eq
deletes = refl

raw : IsRaw host types post
unfolding media_type_or_default bytes_eq
raw = record { no_form = refl; no_encoding = refl }

plain : IsPlain outside (asking (codes "GET") location).http
unfolding get bytes_eq check_last_modified
plain = record {
  not_head = refl;
  no_range = refl;
  no_tag = refl;
  no_if_range = refl;
  no_time = refl;
}

located : location ≡ get (created location).header location_field
unfolding get bytes_eq
located = refl

serve_http_reads_back_example :
    (v' : Response) × (after : LogStatistics) × (serve_http host outside types message 5
        (codes "/var")
        100
        (λ b. b)
        []
        (asking (codes "GET") location)
        no_requests
        files
      ≡ some (v', after, files, []))
    × IsWhole (codes "hello") v'
serve_http_reads_back_example =
    serve_http_reads_back host-IsHost outside types message 5 (codes "/var") 100 (λ b. b) [] posting
      no_requests collided (created location) posted_once files _ (codes "docs/") files
      (asking (codes "GET") location) no_requests refl refl raw (λ t. tt) handles
      (λ e. absurd (ground (arith, e)))
      (next files files (asking (codes "DELETE") location) posted_once _ _ [] idle deletes) refl
      located plain

-- A compressed file is posted, and read by a client that takes no gzip.
abbrev unpacking : Outside
unpacking = record outside { gunzip = host.gunzip }

abbrev reading_plain : ServerRequest
reading_plain = record posting {
  http = record {
    method = codes "GET";
    path = stored_name;
    forward_values = [];
    header = (codes "Accept-Encoding", codes "br") ∷ [];
  };
}

abbrev posting_gzip : ServerRequest
posting_gzip = record posting { upload = post_gzip }

handles_gzip :
    serve_http host unpacking types message 4
      (codes "/var")
      100
      (λ b. b)
      []
      posting_gzip
      no_requests
      []
    ≡ some (
      created stored_name,
      posted_once,
      stored_gzip,
      record { location = stored_name; replicating = false } ∷ [],
    )
unfolding serve_http serve_method leave serve_http_post bytes_eq set_header set_field del
    write_header
handles_gzip = rw posts_gzip refl

packed : IsPacked host types post_gzip
unfolding media_type_or_default bytes_eq
packed = record { no_form = refl; encoding = refl; not_gz = refl }

plain_gzip : IsPlain unpacking reading_plain.http
unfolding get bytes_eq check_last_modified
plain_gzip = record {
  not_head = refl;
  no_range = refl;
  no_tag = refl;
  no_if_range = refl;
  no_time = refl;
}

located_gzip : stored_name ≡ get (created stored_name).header location_field
unfolding get bytes_eq
located_gzip = refl

refused : gzip_accepted reading_plain.http ≡ false
unfolding gzip_accepted matches_gzip get bytes_eq has_prefix
refused = refl

alone : find (codes "/var" ++ get (created stored_name).header location_field) stored_gzip ≡ none
unfolding get bytes_eq find
alone = refl

serve_http_reads_unpacked_example :
    (contents : Bytes) × (host.gunzip (whole (31 ∷ codes "hello")) ≡ some (whole contents))
    × (v' : Response) × (after : LogStatistics) × (serve_http host unpacking types message 4
          (codes "/var")
          100
          (λ b. b)
          []
          reading_plain
          no_requests
          stored_gzip
        ≡ some (v', after, stored_gzip, []))
    × IsWhole contents v'
serve_http_reads_unpacked_example =
    serve_http_reads_unpacked host-IsHost unpacking types message 4 (codes "/var") 100 (λ b. b) []
      posting_gzip no_requests [] (created stored_name) posted_once stored_gzip _ (codes "docs/")
      stored_gzip reading_plain no_requests (λ b. refl) refl refl packed (λ t. tt) handles_gzip
      (λ e. absurd (ground (arith, e))) idle refl located_gzip plain_gzip refused alone

-- The file of one server, pushed to another one that has no files.
abbrev path_of : Bytes → Bytes
path_of url = drop 10 url

abbrev delivery : ServerRequest
delivery =
    received path_of (put_request (codes "r") (codes "1") stored_name ([], whole (codes "hello")))

abbrev received_once : LogStatistics
received_once = record no_requests { put_requests = 1; put_requests_new_file_stored = 1 }

delivered :
    serve_http host outside types message 4 (codes "/var") 100 (λ b. b) [] delivery no_requests []
    ≡ some (
      created stored_name,
      received_once,
      stored,
      record { location = stored_name; replicating = true } ∷ [],
    )
unfolding received put_request drop serve_http serve_method leave serve_http_put bytes_eq set_header
    set_field del write_header
delivered = rw puts_plain refl

pushes :
    put
      (λ q. status_of (
        serve_http host outside types message 4
          (codes "/var")
          100
          (λ b. b)
          []
          (received path_of q)
          no_requests
          []))
      stored
      (codes "/var")
      (codes "r")
      (codes "1")
      stored_name
    ≡ true
unfolding put open_location open_file choose_opened opened_node find bytes_eq status_of
pushes = ap (λ a. elim (status_of a) [ none ↦ false | some status ↦ status == 201 ]) delivered

put_delivers_example :
    (v : Response) × (after : LogStatistics) × (t' : Storage) × (jobs : List Job) × (serve_http host
        outside types message 4
        (codes "/var")
        100
        (λ b. b)
        []
        delivery
        no_requests
        []
      ≡ some (v, after, t', jobs))
    × (find (codes "/var" ++ get v.header location_field) t' ≡ some (file (codes "hello")))
    × IsVerified host types delivery.upload
unfolding bytes_eq find drop media_type_or_default
put_delivers_example =
    put_delivers host-IsHost outside types message 4 (codes "/var") 100 (λ b. b) [] path_of stored
      (codes "/var") (codes "r") (codes "1") stored_name (codes "hello") no_requests [] refl refl
      refl refl refl pushes
