-- ===== src/Server/Files/Examples.antt =====
-- A file and a compressed file, served.
use verm.Prelude.{
  drop-drop, List, ℕ, suc, ◌≤◌, take, drop, length, length-take, take-append-drop, leb,
  if◌then◌else◌, sym, ap, subst, bytes_eq, index_byte, trim_space, has_prefix, ◌∙◌, arith, ◌⊎◌, ◌+◌,
  false, none, some, [], ◌∷◌, ◌++◌, Bytes, codes, true, split, ◌≡◌, refl,
}
use verm.Storage.{Storage, file, find}
use verm.Stream.{whole, ReadEnd, nil, eof}
use verm.Seeker.{restart, bind_option}
use verm.Seeker.Examples.{plain_end}
use verm.Seeker.Refines.{IsSource}
use verm.UrlPath.{clean}
use verm.Prelude.Int.{pos, ◌+ℤ◌, ◌-ℤ◌}
use verm.Http.{HttpRequest, Response, get, empty_response}
use verm.Ranges.{parse_range, spec_range, parse_int}
use verm.ServeContent.Single.{IsPartial}
use mathlib.Core.List.Memᴰ.{head}
use verm.Forwarding.Choice.{
  should_forward_read, last_is_zero, matches_hash, hash_here, chars_here, extension_here,
}
use verm.Server.Files.Forwarded.{IsForwarding, IsForwarded, serve_file-IsForwarded}
use verm.Server.Files.Unpacked.{unpack-IsPartial}
use verm.ServeContent.Conditional.{check_last_modified}
use verm.Replication.Missing.{gzip_accepted, matches_gzip}
use verm.Server.{LogStatistics}
use verm.Server.Files.{Outside, serve_file, decoder, unpack_and_serve_content}
use verm.Server.Files.Served.{IsWhole, IsPlain, serve_file-stored, serve_file-unpacked}

abbrev no_requests : LogStatistics
no_requests = record {
  get_requests = 0;
  get_requests_found_on_replica = 0;
  get_requests_not_found = 0;
  post_requests = 0;
  post_requests_new_file_stored = 0;
  post_requests_failed = 0;
  put_requests = 0;
  put_requests_new_file_stored = 0;
  put_requests_missing_file_checks = 0;
  put_requests_failed = 0;
  replication_push_attempts = 0;
  replication_push_attempts_failed = 0;
  connections_current = 0;
}

abbrev outside : Outside
outside = record {
  modtime = λ path. 5;
  parse_time = λ text. none;
  format_time = λ t. [];
  type_by_extension = λ e. [];
  gunzip = λ s. some s;
  gunzip_error = [];
  unpack_read = λ compressed reads n. ([], eof);
  rewinds = λ compressed. true;
  boundary = [];
  counting_boundary = [];
  seek_error = [];
  replicas = record {
    targets = [];
    takes_url = λ url. true;
    proxy_client = λ request. none;
    arrival = λ outcomes. outcomes;
  };
}

abbrev files : Storage
files =
    (codes "/var/a/b.txt", file (codes "hello")) ∷ (codes "/var/c.gz", file (codes "packed")) ∷ []

abbrev get_of : Bytes → HttpRequest
get_of path = record {
  method = codes "GET";
  path = path;
  forward_values = [];
  header = (codes "Accept-Encoding", codes "br") ∷ [];
}

plain : (path : Bytes) → IsPlain outside (get_of path)
unfolding get bytes_eq check_last_modified
plain path = record {
  not_head = refl;
  no_range = refl;
  no_tag = refl;
  no_if_range = refl;
  no_time = refl;
}

stands : find (codes "/var" ++ clean (codes "/a//b.txt")) files ≡ some (file (codes "hello"))
unfolding find clean split bytes_eq
stands = refl

absent : find (codes "/var" ++ clean (codes "/c")) files ≡ none
unfolding find clean split bytes_eq
absent = refl

packed :
    find (codes "/var" ++ (clean (codes "/c") ++ codes ".gz")) files ≡ some (file (codes "packed"))
unfolding find clean split bytes_eq
packed = refl

refused : gzip_accepted (get_of (codes "/c")) ≡ false
unfolding gzip_accepted matches_gzip get bytes_eq has_prefix
refused = refl

serve_file-stored_run :
    (v : Response) × (stats' : LogStatistics) × (serve_file outside
        (codes "/var")
        files
        (get_of (codes "/a//b.txt"))
        no_requests
      ≡ some (v, stats'))
    × IsWhole (codes "hello") v
    × (stats'.get_requests ≡ 0 + 1)
serve_file-stored_run =
    serve_file-stored outside (codes "/var") (get_of (codes "/a//b.txt"))
      (plain (codes "/a//b.txt")) files no_requests (codes "hello") stands

serve_file-unpacked_run :
    (v : Response) × (stats' : LogStatistics) × (serve_file outside
        (codes "/var")
        files
        (get_of (codes "/c"))
        no_requests
      ≡ some (v, stats'))
    × IsWhole (codes "packed") v
    × (stats'.get_requests ≡ 0 + 1)
serve_file-unpacked_run =
    serve_file-unpacked outside (codes "/var") (get_of (codes "/c")) (plain (codes "/c")) files
      no_requests (codes "packed") (whole (codes "packed")) absent packed refused refl

total : List ℕ → ℕ
total [] = 0
total (n ∷ reads) = n + total reads

-- What a decoder of bytes that are not encoded has left behind some reads.
left : Bytes → List ℕ → Bytes
left content reads = drop (total reads) content

abbrev plain_read : Bytes → List ℕ → ℕ → Bytes × ReadEnd
plain_read content reads n =
    (take n (left content reads), if leb (length (left content reads)) n then eof else nil)

abbrev unpacking : Outside
unpacking = record outside { unpack_read = plain_read }

total-append : (reads : List ℕ) (n : ℕ) → total (reads ++ n ∷ []) ≡ total reads + n
unfolding total
total-append [] n = omega arith
total-append (m ∷ reads) n = omega (arith, total-append reads n)

left-append :
    (content : Bytes) (reads : List ℕ) (n : ℕ)
    → left content (reads ++ n ∷ []) ≡ drop n (left content reads)
unfolding left
left-append content reads n =
    ap (λ k. drop k content) (total-append reads n) ∙ sym (drop-drop n (total reads) content)

decoder-IsSource :
    IsSource (decoder unpacking (codes "hello")) (codes "hello") (left (codes "hello"))
unfolding decoder left total drop restart bind_option
decoder-IsSource = record {
  read_bytes = λ n reads.
      sym (take-append-drop (suc n) (left (codes "hello") reads))
      ∙ ap (λ t. take (suc n) (left (codes "hello") reads) ++ t)
          (sym (left-append (codes "hello") reads (suc n)));
  read_room = λ n reads. omega (arith, length-take (suc n) (left (codes "hello") reads));
  read_end = λ n reads.
      subst
        (λ t.
          (((if leb (length (left (codes "hello") reads)) (suc n) then eof else nil) ≡ nil)
            × (1 ≤ length (take (suc n) (left (codes "hello") reads))))
          ⊎ (((if leb (length (left (codes "hello") reads)) (suc n) then eof else nil) ≡ eof)
              × (t ≡ [])))
        (sym (left-append (codes "hello") reads (suc n)))
        (plain_end n (left (codes "hello") reads));
  restarts = λ reads. ([], refl, refl);
}

abbrev asks_part : HttpRequest
asks_part = record {
  method = codes "GET";
  path = codes "/c";
  forward_values = [];
  header = (codes "Range", codes "bytes=2-4") ∷ [];
}

part_parsed :
    parse_range (get asks_part.header (codes "Range")) (pos 5)
    ≡ some (record { start = pos 2; length = pos 3 } ∷ [])
unfolding get parse_range spec_range parse_int split bytes_eq has_prefix index_byte trim_space take
    drop ◌+ℤ◌ ◌-ℤ◌
part_parsed = refl

part_ranged : bytes_eq (get asks_part.header (codes "Range")) [] ≡ false
unfolding get bytes_eq
part_ranged = refl

part_not_head : bytes_eq asks_part.method (codes "HEAD") ≡ false
unfolding bytes_eq
part_not_head = refl

unpack-IsPartial_example :
    (v : Response) × (unpack_and_serve_content unpacking asks_part (codes "hello") empty_response
      ≡ some v)
    × IsPartial (codes "hello") (record { start = pos 2; length = pos 3 }) 2 3 empty_response v
unfolding left total drop
unpack-IsPartial_example =
    unpack-IsPartial unpacking (codes "hello") (codes "hello") (left (codes "hello"))
      decoder-IsSource (omega arith) asks_part (whole (codes "hello"))
      (record { start = pos 2; length = pos 3 }) empty_response refl refl refl refl part_not_head
      part_ranged part_parsed
      (record { first = 2; count = 3; start_eq = refl; length_eq = refl; fits = omega arith })
      (omega arith)

-- A name for a hash, of which no file is stored here.
abbrev elsewhere : Bytes
elsewhere = codes "/docs/Ab/Cxxxxxxxxxxxxxxxxxxxxxxxxxxxxxxxxxxxxxxxx.txt"

abbrev replying : Outside
replying = record outside {
  replicas = record {
    targets = (codes "replica", codes "3404") ∷ [];
    takes_url = λ url. true;
    proxy_client = λ request. some (record { status = 200; header = []; body = codes "hello" });
    arrival = λ outcomes. outcomes;
  };
}

nowhere : find (codes "/var" ++ clean elsewhere) files ≡ none
unfolding find clean split bytes_eq
nowhere = refl

nowhere_packed : find (codes "/var" ++ (clean elsewhere ++ codes ".gz")) files ≡ none
unfolding find clean split bytes_eq
nowhere_packed = refl

asked : should_forward_read (get_of elsewhere) ≡ true
unfolding should_forward_read last_is_zero matches_hash hash_here chars_here extension_here
asked = refl

replying-IsForwarding : IsForwarding replying.replicas (get_of elsewhere)
replying-IsForwarding = record { arrives = λ os x. (λ m. m, λ m. m); takes = λ t m. refl }

serve_file-IsForwarded_example :
    (v : Response) × (stats' : LogStatistics) × (serve_file replying
        (codes "/var")
        files
        (get_of elsewhere)
        no_requests
      ≡ some (v, stats'))
    × IsForwarded replying.replicas (get_of elsewhere) v
    × (stats'.get_requests_found_on_replica ≡ 0 + 1)
serve_file-IsForwarded_example =
    serve_file-IsForwarded replying (codes "/var") (get_of elsewhere) files no_requests
      (codes "replica", codes "3404") (record { status = 200; header = []; body = codes "hello" })
      nowhere nowhere_packed asked replying-IsForwarding (head refl) refl refl
