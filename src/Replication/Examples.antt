-- ===== src/Replication/Examples.antt =====
-- Replication at small instances.
use verm.Prelude.{
  none, ℕ, ◌+◌, ◌-◌, ◌*◌, ◌≤◌, ◌<◌, true, ◌==◌, some, List, [], ◌∷◌, ◌++◌, Bytes, codes, bytes_eq,
  length, ◌≡◌, ◌⊎◌, ◌↔◌, refl, arith, All, trim_suffix, split, take, has_suffix,
}
use mathlib.Core.List.{Memᴰ}
use verm.Prelude.Int.{pos}
use verm.Errors.{ok}
use verm.Storage.{Storage, file, find}
use verm.Stream.{Stream, whole}
use verm.UrlPath.{clean}
use verm.Http.{HttpRequest, Response, get, empty_response}
use verm.Replication.Backoff.{backoff_time, IsOverflow, backoff_time-zero_iff, backoff_time_bounds}
use verm.Replication.Lines.{scan_lines, write_lines, IsLine, scan_lines-write_lines}
use verm.Replication.Missing.Exchange.{missing_exchange}
use verm.Replication.Missing.{serve_missing, queue_missing_files, filter, is_missing, path_exists}
use verm.Replication.Queue.{
  Target, Reachable, started, start, next, new_file, count, take_new, enqueue_new_file, add_job,
}
use verm.Replication.Queue.Counter.{IsSound, Reachable-IsSound, queue_length_exact}
use verm.Replication.Queue.Lossless.{outstanding, occurrences, stop, enqueue_new_file-lossless}
use verm.Replication.Resync.{
  Listing, ending, regular, subdirectory, is_kept, expanded, enumerate_subdirectory, HasFile,
}
use verm.Replication.Resync.Enumerated.{location_of, enumerate_subdirectory_iff, enumerated_opens}
use verm.Replication.Targets.{
  parse_target, write_target, parse_target-write_target, set, write_addresses, addressed, IsAddress,
  set-write_addresses,
}
use verm.Replication.Push.{open_location, replicate_file, delays, replicate_file_ends}

-- A random number that is always the largest.
abbrev largest : ℕ → ℕ
largest n = n - 1

largest_in_range : (n : ℕ) → 1 ≤ n → largest n < n
largest_in_range n le = omega arith

backoff_time-zero_iff_example : (backoff_time largest 2 ≡ pos 0) ↔ IsOverflow 2
backoff_time-zero_iff_example = backoff_time-zero_iff largest largest_in_range 2

backoff_time_bounds_run : (s : ℕ) × (s ≤ 120) × (backoff_time largest 10 ≡ pos (s * 1000000000))
backoff_time_bounds_run = backoff_time_bounds largest largest_in_range 10

abbrev locations : List Bytes
locations = codes "/a/b.txt" ∷ codes "/c" ∷ []

locations_fit : All (IsLine 65536) locations
locations_fit = (ground arith, (ground arith, tt))

scan_lines-write_lines_run : scan_lines 65536 (write_lines locations ++ codes "/cut") ≡ locations
scan_lines-write_lines_run =
    scan_lines-write_lines 65536 locations (codes "/cut") locations_fit (ground arith)

abbrev files : Storage
files = (codes "/var/a/b.txt.gz", file (codes "hello")) ∷ []

abbrev asks : HttpRequest
asks = record {
  method = codes "PUT";
  path = codes "/_missing";
  forward_values = [];
  header = (codes "Content-Encoding", codes "gzip") ∷ [];
}

asks_encoded : get asks.header (codes "Content-Encoding") ≡ codes "gzip"
unfolding get bytes_eq
asks_encoded = refl

missing_exchange_run :
    (v : Response) × (serve_missing files
        (codes "/var")
        65536
        some
        (λ b. b)
        asks
        (whole (write_lines locations))
        empty_response
      ≡ ok v)
    × (v.status ≡ 200)
    × (queue_missing_files 65536 some v.header (whole v.body)
        ≡ filter (is_missing files (codes "/var")) locations)
missing_exchange_run =
    missing_exchange files (codes "/var") 65536 some (λ b. b) (λ b. refl) asks locations
      asks_encoded locations_fit

-- Of the two locations, one has a file, stored compressed.
one_missing : filter (is_missing files (codes "/var")) locations ≡ codes "/c" ∷ []
unfolding filter is_missing path_exists find clean split bytes_eq
one_missing = refl

abbrev queued : Target
queued = record started { new_files = codes "/c" ∷ []; uncounted = 1 }

enqueues : enqueue_new_file 4 (codes "/c") started ≡ queued
unfolding enqueue_new_file
enqueues = refl

queued-Reachable : Reachable 4 queued
unfolding enqueue_new_file
queued-Reachable = next start (new_file (codes "/c"))

Reachable-IsSound_example : IsSound 4 queued
Reachable-IsSound_example = Reachable-IsSound 4 queued-Reachable

abbrev sending : Target
sending = record started { unfinished_jobs = 1; pushing = codes "/c" ∷ [] }

sending-Reachable : Reachable 4 sending
unfolding add_job
sending-Reachable =
    next (next queued-Reachable (count (omega arith))) (take_new (codes "/c") [] refl)

queue_length_exact_run :
    sending.unfinished_jobs
    ≡ length sending.new_files + length sending.missing_files + length sending.pushing
queue_length_exact_run = queue_length_exact 4 sending-Reachable refl refl (omega arith)

enqueue_new_file-lossless_example :
    (1
      ≤ outstanding (codes "/c") (enqueue_new_file 4 (codes "/c") started)
        + occurrences (codes "/c") [])
    ⊎ ((enqueue_new_file 4 (codes "/c") started).need_to_resync ≡ true)
enqueue_new_file-lossless_example = enqueue_new_file-lossless 4 (codes "/c") started stop

abbrev tree : Listing
tree =
    subdirectory (codes "a") (regular (codes "b.txt.gz") ending) (regular (codes "_upload1") ending)

lists_one : enumerate_subdirectory [] tree ≡ codes "/a/b.txt" ∷ []
unfolding enumerate_subdirectory is_kept expanded take bytes_eq trim_suffix has_suffix
lists_one = refl

enumerate_subdirectory_iff_run :
    Memᴰ (codes "/a/b.txt") (enumerate_subdirectory [] tree)
    ↔ ((p : Bytes) × HasFile [] tree p × (codes "/a/b.txt" ≡ location_of p))
enumerate_subdirectory_iff_run = enumerate_subdirectory_iff [] tree (codes "/a/b.txt")

stored : find (codes "/var" ++ codes "/a/b.txt.gz") files ≡ some (file (codes "hello"))
unfolding find bytes_eq
stored = refl

enumerated_opens_run :
    (opened : Bytes × Stream) × (open_location files
        (codes "/var")
        (trim_suffix (codes "/a/b.txt.gz") (codes ".gz"))
      ≡ some opened)
enumerated_opens_run =
    enumerated_opens files (codes "/var") (codes "/a/b.txt.gz") (codes "hello") stored

-- The third attempt succeeds.
replicate_file_ends_example :
    replicate_file largest (λ n. n == 3) 3
    ≡ some (record { push_attempts = 3; push_attempts_failed = 2; slept = delays largest 1 2 })
replicate_file_ends_example =
    replicate_file_ends largest (λ n. n == 3) 2 3 (λ i lt. ground arith) refl (omega arith)

parse_target-write_target_run :
    parse_target (write_target (codes "replica1") (codes "3405")) ≡ (codes "replica1", codes "3405")
parse_target-write_target_run =
    parse_target-write_target (codes "replica1") (codes "3405") (ground arith) (ground arith)

set-write_addresses_example :
    set (write_addresses (codes "a", some (codes "1")) ((codes "b", none) ∷ [])) []
    ≡ addressed (codes "a", some (codes "1")) ∷ addressed (codes "b", none) ∷ []
unfolding IsAddress
set-write_addresses_example =
    set-write_addresses (codes "a", some (codes "1")) ((codes "b", none) ∷ []) []
      (
        ((ground arith, ground arith), (ground arith, ground arith)),
        ((ground arith, ground arith), tt),
      )
