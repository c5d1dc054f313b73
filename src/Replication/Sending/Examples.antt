-- ===== src/Replication/Sending/Examples.antt =====
-- A resync of two files in batches of one, to a target that answers at the second attempt.
use verm.Prelude.{
  ℕ, zero, suc, ◌+◌, ◌-◌, ◌<◌, ◌==◌, Bool, true, Option, none, some, List, [], ◌∷◌, Bytes, codes,
  bytes_eq, if◌then◌else◌, ◌≡◌, ◌≢◌, ◌↔◌, refl, ap, arith, All, take, drop, trim_suffix, has_suffix,
  split, index_byte,
}
use mathlib.Core.List.{Memᴰ}
use verm.Errors.{Result, ok, err}
use verm.Storage.{Storage, file, find}
use verm.Stream.{whole, encoding_decoder}
use verm.UrlPath.{clean}
use verm.Http.{get, set_header, set_field, del, write_header, write, Response, empty_response}
use verm.Replication.Push.{delays}
use verm.Replication.Lines.{IsLine, write_lines, scan_lines, scan_loop, scan_whole_lines}
use verm.Replication.Missing.{
  serve_missing, is_missing, path_exists, respond_missing, list_missing_files, queue_missing_files,
  gzip_accepted, respond,
}
use verm.Replication.Resync.{
  Listing, ending, regular, subdirectory, HasFile, here, inside, behind_regular,
  behind_subdirectory, expanded,
}
use verm.Replication.Resync.Enumerated.{location_of}
use verm.Replication.Batches.{send_file_lists, send_loop, cons_option, collect, round, written}
use verm.Replication.Batches.Whole.{IsBatching, send_file_lists-IsBatching}
use verm.Replication.Sending.{
  ListClient, ListRequest, ListReply, list_request, answered, send_until_successful, resync,
}
use verm.Replication.Sending.Retried.{attempt_result, send_until_successful_ends}
use verm.Replication.Sending.Resynced.{received, Delivers, as_sent, IsReached}
use verm.Replication.Sending.Complete.{resync_iff}

-- The timer wins every select.
abbrev always : ℕ → Bool
always n = true

abbrev none_flushed : Bytes → ℕ
none_flushed text = 10

abbrev two : List Bytes
two = codes "/a/b" ∷ codes "/a/c" ∷ []

sends_each :
    send_file_lists always none_flushed two
    ≡ some (write_lines (codes "/a/b" ∷ []) ∷ write_lines (codes "/a/c" ∷ []) ∷ [])
unfolding send_file_lists send_loop cons_option collect round written write_lines bytes_eq
sends_each = refl

two-filled : All (λ m. m ≢ []) two
two-filled = ground arith

send_file_lists-IsBatching_example :
    (texts : List Bytes) × (send_file_lists always none_flushed two ≡ some texts)
    × IsBatching none_flushed two texts
send_file_lists-IsBatching_example = send_file_lists-IsBatching always none_flushed two two-filled

abbrev target_files : Storage
target_files = (codes "/var/a/b.gz", file (codes "hello")) ∷ []

abbrev same : Bytes → Bytes
same b = b

abbrev reply_of : Result Response → Option ListReply
reply_of (err why) = none
reply_of (ok v) = some (record { status = v.status; header = v.header; body = whole v.body })

abbrev handled : ListRequest → Result Response
handled req =
    serve_missing target_files (codes "/var") 65536 some same (received req) (whole req.body)
      empty_response

-- The first attempt reads five bytes of the list and fails.
abbrev second_answers : ListClient
second_answers n req = if n == 1 then (none, 5) else (reply_of (handled req), 8)

first_fails :
    (i : ℕ) (req : ListRequest) → i < 1 → answered 65536 some (second_answers (1 + i) req).0 ≡ none
unfolding answered
first_fails zero req lt = refl
first_fails (suc i) req lt = absurd (omega arith)

second_works :
    (req : ListRequest) (v : Response)
    → handled req ≡ ok v
    → (r : ListReply) × (reply_of (handled req) ≡ some r) × Delivers some v r
second_works req v e = (_, ap reply_of e, as_sent)

second_answers-IsReached :
    IsReached target_files
      (codes "/var")
      65536
      some
      same
      (λ n. n - 1)
      (λ b. second_answers)
      (λ b. 1)
      2
second_answers-IsReached = record {
  decodes = λ b. refl;
  enough = λ b. omega arith;
  fails = λ b i req lt. first_fails i req lt;
  works = λ b req v e. second_works req v e;
}

abbrev small_tree : Listing
small_tree = subdirectory (codes "a") (regular (codes "b.gz") (regular (codes "c") ending)) ending

small_tree_fits : (p : Bytes) → HasFile [] small_tree p → IsLine 65536 (location_of p)
unfolding expanded trim_suffix has_suffix bytes_eq take
small_tree_fits _ (inside k (here j)) = ground arith
small_tree_fits _ (inside k (behind_regular (here j))) = ground arith
small_tree_fits _ (inside k (behind_regular (behind_regular h))) = elim h [ ]
small_tree_fits _ (behind_subdirectory h) = elim h [ ]

resync_iff_example :
    (queued : List Bytes) × (resync 65536 some always none_flushed
        (λ n. n - 1)
        (λ b. second_answers)
        same
        (codes "replica")
        (codes "3404")
        2
        small_tree
      ≡ some queued)
    × ((l : Bytes)
        → Memᴰ l queued ↔ (
            ((p : Bytes) × HasFile [] small_tree p × (l ≡ location_of p))
            × (is_missing target_files (codes "/var") l ≡ true)))
resync_iff_example =
    resync_iff target_files (codes "/var") 65536 some same (λ n. n - 1) (λ b. second_answers)
      (λ b. 1) 2 (codes "replica") (codes "3404") second_answers-IsReached always none_flushed
      small_tree small_tree_fits

-- The location that the target has no file for, as its handler answers for the list of it alone.
answers_missing :
    attempt_result 65536 some
      (λ n. n - 1)
      second_answers
      (codes "replica")
      (codes "3404")
      (write_lines (codes "/a/c" ∷ []))
      2
    ≡ some (codes "/a/c" ∷ [])
unfolding answered list_request get bytes_eq serve_missing respond_missing list_missing_files
    is_missing path_exists find clean split scan_lines scan_loop scan_whole_lines index_byte
    write_lines take drop queue_missing_files encoding_decoder set_header set_field del
    gzip_accepted respond write_header write
answers_missing = refl

send_until_successful_ends_example :
    send_until_successful 65536 some
      (λ n. n - 1)
      second_answers
      (codes "replica")
      (codes "3404")
      2
      (write_lines (codes "/a/c" ∷ []))
    ≡ some (record { slept = delays (λ n. n - 1) 1 1; queued = codes "/a/c" ∷ [] })
send_until_successful_ends_example =
    send_until_successful_ends 65536 some (λ n. n - 1) second_answers (codes "replica")
      (codes "3404") (write_lines (codes "/a/c" ∷ [])) 1 2 (codes "/a/c" ∷ [])
      (λ i lt.
        first_fails i
          (list_request (codes "replica") (codes "3404") (write_lines (codes "/a/c" ∷ []))) lt)
      answers_missing (omega arith)
