-- ===== src/Replication/Sending/Resynced.antt =====
-- A resync as a whole: the lists of locations that one server sends, and what the other answers.
use verm.Prelude.{
  ℕ, ◌+◌, ◌<◌, Bool, none, some, List, [], ◌∷◌, ◌++◌, map, Bytes, codes, bytes_eq, ◌≡◌, ◌≢◌, refl,
  sym, ap, ◌∙◌, subst, arith, All,
}
use verm.Errors.{ok}
use verm.Storage.{Storage}
use verm.Stream.{Gunzip, whole}
use verm.Http.{Header, HttpRequest, Response, get, empty_response}
use verm.Replication.Push.{delays}
use verm.Replication.Lines.{write_lines, IsLine}
use verm.Replication.Missing.Exchange.{missing_exchange, queue_unpacked}
use verm.Replication.Missing.{serve_missing, queue_missing_files, filter, is_missing}
use verm.Replication.Batches.Whole.{concat, send_file_lists-IsBatching}
use verm.Replication.Sending.{
  ListClient, ListRequest, ListReply, list_request, missing_path, answered, send_until_successful,
  queued_before, send_batches, send_texts, sync_file_lists,
}
use verm.Replication.Sending.Retried.{send_until_successful_ends}

-- The request as the target receives it.
abbrev pub received : ListRequest → HttpRequest
received req = record {
  method = codes "PUT";
  path = missing_path;
  forward_values = [];
  header = req.header;
}

-- A response that arrives: as it was sent, or unpacked by the transport, which then drops the field.
pub data Delivers (gunzip : Gunzip) (v : Response) : ListReply → Type 0 where
  as_sent : Delivers gunzip v (record { status = v.status; header = v.header; body = whole v.body })
  unpacked :
      {header : Header} {b : Bytes}
      → get v.header (codes "Content-Encoding") ≡ codes "gzip"
      → gunzip (whole v.body) ≡ some (whole b)
      → get header (codes "Content-Encoding") ≡ []
      → Delivers gunzip v (record { status = v.status; header = header; body = whole b })

answered-delivered :
    (limit : ℕ) {gunzip : Gunzip} {v : Response} {r : ListReply}
    → Delivers gunzip v r
    → v.status ≡ 200
    → answered limit gunzip (some r)
      ≡ some (queue_missing_files limit gunzip v.header (whole v.body))
unfolding answered
answered-delivered limit as_sent s = rw s refl
answered-delivered limit {gunzip} {v} (unpacked {header} {b} zipped e plain) s =
    rw s (ap some (queue_unpacked limit gunzip v.header header v.body b zipped e plain))

filter-append :
    (test : Bytes → Bool) (ls ms : List Bytes)
    → filter test (ls ++ ms) ≡ filter test ls ++ filter test ms
unfolding filter
filter-append test [] ms = refl
filter-append test (l ∷ ls) ms = rw (filter-append test ls ms) (ground arith)

All-parts : (P : Bytes → Type 0) (xs ys : List Bytes) → All P (xs ++ ys) → All P xs × All P ys
All-parts P [] ys h = (tt, h)
All-parts P (x ∷ xs) ys (p, h) = let (a, b) = All-parts P xs ys h in ((p, a), b)

module _ (s : Storage) (root : Bytes) (limit : ℕ) (gunzip : Gunzip) (compress : Bytes → Bytes)
    (int63n : ℕ → ℕ) (clients : ℕ → ListClient) (tries : ℕ → ℕ) (fuel : ℕ) where
  -- The target is reached at last: of the requests for the batch `b`, the first `tries b` fail, and the
  -- next one is answered by the handler of the target, whose files do not change meanwhile.
  pub record IsReached : Type 0 where
    pub decodes : (b : Bytes) → gunzip (whole (compress b)) ≡ some (whole b)
    pub enough : (b : ℕ) → tries b < fuel
    pub fails :
        (b i : ℕ) (req : ListRequest)
        → i < tries b
        → answered limit gunzip (clients b (1 + i) req).0 ≡ none
    pub works :
        (b : ℕ) (req : ListRequest) (v : Response)
        → serve_missing s root limit gunzip compress (received req) (whole req.body) empty_response
          ≡ ok v
        → (r : ListReply) × ((clients b (1 + tries b) req).0 ≡ some r) × Delivers gunzip v r

  module _ (hostname port : Bytes) (reached : IsReached) where
    encoded :
        (input : Bytes)
        → get (list_request hostname port input).header (codes "Content-Encoding") ≡ codes "gzip"
    unfolding list_request get bytes_eq
    encoded input = refl

    body_of : (input : Bytes) → (list_request hostname port input).body ≡ input
    unfolding list_request
    body_of input = refl

    batch_sent :
        (b : ℕ) (ls : List Bytes)
        → All (IsLine limit) ls
        → send_until_successful limit gunzip int63n
            (clients b)
            hostname
            port
            fuel
            (compress (write_lines ls))
          ≡ some
              (record { slept = delays int63n 1 (tries b); queued = filter (is_missing s root) ls })
    batch_sent b ls lines =
        let list = compress (write_lines ls) in
        let req = list_request hostname port list in
        let (v, served, status, queued) =
          missing_exchange s root limit gunzip compress reached.decodes (received req) ls
            (encoded list) lines in
        let (r, answer, delivered) = reached.works b req v (
          subst
            (λ t.
              serve_missing s root limit gunzip compress (received req) (whole t) empty_response
              ≡ ok v)
            (sym (body_of list)) served) in
        send_until_successful_ends limit gunzip int63n (clients b) hostname port list (tries b) fuel
          (filter (is_missing s root) ls) (λ i lt. reached.fails b i req lt)
          (ap (answered limit gunzip) answer
            ∙ answered-delivered limit delivered status
            ∙ ap some queued)
          (reached.enough b)

    send_batches_lem :
        (batches : List (List Bytes)) (b : ℕ)
        → All (IsLine limit) (concat batches)
        → send_batches limit gunzip int63n clients compress hostname port fuel b
            (map write_lines batches)
          ≡ some (filter (is_missing s root) (concat batches))
    unfolding send_batches queued_before filter
    send_batches_lem [] b lines = refl
    send_batches_lem (ls ∷ batches) b lines =
        let (here, behind) = All-parts (IsLine limit) ls (concat batches) lines in
        rw
          (
            send_batches,
            batch_sent b ls here,
            send_batches_lem batches (b + 1) behind,
            filter-append (is_missing s root) ls (concat batches),
          )
          refl

    -- However the timer and the buffer cut the list, and whichever attempts fail: when the locations
    -- have been sent, those have been queued that the target has no file for, all of them, in their
    -- order, and no others. No location is empty, has a line break or is too long for the scanner.
    pub sync_file_lists_lem :
        (timed_out : ℕ → Bool) (flushed : Bytes → ℕ) (locations : List Bytes)
        → All (λ m. m ≢ []) locations
        → All (IsLine limit) locations
        → sync_file_lists limit gunzip timed_out flushed int63n clients compress hostname port fuel
            locations
          ≡ some (filter (is_missing s root) locations)
    unfolding sync_file_lists send_texts
    sync_file_lists_lem timed_out flushed locations filled lines =
        let (texts, e, b) = send_file_lists-IsBatching timed_out flushed locations filled in
        rw (sync_file_lists, e, b.texts_eq)
          (send_batches_lem b.batches 0 (subst (All (IsLine limit)) (sym b.concat_eq) lines)
            ∙ ap (λ ls. some (filter (is_missing s root) ls)) b.concat_eq)
