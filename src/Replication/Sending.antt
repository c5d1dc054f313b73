-- ===== src/Replication/Sending.antt =====
-- `sendFileListUntilSuccessful` and `sendFileList` of replication_resync.go: a list of locations is sent
-- until the target has answered it.
pub mod Retried
pub mod Resynced
pub mod Complete
mod Examples
use verm.Prelude.{
  ℕ, zero, suc, ◌+◌, Bool, Option, none, some, List, [], ◌∷◌, ◌++◌, Bytes, codes, drop, ◌==◌,
  if◌then◌else◌,
}
use verm.Prelude.Int.{ℤ}
use verm.Stream.{Stream, Gunzip}
use verm.Http.{Header, HttpRequest}
use verm.Replication.Backoff.{backoff_time}
use verm.Replication.Missing.{queue_missing_files}
use verm.Replication.Batches.{send_file_lists}
use verm.Replication.Resync.{Listing, enumerate_files}

-- The request of `sendFileList`.
pub record ListRequest : Type 0 where
  pub url : Bytes
  pub header : Header
  pub body : Bytes

-- `ReplicationMissingFilesPath`
abbrev pub missing_path : Bytes
missing_path = codes "/_missing"

unfoldable pub list_request : Bytes → Bytes → Bytes → ListRequest
list_request hostname port input = record {
  url = codes "http://" ++ (hostname ++ (codes ":" ++ (port ++ missing_path)));
  header =
      (codes "Content-Type", codes "text/plain") ∷ (codes "Content-Encoding", codes "gzip") ∷ [];
  body = input;
}

-- A response as the client hands it over.
pub record ListReply : Type 0 where
  pub status : ℕ
  pub header : Header
  pub body : Stream

-- The HTTP client at an attempt: the response, or none for an error, and how much of the body of the
-- request it has read.
abbrev pub ListClient : Type 0
ListClient = ℕ → ListRequest → Option ListReply × ℕ

-- `bytes.Reader`
pub record ByteReader : Type 0 where
  pub contents : Bytes
  pub position : ℕ

unfoldable pub unread : ByteReader → Bytes
unread input = drop input.position input.contents

-- `input.Seek(0, 0)`
unfoldable pub rewind : ByteReader → ByteReader
rewind input = record input { position = 0 }

module _ (limit : ℕ) (gunzip : Gunzip) where
  -- What `sendFileList` makes of the outcome: the locations that it queues, or none for false.
  unfoldable pub answered : Option ListReply → Option (List Bytes)
  answered none = none
  answered (some r) =
      if r.status == 200 then some (queue_missing_files limit gunzip r.header r.body) else none

  -- `sendFileList`
  unfoldable pub send_file_list :
      ListClient → Bytes → Bytes → ℕ → ByteReader → Option (List Bytes) × ByteReader
  send_file_list client hostname port attempts input =
      let (outcome, count) = client attempts (list_request hostname port (unread input)) in
      (answered outcome, record input { position = input.position + count })

  -- How long `sendFileListUntilSuccessful` sleeps, and the locations that are queued in the end.
  pub record Sent : Type 0 where
    pub slept : List ℤ
    pub queued : List Bytes

  unfoldable pub slept_before : ℤ → Option Sent → Option Sent
  slept_before delay none = none
  slept_before delay (some r) = some (record r { slept = delay ∷ r.slept })

  -- The loop from the attempt `attempts` on, on fuel.
  unfoldable pub attempts_loop :
      (ℕ → ℕ) → ListClient → Bytes → Bytes → ℕ → ℕ → ByteReader → Option Sent
  attempts_loop int63n client hostname port zero attempts input = none
  attempts_loop int63n client hostname port (suc fuel) attempts input =
      let (result, next) = send_file_list client hostname port attempts (rewind input) in
      let behind = attempts_loop int63n client hostname port fuel (attempts + 1) next in
      elim result [
        | some ls ↦ some (record { slept = []; queued = ls })
        | none ↦ slept_before (backoff_time int63n attempts) behind
      ]

  -- `sendFileListUntilSuccessful`
  unfoldable pub send_until_successful :
      (ℕ → ℕ) → ListClient → Bytes → Bytes → ℕ → Bytes → Option Sent
  send_until_successful int63n client hostname port fuel list =
      attempts_loop int63n client hostname port fuel 1 (record { contents = list; position = 0 })

  unfoldable pub queued_before : Option Sent → Option (List Bytes) → Option (List Bytes)
  queued_before none behind = none
  queued_before (some r) none = none
  queued_before (some r) (some ls) = some (r.queued ++ ls)

  -- The calls that `sendFileLists` makes for its batches, with a client for each: all that is queued.
  unfoldable pub send_batches :
      (ℕ → ℕ)
      → (ℕ → ListClient)
      → (Bytes → Bytes)
      → Bytes
      → Bytes
      → ℕ
      → ℕ
      → List Bytes
      → Option (List Bytes)
  send_batches int63n clients compress hostname port fuel batch [] = some []
  send_batches int63n clients compress hostname port fuel batch (text ∷ texts) =
      queued_before
        (send_until_successful int63n (clients batch) hostname port fuel (compress text))
        (send_batches int63n clients compress hostname port fuel (batch + 1) texts)

  unfoldable pub send_texts :
      (ℕ → ℕ)
      → (ℕ → ListClient)
      → (Bytes → Bytes)
      → Bytes
      → Bytes
      → ℕ
      → Option (List Bytes)
      → Option (List Bytes)
  send_texts int63n clients compress hostname port fuel none = none
  send_texts int63n clients compress hostname port fuel (some texts) =
      send_batches int63n clients compress hostname port fuel 0 texts

  -- `sendFileLists` with the requests that it makes; what is sent does not depend on the answers.
  unfoldable pub sync_file_lists :
      (ℕ → Bool)
      → (Bytes → ℕ)
      → (ℕ → ℕ)
      → (ℕ → ListClient)
      → (Bytes → Bytes)
      → Bytes
      → Bytes
      → ℕ
      → List Bytes
      → Option (List Bytes)
  sync_file_lists timed_out flushed int63n clients compress hostname port fuel locations =
      send_texts int63n clients compress hostname port fuel
        (send_file_lists timed_out flushed locations)

  -- One round of `resyncFromQueue`: the files that there are go through the channel of locations.
  unfoldable pub resync :
      (ℕ → Bool)
      → (Bytes → ℕ)
      → (ℕ → ℕ)
      → (ℕ → ListClient)
      → (Bytes → Bytes)
      → Bytes
      → Bytes
      → ℕ
      → Listing
      → Option (List Bytes)
  resync timed_out flushed int63n clients compress hostname port fuel listing =
      sync_file_lists timed_out flushed int63n clients compress hostname port fuel
        (enumerate_files listing)
