-- ===== src/Replication/Batches.antt =====
-- `sendFileLists` of replication_resync.go: the locations are sent in batches, each a list of lines.
pub mod Whole
use verm.Prelude.{
  ℕ, zero, suc, ◌+◌, Bool, Option, none, some, List, [], ◌∷◌, ◌++◌, Bytes, bytes_eq, length, ltb,
  if◌then◌else◌,
}

-- `ReplicationMissingFilesBatchSize`
abbrev pub batch_size : ℕ
batch_size = 262144

-- The text that the compressor has been given, with one more location.
unfoldable pub written : Bytes → Bytes → Bytes
written text location = text ++ (location ++ 13 ∷ 10 ∷ [])

unfoldable pub cons_option : Bytes → Option (List Bytes) → Option (List Bytes)
cons_option text none = none
cons_option text (some texts) = some (text ∷ texts)

-- `timed_out n` says whether the timer wins the n-th `select`, and `flushed text` is `buf.Len()` once
-- `text` has been written to a new compressor.
module _ (timed_out : ℕ → Bool) (flushed : Bytes → ℕ) where
  -- One round of the inner loop, before the n-th `select`: the text of the batch if it ends here, with
  -- the number of selects, or none if the next location is received.
  unfoldable pub round : Bytes → Bytes → ℕ → Option (Bytes × ℕ)
  round text location n =
      if bytes_eq location []
      then some (text, n)
      else if ltb batch_size (flushed (written text location))
      then some (written text location, n)
      else if timed_out n
      then some (written text location, n + 1)
      else none

  -- The inner loop: the text of the batch, the locations that are left, and the number of selects. A
  -- channel that is closed and empty yields the empty location, which ends the loop.
  unfoldable pub collect : List Bytes → Bytes → Bytes → ℕ → Bytes × List Bytes × ℕ
  collect [] text location n = elim (round text location n) [
    | some (t, k) ↦ (t, [], k)
    | none ↦ (written text location, [], n + 1)
  ]
  collect (l ∷ locations) text location n = elim (round text location n) [
    | some (t, k) ↦ (t, l ∷ locations, k)
    | none ↦ collect locations (written text location) l (n + 1)
  ]

  -- The outer loop; none says that the fuel ran out.
  unfoldable pub send_loop : ℕ → List Bytes → ℕ → Option (List Bytes)
  send_loop zero locations n = none
  send_loop (suc fuel) [] n = some []
  send_loop (suc fuel) (l ∷ locations) n =
      let (text, rest, k) = collect locations [] l n in
      let behind = send_loop fuel rest k in
      if bytes_eq l [] then some [] else cons_option text behind

  -- `sendFileLists`, for the locations that are put into the channel before it is closed: what is
  -- compressed and sent, in order.
  unfoldable pub send_file_lists : List Bytes → Option (List Bytes)
  send_file_lists locations = send_loop (suc (length locations)) locations 0
