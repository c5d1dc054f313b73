-- ===== src/Replication/Sending/Retried.antt =====
-- Each attempt sends the whole list, and the first answer ends the attempts.
use verm.Prelude.{
  ℕ, zero, suc, ◌+◌, ◌<◌, Option, none, some, List, Bytes, drop_zero, ◌≡◌, refl, ap, ◌∙◌, arith,
}
use verm.Stream.{Gunzip}
use verm.Replication.Backoff.{backoff_time}
use verm.Replication.Push.{delays}
use verm.Replication.Sending.{
  ListClient, list_request, ByteReader, unread, rewind, answered, send_file_list, slept_before,
  attempts_loop, send_until_successful,
}

module _ (limit : ℕ) (gunzip : Gunzip) (int63n : ℕ → ℕ) (client : ListClient)
    (hostname port list : Bytes) where
  -- What an attempt to send the whole list comes to.
  abbrev pub attempt_result : ℕ → Option (List Bytes)
  attempt_result n = answered limit gunzip (client n (list_request hostname port list)).0

  -- An attempt sends the whole list, wherever the reader stands, and leaves the list as it is.
  send_file_list_lem :
      (n : ℕ) (input : ByteReader)
      → input.contents ≡ list
      → ((send_file_list limit gunzip client hostname port n (rewind input)).0 ≡ attempt_result n)
        × ((send_file_list limit gunzip client hostname port n (rewind input)).1.contents ≡ list)
  unfolding send_file_list rewind unread
  send_file_list_lem n input e = (
    ap (λ s. answered limit gunzip (client n (list_request hostname port s)).0)
        (drop_zero input.contents ∙ e),
    e,
  )

  attempts_loop_lem :
      (k fuel n : ℕ) (input : ByteReader) (ls : List Bytes)
      → input.contents ≡ list
      → ((i : ℕ) → i < k → attempt_result (n + i) ≡ none)
      → attempt_result (n + k) ≡ some ls
      → k < fuel
      → attempts_loop limit gunzip int63n client hostname port fuel n input
        ≡ some (record { slept = delays int63n n k; queued = ls })
  unfolding attempts_loop delays slept_before
  attempts_loop_lem k zero n input ls whole fails works enough = absurd (omega arith)
  attempts_loop_lem zero (suc fuel) n input ls whole fails works enough =
      let w : attempt_result n ≡ some ls = ap attempt_result (omega arith) ∙ works in
      rw (attempts_loop, (send_file_list_lem n input whole).0, w) refl
  attempts_loop_lem (suc k) (suc fuel) n input ls whole fails works enough =
      let f : attempt_result n ≡ none = ap attempt_result (omega arith) ∙ fails 0 (omega arith) in
      let (sent, kept) = send_file_list_lem n input whole in
      let rest =
        attempts_loop_lem k fuel (n + 1)
          (send_file_list limit gunzip client hostname port n (rewind input)).1 ls kept
          (λ i lt. ap attempt_result (omega arith) ∙ fails (i + 1) (omega (arith, lt)))
          (ap attempt_result (omega arith) ∙ works) (omega (arith, enough)) in
      rw (attempts_loop, sent, f) (ap (slept_before limit gunzip (backoff_time int63n n)) rest)

  -- If the first `k` attempts fail and the next one is answered, more than `k` rounds are enough: the
  -- delays are those for 1 to `k` failures, and the answer is that to the whole list, however much of
  -- it the attempts before have read.
  pub send_until_successful_ends :
      (k fuel : ℕ) (ls : List Bytes)
      → ((i : ℕ) → i < k → attempt_result (1 + i) ≡ none)
      → attempt_result (1 + k) ≡ some ls
      → k < fuel
      → send_until_successful limit gunzip int63n client hostname port fuel list
        ≡ some (record { slept = delays int63n 1 k; queued = ls })
  unfolding send_until_successful
  send_until_successful_ends k fuel ls fails works enough =
      attempts_loop_lem k fuel 1 (record { contents = list; position = 0 }) ls refl fails works
        enough
