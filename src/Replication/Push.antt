-- ===== src/Replication/Push.antt =====
-- replication_jobs.go, and `replicateFile` of replication_target.go: a file is sent to a target until
-- the target has taken it.
use verm.Prelude.{
  ℕ, zero, suc, ◌+◌, ◌<◌, Bool, true, false, Option, none, some, List, [], ◌∷◌, ◌++◌, Bytes, codes,
  ◌==◌, if◌then◌else◌, ◌≡◌, refl, ap, ◌∙◌, arith,
}
use verm.Prelude.Int.{ℤ}
use verm.Storage.{Storage, Node, file, directory, closed, find}
use verm.Stream.{Stream, whole}
use verm.Replication.Backoff.{backoff_time}

-- `os.Open`; a directory can be opened, and reading it fails.
unfoldable pub opened_node : Node → Option Stream
opened_node (file b) = some (whole b)
opened_node directory = some (record { bytes = []; fails = true })
opened_node closed = none

unfoldable pub open_file : Storage → Bytes → Option Stream
open_file s path = elim (find path s) [ none ↦ none | some n ↦ opened_node n ]

-- The two attempts of `Put` to open the file, with the encoding of what is opened.
unfoldable pub choose_opened : Option Stream → Option Stream → Option (Bytes × Stream)
choose_opened (some input) raw = some (codes "gzip", input)
choose_opened none (some input) = some ([], input)
choose_opened none none = none

unfoldable pub open_location : Storage → Bytes → Bytes → Option (Bytes × Stream)
open_location s root location =
    choose_opened (open_file s (root ++ (location ++ codes ".gz"))) (open_file s (root ++ location))

-- The request that `Put` makes; no `Content-Encoding` is added if it is empty.
pub record PutRequest : Type 0 where
  pub url : Bytes
  pub content_type : Bytes
  pub content_encoding : Bytes
  pub body : Stream

unfoldable pub put_request : Bytes → Bytes → Bytes → Bytes × Stream → PutRequest
put_request hostname port location (encoding, input) = record {
  url = codes "http://" ++ (hostname ++ (codes ":" ++ (port ++ location)));
  content_type = codes "application/octet-stream";
  content_encoding = encoding;
  body = input;
}

-- `Put`; `client` gives the status of the response, or none for an error.
unfoldable pub put : (PutRequest → Option ℕ) → Storage → Bytes → Bytes → Bytes → Bytes → Bool
unfolding open_location put_request
put client s root hostname port location = elim (open_location s root location) [
  | none ↦ false
  | some opened ↦ elim (client (put_request hostname port location opened)) [
    | none ↦ false
    | some status ↦ status == 201
  ]
]

-- What `replicateFile` has done when it ends: the two counters, and how long it slept each time.
pub record Pushed : Type 0 where
  pub push_attempts : ℕ
  pub push_attempts_failed : ℕ
  pub slept : List ℤ

-- The loop of `replicateFile` from attempt `n` on; `attempt n` is the outcome of the n-th call of `Put`.
unfoldable pub push_loop : (ℕ → ℕ) → (ℕ → Bool) → ℕ → ℕ → Option Pushed
push_loop int63n attempt zero n = none
push_loop int63n attempt (suc fuel) n =
    let rest = push_loop int63n attempt fuel (n + 1) in
    if attempt n
    then some (record { push_attempts = 1; push_attempts_failed = 0; slept = [] })
    else elim rest [
      | none ↦ none
      | some p ↦ some (record {
        push_attempts = p.push_attempts + 1;
        push_attempts_failed = p.push_attempts_failed + 1;
        slept = backoff_time int63n n ∷ p.slept;
      })
    ]

unfoldable pub replicate_file : (ℕ → ℕ) → (ℕ → Bool) → ℕ → Option Pushed
replicate_file int63n attempt fuel = push_loop int63n attempt fuel 1

-- The delays after the attempts from `n` on, `k` of them.
unfoldable pub delays : (ℕ → ℕ) → ℕ → ℕ → List ℤ
delays int63n n zero = []
delays int63n n (suc k) = backoff_time int63n n ∷ delays int63n (n + 1) k

push_loop_lem :
    (int63n : ℕ → ℕ) (attempt : ℕ → Bool) (k n fuel : ℕ)
    → ((i : ℕ) → i < k → attempt (n + i) ≡ false)
    → attempt (n + k) ≡ true
    → k < fuel
    → push_loop int63n attempt fuel n
      ≡ some (record { push_attempts = k + 1; push_attempts_failed = k; slept = delays int63n n k })
unfolding push_loop delays
push_loop_lem int63n attempt k n zero fails works enough = absurd (omega arith)
push_loop_lem int63n attempt zero n (suc fuel) fails works enough =
    let w : attempt n ≡ true = ap attempt (omega arith) ∙ works in rw w refl
push_loop_lem int63n attempt (suc k) n (suc fuel) fails works enough =
    let f : attempt n ≡ false = ap attempt (omega arith) ∙ fails 0 (omega arith) in
    let rest =
      push_loop_lem int63n attempt k (n + 1) fuel
        (λ i lt. ap attempt (omega arith) ∙ fails (i + 1) (omega (arith, lt)))
        (ap attempt (omega arith) ∙ works) (omega (arith, enough)) in
    let next : k + 1 ≡ suc k = omega arith in
    rw (f, rest)
      (ap
        (λ (j : ℕ). some (record {
          push_attempts = j + 1;
          push_attempts_failed = j;
          slept = backoff_time int63n n ∷ delays int63n (n + 1) k;
        }))
        next)

-- If the first `k` attempts fail and the next one succeeds, then more than `k` rounds are enough; all
-- of these attempts and failures are counted, and each failure but the last attempt is followed by its
-- delay.
pub replicate_file_ends :
    (int63n : ℕ → ℕ) (attempt : ℕ → Bool) (k fuel : ℕ)
    → ((i : ℕ) → i < k → attempt (1 + i) ≡ false)
    → attempt (1 + k) ≡ true
    → k < fuel
    → replicate_file int63n attempt fuel
      ≡ some (record { push_attempts = k + 1; push_attempts_failed = k; slept = delays int63n 1 k })
unfolding replicate_file
replicate_file_ends int63n attempt k fuel fails works enough =
    push_loop_lem int63n attempt k 1 fuel fails works enough
