-- ===== src/Replication/Queue.antt =====
-- replication_target.go: the queues of one target and the counter of its unfinished jobs, as a state
-- that the goroutines change in steps. A channel is the list of what waits in it.
pub mod Counter
pub mod Lossless
use verm.Prelude.{
  ℕ, zero, suc, ◌+◌, ◌-◌, ◌%◌, ◌^◌, ◌≤◌, ◌<◌, Bool, true, false, Option, none, some, List, [], ◌∷◌,
  ◌++◌, Bytes, length, length-append, ltb, if◌then◌else◌, ◌≡◌, ◌⊎◌, inl, inr, refl, sym, ap, ◌∙◌,
  arith, Bool-cases,
}

-- `ReplicationQueueSize` and `ReplicationMissingQueueSize`
abbrev pub queue_size : ℕ
queue_size = 1000000

abbrev pub missing_queue_size : ℕ
missing_queue_size = 10000

-- What the target has, and what its goroutines are doing: `uncounted` jobs are in a channel and not
-- yet added to the counter, `pushing` are with a worker, and `undone` workers have sent a file and not
-- yet taken it off the counter.
pub record Target : Type 0 where
  pub new_files : List Bytes
  pub replicated_files : List Bytes
  pub missing_files : List Bytes
  pub need_to_resync : Bool
  pub unfinished_jobs : ℕ
  pub uncounted : ℕ
  pub pushing : List Bytes
  pub undone : ℕ

abbrev pub started : Target
started = record {
  new_files = [];
  replicated_files = [];
  missing_files = [];
  need_to_resync = false;
  unfinished_jobs = 0;
  uncounted = 0;
  pushing = [];
  undone = 0;
}

-- `enqueueResync`: the channel holds one entry, and a second one is dropped.
unfoldable pub enqueue_resync : Target → Target
enqueue_resync t = record t { need_to_resync = true }

-- `atomic.AddUint64(&target.unfinishedJobs, 1)` and its counterpart with `^uint64(0)`
unfoldable pub add_job : Target → Target
add_job t = record t {
  unfinished_jobs = (t.unfinished_jobs + 1) % 2 ^ 64;
  uncounted = t.uncounted - 1;
}

unfoldable pub finish_job : Target → Target
finish_job t = record t {
  unfinished_jobs = (t.unfinished_jobs + (2 ^ 64 - 1)) % 2 ^ 64;
  undone = t.undone - 1;
}

-- `workers` is the number that `Start` is called with.
module _ (workers : ℕ) where
  -- the capacity of `newFiles` and of `replicatedFiles`
  abbrev pub capacity : ℕ
  capacity = queue_size - missing_queue_size - workers

  -- The `select` of `enqueueNewFile`; the counter is changed in a step of its own.
  unfoldable pub enqueue_new_file : Bytes → Target → Target
  enqueue_new_file location t =
      if ltb (length t.new_files) capacity
      then record t { new_files = t.new_files ++ location ∷ []; uncounted = t.uncounted + 1 }
      else enqueue_resync t

  -- `enqueueReplicatedFile`
  unfoldable pub enqueue_replicated_file : Bytes → Target → Target
  enqueue_replicated_file location t =
      if ltb (length t.replicated_files) capacity
      then record t { replicated_files = t.replicated_files ++ location ∷ [] }
      else enqueue_resync t

  -- One step of one goroutine.
  pub data Step : Target → Target → Type 0 where
    new_file : {t : Target} (location : Bytes) → Step t (enqueue_new_file location t)
    replicated_file : {t : Target} (location : Bytes) → Step t (enqueue_replicated_file location t)
    -- `target.missingFiles <- location` waits for room.
    missing_file :
        {t : Target} (location : Bytes)
        → length t.missing_files < missing_queue_size
        → Step t (record t {
          missing_files = t.missing_files ++ location ∷ [];
          uncounted = t.uncounted + 1;
        })
    count : {t : Target} → 1 ≤ t.uncounted → Step t (add_job t)
    -- a worker's `select` in `replicateFromQueue`
    take_new :
        {t : Target} (location : Bytes) (rest : List Bytes)
        → t.new_files ≡ location ∷ rest
        → Step t (record t { new_files = rest; pushing = location ∷ t.pushing })
    take_missing :
        {t : Target} (location : Bytes) (rest : List Bytes)
        → t.missing_files ≡ location ∷ rest
        → Step t (record t { missing_files = rest; pushing = location ∷ t.pushing })
    -- `replicateFile` returns.
    pushed :
        {t : Target} (before : List Bytes) (location : Bytes) (after : List Bytes)
        → t.pushing ≡ before ++ location ∷ after
        → Step t (record t { pushing = before ++ after; undone = t.undone + 1 })
    finish : {t : Target} → 1 ≤ t.undone → Step t (finish_job t)
    -- `sendFileLists` takes a location from its channel.
    listed :
        {t : Target} (location : Bytes) (rest : List Bytes)
        → t.replicated_files ≡ location ∷ rest
        → Step t (record t { replicated_files = rest })
    request : {t : Target} → Step t (enqueue_resync t)
    -- `range target.needToResync` receives.
    resync : {t : Target} → t.need_to_resync ≡ true → Step t (record t { need_to_resync = false })

  -- The states that the goroutines reach.
  pub data Reachable : Target → Type 0 where
    start : Reachable started
    next : {t u : Target} → Reachable t → Step t u → Reachable u
