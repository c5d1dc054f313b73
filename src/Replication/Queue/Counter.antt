-- ===== src/Replication/Queue/Counter.antt =====
-- The counter of unfinished jobs in every state that the goroutines reach.
use verm.Prelude.{
  ℕ, ◌+◌, ◌%◌, ◌^◌, ◌≤◌, ◌<◌, Bool, true, false, [], ◌∷◌, ◌++◌, length, length-append, ltb,
  if◌then◌else◌, ◌≡◌, refl, ap, arith,
}
use verm.Replication.Queue.{
  Target, Step, Reachable, start, next, new_file, replicated_file, missing_file, count, take_new,
  take_missing, pushed, finish, listed, request, resync, capacity, missing_queue_size,
  enqueue_new_file, enqueue_replicated_file, enqueue_resync, add_job, finish_job,
}

module _ (workers : ℕ) where
  -- What keeps the counter right, modulo 2^64, and the channels within their capacities.
  pub record IsSound (t : Target) : Type 0 where
    pub counted :
        (t.unfinished_jobs + t.uncounted) % 2 ^ 64
        ≡ (length t.new_files + length t.missing_files + length t.pushing + t.undone) % 2 ^ 64
    pub word : t.unfinished_jobs < 2 ^ 64
    pub new_fits : length t.new_files ≤ capacity workers
    pub replicated_fits : length t.replicated_files ≤ capacity workers
    pub missing_fits : length t.missing_files ≤ missing_queue_size

  step-IsSound : {t u : Target} → Step workers t u → IsSound t → IsSound u
  unfolding enqueue_new_file enqueue_replicated_file enqueue_resync add_job finish_job
  step-IsSound {t} (new_file location) sound =
      branch (ltb (length t.new_files) (capacity workers)) refl
    where
      branch :
          (b : Bool)
          → ltb (length t.new_files) (capacity workers) ≡ b
          → IsSound (
              if b
              then record t {
                new_files = t.new_files ++ location ∷ [];
                uncounted = t.uncounted + 1;
              }
              else enqueue_resync t)
      branch true e =
          let n = length-append t.new_files (location ∷ []) in
          record {
            counted = ground (arith, sound.counted, n);
            word = sound.word;
            new_fits = ground (arith, n, e);
            replicated_fits = sound.replicated_fits;
            missing_fits = sound.missing_fits;
          }
      branch false e = record {
        counted = sound.counted;
        word = sound.word;
        new_fits = sound.new_fits;
        replicated_fits = sound.replicated_fits;
        missing_fits = sound.missing_fits;
      }
  step-IsSound {t} (replicated_file location) sound =
      branch (ltb (length t.replicated_files) (capacity workers)) refl
    where
      branch :
          (b : Bool)
          → ltb (length t.replicated_files) (capacity workers) ≡ b
          → IsSound (
              if b
              then record t { replicated_files = t.replicated_files ++ location ∷ [] }
              else enqueue_resync t)
      branch true e =
          let n = length-append t.replicated_files (location ∷ []) in
          record {
            counted = sound.counted;
            word = sound.word;
            new_fits = sound.new_fits;
            replicated_fits = ground (arith, n, e);
            missing_fits = sound.missing_fits;
          }
      branch false e = record {
        counted = sound.counted;
        word = sound.word;
        new_fits = sound.new_fits;
        replicated_fits = sound.replicated_fits;
        missing_fits = sound.missing_fits;
      }
  step-IsSound {t} (missing_file location room) sound =
      let n = length-append t.missing_files (location ∷ []) in
      record {
        counted = omega (arith, sound.counted, n);
        word = sound.word;
        new_fits = sound.new_fits;
        replicated_fits = sound.replicated_fits;
        missing_fits = omega (arith, n);
      }
  step-IsSound {t} (count some_left) sound = record {
    counted = omega (arith, sound.counted, sound.word);
    word = omega arith;
    new_fits = sound.new_fits;
    replicated_fits = sound.replicated_fits;
    missing_fits = sound.missing_fits;
  }
  step-IsSound {t} (take_new location rest e) sound =
      let n = ap length e in
      record {
        counted = omega (arith, sound.counted, n);
        word = sound.word;
        new_fits = omega (arith, n, sound.new_fits);
        replicated_fits = sound.replicated_fits;
        missing_fits = sound.missing_fits;
      }
  step-IsSound {t} (take_missing location rest e) sound =
      let n = ap length e in
      record {
        counted = omega (arith, sound.counted, n);
        word = sound.word;
        new_fits = sound.new_fits;
        replicated_fits = sound.replicated_fits;
        missing_fits = omega (arith, n, sound.missing_fits);
      }
  step-IsSound {t} (pushed before location after e) sound =
      let n = ap length e in
      record {
        counted = omega (
          arith,
          sound.counted,
          n,
          length-append before (location ∷ after),
          length-append before after,
        );
        word = sound.word;
        new_fits = sound.new_fits;
        replicated_fits = sound.replicated_fits;
        missing_fits = sound.missing_fits;
      }
  step-IsSound {t} (finish some_left) sound = record {
    counted = omega (arith, sound.counted, sound.word);
    word = omega arith;
    new_fits = sound.new_fits;
    replicated_fits = sound.replicated_fits;
    missing_fits = sound.missing_fits;
  }
  step-IsSound {t} (listed location rest e) sound =
      let n = ap length e in
      record {
        counted = sound.counted;
        word = sound.word;
        new_fits = sound.new_fits;
        replicated_fits = omega (arith, n, sound.replicated_fits);
        missing_fits = sound.missing_fits;
      }
  step-IsSound request sound = record {
    counted = sound.counted;
    word = sound.word;
    new_fits = sound.new_fits;
    replicated_fits = sound.replicated_fits;
    missing_fits = sound.missing_fits;
  }
  step-IsSound (resync e) sound = record {
    counted = sound.counted;
    word = sound.word;
    new_fits = sound.new_fits;
    replicated_fits = sound.replicated_fits;
    missing_fits = sound.missing_fits;
  }

  -- In every reachable state the channels are within their capacities, and the counter, with the jobs
  -- that are queued and not yet counted, is the number of the jobs that wait, are sent, or are sent and
  -- not yet taken off, modulo 2^64.
  pub Reachable-IsSound : {t : Target} → Reachable workers t → IsSound t
  Reachable-IsSound start = record {
    counted = refl;
    word = omega arith;
    new_fits = omega arith;
    replicated_fits = omega arith;
    missing_fits = omega arith;
  }
  Reachable-IsSound (next r s) = step-IsSound s (Reachable-IsSound r)

  -- Where no goroutine is between a change of a channel and that of the counter, `queueLength` is the
  -- number of files that wait or are being sent.
  pub queue_length_exact :
      {t : Target}
      → Reachable workers t
      → t.uncounted ≡ 0
      → t.undone ≡ 0
      → length t.pushing < 2 ^ 63
      → t.unfinished_jobs ≡ length t.new_files + length t.missing_files + length t.pushing
  queue_length_exact {t} r settled_adds settled_ends few =
      let s = Reachable-IsSound r in omega (arith, s.counted, s.word, s.new_fits, s.missing_fits)
