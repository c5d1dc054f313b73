-- ===== src/Replication/Queue/Lossless.antt =====
-- No location that a queue has accepted is lost before it is sent.
use verm.Prelude.{
  ℕ, suc, ◌+◌, ◌≤◌, true, List, [], ◌∷◌, ◌++◌, Bytes, bytes_eq, bytes_eq_refl, length, ltb,
  if◌then◌else◌, ◌≡◌, ◌⊎◌, inl, inr, refl, ap, arith, Bool-cases,
}
use verm.Replication.Queue.{
  Target, Step, new_file, replicated_file, missing_file, count, take_new, take_missing, pushed,
  finish, listed, request, resync, capacity, enqueue_new_file, enqueue_replicated_file,
  enqueue_resync, add_job, finish_job,
}

unfoldable pub occurrences : Bytes → List Bytes → ℕ
occurrences l [] = 0
occurrences l (m ∷ ms) = if bytes_eq l m then suc (occurrences l ms) else occurrences l ms

occurrences-append :
    (l : Bytes) (xs ys : List Bytes)
    → occurrences l (xs ++ ys) ≡ occurrences l xs + occurrences l ys
unfolding occurrences
occurrences-append l [] ys = omega arith
occurrences-append l (x ∷ xs) ys = ground (arith, occurrences-append l xs ys)

-- How often a location waits to be sent, or is being sent.
unfoldable pub outstanding : Bytes → Target → ℕ
unfolding occurrences
outstanding l t =
    occurrences l t.new_files + occurrences l t.missing_files + occurrences l t.pushing

-- The location that a step has sent.
abbrev sent_by : {workers : ℕ} {t u : Target} → Step workers t u → List Bytes
sent_by (pushed before location after e) = location ∷ []
sent_by _ = []

-- A run of the goroutines, and the locations that it sends.
pub data Run (workers : ℕ) : Target → Target → List Bytes → Type 0 where
  stop : {t : Target} → Run workers t t []
  step :
      {t u v : Target} {sent : List Bytes} (s : Step workers t u)
      → Run workers u v sent
      → Run workers t v (sent_by s ++ sent)

module _ (workers : ℕ) (l : Bytes) where
  step_keeps :
      {t u : Target} (s : Step workers t u)
      → outstanding l t ≤ outstanding l u + occurrences l (sent_by s)
  unfolding outstanding enqueue_new_file enqueue_replicated_file enqueue_resync add_job finish_job
  step_keeps {t} (new_file location) =
      ground (arith, occurrences-append l t.new_files (location ∷ []))
  step_keeps {t} (replicated_file location) = ground arith
  step_keeps {t} (missing_file location room) =
      omega (arith, occurrences-append l t.missing_files (location ∷ []))
  step_keeps (count some_left) = omega arith
  step_keeps {t} (take_new location rest e) = ground (arith, ap (occurrences l) e)
  step_keeps {t} (take_missing location rest e) = ground (arith, ap (occurrences l) e)
  step_keeps {t} (pushed before location after e) = ground (
    arith,
    ap (occurrences l) e,
    occurrences-append l before (location ∷ after),
    occurrences-append l before after,
  )
  step_keeps (finish some_left) = omega arith
  step_keeps (listed location rest e) = omega arith
  step_keeps request = omega arith
  step_keeps (resync e) = omega arith

  Run-keeps :
      {t u : Target} {sent : List Bytes}
      → Run workers t u sent
      → outstanding l t ≤ outstanding l u + occurrences l sent
  Run-keeps stop = omega arith
  Run-keeps (step s r) =
      omega (arith, step_keeps s, Run-keeps r, occurrences-append l (sent_by s) _)

  accepted :
      (t : Target)
      → (1 ≤ outstanding l (enqueue_new_file workers l t))
        ⊎ ((enqueue_new_file workers l t).need_to_resync ≡ true)
  unfolding enqueue_new_file enqueue_resync outstanding occurrences
  accepted t = elim (Bool-cases (ltb (length t.new_files) (capacity workers))) [
    | inl e ↦ inl (rw e (omega (arith, occurrences-append l t.new_files (l ∷ []), own)))
    | inr e ↦ inr (rw e refl)
  ]
    where
      own : occurrences l (l ∷ []) ≡ 1
      own = rw (bytes_eq_refl l) refl

  -- A file that is enqueued as new is still waiting, being sent or sent at the end of every run, or a
  -- resync was requested when it was enqueued.
  pub enqueue_new_file-lossless :
      (t : Target) {u : Target} {sent : List Bytes}
      → Run workers (enqueue_new_file workers l t) u sent
      → (1 ≤ outstanding l u + occurrences l sent)
        ⊎ ((enqueue_new_file workers l t).need_to_resync ≡ true)
  enqueue_new_file-lossless t r = elim (accepted t) [
    | inl e ↦ inl (omega (arith, e, Run-keeps r))
    | inr e ↦ inr e
  ]
