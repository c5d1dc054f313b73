-- ===== src/Upload/Finish/Inversion.antt =====
-- What a result of `Finish` says of the steps that made it.
use verm.Prelude.{
  ℕ, Bool, true, false, Option, none, some, List, [], ◌∷◌, ◌++◌, Bytes, ◌≡◌, inl, inr, refl, ap,
  ◌∙◌, Bool-cases, if◌then◌else◌, arith, some_inj,
}
use verm.Errors.{Result, ok, err, mkdir_failed}
use verm.Storage.{Storage, remove}
use verm.Host.{Host}
use verm.Upload.HashName.{encode_hash}
use verm.Upload.Types.{FileUpload, Job}
use verm.Upload.Finish.{
  attempt_loop, first_location, job_of, conclude, concluded, place, finish_at, finish,
}

module _ (h : Host) (fuel : ℕ) (up : FileUpload) (s : Storage) where
  -- The run of a successful `Finish`: the name of the content, the first location, and the loop.
  pub record Run (location : Bytes) (new : Bool) (s' : Storage) (jobs : List Job) : Type 0 where
    pub dir : Bytes
    pub dst : Bytes
    pub first : Bytes
    pub after : Storage
    pub named : encode_hash (h.sha256 up.input.bytes) ≡ some (dir, dst)
    pub located : first_location h up (up.path ++ (dir ++ dst)) ≡ ok first
    pub looped :
        attempt_loop h up (up.path ++ (dir ++ dst)) fuel 1 first s
        ≡ some (ok (location, new), after)
    pub files : s' ≡ remove up.temp_name after
    pub queued : jobs ≡ (if new then job_of h up location ∷ [] else [])

  module _ (l : Bytes) (new : Bool) (s' : Storage) (jobs : List Job) where
    conclude_ok :
        (r : Result (Bytes × Bool)) (t : Storage)
        → conclude h up r t ≡ (ok (l, new), s', jobs)
        → (r ≡ ok (l, new))
          × (s' ≡ remove up.temp_name t)
          × (jobs ≡ (if new then job_of h up l ∷ [] else []))
    unfolding conclude
    conclude_ok (err e) t q = ground arith
    conclude_ok (ok (k, true)) t q = ground arith
    conclude_ok (ok (k, false)) t q = ground arith

    place_ok :
        (dir dst : Bytes)
        → encode_hash (h.sha256 up.input.bytes) ≡ some (dir, dst)
        → (r : Result Bytes) → first_location h up (up.path ++ (dir ++ dst)) ≡ r
        → place h fuel up (up.path ++ (dir ++ dst)) s r ≡ some (ok (l, new), s', jobs)
        → Run l new s' jobs
    unfolding place concluded
    place_ok dir dst named (err e) located q = ground arith
    place_ok dir dst named (ok first) located q =
        go (attempt_loop h up (up.path ++ (dir ++ dst)) fuel 1 first s) refl q
      where
        go :
            (o : Option (Result (Bytes × Bool) × Storage))
            → attempt_loop h up (up.path ++ (dir ++ dst)) fuel 1 first s ≡ o
            → concluded h up o ≡ some (ok (l, new), s', jobs)
            → Run l new s' jobs
        go none looped q = cc
        go (some (r, t)) looped q =
            let (e, files, queued) = conclude_ok r t (some_inj q) in
            record {
              dir = dir;
              dst = dst;
              first = first;
              after = t;
              named = named;
              located = located;
              looped = looped ∙ ap (λ x. some (x, t)) e;
              files = files;
              queued = queued;
            }

    finish_at_ok :
        (o : Option (Bytes × Bytes))
        → encode_hash (h.sha256 up.input.bytes) ≡ o
        → finish_at h fuel up s o ≡ some (ok (l, new), s', jobs)
        → Run l new s' jobs
    unfolding finish_at
    finish_at_ok none named q = cc
    finish_at_ok (some (dir, dst)) named q =
        elim (Bool-cases (h.mkdir_fails (up.root ++ (up.path ++ dir)))) [
          | inl e ↦ failure (rw e at q)
          | inr e ↦ place_ok dir dst named _ refl (rw e at q)
        ]
      where
        failure :
            ◌≡◌ {A = Option (Result (Bytes × Bool) × Storage × List Job)}
              (some (err mkdir_failed, s, []))
              (some (ok (l, new), s', jobs))
            → Run l new s' jobs
        failure q = ground arith

    pub finish_ok : finish h fuel up s ≡ some (ok (l, new), s', jobs) → Run l new s' jobs
    unfolding finish
    finish_ok q = finish_at_ok _ refl q
