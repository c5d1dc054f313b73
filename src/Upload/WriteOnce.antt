-- ===== src/Upload/WriteOnce.antt =====
-- The store is write-once: an upload changes or deletes no file, whether it succeeds or fails.
use verm.Prelude.{
  ℕ, Bool, true, false, Option, none, some, List, [], ◌++◌, Bytes, ◌≡◌, refl, ap, subst, Bool-cases,
  inl, inr, if◌then◌else◌, bytes_eq, bytes_eq_iff,
}
use verm.Errors.{Result, ok, err, read_failed, write_failed}
use verm.Storage.{Node, Storage, file, find, add, remove, Keeps}
use verm.Storage.Laws.{Keeps-add, Keeps-refl, find-remove, find-add}
use verm.Host.{Host, IsHost}
use verm.Upload.{close, copy_and_finish, after_open, upload_file}
use verm.Upload.Types.{FileUpload, Request, Job}
use verm.Upload.Finish.{finish}
use verm.Upload.Finish.Within.{KeepsBut, KeepsBut-remove, Within, Reply, finish-Within}
use verm.Upload.Opening.{split_location, make_temp, open_at, file_uploader}
use verm.Upload.Opening.Opened.{IsOpened, file_uploader_ok}
use verm.UrlPath.{clean}

KeepsBut-trans : (t : Bytes) (s u v : Storage) → KeepsBut t s u → KeepsBut t u v → KeepsBut t s v
KeepsBut-trans t s u v f g p n ne e = g p n ne (f p n ne e)

-- A temporary file whose name was free is no file that was there.
Keeps-of_KeepsBut : (t : Bytes) (s u : Storage) → find t s ≡ none → KeepsBut t s u → Keeps s u
Keeps-of_KeepsBut t s u free k p n e = elim (Bool-cases (bytes_eq t p)) [
  | inl same ↦ cc (ap (λ x. find x s) ((bytes_eq_iff t p).0 same))
  | inr other ↦ k p n other e
]

KeepsBut-write : (t : Bytes) (n : Node) (s : Storage) → KeepsBut t s (add t n (remove t s))
KeepsBut-write t n s p m ne e = rw (find-add, ne, find-remove, ne) e

module _ {h : Host} (w : IsHost h) where
  copy_and_finish-Within :
      (types : Bytes → Bytes) (fuel : ℕ) (up : FileUpload) (s : Storage)
      → Within up.temp_name s (close up (copy_and_finish h types fuel up s))
  unfolding copy_and_finish
  copy_and_finish-Within types fuel up s = branch up.input.fails (h.write_fails up.temp_name)
    where
      written : Storage
      written = add up.temp_name (file up.content) (remove up.temp_name s)

      go : (o : Option Reply) → Within up.temp_name written o → Within up.temp_name s (close up o)
      go none k = unfold close in tt
      go (some (r, u, jobs)) k =
          unfold close in
          KeepsBut-remove up.temp_name s u
            (KeepsBut-trans up.temp_name s written u (KeepsBut-write up.temp_name _ s) k)

      branch :
          (b c : Bool)
          → Within up.temp_name s (
              close up (
                if b
                then some (err read_failed, s, [])
                else if c
                then some (err write_failed, s, [])
                else finish h fuel up written))
      branch true c = unfold close in KeepsBut-remove up.temp_name s s (λ p n ne q. q)
      branch false true = unfold close in KeepsBut-remove up.temp_name s s (λ p n ne q. q)
      branch false false = go (finish h fuel up written) (finish-Within w fuel up written)

  make_temp-Keeps :
      (root : Bytes) (types : Bytes → Bytes) (req : Request) (rep : Bool) (path l : Bytes)
      (s : Storage)
      → Keeps s (make_temp h types root req rep path l s).1
  unfolding make_temp
  make_temp-Keeps root types req rep path l s = elim (Bool-cases (h.mkdir_fails (root ++ path))) [
    | inl e ↦ rw e (Keeps-refl s)
    | inr e ↦ elim (Bool-cases (h.tempfile_fails (root ++ path))) [
      | inl f ↦ rw (e, f) (Keeps-refl s)
      | inr f ↦ rw (e, f) (Keeps-add _ (file []) s (w.temp_free (root ++ path) s))
    ]
  ]

  -- `FileUploader` at most adds its temporary file.
  file_uploader-Keeps :
      (types : Bytes → Bytes) (root : Bytes) (req : Request) (rep : Bool) (s : Storage)
      → Keeps s (file_uploader h types root req rep s).1
  unfolding file_uploader
  file_uploader-Keeps types root req rep s = go (split_location rep (clean req.path))
    where
      go : (r : Result (Bytes × Bytes)) → Keeps s (open_at h types root req rep s r).1
      go (err e) = unfold open_at in Keeps-refl s
      go (ok (l, path)) = unfold open_at in make_temp-Keeps root types req rep _ l s

  module _ (types : Bytes → Bytes) (fuel : ℕ) (root : Bytes) (req : Request) (rep : Bool)
      (s : Storage) where
    abbrev Kept : Option Reply → Type 0
    Kept none = Unit
    Kept (some (r, u, jobs)) = Keeps s u

    after_open-Kept :
        (r : Result FileUpload) (u : Storage)
        → file_uploader h types root req rep s ≡ (r, u)
        → Keeps s u
        → Kept (after_open h types fuel r u)
    unfolding after_open
    after_open-Kept (err e) u q k = k
    after_open-Kept (ok up) u q k =
        go (close up (copy_and_finish h types fuel up u)) (copy_and_finish-Within types fuel up u)
      where
        opened : IsOpened h types root req rep s up u
        opened = file_uploader_ok h types root req rep s up u q

        free : find up.temp_name s ≡ none
        free = rw opened.input.temp_eq (w.temp_free _ s)

        go : (o : Option Reply) → Within up.temp_name u o → Kept o
        go none i = tt
        go (some (r, v, jobs)) i =
            Keeps-of_KeepsBut up.temp_name s v free (λ p n ne e. i p n ne (k p n e))

    -- Whatever an upload returns, and whatever other processes add meanwhile, every file that the
    -- store held before is there afterwards with the same bytes.
    pub upload_file-Keeps :
        (r : Result (Bytes × Bool)) (s' : Storage) (jobs : List Job)
        → upload_file h types fuel root req rep s ≡ some (r, s', jobs)
        → Keeps s s'
    unfolding upload_file
    upload_file-Keeps r s' jobs e = subst Kept e (
        after_open-Kept (file_uploader h types root req rep s).0
          (file_uploader h types root req rep s).1 refl (file_uploader-Keeps types root req rep s))
