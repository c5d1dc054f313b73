-- ===== src/Upload/Total.antt =====
-- `UploadFile` returns: it neither panics nor loops for ever.
use verm.Prelude.{
  ℕ, ◌+◌, ◌≤◌, ◌<◌, Bool, true, false, Option, none, some, [], ◌++◌, Bytes, ◌≡◌, refl, arith,
  length, Bool-cases, inl, inr, if◌then◌else◌,
}
use verm.Errors.{Result, ok, err, read_failed, write_failed}
use verm.Storage.{Storage, file, find, add, remove}
use verm.Host.{Host, IsHost}
use verm.UrlPath.{clean}
use verm.Upload.{close, copy_and_finish, after_open, upload_file}
use verm.Upload.HashName.Shape.{encode_hash-IsHashName}
use verm.Upload.Types.{FileUpload, Request}
use verm.Upload.Finish.{concluded, place, finish_at, finish}
use verm.Upload.Finish.Within.{Reply}
use verm.Upload.Finish.Total.{attempt_loop_total, length-remove-le}
use verm.Upload.Opening.{split_location, or_default, make_temp, open_at, file_uploader}

-- No other process adds a file while the upload runs.
abbrev pub IsAlone : Host → Type 0
IsAlone h = (p : Bytes) (n : ℕ) (s : Storage) → find p s ≡ none → find p (h.interfere n s) ≡ none

abbrev pub Replies : Option Reply → Type 0
Replies o = (r : Reply) × (o ≡ some r)

module _ {h : Host} (w : IsHost h) (alone : IsAlone h) (fuel : ℕ) where
  module _ (up : FileUpload) (s : Storage) (enough : length s + 1 < fuel) where
    place_total : (stem : Bytes) (r : Result Bytes) → Replies (place h fuel up stem s r)
    unfolding place
    place_total stem (err e) = (_, refl)
    place_total stem (ok l) =
        let (r, t, e) = attempt_loop_total h up stem (λ k. alone _) fuel 1 l s enough in
        rw e (unfold concluded in (_, refl))

    -- `Finish` returns if it has more rounds than there are files.
    finish_total : Replies (finish h fuel up s)
    unfolding finish finish_at
    finish_total =
        let (dir, dst, e, _) =
          encode_hash-IsHashName (h.sha256 up.input.bytes) (w.sha256_length _) (w.sha256_bytes _) in
        rw e (elim (Bool-cases (h.mkdir_fails (up.root ++ (up.path ++ dir)))) [
          | inl m ↦ rw m (_, refl)
          | inr m ↦ rw m (place_total _ _)
        ])

  module _ (up : FileUpload) (u : Storage) (enough : length u + 2 < fuel) where
    abbrev written : Storage
    written = add up.temp_name (file up.content) (remove up.temp_name u)

    length-written : length written + 1 < fuel
    unfolding add
    length-written = omega (arith, length-remove-le up.temp_name u)

    close_total : (o : Option Reply) → Replies o → Replies (close up o)
    close_total none (r, e) = cc
    close_total (some (r, v, js)) _ = unfold close in (_, refl)

    branch_total :
        (b c : Bool)
        → Replies (
            close up (
              if b
              then some (err read_failed, u, [])
              else if c
              then some (err write_failed, u, [])
              else finish h fuel up written))
    branch_total true c = close_total _ (_, refl)
    branch_total false true = close_total _ (_, refl)
    branch_total false false = close_total _ (finish_total up written length-written)

    copied_total : (types : Bytes → Bytes) → Replies (close up (copy_and_finish h types fuel up u))
    unfolding copy_and_finish
    copied_total types = branch_total up.input.fails (h.write_fails up.temp_name)

  module _ (types : Bytes → Bytes) (root : Bytes) (req : Request) (rep : Bool) (s : Storage) where
    length-make_temp :
        (path l : Bytes) → length (make_temp h types root req rep path l s).1 ≤ length s + 1
    unfolding make_temp add
    length-make_temp path l = ground arith

    length-open_at :
        (r : Result (Bytes × Bytes)) → length (open_at h types root req rep s r).1 ≤ length s + 1
    unfolding open_at
    length-open_at (err e) = omega arith
    length-open_at (ok (l, path)) = length-make_temp (or_default path) l

    after_open_total :
        (r : Result FileUpload) (u : Storage)
        → length u + 2 < fuel
        → Replies (after_open h types fuel r u)
    unfolding after_open
    after_open_total (err e) u lt = (_, refl)
    after_open_total (ok up) u lt = copied_total up u lt types

    -- While no other process adds a file, an upload of any kind returns a result, and does so within
    -- as many attempts as there are files, and four more: no index is out of range, and the loop
    -- over the attempts ends.
    pub upload_file_total :
        length s + 3 < fuel → (r : Reply) × (upload_file h types fuel root req rep s ≡ some r)
    unfolding upload_file file_uploader
    upload_file_total lt =
        after_open_total (file_uploader h types root req rep s).0
          (file_uploader h types root req rep s).1
          (omega (arith, length-open_at (split_location rep (clean req.path))))
