-- ===== src/Upload/Failure.antt =====
-- What a failed upload leaves behind.
use verm.Prelude.{ℕ, false, some, [], ◌++◌, Bytes, ◌≡◌, refl}
use verm.Errors.{Error, err}
use verm.Storage.{Storage, file, add, find}
use verm.Storage.Laws.{find-add_self}
use verm.Host.{Host}
use verm.UrlPath.{clean}
use verm.Upload.{upload_file, after_open}
use verm.Upload.Types.{Request}
use verm.Upload.Opening.{or_default}
use verm.Upload.Opening.Leak.{IsUnknown, file_uploader_unknown}

module _ (h : Host) (types : Bytes → Bytes) (fuel : ℕ) (root : Bytes) (req : Request)
    (s : Storage) where
  abbrev temp : Bytes
  temp = h.temp_name (root ++ or_default (clean req.path)) s

  -- A POST with a Content-Encoding that is neither empty nor gzip is refused with an error once its
  -- temporary file is made, and this empty file is still in the store afterwards: it is not removed.
  pub upload_file_leaves_temp :
      IsUnknown h types root req req.content_encoding
      → h.mkdir_fails (root ++ or_default (clean req.path)) ≡ false
      → h.tempfile_fails (root ++ or_default (clean req.path)) ≡ false
      → (e : Error) × (s' : Storage) × (upload_file h types fuel root req false s
          ≡ some (err e, s', []))
        × (find temp s' ≡ some (file []))
  unfolding upload_file
  upload_file_leaves_temp u m t =
      let (e, q) = file_uploader_unknown h types root req s u m t in
      (e, add temp (file []) s, rw q (unfold after_open in refl), find-add_self temp (file []) s)
