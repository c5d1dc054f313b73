-- ===== src/Upload.antt =====
-- file_uploader.go: how an upload becomes a file of the store. `FileUploader` opens the upload
-- (Opening), `Finish` links it into place (Finish), `UploadFile` composes them.
pub mod HashName
pub mod Types
pub mod Finish
pub mod Opening
pub mod WriteOnce
pub mod Success
pub mod Failure
pub mod Integrity
pub mod Total
pub mod Samples
pub mod Examples
pub mod ContentAddressed
pub mod Raw
pub mod Packed
pub mod Location
use verm.Prelude.{ℕ, Bool, true, false, Option, none, some, List, [], Bytes, if◌then◌else◌}
use verm.Errors.{Result, ok, err, read_failed, write_failed}
use verm.Storage.{Storage, file, add, remove}
use verm.Host.{Host}
use verm.Upload.Types.{FileUpload, Request, Job}
use verm.Upload.Finish.{finish}
use verm.Upload.Opening.{file_uploader}

-- `Close` is deferred, on every path behind `FileUploader`.
close :
    FileUpload
    → Option (Result (Bytes × Bool) × Storage × List Job)
    → Option (Result (Bytes × Bool) × Storage × List Job)
close up none = none
close up (some (r, s, jobs)) = some (r, remove up.temp_name s, jobs)

module _ (h : Host) (extension_by_type : Bytes → Bytes) where
  -- `io.Copy` reads the input to its end, and the `io.TeeReader` fills the temporary file; a read or a
  -- write that fails ends it with an error.
  copy_and_finish : ℕ → FileUpload → Storage → Option (Result (Bytes × Bool) × Storage × List Job)
  copy_and_finish fuel up s =
      if up.input.fails
      then some (err read_failed, s, [])
      else if h.write_fails up.temp_name
      then some (err write_failed, s, [])
      else finish h fuel up (add up.temp_name (file up.content) (remove up.temp_name s))

  pub after_open :
      ℕ → Result FileUpload → Storage → Option (Result (Bytes × Bool) × Storage × List Job)
  after_open fuel (err e) s = some (err e, s, [])
  after_open fuel (ok up) s = close up (copy_and_finish fuel up s)

  -- `UploadFile`: the location and whether the file is new, or an error; the files; and the calls of
  -- `EnqueueFile`. `none` is a panic or the end of the fuel; `Upload.Total` shows when neither is met.
  unfoldable pub upload_file :
      ℕ → Bytes → Request → Bool → Storage → Option (Result (Bytes × Bool) × Storage × List Job)
  upload_file fuel root req replicating s =
      let (opened, s') = file_uploader h extension_by_type root req replicating s in
      after_open fuel opened s'
