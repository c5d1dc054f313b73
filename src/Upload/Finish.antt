-- ===== src/Upload/Finish.antt =====
-- `Finish` of file_uploader.go: the content gets its name, and is linked into place.
pub mod Inversion
pub mod WriteOnce
pub mod Within
pub mod Stored
pub mod Total
use verm.Prelude.{
  ℕ, zero, suc, ◌+◌, ◌-◌, Bool, true, false, not, ◌||◌, ◌&&◌, Option, none, some, List, [], ◌∷◌,
  ◌++◌, Bytes, codes, bytes_eq, has_prefix, contains_byte, length, take, drop, ◌==◌, if◌then◌else◌,
}
use verm.Prelude.Decimal.{itoa}
use verm.Errors.{
  Result, ok, err, wrong_location, mkdir_failed, open_failed, seek_failed, sync_failed, link_failed,
}
use verm.Storage.{Node, Storage, file, directory, closed, find, add, remove}
use verm.Stream.{Stream, whole, encoding_decoder, encoding_suffix, same_contents}
use verm.Host.{Host}
use verm.Upload.HashName.{encode_hash}
use verm.Upload.Types.{FileUpload, Job, gz}

-- What `os.Link` of the temporary file returns.
pub data Link : Type 0 where
  linked : Storage → Link
  exists failed : Link

-- What one round of the loop in `Finish` comes to: it leaves the loop with a result, or goes on.
pub data Outcome : Type 0 where
  done : Result (Bytes × Bool) → Storage → Outcome
  again : Storage → Outcome

unfoldable pub carry_on :
    (Storage → Option (Result (Bytes × Bool) × Storage))
    → Outcome
    → Option (Result (Bytes × Bool) × Storage)
carry_on next (done r s) = some (r, s)
carry_on next (again s) = next s

-- The fuel of `same_contents` is always enough.
abbrev or_false : Option Bool → Bool
or_false none = false
or_false (some r) = r

unfoldable pub same_decoded : Result Stream → Result Stream → Bool
same_decoded (err e) r = false
same_decoded (ok d1) (err e) = false
same_decoded (ok d1) (ok d2) = or_false (same_contents d1 d2)

module _ (h : Host) where
  -- `sameDecodedContents`
  unfoldable pub same_decoded_contents : Stream → Stream → Bytes → Bool
  unfolding same_decoded
  same_decoded_contents s1 s2 encoding =
      same_decoded (encoding_decoder h.gunzip encoding s1) (encoding_decoder h.gunzip encoding s2)

  -- A node that could be opened; reading a directory fails at once.
  same_opened : FileUpload → Node → Result Bool
  same_opened up (file b) = ok (same_decoded_contents (whole up.content) (whole b) up.encoding)
  same_opened up directory =
      ok
        (same_decoded_contents (whole up.content) (record { bytes = []; fails = true }) up.encoding)
  same_opened up closed = err open_failed

  -- `tempFile.Seek`, behind the opening of the file
  same_node : FileUpload → Bytes → Node → Result Bool
  unfolding same_opened
  same_node up filename closed = err open_failed
  same_node up filename n = if h.seek_fails filename then err seek_failed else same_opened up n

  -- `sameUploadedFile`
  unfoldable pub same_uploaded_file : FileUpload → Storage → Bytes → Result Bool
  unfolding same_node
  same_uploaded_file up s filename = elim (find filename s) [
    | none ↦ err open_failed
    | some n ↦ same_node up filename n
  ]

  -- `os.Link(tempFile.Name(), filename)`, the content being that of the temporary file
  unfoldable pub link : Bytes → Bytes → Storage → Link
  link content filename s = if h.link_fails filename then failed else elim (find filename s) [
    | none ↦ linked (add filename (file content) s)
    | some n ↦ exists
  ]

  -- The name on disk: the returned location, with `.gz` behind it if the upload is compressed.
  unfoldable pub filename_of : FileUpload → Bytes → Bytes
  filename_of up location = up.root ++ (location ++ encoding_suffix up.encoding)

  -- After `os.IsExist`: what the second look at the file decides.
  unfoldable pub settle : FileUpload → Bytes → Storage → Result Bool → Outcome
  settle up location s (err e) = done (err link_failed) s
  settle up location s (ok true) = done (ok (location, false)) s
  settle up location s (ok false) = again s

  -- What the result of `os.Link` decides.
  unfoldable pub after_link : FileUpload → Bytes → Storage → Link → Outcome
  after_link up location s (linked s') = done (ok (location, true)) s'
  after_link up location s failed = done (err link_failed) s
  after_link up location s exists =
      settle up location s (same_uploaded_file up s (filename_of up location))

  unfoldable pub try_link : FileUpload → Bytes → Storage → Outcome
  try_link up location s = after_link up location s (link up.content (filename_of up location) s)

  -- What the first look at the file decides. Only the first round syncs the temporary file.
  unfoldable pub after_look : FileUpload → ℕ → Bytes → Storage → Result Bool → Outcome
  after_look up attempt location s (ok true) = done (ok (location, false)) s
  after_look up attempt location s _ =
      if attempt == 1 && h.sync_fails
      then done (err sync_failed) s
      else try_link up location (h.interfere attempt s)

  -- One round of the loop.
  unfoldable pub attempt_once : FileUpload → ℕ → Bytes → Storage → Outcome
  attempt_once up attempt location s =
      after_look up attempt location s (same_uploaded_file up s (filename_of up location))

  -- `fmt.Sprintf("%s%s_%d%s", subpath, dst, attempt, upload.extension)`
  unfoldable pub next_location : FileUpload → Bytes → ℕ → Bytes
  next_location up stem attempt = stem ++ (b'_' ∷ (itoa attempt ++ up.extension))

  -- The loop; `stem` is `subpath + dst`, and `none` says that the fuel ran out.
  unfoldable pub attempt_loop :
      FileUpload → Bytes → ℕ → ℕ → Bytes → Storage → Option (Result (Bytes × Bool) × Storage)
  attempt_loop up stem zero attempt location s = none
  attempt_loop up stem (suc fuel) attempt location s =
      carry_on
        (λ s'. attempt_loop up stem fuel (attempt + 1) (next_location up stem (attempt + 1)) s')
        (attempt_once up attempt location s)

  -- The location of the first attempt, or the error for a path that is not the content's.
  unfoldable pub first_location : FileUpload → Bytes → Result Bytes
  first_location up stem =
      if bytes_eq up.location []
      then ok (stem ++ up.extension)
      else if not (has_prefix up.location stem)
          || contains_byte (drop (length stem) up.location) b'/'
      then err (wrong_location up.location)
      else ok up.location

  -- The call of `EnqueueFile` for a new file.
  unfoldable pub job_of : FileUpload → Bytes → Job
  job_of up location = record {
    location =
        if bytes_eq up.extension gz
        then take (length location - length up.extension) location
        else location;
    replicating = up.replicating;
  }

  -- `Close`, then the call of `EnqueueFile`, behind the loop.
  unfoldable pub conclude :
      FileUpload → Result (Bytes × Bool) → Storage → Result (Bytes × Bool) × Storage × List Job
  conclude up (err e) s = (err e, s, [])
  conclude up (ok (location, true)) s =
      (ok (location, true), remove up.temp_name s, job_of up location ∷ [])
  conclude up (ok (location, false)) s = (ok (location, false), remove up.temp_name s, [])

  unfoldable pub concluded :
      FileUpload
      → Option (Result (Bytes × Bool) × Storage)
      → Option (Result (Bytes × Bool) × Storage × List Job)
  concluded up none = none
  concluded up (some (r, s)) = some (conclude up r s)

  -- From the first location on.
  unfoldable pub place :
      ℕ
      → FileUpload
      → Bytes
      → Storage
      → Result Bytes
      → Option (Result (Bytes × Bool) × Storage × List Job)
  place fuel up stem s (err e) = some (err e, s, [])
  place fuel up stem s (ok location) = concluded up (attempt_loop up stem fuel 1 location s)

  unfoldable pub finish_at :
      ℕ
      → FileUpload
      → Storage
      → Option (Bytes × Bytes)
      → Option (Result (Bytes × Bool) × Storage × List Job)
  finish_at fuel up s none = none
  finish_at fuel up s (some (dir, dst)) =
      let stem = up.path ++ (dir ++ dst) in
      if h.mkdir_fails (up.root ++ (up.path ++ dir))
      then some (err mkdir_failed, s, [])
      else place fuel up stem s (first_location up stem)

  -- `Finish`: the result, the files, and the calls of `EnqueueFile`. `none` is an index out of range
  -- in `encodeHash`, or the end of the fuel.
  unfoldable pub finish :
      ℕ → FileUpload → Storage → Option (Result (Bytes × Bool) × Storage × List Job)
  finish fuel up s = finish_at fuel up s (encode_hash (h.sha256 up.input.bytes))
