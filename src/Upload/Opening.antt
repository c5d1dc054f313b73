-- ===== src/Upload/Opening.antt =====
-- `FileUploader` of file_uploader.go: the request is opened for reading, a temporary file is made,
-- and the streams are put together.
pub mod Leak
pub mod Opened
pub mod Input
use verm.Prelude.{
  ℕ, ◌-◌, Bool, true, false, not, ◌&&◌, ◌||◌, Option, none, some, [], ◌∷◌, ◌++◌, Bytes, codes,
  bytes_eq, last_index, length, take, ltb, leb, if◌then◌else◌,
}
use verm.Errors.{
  Result, ok, err, ◌>>=◌, wrong_location, mkdir_failed, tempfile_failed, no_form_file, bad_gzip,
  write_failed,
}
use verm.Storage.{Storage, file, add}
use verm.Stream.{Stream, encoding_decoder, gzip}
use verm.Host.{Host}
use verm.UrlPath.{clean}
use verm.Upload.Types.{FileUpload, Request, gz}

-- The directory of a PUT: what stands before `/xy/z…`, if the last slash is at `i`.
split_at : Bytes → Option ℕ → Result (Bytes × Bytes)
split_at p none = err (wrong_location p)
split_at p (some i) = if ltb i 4 then err (wrong_location p) else ok (p, take (i - 3) p)

-- The location that is given, for a PUT, and the directory.
unfoldable pub split_location : Bool → Bytes → Result (Bytes × Bytes)
unfolding split_at
split_location false p = ok ([], p)
split_location true p = split_at p (last_index p b'/')

-- Uploads to the root directory go to `DefaultDirectoryIfNotGivenByClient`.
unfoldable pub or_default : Bytes → Bytes
or_default p = if leb (length p) 1 then codes "/default" else p

module _ (h : Host) (extension_by_type : Bytes → Bytes) where
  -- `mediaTypeOrDefault`
  unfoldable pub media_type_or_default : Bytes → Bytes
  media_type_or_default header = elim (h.parse_media_type header) [
    | none ↦ codes "application/octet-stream"
    | some t ↦ t
  ]

  -- The input stream and its content type: the body, or the file of a browser form.
  unfoldable pub choose_input : Request → Result (Stream × Bytes)
  choose_input req =
      let content_type = media_type_or_default req.content_type in
      if bytes_eq content_type (codes "multipart/form-data")
      then elim req.form_file [
        | none ↦ err no_form_file
        | some (header, part) ↦ ok (part, media_type_or_default header)
      ]
      else ok (req.body, content_type)

  -- An upload that is a gzip file and is gzip-encoded too loses the redundant encoding.
  unfoldable pub strip_encoding : Bytes → Bytes → Stream → Result (Stream × Bytes)
  strip_encoding extension encoding input =
      if bytes_eq extension gz && not (bytes_eq encoding [])
      then (do s ← encoding_decoder h.gunzip encoding input; ok (s, []))
      else ok (input, encoding)

  -- A gzip file is hashed by its contents.
  unfoldable pub unpack : Bytes → Stream → Result Stream
  unpack extension input =
      if bytes_eq extension gz
      then elim (h.gunzip input) [ none ↦ err bad_gzip | some s ↦ ok s ]
      else ok input

  module _ (root : Bytes) (req : Request) (replicating : Bool)
      (path location temp_name : Bytes) where
    -- The `fileUpload` that is returned; the temporary file holds what the `io.TeeReader` copies.
    unfoldable pub assemble : Bytes → Stream → Bytes → Stream → FileUpload
    assemble content_type tee encoding hashed = record {
      replicating = replicating;
      root = root;
      path = path;
      location = location;
      content_type = content_type;
      extension = extension_by_type content_type;
      encoding = encoding;
      input = hashed;
      temp_name = temp_name;
      content = tee.bytes;
    }

    -- The stream is decoded for the hasher, and a gzip file is unpacked.
    unfoldable pub decode_written : Bytes → Stream × Bytes → Result FileUpload
    decode_written content_type (tee, encoding) = do
      decoded ← encoding_decoder h.gunzip encoding tee
      hashed ← unpack (extension_by_type content_type) decoded
      ok (assemble content_type tee encoding hashed)

    -- `gzip.NewReader` reads the header through the `io.TeeReader`, which writes it to the temporary
    -- file; a write that fails is its error.
    unfoldable pub decode_for_hasher : Bytes → Stream × Bytes → Result FileUpload
    decode_for_hasher content_type (tee, encoding) =
        if (bytes_eq encoding gzip || bytes_eq (extension_by_type content_type) gz)
          && h.header_write_fails temp_name
        then err write_failed
        else decode_written content_type (tee, encoding)

    unfoldable pub strip_and_decode : Stream × Bytes → Result FileUpload
    strip_and_decode (input, content_type) = do
      stripped ← strip_encoding (extension_by_type content_type) req.content_encoding input
      decode_for_hasher content_type stripped

    -- The part of `FileUploader` behind the making of the temporary file.
    unfoldable pub open_input : Result FileUpload
    open_input = do chosen ← choose_input req; strip_and_decode chosen

  unfoldable pub make_temp :
      Bytes → Request → Bool → Bytes → Bytes → Storage → Result FileUpload × Storage
  make_temp root req replicating path location s =
      let directory = root ++ path in
      if h.mkdir_fails directory
      then (err mkdir_failed, s)
      else if h.tempfile_fails directory
      then (err tempfile_failed, s)
      else (
        open_input root req replicating path location (h.temp_name directory s),
        add (h.temp_name directory s) (file []) s,
      )

  unfoldable pub open_at :
      Bytes → Request → Bool → Storage → Result (Bytes × Bytes) → Result FileUpload × Storage
  open_at root req replicating s (err e) = (err e, s)
  open_at root req replicating s (ok (location, path)) =
      make_temp root req replicating (or_default path) location s

  -- `FileUploader`: the upload or an error, and the files.
  unfoldable pub file_uploader : Bytes → Request → Bool → Storage → Result FileUpload × Storage
  file_uploader root req replicating s =
      open_at root req replicating s (split_location replicating (clean req.path))
