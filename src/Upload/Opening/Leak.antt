-- ===== src/Upload/Opening/Leak.antt =====
-- An error behind the making of the temporary file is returned without closing the upload.
use verm.Prelude.{Bool, false, [], ◌++◌, Bytes, ◌≡◌, refl, bytes_eq, arith}
use verm.Errors.{Error, Result, ok, err, ◌>>=◌, unknown_encoding}
use verm.Storage.{Storage, file, add}
use verm.Stream.{Stream, encoding_decoder, gzip}
use verm.Host.{Host}
use verm.UrlPath.{clean}
use verm.Upload.Types.{Request}
use verm.Upload.Opening.{
  split_location, or_default, choose_input, strip_encoding, decode_written, decode_for_hasher,
  strip_and_decode, open_input, make_temp, open_at, file_uploader,
}

module _ (h : Host) (types : Bytes → Bytes) (root : Bytes) (req : Request) where
  -- A Content-Encoding that is neither empty nor gzip.
  abbrev pub IsUnknown : Bytes → Type 0
  IsUnknown enc = (bytes_eq enc [] ≡ false) × (bytes_eq enc gzip ≡ false)

  decoder_unknown :
      (enc : Bytes) (s : Stream)
      → IsUnknown enc
      → encoding_decoder h.gunzip enc s ≡ err (unknown_encoding enc)
  unfolding encoding_decoder
  decoder_unknown enc s u = rw (u.0, u.1)

  strip_unknown :
      (rep : Bool) (path location temp : Bytes) (chosen : Stream × Bytes)
      → IsUnknown req.content_encoding
      → strip_and_decode h types root req rep path location temp chosen
        ≡ err (unknown_encoding req.content_encoding)
  unfolding strip_and_decode strip_encoding decode_for_hasher decode_written
  strip_unknown rep path location temp (input, ct) u =
      ground (arith, decoder_unknown req.content_encoding input u)

  pub open_input_unknown :
      (rep : Bool) (path location temp : Bytes)
      → IsUnknown req.content_encoding
      → (e : Error) × (open_input h types root req rep path location temp ≡ err e)
  unfolding open_input
  open_input_unknown rep path location temp u = go (choose_input h types req)
    where
      go :
          (r : Result (Stream × Bytes))
          → (e : Error) × ((r >>= strip_and_decode h types root req rep path location temp) ≡ err e)
      go (err e) = (e, refl)
      go (ok chosen) = (_, strip_unknown rep path location temp chosen u)

  -- A POST whose encoding is unknown fails and leaves its temporary file behind.
  pub file_uploader_unknown :
      (s : Storage)
      → IsUnknown req.content_encoding
      → h.mkdir_fails (root ++ or_default (clean req.path)) ≡ false
      → h.tempfile_fails (root ++ or_default (clean req.path)) ≡ false
      → (e : Error) × (file_uploader h types root req false s
          ≡ (err e, add (h.temp_name (root ++ or_default (clean req.path)) s) (file []) s))
  unfolding file_uploader open_at split_location make_temp
  file_uploader_unknown s u m t =
      let temp = h.temp_name (root ++ or_default (clean req.path)) s in
      let (e, q) = open_input_unknown false (or_default (clean req.path)) [] temp u in
      (e, rw (m, t, q))
