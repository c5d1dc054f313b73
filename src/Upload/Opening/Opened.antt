-- ===== src/Upload/Opening/Opened.antt =====
-- What a successful `FileUploader` has prepared.
use verm.Prelude.{
  if◌then◌else◌, bytes_eq, false, ◌&&◌, ◌||◌, Bool, true, [], ◌++◌, Bytes, ◌≡◌, ◌≢◌, refl, ap, ◌∙◌,
  sym, subst, arith, last_index, ◌∷◌,
}
use verm.Errors.{Error, Result, ok, err, ◌>>=◌, bind_ok, ok_inj, write_failed}
use verm.Storage.{Storage, file, add}
use verm.Stream.{Stream, encoding_decoder, gzip}
use verm.Host.{Host}
use verm.UrlPath.{clean}
use verm.Upload.Types.{FileUpload, Request, gz}
use verm.Upload.Opening.{
  split_location, or_default, choose_input, strip_encoding, unpack, assemble, decode_written,
  decode_for_hasher, strip_and_decode, open_input, make_temp, open_at, file_uploader,
}

err_ne_ok : {x : Error} {up : FileUpload} → err x ≢ ok up
err_ne_ok e = cc

module _ (h : Host) (types : Bytes → Bytes) (root : Bytes) (req : Request) (rep : Bool) where
  -- The upload is for this root and kind of request, and its streams are decoded one from the other.
  pub record IsInput (path location temp : Bytes) (up : FileUpload) : Type 0 where
    pub root_eq : up.root ≡ root
    pub replicating_eq : up.replicating ≡ rep
    pub path_eq : up.path ≡ path
    pub location_eq : up.location ≡ location
    pub temp_eq : up.temp_name ≡ temp
    pub extension_eq : up.extension ≡ types up.content_type
    pub chosen : Stream × Bytes
    pub choose_eq : choose_input h types req ≡ ok chosen
    pub type_eq : up.content_type ≡ chosen.1
    pub tee : Stream
    pub strip_eq :
        strip_encoding h types up.extension req.content_encoding chosen.0 ≡ ok (tee, up.encoding)
    pub decoded : Stream
    pub content_eq : up.content ≡ tee.bytes
    pub decodes : encoding_decoder h.gunzip up.encoding tee ≡ ok decoded
    pub unpacks : unpack h types up.extension decoded ≡ ok up.input

  module _ (path location temp : Bytes) (up : FileUpload) where
    decode_ok :
        (input : Stream) (ct : Bytes) (tee : Stream) (enc : Bytes)
        → choose_input h types req ≡ ok (input, ct)
        → strip_encoding h types (types ct) req.content_encoding input ≡ ok (tee, enc)
        → decode_for_hasher h types root req rep path location temp ct (tee, enc) ≡ ok up
        → IsInput path location temp up
    unfolding decode_for_hasher decode_written assemble
    decode_ok input ct tee enc chose stripped e =
        tested ((bytes_eq enc gzip || bytes_eq (types ct) gz) && h.header_write_fails temp) e
      where
        done :
            (decoded hashed : Stream)
            → encoding_decoder h.gunzip enc tee ≡ ok decoded
            → unpack h types (types ct) decoded ≡ ok hashed
            → ok (assemble h types root req rep path location temp ct tee enc hashed) ≡ ok up
            → IsInput path location temp up
        done decoded hashed e1 e2 q = subst (IsInput path location temp) (ok_inj q) (record {
          root_eq = refl;
          replicating_eq = refl;
          path_eq = refl;
          location_eq = refl;
          temp_eq = refl;
          extension_eq = refl;
          chosen = (input, ct);
          choose_eq = chose;
          type_eq = refl;
          tee = tee;
          strip_eq = stripped;
          decoded = decoded;
          content_eq = refl;
          decodes = e1;
          unpacks = e2;
        })

        go2 :
            (decoded : Stream)
            → encoding_decoder h.gunzip enc tee ≡ ok decoded
            → (r : Result Stream) → unpack h types (types ct) decoded ≡ r
            → (r >>= λ hashed.
                ok (assemble h types root req rep path location temp ct tee enc hashed))
              ≡ ok up
            → IsInput path location temp up
        go2 decoded e1 (err x) e2 q = cc
        go2 decoded e1 (ok hashed) e2 q = done decoded hashed e1 e2 q

        go :
            (r : Result Stream)
            → encoding_decoder h.gunzip enc tee ≡ r
            → (r >>= λ decoded. unpack h types (types ct) decoded >>= λ hashed.
                ok (assemble h types root req rep path location temp ct tee enc hashed))
              ≡ ok up
            → IsInput path location temp up
        go (err x) e1 q = cc
        go (ok decoded) e1 q = go2 decoded e1 _ refl q

        tested :
            (b : Bool)
            → (if b
                then err write_failed
                else decode_written h types root req rep path location temp ct (tee, enc))
              ≡ ok up
            → IsInput path location temp up
        tested true q = cc
        tested false q = go (encoding_decoder h.gunzip enc tee) refl q

    strip_ok :
        (chosen : Stream × Bytes)
        → choose_input h types req ≡ ok chosen
        → strip_and_decode h types root req rep path location temp chosen ≡ ok up
        → IsInput path location temp up
    unfolding strip_and_decode
    strip_ok (input, ct) chose e =
        let (stripped, st, q) =
          bind_ok (strip_encoding h types (types ct) req.content_encoding input)
            (decode_for_hasher h types root req rep path location temp ct) e in
        decode_ok input ct stripped.0 stripped.1 chose st q

    open_input_ok :
        open_input h types root req rep path location temp ≡ ok up → IsInput path location temp up
    unfolding open_input
    open_input_ok e =
        let (chosen, chose, q) =
          bind_ok (choose_input h types req)
            (strip_and_decode h types root req rep path location temp) e in
        strip_ok chosen chose q

  -- The upload, and the files with the new temporary file among them.
  pub record IsOpened (s : Storage) (up : FileUpload) (s' : Storage) : Type 0 where
    pub path : Bytes
    pub split_eq : split_location rep (clean req.path) ≡ ok (up.location, path)
    pub input : IsInput (or_default path) up.location (h.temp_name (root ++ or_default path) s) up
    pub files : s' ≡ add up.temp_name (file []) s

  make_temp_ok :
      (path location : Bytes) (s : Storage) (up : FileUpload) (s' : Storage)
      → make_temp h types root req rep path location s ≡ (ok up, s')
      → (open_input h types root req rep path location (h.temp_name (root ++ path) s) ≡ ok up)
        × (s' ≡ add (h.temp_name (root ++ path) s) (file []) s)
  unfolding make_temp
  make_temp_ok path location s up s' e = ground arith

  open_at_ok :
      (r : Result (Bytes × Bytes)) (s : Storage) (up : FileUpload) (s' : Storage)
      → split_location rep (clean req.path) ≡ r
      → open_at h types root req rep s r ≡ (ok up, s')
      → IsOpened s up s'
  unfolding open_at
  open_at_ok (err x) s up s' q e =
      absurd (err_ne_ok (ap (λ (y : Result FileUpload × Storage). y.0) e))
  open_at_ok (ok (location, path)) s up s' q e =
      let (opened, files) = make_temp_ok (or_default path) location s up s' e in
      let input = open_input_ok (or_default path) location _ up opened in
      record {
        path = path;
        split_eq = q ∙ ap (λ l. ok (l, path)) (sym input.location_eq);
        input =
            subst (λ l. IsInput (or_default path) l (h.temp_name (root ++ or_default path) s) up)
              (sym input.location_eq) input;
        files = files ∙ ap (λ t. add t (file []) s) (sym input.temp_eq);
      }

  pub file_uploader_ok :
      (s : Storage) (up : FileUpload) (s' : Storage)
      → file_uploader h types root req rep s ≡ (ok up, s')
      → IsOpened s up s'
  unfolding file_uploader
  file_uploader_ok s up s' e = open_at_ok _ s up s' refl e

-- For a PUT the location is the cleaned path.
pub split_location_ok :
    (p location path : Bytes)
    → split_location true p ≡ ok (location, path)
    → (location ≡ p) × (location ≢ [])
unfolding split_location last_index
split_location_ok [] location path e = cc
split_location_ok (c ∷ p) location path e =
    let same : location ≡ c ∷ p = ground arith in (same, λ q. cc (same, q))
