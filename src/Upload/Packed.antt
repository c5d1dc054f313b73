-- ===== src/Upload/Packed.antt =====
-- Uploads by a raw request that is compressed: the file is compressed too.
use verm.Prelude.{
  ℕ, Bool, false, some, List, ◌++◌, Bytes, ◌≡◌, refl, ap, sym, ◌∙◌, Bool-cases, inl, inr, arith,
  bytes_eq, codes,
}
use verm.Errors.{ok, ok_inj}
use verm.Storage.{Storage, file, find}
use verm.Stream.{Stream, whole, encoding_decoder, encoding_suffix, Gunzip}
use verm.Host.{Host, IsHost}
use verm.Upload.{upload_file}
use verm.Upload.Types.{Request, Job, gz}
use verm.Upload.Opening.{choose_input, strip_encoding, unpack, media_type_or_default}
use verm.Upload.Finish.{filename_of}
use verm.Upload.Success.{UploadRun, upload_file_ok}
use verm.Upload.ContentAddressed.{
  stored, find_after, found_new, tee_whole, decodes_content, whole_of,
}

-- The body is compressed by gzip, and is not that of a gzip file.
pub record IsPacked (h : Host) (types : Bytes → Bytes) (req : Request) : Type 0 where
  pub no_form :
      bytes_eq (media_type_or_default h types req.content_type) (codes "multipart/form-data")
      ≡ false
  pub encoding : req.content_encoding ≡ codes "gzip"
  pub not_gz : bytes_eq (types (media_type_or_default h types req.content_type)) gz ≡ false

-- The file of the location is compressed, and is unpacked to what the body is unpacked to.
pub record IsHeld (h : Host) (root l : Bytes) (req : Request) (s : Storage) : Type 0 where
  pub bytes : Bytes
  pub contents : Bytes
  pub found : find (root ++ (l ++ codes ".gz")) s ≡ some (file bytes)
  pub unpacks : h.gunzip (whole bytes) ≡ some (whole contents)
  pub posted : h.gunzip req.body ≡ some (whole contents)

gunzip_ok :
    (gunzip : Gunzip) (s d : Stream)
    → encoding_decoder gunzip (codes "gzip") s ≡ ok d
    → gunzip s ≡ some d
unfolding encoding_decoder bytes_eq
gunzip_ok gunzip s d e = ground arith

module _ (h : Host) (types : Bytes → Bytes) where
  chosen_packed :
      (req : Request) (chosen : Stream × Bytes)
      → IsPacked h types req
      → choose_input h types req ≡ ok chosen
      → (chosen.0 ≡ req.body) × (bytes_eq (types chosen.1) gz ≡ false)
  unfolding choose_input
  chosen_packed req chosen packed e =
      let q = ok_inj (rw packed.no_form at e) in
      (
        sym (ap (λ (p : Stream × Bytes). p.0) q),
        ap (λ (p : Stream × Bytes). bytes_eq (types p.1) gz) (sym q) ∙ packed.not_gz,
      )

  kept_encoding :
      (extension encoding : Bytes) (input tee : Stream) (enc : Bytes)
      → bytes_eq extension gz ≡ false
      → strip_encoding h types extension encoding input ≡ ok (tee, enc)
      → (tee ≡ input) × (enc ≡ encoding)
  unfolding strip_encoding
  kept_encoding extension encoding input tee enc q e =
      let p = ok_inj (rw q at e) in
      (sym (ap (λ (x : Stream × Bytes). x.0) p), sym (ap (λ (x : Stream × Bytes). x.1) p))

  not_unpacked :
      (extension : Bytes) (s d : Stream)
      → bytes_eq extension gz ≡ false
      → unpack h types extension s ≡ ok d
      → s ≡ d
  unfolding unpack
  not_unpacked extension s d q e = ok_inj (rw q at e)

module _ {h : Host} (w : IsHost h) (types : Bytes → Bytes) (fuel : ℕ) (root : Bytes) (req : Request)
    (rep : Bool) (s : Storage) (l : Bytes) (new : Bool) (s' : Storage) (jobs : List Job) where
  module _ (packed : IsPacked h types req)
      (r : UploadRun h types fuel root req rep s l new s' jobs) where
    plain_type : bytes_eq r.up.extension gz ≡ false
    plain_type =
        let input = r.opened.input in
        ap (λ e. bytes_eq e gz) (input.extension_eq ∙ ap types input.type_eq)
        ∙ (chosen_packed h types req input.chosen packed input.choose_eq).1

    written : (whole r.up.content ≡ req.body) × (r.up.encoding ≡ codes "gzip")
    written =
        let input = r.opened.input in
        let (tee_eq, encoding_eq) =
          kept_encoding h types r.up.extension req.content_encoding input.chosen.0 input.tee
            r.up.encoding plain_type input.strip_eq in
        (
          sym (tee_whole w types fuel root req rep s l new s' jobs r)
              ∙ tee_eq
              ∙ (chosen_packed h types req input.chosen packed input.choose_eq).0,
          encoding_eq ∙ packed.encoding,
        )

    filename_eq : filename_of h r.up l ≡ root ++ (l ++ codes ".gz")
    unfolding filename_of encoding_suffix bytes_eq
    filename_eq = rw (written.1, r.opened.input.root_eq) refl

    content_unpacks : h.gunzip (whole r.up.content) ≡ some (whole r.up.input.bytes)
    content_unpacks =
        gunzip_ok h.gunzip (whole r.up.content) r.opened.input.decoded
          (rw written.1 at (decodes_content w types fuel root req rep s l new s' jobs r))
        ∙ ap some (
            not_unpacked h types r.up.extension r.opened.input.decoded r.up.input plain_type
              r.opened.input.unpacks
            ∙ whole_of w types r.up.input r.read)

    held : IsHeld h root l req s'
    held = elim (Bool-cases new) [
      | inl e ↦ record {
        bytes = r.up.content;
        contents = r.up.input.bytes;
        found =
            ap (λ f. find f s') (sym filename_eq)
            ∙ found_new w types fuel root req rep s l new s' jobs r e;
        unpacks = content_unpacks;
        posted = ap h.gunzip (sym written.0) ∙ content_unpacks;
      }
      | inr e ↦
          let c = (stored w types fuel root req rep s l new s' jobs r).old_contents e in
          record {
            bytes = c.bytes;
            contents = c.contents;
            found =
                ap (λ f. find f s') (sym filename_eq)
                ∙ find_after w types fuel root req rep s l new s' jobs r
                ∙ c.found;
            unpacks =
                gunzip_ok h.gunzip (whole c.bytes) (whole c.contents) (rw written.1 at c.stored);
            posted =
                ap h.gunzip (sym written.0)
                ∙ gunzip_ok h.gunzip (whole r.up.content) (whole c.contents)
                    (rw written.1 at c.uploaded);
          }
    ]

  -- A compressed upload that succeeds, whether its file is new or was there, leaves a compressed file at
  -- the returned location, with what the body is unpacked to.
  pub upload_file-IsHeld :
      IsPacked h types req
      → upload_file h types fuel root req rep s ≡ some (ok (l, new), s', jobs)
      → IsHeld h root l req s'
  upload_file-IsHeld packed e =
      held packed (upload_file_ok h types fuel root req rep s l new s' jobs e)
