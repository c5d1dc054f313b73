-- ===== src/Upload/Raw.antt =====
-- Uploads by a raw request without a Content-Encoding: the file has the bytes of the body.
use verm.Prelude.{
  ℕ, Bool, false, some, List, [], ◌++◌, Bytes, ◌≡◌, refl, ap, sym, ◌∙◌, Bool-cases, inl, inr,
  bytes_eq, append-nil, codes,
}
use verm.Errors.{ok, ok_inj}
use verm.Storage.{Storage, file, find}
use verm.Stream.{Stream, whole, encoding_decoder, encoding_suffix, Gunzip}
use verm.Host.{Host, IsHost}
use verm.Upload.{upload_file}
use verm.Upload.Types.{Request, Job, gz}
use verm.Upload.Opening.{choose_input, strip_encoding, media_type_or_default}
use verm.Upload.Finish.{filename_of}
use verm.Upload.Finish.Stored.{HasContents}
use verm.Upload.Success.{UploadRun, upload_file_ok}
use verm.Upload.ContentAddressed.{stored, find_after, found_new}

-- The body of the request is the file, as it is.
pub record IsRaw (h : Host) (types : Bytes → Bytes) (req : Request) : Type 0 where
  pub no_form :
      bytes_eq (media_type_or_default h types req.content_type) (codes "multipart/form-data")
      ≡ false
  pub no_encoding : req.content_encoding ≡ []

module _ (h : Host) (types : Bytes → Bytes) where
  chosen_body :
      (req : Request) (chosen : Stream × Bytes)
      → IsRaw h types req
      → choose_input h types req ≡ ok chosen
      → chosen.0 ≡ req.body
  unfolding choose_input
  chosen_body req chosen raw e =
      sym (ap (λ (p : Stream × Bytes). p.0) (ok_inj (rw raw.no_form at e)))

  unstripped :
      (extension : Bytes) (input tee : Stream) (encoding : Bytes)
      → strip_encoding h types extension [] input ≡ ok (tee, encoding)
      → (tee ≡ input) × (encoding ≡ [])
  unfolding strip_encoding bytes_eq
  unstripped extension input tee encoding e = elim (Bool-cases (bytes_eq extension gz)) [
    | inl q ↦
        let p = ok_inj (rw q at e) in
        (sym (ap (λ (x : Stream × Bytes). x.0) p), sym (ap (λ (x : Stream × Bytes). x.1) p))
    | inr q ↦
        let p = ok_inj (rw q at e) in
        (sym (ap (λ (x : Stream × Bytes). x.0) p), sym (ap (λ (x : Stream × Bytes). x.1) p))
  ]

undecoded :
    (gunzip : Gunzip) (bytes contents : Bytes)
    → encoding_decoder gunzip [] (whole bytes) ≡ ok (whole contents)
    → bytes ≡ contents
unfolding encoding_decoder bytes_eq
undecoded gunzip bytes contents e = ap (λ (s : Stream). s.bytes) (ok_inj e)

module _ {h : Host} (w : IsHost h) (types : Bytes → Bytes) (fuel : ℕ) (root : Bytes) (req : Request)
    (rep : Bool) (s : Storage) (l : Bytes) (new : Bool) (s' : Storage) (jobs : List Job) where
  module _ (raw : IsRaw h types req) (r : UploadRun h types fuel root req rep s l new s' jobs) where
    written : (r.up.content ≡ req.body.bytes) × (r.up.encoding ≡ [])
    written =
        let input = r.opened.input in
        let (tee_eq, encoding_eq) =
          unstripped h types r.up.extension input.chosen.0 input.tee r.up.encoding
            (rw raw.no_encoding at input.strip_eq) in
        (
          input.content_eq
              ∙ ap (λ (x : Stream). x.bytes)
                  (tee_eq ∙ chosen_body h types req input.chosen raw input.choose_eq),
          encoding_eq,
        )

    filename_eq : filename_of h r.up l ≡ root ++ l
    unfolding filename_of encoding_suffix bytes_eq
    filename_eq = rw (written.1, r.opened.input.root_eq, append-nil) refl

    old_bytes : (c : HasContents h r.up (filename_of h r.up l) r.run.after) → c.bytes ≡ r.up.content
    old_bytes c =
        undecoded h.gunzip c.bytes c.contents (rw written.1 at c.stored)
        ∙ sym (undecoded h.gunzip r.up.content c.contents (rw written.1 at c.uploaded))

    found_content : find (filename_of h r.up l) s' ≡ some (file r.up.content)
    found_content = elim (Bool-cases new) [
      | inl e ↦ found_new w types fuel root req rep s l new s' jobs r e
      | inr e ↦
          let c = (stored w types fuel root req rep s l new s' jobs r).old_contents e in
          find_after w types fuel root req rep s l new s' jobs r
          ∙ c.found
          ∙ ap (λ b. some (file b)) (old_bytes c)
    ]

  -- A raw upload that succeeds, whether its file is new or was there, leaves at the returned location a
  -- file with the bytes of the body.
  pub upload_file_raw :
      IsRaw h types req
      → upload_file h types fuel root req rep s ≡ some (ok (l, new), s', jobs)
      → find (root ++ l) s' ≡ some (file req.body.bytes)
  upload_file_raw raw e =
      let r = upload_file_ok h types fuel root req rep s l new s' jobs e in
      ap (λ f. find f s') (sym (filename_eq raw r))
      ∙ found_content raw r
      ∙ ap (λ b. some (file b)) (written raw r).0
