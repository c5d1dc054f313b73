-- ===== src/Upload/Opening/Input.antt =====
-- What `FileUploader` takes from a request, written out.
use verm.Prelude.{
  Bool, false, Option, none, some, [], Bytes, codes, bytes_eq, bytes_eq_iff, ◌≡◌, ◌≢◌, ◌⊎◌, inl,
  inr, refl, ap, sym, ◌∙◌, subst, Bool-cases,
}
use verm.Errors.{ok, err, ok_inj, bind_ok, no_form_file}
use verm.Storage.{Storage}
use verm.Stream.{Stream, whole, encoding_decoder}
use verm.Host.{Host}
use verm.UrlPath.{clean}
use verm.Upload.Types.{FileUpload, Request, gz}
use verm.Upload.Opening.{
  split_location, or_default, media_type_or_default, choose_input, strip_encoding,
}
use verm.Upload.Opening.Opened.{IsOpened}

abbrev form_type : Bytes
form_type = codes "multipart/form-data"

different : (x y : Bytes) → bytes_eq x y ≡ false → x ≢ y
different x y e p = let t = (bytes_eq_iff x y).1 p in absurd (cc)

module _ (h : Host) (types : Bytes → Bytes) (req : Request) where
  -- The bytes of a request and their type: for a form those of the file in it, else the body.
  abbrev pub IsChosen : Stream → Bytes → Type 0
  IsChosen input content_type =
      ((media_type_or_default h types req.content_type ≢ form_type)
        × (input ≡ req.body)
        × (content_type ≡ media_type_or_default h types req.content_type))
      ⊎ ((media_type_or_default h types req.content_type ≡ form_type)
          × (header : Bytes) × (req.form_file ≡ some (header, input))
          × (content_type ≡ media_type_or_default h types header))

  -- The bytes that are kept and their encoding: a .gz file loses an encoding, all else is kept as it is.
  abbrev pub IsStripped : Stream → FileUpload → Type 0
  IsStripped input up =
      (((up.extension ≢ gz) ⊎ (req.content_encoding ≡ []))
        × (input ≡ whole up.content)
        × (up.encoding ≡ req.content_encoding))
      ⊎ ((up.extension ≡ gz)
          × (req.content_encoding ≢ [])
          × (encoding_decoder h.gunzip req.content_encoding input ≡ ok (whole up.content))
          × (up.encoding ≡ []))

  -- The upload is that of the request.
  pub record IsOf (rep : Bool) (up : FileUpload) : Type 0 where
    pub input : Stream
    pub chosen : IsChosen input up.content_type
    pub extension_eq : up.extension ≡ types up.content_type
    pub stripped : IsStripped input up
    pub directory : rep ≡ false → up.path ≡ or_default (clean req.path)

  choose_input-IsChosen :
      (chosen : Stream × Bytes) → choose_input h types req ≡ ok chosen → IsChosen chosen.0 chosen.1
  unfolding choose_input
  choose_input-IsChosen chosen e =
      elim (Bool-cases (bytes_eq (media_type_or_default h types req.content_type) form_type)) [
        | inl q ↦
            (let (header, f, t) = form req.form_file refl (rw q at e) in
              inr ((bytes_eq_iff _ _).0 q, header, f, t))
        | inr q ↦ (let (i, t) = body (ok_inj (rw q at e)) in inl (different _ _ q, i, t))
      ]
    where
      body :
          (req.body, media_type_or_default h types req.content_type) ≡ chosen
          → (chosen.0 ≡ req.body) × (chosen.1 ≡ media_type_or_default h types req.content_type)
      body p = (sym (ap (λ (x : Stream × Bytes). x.0) p), sym (ap (λ (x : Stream × Bytes). x.1) p))

      form :
          (f : Option (Bytes × Stream))
          → req.form_file ≡ f
          → elim f [
            | none ↦ err no_form_file
            | some (header, part) ↦ ok (part, media_type_or_default h types header)
          ]
            ≡ ok chosen
          → (header : Bytes) × (req.form_file ≡ some (header, chosen.0))
            × (chosen.1 ≡ media_type_or_default h types header)
      form none p e = cc
      form (some (header, part)) p e =
          let q = ok_inj e in
          (
            header,
            p ∙ ap (λ (x : Stream × Bytes). some (header, x.0)) q,
            sym (ap (λ (x : Stream × Bytes). x.1) q),
          )

  strip_encoding-IsStripped :
      (input : Stream) (up : FileUpload)
      → strip_encoding h types up.extension req.content_encoding input
        ≡ ok (whole up.content, up.encoding)
      → IsStripped input up
  unfolding strip_encoding
  strip_encoding-IsStripped input up e = elim (Bool-cases (bytes_eq up.extension gz)) [
    | inr q ↦
        (let (i, t) = kept (ok_inj (rw q at e)) in inl (inl (different up.extension gz q), i, t))
    | inl q ↦ elim (Bool-cases (bytes_eq req.content_encoding [])) [
      | inl n ↦
          (let (i, t) = kept (ok_inj (rw (q, n) at e)) in
            inl (inr ((bytes_eq_iff req.content_encoding []).0 n), i, t))
      | inr n ↦
          let (s, decodes, p) =
            bind_ok (encoding_decoder h.gunzip req.content_encoding input) (λ s. ok (s, []))
              (rw (q, n) at e) in
          inr (
            (bytes_eq_iff up.extension gz).0 q,
            different req.content_encoding [] n,
            decodes ∙ ap (λ (x : Stream × Bytes). ok x.0) (ok_inj p),
            sym (ap (λ (x : Stream × Bytes). x.1) (ok_inj p)),
          )
    ]
  ]
    where
      kept :
          ◌≡◌ {A = Stream × Bytes} (input, req.content_encoding) (whole up.content, up.encoding)
          → (input ≡ whole up.content) × (up.encoding ≡ req.content_encoding)
      kept p = (ap (λ (x : Stream × Bytes). x.0) p, sym (ap (λ (x : Stream × Bytes). x.1) p))

-- What was opened for a request, if it is read to its end, is the upload of the request.
pub opened-IsOf :
    (h : Host) (types : Bytes → Bytes) (root : Bytes) (req : Request) (rep : Bool) (s : Storage)
    (up : FileUpload) (s' : Storage) (o : IsOpened h types root req rep s up s')
    → o.input.tee ≡ whole up.content
    → IsOf h types req rep up
unfolding split_location
opened-IsOf h types root req rep s up s' o read = record {
  input = o.input.chosen.0;
  chosen =
      subst (IsChosen h types req o.input.chosen.0) (sym o.input.type_eq)
        (choose_input-IsChosen h types req o.input.chosen o.input.choose_eq);
  extension_eq = o.input.extension_eq;
  stripped =
      strip_encoding-IsStripped h types req o.input.chosen.0 up
        (o.input.strip_eq ∙ ap (λ t. ok (t, up.encoding)) read);
  directory = λ post.
      o.input.path_eq
      ∙ ap or_default (sym (ap (λ (x : Bytes × Bytes). x.1) (ok_inj (rw post at o.split_eq))));
}
