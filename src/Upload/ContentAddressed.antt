-- ===== src/Upload/ContentAddressed.antt =====
-- Every stored upload is found at a path that the hash of its contents determines.
use verm.Prelude.{
  ℕ, Bool, true, false, some, List, [], ◌∷◌, ◌++◌, Bytes, ◌≡◌, ◌≢◌, ap, ap₂, sym, ◌∙◌, subst,
  Bool-cases, inl, inr, arith, if◌then◌else◌, bytes_eq, bytes_eq_iff, append_assoc, append_cancel,
  codes, some_inj,
}
use verm.Errors.{ok, ◌>>=◌}
use verm.Storage.{Storage, file, find}
use verm.Storage.Laws.{find-remove}
use verm.Stream.{Stream, whole, encoding_decoder, encoding_suffix}
use verm.Host.{Host, IsHost}
use verm.Upload.{upload_file}
use verm.Upload.HashName.{encode_hash}
use verm.Upload.HashName.Shape.{IsHashName, encode_hash-IsHashName}
use verm.Upload.Types.{FileUpload, Request, Job}
use verm.Upload.Finish.{filename_of, job_of}
use verm.Upload.Finish.Stored.{IsStored, attempt_loop-Stored}
use verm.Upload.Opening.{unpack, or_default}
use verm.Upload.Opening.Input.{IsOf, opened-IsOf}
use verm.Upload.Success.{UploadRun, upload_file_ok, first_location_ok}

-- The temporary file is another file than the one that holds the content.
temp_ne_stored :
    (root path dir dst tail suffix x : Bytes)
    → IsHashName dir dst
    → (root ++ path) ++ (codes "/_upload" ++ x)
      ≢ root ++ (((path ++ (dir ++ dst)) ++ tail) ++ suffix)
temp_ne_stored root path dir dst tail suffix x n e =
    let e1 : root ++ (path ++ (codes "/_upload" ++ x))
        ≡ root ++ (path ++ (dir ++ (dst ++ (tail ++ suffix)))) =
      simp append_assoc at e in
    let e2 = append_cancel path _ _ (append_cancel root _ _ e1) in
    ground (arith, n.x_first, n.dir_eq)

-- The file of a location has the contents of the upload, and the location begins with the name that
-- the hash of these contents has.
pub record IsContentAddressed (h : Host) (types : Bytes → Bytes) (up : FileUpload) (l : Bytes)
    (s : Storage) : Type 0 where
  pub dir : Bytes
  pub dst : Bytes
  pub tail : Bytes
  pub bytes : Bytes
  pub contents : Bytes
  pub named : encode_hash (h.sha256 contents) ≡ some (dir, dst)
  pub shape : IsHashName dir dst
  pub located : l ≡ (up.path ++ (dir ++ dst)) ++ tail
  pub found : find (up.root ++ (l ++ encoding_suffix up.encoding)) s ≡ some (file bytes)
  pub reads :
      (encoding_decoder h.gunzip up.encoding (whole bytes) >>= unpack h types up.extension)
      ≡ ok (whole contents)
  pub posted :
      (encoding_decoder h.gunzip up.encoding (whole up.content) >>= unpack h types up.extension)
      ≡ ok (whole contents)

module _ {h : Host} (w : IsHost h) (types : Bytes → Bytes) where
  -- A decoded stream that ends well is decoded from a stream that ends well.
  encoding_decoder_whole :
      (enc : Bytes) (s d : Stream)
      → encoding_decoder h.gunzip enc s ≡ ok d
      → d.fails ≡ false
      → s.fails ≡ false
  unfolding encoding_decoder
  encoding_decoder_whole enc s d e f = ground (arith, w.gunzip_whole s d)

  unpack_whole :
      (ext : Bytes) (s d : Stream) → unpack h types ext s ≡ ok d → d.fails ≡ false → s.fails ≡ false
  unfolding unpack
  unpack_whole ext s d e f = ground (arith, w.gunzip_whole s d)

  pub whole_of : (s : Stream) → s.fails ≡ false → s ≡ whole s.bytes
  whole_of s e = λ i. record { bytes = s.bytes; fails = e i }

  reads_of :
      (enc ext : Bytes) (tee decoded input : Stream)
      → encoding_decoder h.gunzip enc tee ≡ ok decoded
      → unpack h types ext decoded ≡ ok input
      → (encoding_decoder h.gunzip enc tee >>= unpack h types ext) ≡ ok input
  reads_of enc ext tee decoded input e1 e2 = rw e1 e2

module _ {h : Host} (w : IsHost h) (types : Bytes → Bytes) (fuel : ℕ) (root : Bytes) (req : Request)
    (rep : Bool) (s : Storage) (l : Bytes) (new : Bool) (s' : Storage) (jobs : List Job) where
  module _ (r : UploadRun h types fuel root req rep s l new s' jobs) where
    abbrev up : FileUpload
    up = r.up

    pub tee_whole : r.opened.input.tee ≡ whole up.content
    tee_whole =
        whole_of w types r.opened.input.tee (
          encoding_decoder_whole w types up.encoding r.opened.input.tee r.opened.input.decoded
            r.opened.input.decodes
            (unpack_whole w types up.extension r.opened.input.decoded up.input
              r.opened.input.unpacks r.read))
        ∙ ap whole (sym r.opened.input.content_eq)

    pub decodes_content :
        encoding_decoder h.gunzip up.encoding (whole up.content) ≡ ok r.opened.input.decoded
    decodes_content = rw (← tee_whole) r.opened.input.decodes

    reads_content :
        (encoding_decoder h.gunzip up.encoding (whole up.content) >>= unpack h types up.extension)
        ≡ ok (whole up.input.bytes)
    reads_content =
        reads_of w types up.encoding up.extension (whole up.content) r.opened.input.decoded up.input
          decodes_content r.opened.input.unpacks
        ∙ ap ok (whole_of w types up.input r.read)

    -- Another file with the same decoded contents is read as the same contents.
    reads_same :
        (bytes c : Bytes)
        → encoding_decoder h.gunzip up.encoding (whole up.content) ≡ ok (whole c)
        → encoding_decoder h.gunzip up.encoding (whole bytes) ≡ ok (whole c)
        → (encoding_decoder h.gunzip up.encoding (whole bytes) >>= unpack h types up.extension)
          ≡ ok (whole up.input.bytes)
    reads_same bytes c e1 e2 = rw e2 (rw e1 at reads_content)

    pub shape : IsHashName r.run.dir r.run.dst
    shape =
        let (dir, dst, e, n) =
          encode_hash-IsHashName (h.sha256 up.input.bytes) (w.sha256_length _) (w.sha256_bytes _) in
        subst (λ (p : Bytes × Bytes). IsHashName p.0 p.1) (some_inj (sym e ∙ r.run.named)) n

    pub stored : IsStored h up (up.path ++ (r.run.dir ++ r.run.dst)) l new r.run.after
    stored =
        let first = first_location_ok h up _ r.run.first r.run.located in
        attempt_loop-Stored w up (up.path ++ (r.run.dir ++ r.run.dst)) fuel 1 r.run.first first.tail
          _ r.run.after (ok (l, new)) first.first_eq first.lacks r.run.looped

    temp_ne : bytes_eq up.temp_name (filename_of h up l) ≡ false
    temp_ne = elim (Bool-cases (bytes_eq up.temp_name (filename_of h up l))) [
      | inl e ↦ absurd (clash ((bytes_eq_iff _ _).0 e))
      | inr e ↦ e
    ]
      where
        pth : Bytes
        pth = or_default r.opened.path

        x : Bytes
        x = w.temp_tail (root ++ pth) s

        temp_form : up.temp_name ≡ (up.root ++ up.path) ++ (codes "/_upload" ++ x)
        temp_form =
            r.opened.input.temp_eq
            ∙ w.temp_form (root ++ pth) s
            ∙ ap (λ p. p ++ (codes "/_upload" ++ x))
                (ap₂ ◌++◌ (sym r.opened.input.root_eq) (sym r.opened.input.path_eq))

        named :
            filename_of h up l
            ≡ up.root
              ++ (((up.path ++ (r.run.dir ++ r.run.dst)) ++ stored.tail)
                  ++ encoding_suffix up.encoding)
        named =
            unfold filename_of in
            ap (λ k. up.root ++ (k ++ encoding_suffix up.encoding)) stored.location_eq

        clash : up.temp_name ≢ filename_of h up l
        clash e =
            temp_ne_stored up.root up.path r.run.dir r.run.dst stored.tail
              (encoding_suffix up.encoding) x shape (sym temp_form ∙ e ∙ named)

    pub find_after : find (filename_of h up l) s' ≡ find (filename_of h up l) r.run.after
    find_after = rw (r.files, r.run.files, find-remove, temp_ne, find-remove, temp_ne)

    pub found_new : new ≡ true → find (filename_of h up l) s' ≡ some (file up.content)
    found_new e = find_after ∙ stored.new_bytes e

    addressed :
        (bytes : Bytes)
        → find (filename_of h up l) s' ≡ some (file bytes)
        → (encoding_decoder h.gunzip up.encoding (whole bytes) >>= unpack h types up.extension)
          ≡ ok (whole up.input.bytes)
        → IsContentAddressed h types up l s'
    unfolding filename_of
    addressed bytes e reads = record {
      dir = r.run.dir;
      dst = r.run.dst;
      tail = stored.tail;
      bytes = bytes;
      contents = up.input.bytes;
      named = r.run.named;
      shape = shape;
      located = stored.location_eq;
      found = e;
      reads = reads;
      posted = reads_content;
    }

    content_addressed : IsContentAddressed h types up l s'
    content_addressed = elim (Bool-cases new) [
      | inl e ↦ addressed up.content (found_new e) reads_content
      | inr e ↦
          let c = stored.old_contents e in
          addressed c.bytes (find_after ∙ c.found)
            (reads_same c.bytes c.contents c.uploaded c.stored)
    ]

  -- After a successful upload of any kind the store holds, under the returned location and the
  -- suffix for the encoding, a file that decodes (and, for a .gz file, unpacks) without an error to
  -- the contents of the upload, whose hash gives the directory and the file name in the location. The
  -- upload is that of the request: its bytes are the file of a form, or else the body, without an
  -- encoding that is redundant for a .gz file, and the directory of a POST is that of its path. The
  -- bytes of the file are those of the upload if the file is new. `EnqueueFile` is called once if the
  -- file is new, and not at all otherwise.
  pub upload_file-IsContentAddressed :
      upload_file h types fuel root req rep s ≡ some (ok (l, new), s', jobs)
      → (up : FileUpload) × (up.root ≡ root)
        × (up.replicating ≡ rep)
        × IsOf h types req rep up
        × IsContentAddressed h types up l s'
        × (new ≡ true
            → find (root ++ (l ++ encoding_suffix up.encoding)) s' ≡ some (file up.content))
        × (jobs ≡ (if new then job_of h up l ∷ [] else []))
  unfolding filename_of
  upload_file-IsContentAddressed e =
      let r = upload_file_ok h types fuel root req rep s l new s' jobs e in
      (
        r.up,
        r.opened.input.root_eq,
        r.opened.input.replicating_eq,
        opened-IsOf h types root req rep s r.up r.opened_files r.opened (tee_whole r),
        content_addressed r,
        λ q. rw r.opened.input.root_eq at (found_new r q),
        r.run.queued,
      )
