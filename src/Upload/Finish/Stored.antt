-- ===== src/Upload/Finish/Stored.antt =====
-- What a successful `Finish` has put, or found, at the location that it returns.
use verm.Prelude.{
  if◌then◌else◌, ℕ, zero, suc, ◌+◌, inl, inr, Bool, true, false, ◌&&◌, ◌==◌, Option, none, some, [],
  ◌∷◌, ◌++◌, Bytes, ◌≡◌, refl, Bool-cases, bytes_eq_iff, arith, subst, Lacks, All-append, ◌≢◌,
}
use verm.Prelude.Decimal.{itoa, itoa-IsDigit, digits_lack}
use verm.Errors.{Result, ok, err, open_failed, seek_failed}
use verm.Storage.{Node, Storage, file, directory, closed, find, add}
use verm.Storage.Laws.{find-add_self}
use verm.Stream.{Stream, whole, encoding_decoder}
use verm.Stream.Compare.{same_contents_lem, same_spec}
use verm.Host.{Host, IsHost}
use verm.Upload.Types.{FileUpload}
use verm.Upload.Finish.{
  Link, linked, exists, failed, Outcome, done, again, same_decoded, same_decoded_contents,
  same_opened, same_node, same_uploaded_file, link, filename_of, settle, after_link, try_link,
  after_look, attempt_once, next_location, attempt_loop,
}
use verm.Upload.Finish.WriteOnce.{carry_on_cases}

-- The stored bytes `b` of a file with this encoding stand for the contents `d`.
abbrev pub Decodes : Host → Bytes → Stream → Bytes → Type 0
Decodes h encoding s d = encoding_decoder h.gunzip encoding s ≡ ok (whole d)

-- Two streams that `sameDecodedContents` accepts are decoded to the same contents, with no error.
pub same_decoded_contents_lem :
    (h : Host) (s1 s2 : Stream) (encoding : Bytes)
    → same_decoded_contents h s1 s2 encoding ≡ true
    → (d : Bytes) × Decodes h encoding s1 d × Decodes h encoding s2 d
unfolding same_decoded_contents
same_decoded_contents_lem h s1 s2 encoding e =
    go (encoding_decoder h.gunzip encoding s1) (encoding_decoder h.gunzip encoding s2) e
  where
    go :
        (r1 r2 : Result Stream)
        → same_decoded r1 r2 ≡ true
        → (d : Bytes) × (r1 ≡ ok (whole d)) × (r2 ≡ ok (whole d))
    go (err x) r2 q = cc
    go (ok d1) (err x) q = cc
    go (ok d1) (ok d2) q =
        let same : same_spec d1 d2 ≡ true = rw (same_contents_lem d1 d2) at q in
        (d1.bytes, ground arith, ground (arith, bytes_eq_iff d1.bytes d2.bytes))

module _ (h : Host) (up : FileUpload) where
  -- The file at `filename` has, decoded, the contents of the upload.
  pub record HasContents (filename : Bytes) (s : Storage) : Type 0 where
    pub bytes : Bytes
    pub contents : Bytes
    pub found : find filename s ≡ some (file bytes)
    pub uploaded : Decodes h up.encoding (whole up.content) contents
    pub stored : Decodes h up.encoding (whole bytes) contents

  -- What a success says: the location is the content's name with something behind it, which has no
  -- slash unless the extension has one; a new file has the bytes of the upload, and an old one has the
  -- same contents.
  pub record IsStored (stem location : Bytes) (new : Bool) (s : Storage) : Type 0 where
    pub tail : Bytes
    pub location_eq : location ≡ stem ++ tail
    pub tail_lacks : Lacks b'/' up.extension → Lacks b'/' tail
    pub new_bytes : new ≡ true → find (filename_of h up location) s ≡ some (file up.content)
    pub old_contents : new ≡ false → HasContents (filename_of h up location) s

  abbrev pub Stored : Bytes → Result (Bytes × Bool) → Storage → Type 0
  Stored stem (err e) s = Unit
  Stored stem (ok (location, new)) s = IsStored stem location new s

  abbrev StoredIf : Bytes → Outcome → Type 0
  StoredIf stem (done r s) = Stored stem r s
  StoredIf stem (again s) = Unit

linked_inj : {s t : Storage} → linked s ≡ linked t → s ≡ t
linked_inj e = cc

module _ {h : Host} (w : IsHost h) (up : FileUpload) (stem : Bytes) where
  encoding_decoder_broken :
      (encoding d : Bytes) → Decodes h encoding (record { bytes = []; fails = true }) d → ⊥
  unfolding encoding_decoder
  encoding_decoder_broken encoding d e = ground (arith, w.gunzip_broken)

  -- A look that finds the same contents has found a file.
  same_uploaded_file_lem :
      (s : Storage) (f : Bytes) → same_uploaded_file h up s f ≡ ok true → HasContents h up f s
  unfolding same_uploaded_file same_node same_opened
  same_uploaded_file_lem s f e = go (find f s) refl e
    where
      opened : (n : Node) → find f s ≡ some n → same_opened h up n ≡ ok true → HasContents h up f s
      opened (file b) found q =
          let (d, e1, e2) =
            same_decoded_contents_lem h (whole up.content) (whole b) up.encoding (cc) in
          record { bytes = b; contents = d; found = found; uploaded = e1; stored = e2 }
      opened directory found q =
          let (d, e1, e2) =
            same_decoded_contents_lem h (whole up.content) (record { bytes = []; fails = true })
              up.encoding (cc) in
          absurd (encoding_decoder_broken up.encoding d e2)
      opened closed found q = cc

      sought :
          (b : Bool) (n : Node)
          → find f s ≡ some n
          → ◌≡◌ {A = Result Bool} (if b then err seek_failed else same_opened h up n) (ok true)
          → HasContents h up f s
      sought true n found q = cc
      sought false n found q = opened n found q

      at : (n : Node) → find f s ≡ some n → same_node h up f n ≡ ok true → HasContents h up f s
      at (file b) found q = sought (h.seek_fails f) (file b) found q
      at directory found q = sought (h.seek_fails f) directory found q
      at closed found q = cc

      go :
          (o : Option Node)
          → find f s ≡ o
          → ◌≡◌ {A = Result Bool}
              (elim o [ none ↦ err open_failed | some n ↦ same_node h up f n ])
              (ok true)
          → HasContents h up f s
      go none found q = cc
      go (some n) found q = at n found q

  link-linked :
      (s s' : Storage) (f : Bytes)
      → link h up.content f s ≡ linked s'
      → find f s' ≡ some (file up.content)
  unfolding link
  link-linked s s' f e = elim (Bool-cases (h.link_fails f)) [
    | inl q ↦ cc (rw q at e)
    | inr q ↦ free (find f s) (rw q at e)
  ]
    where
      free :
          (o : Option Node)
          → elim o [ none ↦ linked (add f (file up.content) s) | some x ↦ exists ] ≡ linked s'
          → find f s' ≡ some (file up.content)
      free none q =
          subst (λ t. find f t ≡ some (file up.content)) (linked_inj q) (find-add_self f _ s)
      free (some x) q = cc

  module _ (l tail : Bytes) (shape : l ≡ stem ++ tail)
      (lacks : Lacks b'/' up.extension → Lacks b'/' tail) where
    old :
        (s : Storage)
        → same_uploaded_file h up s (filename_of h up l) ≡ ok true
        → IsStored h up stem l false s
    old s e = record {
      tail = tail;
      location_eq = shape;
      tail_lacks = lacks;
      new_bytes = λ q. cc;
      old_contents = λ _. same_uploaded_file_lem s (filename_of h up l) e;
    }

    settle-Stored :
        (s : Storage) (r : Result Bool)
        → same_uploaded_file h up s (filename_of h up l) ≡ r
        → StoredIf h up stem (settle h up l s r)
    unfolding settle
    settle-Stored s (ok true) e = old s e
    settle-Stored s (ok false) e = tt
    settle-Stored s (err x) e = tt

    after_link-Stored :
        (s : Storage) (k : Link)
        → link h up.content (filename_of h up l) s ≡ k
        → StoredIf h up stem (after_link h up l s k)
    unfolding after_link
    after_link-Stored s (linked s') e = record {
      tail = tail;
      location_eq = shape;
      tail_lacks = lacks;
      new_bytes = λ _. link-linked s s' _ e;
      old_contents = λ q. cc;
    }
    after_link-Stored s failed e = tt
    after_link-Stored s exists e = settle-Stored s _ refl

    try_link-Stored : (s : Storage) → StoredIf h up stem (try_link h up l s)
    unfolding try_link
    try_link-Stored s = after_link-Stored s _ refl

    go_on-Stored : (n : ℕ) (s : Storage) → StoredIf h up stem (after_look h up n l s (ok false))
    unfolding after_look
    go_on-Stored n s = elim (Bool-cases (n == 1 && h.sync_fails)) [
      | inl q ↦ rw q tt
      | inr q ↦ rw q (try_link-Stored (h.interfere n s))
    ]

    after_look-Stored :
        (n : ℕ) (s : Storage) (r : Result Bool)
        → same_uploaded_file h up s (filename_of h up l) ≡ r
        → StoredIf h up stem (after_look h up n l s r)
    unfolding after_look
    after_look-Stored n s (ok true) e = old s e
    after_look-Stored n s (ok false) e = go_on-Stored n s
    after_look-Stored n s (err x) e = go_on-Stored n s

    attempt_once-Stored : (n : ℕ) (s : Storage) → StoredIf h up stem (attempt_once h up n l s)
    unfolding attempt_once
    attempt_once-Stored n s = after_look-Stored n s _ refl

  numbered-Lacks :
      (n : ℕ) (extension : Bytes) → Lacks b'/' extension → Lacks b'/' (b'_' ∷ (itoa n ++ extension))
  numbered-Lacks n extension h = (
    omega arith,
    All-append (λ b. b ≢ b'/') (itoa n) extension
        (digits_lack b'/' (itoa n) (omega arith) (itoa-IsDigit n)) h,
  )

  -- Whatever the loop meets, a success that it returns is a stored file.
  pub attempt_loop-Stored :
      (fuel n : ℕ) (l tail : Bytes) (s s' : Storage) (r : Result (Bytes × Bool))
      → l ≡ stem ++ tail
      → (Lacks b'/' up.extension → Lacks b'/' tail)
      → attempt_loop h up stem fuel n l s ≡ some (r, s')
      → Stored h up stem r s'
  unfolding attempt_loop
  attempt_loop-Stored zero n l tail s s' r shape lacks e = cc
  attempt_loop-Stored (suc fuel) n l tail s s' r shape lacks e =
      elim (carry_on_cases _ (attempt_once h up n l s) e) [
        | inl q ↦ subst (StoredIf h up stem) q (attempt_once-Stored l tail shape lacks n s)
        | inr (t, q, more) ↦
            attempt_loop-Stored fuel (n + 1) (next_location h up stem (n + 1))
              (b'_' ∷ (itoa (n + 1) ++ up.extension)) t s' r (unfold next_location in refl)
              (numbered-Lacks (n + 1) up.extension) more
      ]
