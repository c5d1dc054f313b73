-- ===== src/Replication/Missing/Exchange.antt =====
-- What one server learns from another one about missing files.
use verm.Prelude.{
  ℕ, Bool, true, false, some, List, [], ◌∷◌, ◌++◌, append-nil, append_assoc, Bytes, codes, bytes_eq,
  if◌then◌else◌, ◌≡◌, refl, sym, ap, ◌∙◌, subst, All,
}
use verm.Errors.{ok}
use verm.Storage.{Storage}
use verm.Stream.{whole, Gunzip, encoding_decoder}
use verm.Http.{HttpRequest, Response, Header, get, del, set_field, set_header, empty_response}
use verm.Http.Fields.{get-set_field, get-set_other, write-write_header}
use verm.Replication.Lines.{scan_lines, write_lines, IsLine, scan_lines-write_lines}
use verm.Replication.Missing.{
  respond_missing, is_missing, filter, list_loop, respond, list_missing_files, serve_missing,
  queued, queue_missing_files, gzip_accepted,
}

-- A response that arrives unpacked is understood as the packed one is.
pub queue_unpacked :
    (limit : ℕ) (gunzip : Gunzip) (h k : Header) (body b : Bytes)
    → get h (codes "Content-Encoding") ≡ codes "gzip"
    → gunzip (whole body) ≡ some (whole b)
    → get k (codes "Content-Encoding") ≡ []
    → queue_missing_files limit gunzip k (whole b) ≡ queue_missing_files limit gunzip h (whole body)
unfolding queue_missing_files queued encoding_decoder bytes_eq
queue_unpacked limit gunzip h k body b zipped e plain = rw (plain, zipped, e) refl

list_loop_lem :
    (test : Bytes → Bool) (ls : List Bytes) → list_loop test ls ≡ write_lines (filter test ls)
unfolding list_loop filter write_lines
list_loop_lem test [] = refl
list_loop_lem test (l ∷ ls) = branch (test l) (list_loop_lem test ls)
  where
    branch :
        (b : Bool)
        → list_loop test ls ≡ write_lines (filter test ls)
        → (if b then (l ++ 13 ∷ 10 ∷ []) ++ list_loop test ls else list_loop test ls)
          ≡ write_lines (if b then l ∷ filter test ls else filter test ls)
    branch true e = append_assoc l (13 ∷ 10 ∷ []) (list_loop test ls) ∙ ap (λ t. l ++ 13 ∷ 10 ∷ t) e
    branch false e = e

All-filter :
    (P : Bytes → Type 0) (test : Bytes → Bool) (ls : List Bytes) → All P ls → All P (filter test ls)
unfolding filter
All-filter P test [] h = tt
All-filter P test (l ∷ ls) (p, h) = branch (test l) (All-filter P test ls h)
  where
    branch :
        (b : Bool)
        → All P (filter test ls)
        → All P (if b then l ∷ filter test ls else filter test ls)
    branch true q = (p, q)
    branch false q = q

module _ (s : Storage) (root : Bytes) (limit : ℕ) (gunzip : Gunzip) (compress : Bytes → Bytes)
    (decodes : (b : Bytes) → gunzip (whole (compress b)) ≡ some (whole b)) where
  gzip_decoded :
      (b : Bytes) → encoding_decoder gunzip (codes "gzip") (whole (compress b)) ≡ ok (whole b)
  unfolding encoding_decoder bytes_eq
  gzip_decoded b = rw (decodes b) refl

  scanned : (ls : List Bytes) → All (IsLine limit) ls → scan_lines limit (write_lines ls) ≡ ls
  scanned ls lines =
      ap (scan_lines limit) (sym (append-nil (write_lines ls)))
      ∙ scan_lines-write_lines limit ls [] lines tt

  listed :
      (ls : List Bytes)
      → All (IsLine limit) ls
      → list_missing_files s root limit (write_lines ls)
        ≡ write_lines (filter (is_missing s root) ls)
  unfolding list_missing_files
  listed ls lines =
      ap (list_loop (is_missing s root)) (scanned ls lines) ∙ list_loop_lem (is_missing s root) ls

  queue_plain :
      (header : Header) (ls : List Bytes)
      → get header (codes "Content-Encoding") ≡ []
      → All (IsLine limit) ls
      → queue_missing_files limit gunzip header (whole (write_lines ls)) ≡ ls
  unfolding queue_missing_files queued encoding_decoder bytes_eq
  queue_plain header ls e lines = rw e (scanned ls lines)

  queue_gzip :
      (header : Header) (ls : List Bytes)
      → get header (codes "Content-Encoding") ≡ codes "gzip"
      → All (IsLine limit) ls
      → queue_missing_files limit gunzip header (whole (compress (write_lines ls))) ≡ ls
  unfolding queue_missing_files queued
  queue_gzip header ls e lines = rw (e, gzip_decoded (write_lines ls)) (scanned ls lines)

  -- The other server reads the list back from the response.
  IsUnderstood : List Bytes → Response → Type 0
  IsUnderstood ls v =
      (v.status ≡ 200) × (queue_missing_files limit gunzip v.header (whole v.body) ≡ ls)

  understood :
      (accepted : Bool) (ls : List Bytes) (h : Header)
      → All (IsLine limit) ls
      → get h (codes "Content-Encoding") ≡ []
      → IsUnderstood ls (
          respond accepted compress (write_lines ls) (record { status = 0; header = h; body = [] }))
  unfolding respond set_header bytes_eq IsUnderstood
  understood true ls h lines plain =
      let k =
        set_field (set_field h (codes "Content-Encoding") (codes "gzip")) (codes "Content-Type")
          (codes "text/plain") in
      subst (IsUnderstood ls)
        (sym (
          write-write_header 200 (compress (write_lines ls))
            (record { status = 0; header = k; body = [] }) refl refl))
        (
          refl,
          queue_gzip k ls
              (get-set_other (set_field h (codes "Content-Encoding") (codes "gzip")) _ _ _ refl
                ∙ get-set_field h _ _)
              lines,
        )
  understood false ls h lines plain =
      subst (IsUnderstood ls)
        (sym (
          write-write_header 200 (write_lines ls) (record { status = 0; header = h; body = [] })
            refl refl))
        (refl, queue_plain h ls plain lines)

  untyped :
      get (set_field [] (codes "Content-Type") (codes "text/plain")) (codes "Content-Encoding") ≡ []
  unfolding get set_field del bytes_eq
  untyped = refl

  -- A server that is sent a list of locations, encoded by gzip, answers so that exactly those that it
  -- has no file for are queued, in their order. No location has a line break or is too long for the
  -- scanner.
  pub missing_exchange :
      (req : HttpRequest) (ls : List Bytes)
      → get req.header (codes "Content-Encoding") ≡ codes "gzip"
      → All (IsLine limit) ls
      → (v : Response) × (serve_missing s root limit gunzip compress req
            (whole (compress (write_lines ls)))
            empty_response
          ≡ ok v)
        × (v.status ≡ 200)
        × (queue_missing_files limit gunzip v.header (whole v.body) ≡ filter (is_missing s root) ls)
  unfolding serve_missing set_header respond_missing IsUnderstood
  missing_exchange req ls encoded lines =
      let typed = set_field [] (codes "Content-Type") (codes "text/plain") in
      let w : Response = record { status = 0; header = typed; body = [] } in
      let sub = All-filter (IsLine limit) (is_missing s root) ls lines in
      let (e, f) =
        understood (gzip_accepted req) (filter (is_missing s root) ls) typed sub untyped in
      (
        respond (gzip_accepted req) compress (write_lines (filter (is_missing s root) ls)) w,
        rw (encoded, gzip_decoded (write_lines ls), listed ls lines) refl,
        e,
        f,
      )
