-- ===== src/Server/Posted.antt =====
-- What the answers to POST and PUT promise.
use verm.Prelude.{
  ℕ, ◌+◌, Bool, true, false, Option, none, some, List, [], Bytes, codes, bytes_eq, ◌≡◌, ◌≢◌, ◌⊎◌,
  inl, inr, refl, sym, ap, ◌∙◌, subst, some_inj, arith,
}
use verm.Errors.{
  Error, Result, ok, err, wrong_location, unknown_encoding, mkdir_failed, tempfile_failed,
  open_failed, seek_failed, write_failed, sync_failed, link_failed, bad_gzip, no_form_file,
  read_failed,
}
use verm.Storage.{Storage}
use verm.Host.{Host, IsHost}
use verm.Http.{Response, get, set_header, write_header, write, http_error, empty_response}
use verm.Http.Fields.{get-set_field}
use verm.Upload.{upload_file}
use verm.Upload.Types.{FileUpload, Job}
use verm.Upload.Opening.Input.{IsOf}
use verm.Upload.ContentAddressed.{IsContentAddressed, upload_file-IsContentAddressed}
use verm.Server.{
  LogStatistics, ServerRequest, location_field, Handled, answer_post, answer_put, serve_http_post,
  serve_http_put, with_files, put_error_status,
}

pub with_files_inv :
    (answer : Result (Bytes × Bool) → Response × LogStatistics)
    (o : Option (Result (Bytes × Bool) × Storage × List Job)) (v : Response) (stats : LogStatistics)
    (s : Storage) (jobs : List Job)
    → with_files answer o ≡ some (v, stats, s, jobs)
    → (r : Result (Bytes × Bool)) × (o ≡ some (r, s, jobs)) × (answer r ≡ (v, stats))
unfolding with_files
with_files_inv answer none v stats s jobs e = cc
with_files_inv answer (some (r, t, js)) v stats s jobs e =
    let q = some_inj e in (r, cc, ap (λ (x : Handled). (x.0, x.1)) q)

-- An error is answered with status 500.
http_error_status : (text : Bytes) → (http_error text 500 empty_response).status ≡ 500
unfolding http_error set_header write write_header
http_error_status text = refl

created_location :
    (n : ℕ) (location : Bytes)
    → get (write_header n (set_header location_field location empty_response)).header location_field
      ≡ location
unfolding write_header set_header
created_location n location = get-set_field [] location_field location

module _ {h : Host} (w : IsHost h) (types : Bytes → Bytes) (message : Error → Bytes) (fuel : ℕ)
    (root : Bytes) (limit : ℕ) (compress : Bytes → Bytes) where
  -- A POST that is not answered with status 500 has a location, that of the upload.
  pub serve_http_post-located :
      (req : ServerRequest) (stats : LogStatistics) (s : Storage) (v : Response)
      (stats' : LogStatistics) (s' : Storage) (jobs : List Job)
      → serve_http_post h types message fuel root limit compress req stats s
        ≡ some (v, stats', s', jobs)
      → v.status ≢ 500
      → (l : Bytes) × (new : Bool) × (upload_file h types fuel root req.upload false s
          ≡ some (ok (l, new), s', jobs))
        × (l ≡ get v.header location_field)
  unfolding serve_http_post answer_post
  serve_http_post-located req stats s v stats' s' jobs e good =
      let (r, o, q) = with_files_inv _ _ v stats' s' jobs e in located r o q
    where
      located :
          (r : Result (Bytes × Bool))
          → upload_file h types fuel root req.upload false s ≡ some (r, s', jobs)
          → answer_post message req.redirect r stats empty_response ≡ (v, stats')
          → (l : Bytes) × (new : Bool) × (upload_file h types fuel root req.upload false s
              ≡ some (ok (l, new), s', jobs))
            × (l ≡ get v.header location_field)
      located (err x) o q = absurd (
          good (
            sym (ap (λ (p : Response × LogStatistics). p.0.status) q)
            ∙ http_error_status (message x)))
      located (ok (l, new)) o q = (
        l,
        new,
        o,
        sym (created_location _ l)
            ∙ ap (λ (p : Response × LogStatistics). get p.0.header location_field) q,
      )

  -- A POST that is not answered with status 500 has stored its file: the store holds, under the location
  -- in the response, the contents of the upload, whose hash gives that location; the bytes of the
  -- upload are the file of a form, or else the body, and its directory is that of the path.
  pub serve_http_post-IsContentAddressed :
      (req : ServerRequest) (stats : LogStatistics) (s : Storage) (v : Response)
      (stats' : LogStatistics) (s' : Storage) (jobs : List Job)
      → serve_http_post h types message fuel root limit compress req stats s
        ≡ some (v, stats', s', jobs)
      → v.status ≢ 500
      → (up : FileUpload) × (up.root ≡ root)
        × IsOf h types req.upload false up
        × IsContentAddressed h types up (get v.header location_field) s'
  serve_http_post-IsContentAddressed req stats s v stats' s' jobs e good =
      let (l, new, o, same) = serve_http_post-located req stats s v stats' s' jobs e good in
      let (up, root_eq, replicating, of_request, addressed, found, queued) =
        upload_file-IsContentAddressed w types fuel root req.upload false s l new s' jobs o in
      (up, root_eq, of_request, subst (λ x. IsContentAddressed h types up x s') same addressed)

-- No POST is counted as failed, whatever becomes of it.
pub serve_http_post-failed_uncounted :
    (h : Host) (types : Bytes → Bytes) (message : Error → Bytes) (fuel : ℕ) (root : Bytes)
    (limit : ℕ) (compress : Bytes → Bytes) (req : ServerRequest) (stats : LogStatistics)
    (s : Storage) (v : Response) (stats' : LogStatistics) (s' : Storage) (jobs : List Job)
    → serve_http_post h types message fuel root limit compress req stats s
      ≡ some (v, stats', s', jobs)
    → stats'.post_requests_failed ≡ stats.post_requests_failed
unfolding serve_http_post answer_post
serve_http_post-failed_uncounted h types message fuel root limit compress req stats s v stats' s'
      jobs e =
    let (r, o, q) = with_files_inv _ _ v stats' s' jobs e in
    sym (ap (λ (p : Response × LogStatistics). p.1.post_requests_failed) q) ∙ uncounted r
  where
    uncounted :
        (r : Result (Bytes × Bool))
        → (answer_post message req.redirect r stats empty_response).1.post_requests_failed
          ≡ stats.post_requests_failed
    uncounted (err x) = refl
    uncounted (ok (l, new)) = refl

abbrev IsCounted : LogStatistics → Response × LogStatistics → Type 0
IsCounted stats answer =
    (answer.1.put_requests ≡ stats.put_requests + 1)
    × (((answer.0.status ≡ 201) × (answer.1.put_requests_failed ≡ stats.put_requests_failed))
        ⊎ (((answer.0.status ≡ 422) ⊎ (answer.0.status ≡ 500))
            × (answer.1.put_requests_failed ≡ stats.put_requests_failed + 1)))

error_status : (e : Error) → (put_error_status e ≡ 422) ⊎ (put_error_status e ≡ 500)
unfolding put_error_status
error_status (wrong_location x) = inl refl
error_status (unknown_encoding x) = inr refl
error_status mkdir_failed = inr refl
error_status tempfile_failed = inr refl
error_status open_failed = inr refl
error_status seek_failed = inr refl
error_status write_failed = inr refl
error_status sync_failed = inr refl
error_status link_failed = inr refl
error_status bad_gzip = inr refl
error_status no_form_file = inr refl
error_status read_failed = inr refl

error_answer :
    (message : Error → Bytes) (e : Error) (stats : LogStatistics)
    → (answer_put message (err e) stats empty_response).0.status ≡ put_error_status e
unfolding answer_put http_error set_header write_header write
error_answer message e stats = elim (error_status e) [ inl q ↦ rw q refl | inr q ↦ rw q refl ]

refused : {n : ℕ} → (n ≡ 422) ⊎ (n ≡ 500) → n ≢ 201
refused {n} (inl q) e = absurd (ground (arith, q, e))
refused {n} (inr q) e = absurd (ground (arith, q, e))

counted :
    (message : Error → Bytes) (stats : LogStatistics) (r : Result (Bytes × Bool))
    → IsCounted stats (answer_put message r stats empty_response)
unfolding answer_put http_error set_header write_header write
counted message stats (err e) = elim (error_status e) [
  | inl q ↦ rw q (refl, inr (inl refl, refl))
  | inr q ↦ rw q (refl, inr (inr refl, refl))
]
counted message stats (ok (l, new)) = (refl, inl (refl, refl))

-- A PUT of a file that is answered with status 201 has a location, that of the upload.
pub serve_http_put-located :
    (h : Host) (types : Bytes → Bytes) (message : Error → Bytes) (fuel : ℕ) (root : Bytes)
    (limit : ℕ) (compress : Bytes → Bytes) (req : ServerRequest) (stats : LogStatistics)
    (s : Storage) (v : Response) (stats' : LogStatistics) (s' : Storage) (jobs : List Job)
    → bytes_eq req.http.path (codes "/_missing") ≡ false
    → serve_http_put h types message fuel root limit compress req stats s
      ≡ some (v, stats', s', jobs)
    → v.status ≡ 201
    → (l : Bytes) × (new : Bool) × (upload_file h types fuel root req.upload true s
        ≡ some (ok (l, new), s', jobs))
      × (l ≡ get v.header location_field)
unfolding serve_http_put
serve_http_put-located h types message fuel root limit compress req stats s v stats' s' jobs other e
      good =
    let (r, o, q) = with_files_inv _ _ v stats' s' jobs (rw other at e) in located r o q
  where
    located :
        (r : Result (Bytes × Bool))
        → upload_file h types fuel root req.upload true s ≡ some (r, s', jobs)
        → answer_put message r stats empty_response ≡ (v, stats')
        → (l : Bytes) × (new : Bool) × (upload_file h types fuel root req.upload true s
            ≡ some (ok (l, new), s', jobs))
          × (l ≡ get v.header location_field)
    located (err x) o q = absurd (
        refused (error_status x) (
          sym (error_answer message x stats)
          ∙ ap (λ (p : Response × LogStatistics). p.0.status) q
          ∙ good))
    located (ok (l, new)) o q = (
      l,
      new,
      o,
      sym (created_location 201 l)
          ∙ ap (λ (p : Response × LogStatistics). get p.0.header location_field)
              (unfold answer_put in q),
    )

-- Each PUT of a file is counted; it is counted as failed exactly if it is answered with status 422 or
-- 500, and the other failures stay as they were.
pub serve_http_put-counted :
    (h : Host) (types : Bytes → Bytes) (message : Error → Bytes) (fuel : ℕ) (root : Bytes)
    (limit : ℕ) (compress : Bytes → Bytes) (req : ServerRequest) (stats : LogStatistics)
    (s : Storage) (v : Response) (stats' : LogStatistics) (s' : Storage) (jobs : List Job)
    → bytes_eq req.http.path (codes "/_missing") ≡ false
    → serve_http_put h types message fuel root limit compress req stats s
      ≡ some (v, stats', s', jobs)
    → (stats'.put_requests ≡ stats.put_requests + 1)
      × (((v.status ≡ 201) × (stats'.put_requests_failed ≡ stats.put_requests_failed))
          ⊎ (((v.status ≡ 422) ⊎ (v.status ≡ 500))
              × (stats'.put_requests_failed ≡ stats.put_requests_failed + 1)))
unfolding serve_http_put
serve_http_put-counted h types message fuel root limit compress req stats s v stats' s' jobs other
      e =
    let (r, o, q) = with_files_inv _ _ v stats' s' jobs (rw other at e) in
    subst (IsCounted stats) q (counted message stats r)
