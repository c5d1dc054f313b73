-- ===== src/ServeContent/Multiple/Cut.antt =====
-- The response to a request for several ranges.
use verm.Prelude.{
  false, ℕ, ◌+◌, ◌*◌, ◌<◌, ◌^◌, true, false, some, List, [], ◌∷◌, ◌++◌, Bytes, codes, bytes_eq,
  take, length, ◌≡◌, refl, sym, arith, All, ap, ap₂, ◌∙◌,
}
use verm.Prelude.Int.{ℤ, pos, ltbℤ}
use verm.Http.{Response, HttpRequest, get, set_header}
use verm.Http.Fields.{get-set_field}
use verm.ServeContent.Single.{
  set_header-Keeps, set_length-Keeps, write_ok, slice_front, ranges_other,
}
use verm.Ranges.{HttpRange, parse_range, sum_ranges_size}
use verm.Ranges.Bounds.{IsWithin}
use verm.ServeContent.{
  seek_file, serve_content, serve_ranges, checked_ranges, any_behind, multipart_stream,
  content_type_field, serve_multiple, ranges_mime_size, multipart_type, send, set_length,
}
use verm.ServeContent.Multiple.{part_sizes-length, stream_retyped}

-- Ranges within the file do not start behind its end.
any_behind_within :
    (n : ℕ) (ranges : List HttpRange) → All (IsWithin n) ranges → any_behind ranges (pos n) ≡ false
unfolding any_behind
any_behind_within n [] h = refl
any_behind_within n (ra ∷ ranges) (here, there) =
    rw (here.start_eq, any_behind_within n ranges there) (ground (arith, here.fits))

-- The answer has status 206 and the start of the multipart body, cut after `sent` bytes; `sent` is the
-- length of the body whose parts carry the content type of the file, but the parts carry the content
-- type of the whole response.
pub record IsCut (w v : Response) (stream : Bytes) (sent count : ℕ) (content_type multipart : Bytes)
    : Type 0 where
  pub status : v.status ≡ 206
  pub body : v.body ≡ w.body ++ take sent stream
  pub cut : sent + count * length multipart ≡ length stream + count * length content_type

module _ (r : HttpRequest) (w : Response) (fresh : w.status ≡ 0)
    (not_head : bytes_eq r.method (codes "HEAD") ≡ false) where
  send_cut :
      (size : ℤ) (stream : Bytes) (sent : ℕ)
      → ((send r true 206 (pos sent) stream w).status ≡ 206)
        × ((send r true 206 (pos sent) stream w).body ≡ w.body ++ take sent stream)
  unfolding send
  send_cut size stream sent =
      let ranges = set_header (codes "Accept-Ranges") (codes "bytes") w in
      let v = set_length (pos sent) ranges in
      let a = set_header-Keeps (codes "Accept-Ranges") (codes "bytes") w ranges_other in
      let b = set_length-Keeps (pos sent) ranges in
      let (e, f, g) = write_ok r (pos sent) stream v (b.status_eq ∙ a.status_eq ∙ fresh) not_head in
      (e, f ∙ ap₂ (λ x y. x ++ y) (b.body_eq ∙ a.body_eq) (slice_front stream sent))

module _ (r : HttpRequest) (w : Response) (fresh : w.status ≡ 0)
    (not_head : bytes_eq r.method (codes "HEAD") ≡ false)
    (boundary counting_boundary seek_error content : Bytes)
    (same : length boundary ≡ length counting_boundary) where
  abbrev stream_of : List HttpRange → Bytes → Bytes
  stream_of ranges content_type =
      multipart_stream boundary true ranges (seek_file seek_error content) content_type
        (pos (length content))

  serve_multiple-IsCut :
      (ranges : List HttpRange)
      → All (IsWithin (length content)) ranges
      → length (
          multipart_stream boundary true ranges
            (seek_file seek_error content)
            (get w.header content_type_field)
            (pos (length content)))
        < 2 ^ 63
      → (v : Response) × (sent : ℕ) × (serve_multiple boundary counting_boundary
            (seek_file seek_error content)
            r
            (pos (length content))
            content
            ranges
            w
          ≡ some v)
        × IsCut w v
            (multipart_stream boundary true ranges
              (seek_file seek_error content)
              (multipart_type boundary)
              (pos (length content)))
            sent
            (length ranges)
            (get w.header content_type_field)
            (multipart_type boundary)
  unfolding serve_multiple ranges_mime_size set_header
  serve_multiple-IsCut ranges within small =
      let size = pos (length content) in
      let content_type = get w.header content_type_field in
      let sent = length (stream_of ranges content_type) in
      let v = set_header content_type_field (multipart_type boundary) w in
      let counted =
        part_sizes-length seek_error content size boundary counting_boundary true ranges
          content_type same within small in
      let typed : get v.header content_type_field ≡ multipart_type boundary = own_type in
      let (e, f) =
        send_cut r v fresh_type not_head size (stream_of ranges (multipart_type boundary)) sent in
      (
        send r true 206 (pos sent) (stream_of ranges (multipart_type boundary)) v,
        sent,
        rw (any_behind_within (length content) ranges within, counted, typed) refl,
        record {
          status = e;
          body =
              f ∙ ap (λ x. x ++ take sent (stream_of ranges (multipart_type boundary))) same_body;
          cut = sym (
              stream_retyped seek_error content size boundary true ranges content_type
                (multipart_type boundary) within);
        },
      )
    where
      own_type :
          get (set_header content_type_field (multipart_type boundary) w).header content_type_field
          ≡ multipart_type boundary
      own_type = get-set_field w.header content_type_field _

      fresh_type : (set_header content_type_field (multipart_type boundary) w).status ≡ 0
      fresh_type = fresh

      same_body : (set_header content_type_field (multipart_type boundary) w).body ≡ w.body
      same_body = refl

  -- A request other than HEAD for several ranges, each within the file and together no larger than it,
  -- is answered with status 206 and the start of the multipart body, cut by as many bytes as the
  -- content type of the response is longer than that of the file, once for each range. The two random
  -- boundaries have one length, no status is sent yet, and the body is shorter than 2^63 bytes.
  pub serve_content-IsCut :
      (ra rb : HttpRange) (more : List HttpRange)
      → parse_range (get r.header (codes "Range")) (pos (length content)) ≡ some (ra ∷ rb ∷ more)
      → ltbℤ (pos (length content)) (sum_ranges_size (ra ∷ rb ∷ more)) ≡ false
      → All (IsWithin (length content)) (ra ∷ rb ∷ more)
      → length (
          multipart_stream boundary true
            (ra ∷ rb ∷ more)
            (seek_file seek_error content)
            (get w.header content_type_field)
            (pos (length content)))
        < 2 ^ 63
      → (v : Response) × (sent : ℕ) × (serve_content boundary counting_boundary
            (seek_file seek_error content)
            r
            (pos (length content))
            content
            w
          ≡ some v)
        × IsCut w v
            (multipart_stream boundary true
              (ra ∷ rb ∷ more)
              (seek_file seek_error content)
              (multipart_type boundary)
              (pos (length content)))
            sent
            (length (ra ∷ rb ∷ more))
            (get w.header content_type_field)
            (multipart_type boundary)
  unfolding serve_content serve_ranges checked_ranges
  serve_content-IsCut ra rb more parsed fits within small =
      let (v, sent, e, cut) = serve_multiple-IsCut (ra ∷ rb ∷ more) within small in
      let sized : ltbℤ (pos (length content)) (pos 0) ≡ false = ground arith in
      (v, sent, rw (serve_content, sized, parsed, fits) e, cut)
