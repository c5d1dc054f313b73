-- ===== src/ServeContent/Single.antt =====
-- The response to a request for one range that lies within the file.
use verm.Prelude.{
  List, ℕ, ◌+◌, ◌≤◌, ◌<◌, ◌^◌, Bool, true, false, some, [], ◌∷◌, ◌++◌, Bytes, codes, bytes_eq, take,
  drop, length, if◌then◌else◌, ◌≡◌, refl, arith, length-take, length-drop, ◌∙◌, ap, ap₂,
}
use verm.Prelude.Int.{ℤ, pos, ◌+ℤ◌, wrap64, ltbℤ}
use verm.Http.{Response, HttpRequest, get, set_header, write_header, write}
use verm.Http.Fields.{get-set_field, get-set_other}
use verm.Ranges.{HttpRange, parse_range, sum_ranges_size, sum_from, content_range, decimal}
use verm.Ranges.Bounds.{IsWithin}
use verm.ServeContent.{
  seek_at, Sought, at, seek_file, slice, send, set_length, send_body, serve_single, serve_ranges,
  checked_ranges, serve_content, content_range_field,
}

-- The response carries the bytes from `first` on, `count` of them, and says so.
pub record IsPartial (content : Bytes) (ra : HttpRange) (first count : ℕ) (w v : Response)
    : Type 0 where
  pub status : v.status ≡ 206
  pub body : v.body ≡ w.body ++ take count (drop first content)
  pub complete : length (take count (drop first content)) ≡ count
  pub says : get v.header content_range_field ≡ content_range ra (pos (length content))

pub slice_front : (s : Bytes) (count : ℕ) → slice s 0 (pos count) ≡ take count s
unfolding slice drop
slice_front [] count = refl
slice_front (x ∷ s) count = refl

-- `set_length` leaves all but the field it sets.
pub record Keeps (w v : Response) : Type 0 where
  pub status_eq : v.status ≡ w.status
  pub body_eq : v.body ≡ w.body
  pub range_eq : get v.header content_range_field ≡ get w.header content_range_field

pub set_header-Keeps :
    (name value : Bytes) (w : Response)
    → bytes_eq name content_range_field ≡ false
    → Keeps w (set_header name value w)
unfolding set_header
set_header-Keeps name value w d = record {
  status_eq = refl;
  body_eq = refl;
  range_eq = get-set_other w.header name value content_range_field d;
}

length_other : bytes_eq (codes "Content-Length") content_range_field ≡ false
unfolding bytes_eq
length_other = refl

pub set_length-Keeps : (size : ℤ) (w : Response) → Keeps w (set_length size w)
unfolding set_length
set_length-Keeps size w = branch (bytes_eq (get w.header (codes "Content-Encoding")) [])
  where
    branch :
        (b : Bool) → Keeps w (if b then set_header (codes "Content-Length") (decimal size) w else w)
    branch true = set_header-Keeps (codes "Content-Length") (decimal size) w length_other
    branch false = record { status_eq = refl; body_eq = refl; range_eq = refl }

pub ranges_other : bytes_eq (codes "Accept-Ranges") content_range_field ≡ false
unfolding bytes_eq
ranges_other = refl

-- The status and the body of a fresh response.
pub write_ok :
    (r : HttpRequest) (size : ℤ) (source : Bytes) (v : Response)
    → v.status ≡ 0
    → bytes_eq r.method (codes "HEAD") ≡ false
    → ((send_body r size source (write_header 206 v)).status ≡ 206)
      × ((send_body r size source (write_header 206 v)).body ≡ v.body ++ slice source 0 size)
      × ((send_body r size source (write_header 206 v)).header ≡ v.header)
unfolding send_body write_header write
write_ok r size source v fresh not_head = rw (fresh, not_head) (refl, refl, refl)

module _ (r : HttpRequest) (w : Response) (fresh : w.status ≡ 0)
    (not_head : bytes_eq r.method (codes "HEAD") ≡ false) where
  send_ok :
      (content : Bytes) (ra : HttpRange) (first count : ℕ)
      → first + count ≤ length content
      → IsPartial content ra first count w (
          send r true 206
            (pos count)
            (drop first content)
            (set_header content_range_field (content_range ra (pos (length content))) w))
  unfolding send set_header
  send_ok content ra first count fits =
      let u = set_header content_range_field (content_range ra (pos (length content))) w in
      let ranges = set_header (codes "Accept-Ranges") (codes "bytes") u in
      let v = set_length (pos count) ranges in
      let a = set_header-Keeps (codes "Accept-Ranges") (codes "bytes") u ranges_other in
      let b = set_length-Keeps (pos count) ranges in
      let (e, f, g) =
        write_ok r (pos count) (drop first content) v (b.status_eq ∙ a.status_eq ∙ fresh)
          not_head in
      record {
        status = e;
        body =
            f
            ∙ ap₂ (λ x y. x ++ y) (b.body_eq ∙ a.body_eq) (slice_front (drop first content) count);
        complete = omega (arith, length-take count (drop first content), length-drop first content);
        says =
            ap (λ h. get h content_range_field) g
            ∙ b.range_eq
            ∙ a.range_eq
            ∙ get-set_field w.header content_range_field _;
      }

  sought_sends :
      (boundary counting_boundary content : Bytes) (seek : List HttpRange → ℤ → Sought)
      (ra : HttpRange) (b : Bytes)
      → seek [] ra.start ≡ at b
      → serve_single boundary counting_boundary seek r (pos (length content)) content ra w
        ≡ send r true 206 ra.length b
            (set_header content_range_field (content_range ra (pos (length content))) w)
  unfolding serve_single
  sought_sends boundary counting_boundary content seek ra b e = rw (serve_single, e) refl

  -- Any content whose seek to the start of the range succeeds is answered with the range.
  pub serve_content-seeking :
      (boundary counting_boundary content : Bytes) (seek : List HttpRange → ℤ → Sought)
      (ra : HttpRange)
      → length content < 2 ^ 63
      → parse_range (get r.header (codes "Range")) (pos (length content)) ≡ some (ra ∷ [])
      → (within : IsWithin (length content) ra)
      → seek [] (pos within.first) ≡ at (drop within.first content)
      → (v : Response) × (serve_content boundary counting_boundary seek r
            (pos (length content))
            content
            w
          ≡ some v)
        × IsPartial content ra within.first within.count w v
  unfolding serve_content checked_ranges serve_ranges serve_single sum_ranges_size sum_from ◌+ℤ◌
      wrap64
  serve_content-seeking boundary counting_boundary content seek ra small parsed within sought =
      let n = length content in
      let u = set_header content_range_field (content_range ra (pos n)) w in
      let checked : checked_ranges boundary counting_boundary seek (pos n) (ra ∷ []) ≡ ra ∷ [] =
        rw (within.length_eq) (ground (arith, within.fits)) in
      let sized : ltbℤ (pos n) (pos 0) ≡ false = ground arith in
      (
        _,
        rw (sized, parsed, checked)
            (ap some (
              sought_sends boundary counting_boundary content seek ra (drop within.first content)
                (ap (seek []) within.start_eq ∙ sought)
              ∙ ap (λ len. send r true 206 len (drop within.first content) u) within.length_eq)),
        send_ok content ra within.first within.count within.fits,
      )

  -- A request for one range that lies within the file is answered with status 206, with the bytes of
  -- the range, all of them and no others, and with a `Content-Range` that names them. The request is
  -- not HEAD, and no status is sent yet.
  pub serve_content-IsPartial :
      (boundary counting_boundary seek_error content : Bytes) (ra : HttpRange)
      → length content < 2 ^ 63
      → parse_range (get r.header (codes "Range")) (pos (length content)) ≡ some (ra ∷ [])
      → (within : IsWithin (length content) ra)
      → (v : Response) × (serve_content boundary counting_boundary
            (seek_file seek_error content)
            r
            (pos (length content))
            content
            w
          ≡ some v)
        × IsPartial content ra within.first within.count w v
  unfolding seek_at
  serve_content-IsPartial boundary counting_boundary seek_error content ra small parsed within =
      serve_content-seeking boundary counting_boundary content (seek_file seek_error content) ra
        small parsed within refl
