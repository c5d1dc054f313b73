-- ===== src/ServeContent/Conditional.antt =====
-- `checkLastModified` and `checkETag` of file_server.go: the tests of the fields of a conditional request.
use verm.Prelude.{
  ℕ, ◌+◌, Bool, true, false, not, ◌&&◌, ◌||◌, Option, none, some, [], Bytes, codes, ltb, bytes_eq,
  bytes_eq_iff, ◌==◌, if◌then◌else◌, ◌≡◌, ◌≢◌, ◌↔◌, ◌⊎◌, arith,
}
use verm.Http.{Response, HttpRequest, get, del}

-- `checkLastModified`: times are nanoseconds, 0 is the zero time; `parse_time` is `time.Parse` at
-- `http.TimeFormat`.
unfoldable pub check_last_modified : (Bytes → Option ℕ) → HttpRequest → ℕ → Bool
check_last_modified parse_time r modtime =
    if modtime == 0 then false else elim (parse_time (get r.header (codes "If-Modified-Since"))) [
      | none ↦ false
      | some t ↦ ltb modtime (t + 1000000000)
    ]

-- The first test of `checkETag` changes the fields of the response.
unfoldable pub check_if_range : HttpRequest → Bytes → Response → Response
check_if_range r etag w =
    let ir = get r.header (codes "If-Range") in
    if not (bytes_eq ir []) && not (bytes_eq ir etag)
    then record w { header = del w.header (codes "Range") }
    else w

unfoldable pub check_if_none_match : HttpRequest → Bytes → Bool
check_if_none_match r etag =
    let inm = get r.header (codes "If-None-Match") in
    if bytes_eq inm []
    then false
    else if bytes_eq etag []
    then false
    else if not (bytes_eq r.method (codes "GET")) && not (bytes_eq r.method (codes "HEAD"))
    then false
    else bytes_eq inm etag || bytes_eq inm (codes "*")

-- `checkETag`: the response, and whether the request is completed.
unfoldable pub check_etag : HttpRequest → Bytes → Response → Response × Bool
unfolding check_if_range check_if_none_match
check_etag r etag w = (check_if_range r etag w, check_if_none_match r etag)

-- The answer "not modified" is given exactly to a GET or HEAD request whose `If-None-Match` is the tag
-- of the file, or `*`, for a file whose tag is not empty.
pub check_etag_iff :
    (r : HttpRequest) (etag : Bytes) (w : Response)
    → etag ≢ []
    → ((check_etag r etag w).1 ≡ true) ↔ (
        ((r.method ≡ codes "GET") ⊎ (r.method ≡ codes "HEAD"))
        × ((get r.header (codes "If-None-Match") ≡ etag)
            ⊎ (get r.header (codes "If-None-Match") ≡ codes "*")))
unfolding check_etag check_if_none_match
check_etag_iff r etag w tagged =
    let inm = get r.header (codes "If-None-Match") in
    ground (
      arith,
      bytes_eq_iff inm [],
      bytes_eq_iff etag [],
      bytes_eq_iff r.method (codes "GET"),
      bytes_eq_iff r.method (codes "HEAD"),
      bytes_eq_iff inm etag,
      bytes_eq_iff inm (codes "*"),
    )
