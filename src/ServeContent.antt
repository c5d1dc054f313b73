-- ===== src/ServeContent.antt =====
-- `serveContent` of file_server.go and what it calls: a file, or the ranges of it that are asked for.
pub mod Single
pub mod Multiple
pub mod Conditional
mod Examples
use verm.Prelude.{
  ℕ, zero, suc, ◌+◌, Bool, true, false, ◌&&◌, ◌||◌, Option, none, some, List, [], ◌∷◌, ◌++◌, Bytes,
  codes, bytes_eq, take, drop, length, ◌==◌, if◌then◌else◌,
}
use verm.Prelude.Int.{ℤ, pos, negsuc, ◌+ℤ◌, lebℤ, ltbℤ}
use verm.Http.{Response, HttpRequest, get, set_header, write_header, write, http_error}
use verm.Ranges.{HttpRange, parse_range, sum_ranges_size, content_range, decimal}

abbrev crlf : Bytes
crlf = 13 ∷ 10 ∷ []

-- What `io.CopyN(w, content, n)` reads behind a seek to `start`: nothing if `n` is negative.
unfoldable pub slice : Bytes → ℕ → ℤ → Bytes
slice content start (pos n) = take n (drop start content)
slice content start (negsuc n) = []

-- `CreatePart` of a `multipart.Writer`: the delimiter, with a line break in front unless it is the
-- first part, and the two fields of `mimeHeader`.
unfoldable pub create_part : Bytes → Bool → HttpRange → Bytes → ℤ → Bytes
create_part boundary first ra content_type size =
    (if first then [] else crlf)
    ++ (codes "--"
        ++ (boundary
            ++ (crlf
                ++ (codes "Content-Range: "
                    ++ (content_range ra size
                        ++ (crlf
                            ++ (codes "Content-Type: " ++ (content_type ++ (crlf ++ crlf)))))))))

-- `Close` of a `multipart.Writer`
unfoldable pub close_parts : Bytes → Bytes
close_parts boundary = crlf ++ (codes "--" ++ (boundary ++ (codes "--" ++ crlf)))

-- What the loop of `rangesMIMESize` counts: the bytes written by `CreatePart`, and the lengths.
unfoldable pub part_sizes : Bytes → Bool → List HttpRange → Bytes → ℤ → ℤ
part_sizes boundary first [] content_type size = pos (length (close_parts boundary))
part_sizes boundary first (ra ∷ ranges) content_type size =
    part_sizes boundary false ranges content_type size
    +ℤ (pos (length (create_part boundary first ra content_type size)) +ℤ ra.length)

-- `rangesMIMESize`; its writer has a boundary of its own.
unfoldable pub ranges_mime_size : Bytes → List HttpRange → Bytes → ℤ → ℤ
unfolding part_sizes
ranges_mime_size boundary ranges content_type size =
    part_sizes boundary true ranges content_type size

-- What `content.Seek(start, io.SeekStart)` comes to: the text of its error, or the bytes that are read
-- from there on.
pub data Sought : Type 0 where
  refused : Bytes → Sought
  at : Bytes → Sought

-- The seeks of a file: a negative position is an error.
unfoldable pub seek_at : Bytes → Bytes → ℤ → Sought
seek_at seek_error content (pos n) = at (drop n content)
seek_at seek_error content (negsuc n) = refused seek_error

-- The content of a file; which ranges were copied before makes no difference.
abbrev pub seek_file : Bytes → Bytes → List HttpRange → ℤ → Sought
seek_file seek_error content earlier start = seek_at seek_error content start

-- The bytes of a range behind the seek to its start, and what is written behind them.
unfoldable pub part_body : Sought → ℤ → Bytes → Bytes
unfolding slice
part_body (at b) len rest = slice b 0 len ++ rest
part_body (refused message) len rest = []

-- What the goroutine writes to the pipe. An error of a seek ends it. `seek` has the ranges that were
-- copied before the seek.
unfoldable pub multipart_stream :
    Bytes → Bool → List HttpRange → (List HttpRange → ℤ → Sought) → Bytes → ℤ → Bytes
multipart_stream boundary first [] seek content_type size = close_parts boundary
multipart_stream boundary first (ra ∷ ranges) seek content_type size =
    let rest =
      multipart_stream boundary false ranges (λ earlier. seek (ra ∷ earlier)) content_type size in
    create_part boundary first ra content_type size ++ part_body (seek [] ra.start) ra.length rest

unfoldable pub multipart_type : Bytes → Bytes
multipart_type boundary = codes "multipart/byteranges; boundary=" ++ boundary

any_behind : List HttpRange → ℤ → Bool
any_behind [] size = false
any_behind (ra ∷ ranges) size = ltbℤ size ra.start || any_behind ranges size

-- The names of the header fields.
abbrev pub content_type_field : Bytes
content_type_field = codes "Content-Type"

abbrev pub content_range_field : Bytes
content_range_field = codes "Content-Range"

-- `Content-Length`, unless the body has an encoding
unfoldable pub set_length : ℤ → Response → Response
set_length send_size w =
    if bytes_eq (get w.header (codes "Content-Encoding")) []
    then set_header (codes "Content-Length") (decimal send_size) w
    else w

-- For a method other than HEAD, `io.CopyN(w, sendContent, sendSize)`
unfoldable pub send_body : HttpRequest → ℤ → Bytes → Response → Response
send_body r send_size source w =
    if bytes_eq r.method (codes "HEAD") then w else write (slice source 0 send_size) w

-- The response when the code, the size and the source of the bytes are settled; `sized` is the test
-- `size >= 0`.
unfoldable pub send : HttpRequest → Bool → ℕ → ℤ → Bytes → Response → Response
send r true code send_size source w = send_body r send_size source (
    write_header code (set_length send_size (set_header (codes "Accept-Ranges") (codes "bytes") w)))
send r false code send_size source w = send_body r send_size source (write_header code w)

-- `boundary` and `counting_boundary` are the random boundaries of the two writers, and `seek` is the
-- method of the content, behind the ranges that were copied from it; its bytes, where it stands, are an argument of the functions.
module _ (boundary counting_boundary : Bytes) (seek : List HttpRange → ℤ → Sought) where
  abbrev range_error : Response → Response
  range_error w = http_error (codes "invalid range") 416 w

  -- One range: `Content-Range`, and status 206.
  unfoldable pub serve_single : HttpRequest → ℤ → Bytes → HttpRange → Response → Response
  unfolding send
  serve_single r size content ra w = elim (seek [] ra.start) [
    | refused message ↦ http_error message 416 w
    | at b ↦ send r true 206 ra.length b (set_header content_range_field (content_range ra size) w)
  ]

  -- Several ranges. A start behind the end of the file dereferences the `err` that is nil: `none`.
  unfoldable pub serve_multiple :
      HttpRequest → ℤ → Bytes → List HttpRange → Response → Option Response
  unfolding any_behind
  serve_multiple r size content ranges w =
      let send_size =
        ranges_mime_size counting_boundary ranges (get w.header content_type_field) size in
      let v = set_header content_type_field (multipart_type boundary) w in
      if any_behind ranges size
      then none
      else some (
          send r true 206 send_size
            (multipart_stream boundary true ranges seek (get v.header content_type_field) size) v)

  -- The `switch` on the number of ranges.
  unfoldable pub serve_ranges :
      HttpRequest → ℤ → Bytes → List HttpRange → Response → Option Response
  serve_ranges r size content [] w = some (send r true 200 size content w)
  serve_ranges r size content (ra ∷ []) w = some (serve_single r size content ra w)
  serve_ranges r size content (ra ∷ rb ∷ ranges) w =
      serve_multiple r size content (ra ∷ rb ∷ ranges) w

  -- Ranges that are larger than the file together are ignored.
  unfoldable pub checked_ranges : ℤ → List HttpRange → List HttpRange
  checked_ranges size ranges = if ltbℤ size (sum_ranges_size ranges) then [] else ranges

  -- `serveContent`; `none` is a panic.
  unfoldable pub serve_content : HttpRequest → ℤ → Bytes → Response → Option Response
  serve_content r size content w =
      if ltbℤ size (pos 0)
      then some (send r false 200 size content w)
      else elim (parse_range (get r.header (codes "Range")) size) [
        | none ↦ some (range_error w)
        | some ranges ↦ serve_ranges r size content (checked_ranges size ranges) w
      ]
