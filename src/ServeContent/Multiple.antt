-- ===== src/ServeContent/Multiple.antt =====
-- The response to a request for several ranges, and what its length is counted from.
pub mod Cut
use verm.Prelude.{
  ℕ, ◌+◌, ◌*◌, ◌<◌, ◌^◌, Bool, true, false, some, List, [], ◌∷◌, ◌++◌, Bytes, codes, bytes_eq, take,
  drop, length, if◌then◌else◌, ◌≡◌, refl, sym, arith, length-take, length-drop, length-append, All,
  ap, ap₂, ◌∙◌,
}
use verm.Prelude.Int.{ℤ, pos, ◌+ℤ◌, pos_add}
use verm.Http.{Response, HttpRequest, get, set_header}
use verm.Http.Fields.{get-set_field}
use verm.ServeContent.Single.{
  set_header-Keeps, set_length-Keeps, write_ok, slice_front, ranges_other,
}
use verm.Ranges.{HttpRange, content_range}
use verm.Ranges.Bounds.{IsWithin}
use verm.ServeContent.{
  seek_at, seek_file, slice, create_part, close_parts, part_sizes, any_behind, multipart_stream,
  crlf, part_body, content_type_field, serve_multiple, ranges_mime_size, multipart_type, send,
  set_length,
}

-- A part but for its boundary and its content type.
fixed : Bool → HttpRange → ℤ → ℕ
fixed first ra size =
    length (if first then [] else crlf)
    + length (codes "--")
    + length crlf
    + length (codes "Content-Range: ")
    + length (content_range ra size)
    + length crlf
    + length (codes "Content-Type: ")
    + length crlf
    + length crlf

length-create_part :
    (boundary : Bytes) (first : Bool) (ra : HttpRange) (content_type : Bytes) (size : ℤ)
    → length (create_part boundary first ra content_type size)
      ≡ length boundary + length content_type + fixed first ra size
unfolding create_part fixed
length-create_part boundary first ra content_type size = simp length-append (omega arith)

length-close_parts : (boundary : Bytes) → length (close_parts boundary) ≡ length boundary + 8
unfolding close_parts
length-close_parts boundary = simp length-append (omega arith)

module _ (seek_error content : Bytes) (size : ℤ) where
  -- The bytes that a range within the file gives.
  length-slice :
      (ra : HttpRange) (within : IsWithin (length content) ra)
      → length (slice (drop within.first content) 0 ra.length) ≡ within.count
  unfolding slice
  length-slice ra within = rw (within.length_eq) (
      omega (
        arith,
        within.fits,
        ap length (slice_front (drop within.first content) within.count),
        length-take within.count (drop within.first content),
        length-drop within.first content,
      ))

  stream_cons :
      (boundary : Bytes) (first : Bool) (ra : HttpRange) (ranges : List HttpRange)
      (content_type : Bytes)
      → (within : IsWithin (length content) ra)
      → length (
          multipart_stream boundary first
            (ra ∷ ranges)
            (seek_file seek_error content)
            content_type
            size)
        ≡ length boundary
          + length content_type
          + fixed first ra size
          + within.count
          + length (
              multipart_stream boundary false ranges
                (seek_file seek_error content)
                content_type
                size)
  unfolding multipart_stream part_body seek_at
  stream_cons boundary first ra ranges content_type within =
      let rest =
        multipart_stream boundary false ranges (seek_file seek_error content) content_type size in
      let part = create_part boundary first ra content_type size in
      let body : part_body (seek_file seek_error content [] ra.start) ra.length rest
          ≡ slice (drop within.first content) 0 ra.length ++ rest =
        rw within.start_eq refl in
      omega (
        arith,
        length-append part (part_body (seek_file seek_error content [] ra.start) ra.length rest),
        ap length body,
        length-append (slice (drop within.first content) 0 ra.length) rest,
        length-create_part boundary first ra content_type size,
        length-slice ra within,
      )

  -- What `rangesMIMESize` counts is the length of the multipart body, for ranges within the file, if
  -- the parts carry the content type that it is given and the boundaries have one length.
  pub part_sizes-length :
      (boundary counting_boundary : Bytes) (first : Bool) (ranges : List HttpRange)
      (content_type : Bytes)
      → length boundary ≡ length counting_boundary
      → All (IsWithin (length content)) ranges
      → length
          (multipart_stream boundary first ranges (seek_file seek_error content) content_type size)
        < 2 ^ 63
      → part_sizes counting_boundary first ranges content_type size
        ≡ pos (
            length (
              multipart_stream boundary first ranges
                (seek_file seek_error content)
                content_type
                size))
  unfolding part_sizes multipart_stream
  part_sizes-length boundary counting_boundary first [] content_type same within small =
      ap pos
        (omega (arith, same, length-close_parts boundary, length-close_parts counting_boundary))
  part_sizes-length boundary counting_boundary first (ra ∷ ranges) content_type same (here, there)
        small =
      go (
        part_sizes-length boundary counting_boundary false ranges content_type same there
          (omega (arith, total, small)))
    where
      part : ℕ
      part = length (create_part counting_boundary first ra content_type size)

      rest : ℕ
      rest =
          length (
            multipart_stream boundary false ranges (seek_file seek_error content) content_type size)

      total :
          length (
            multipart_stream boundary first
              (ra ∷ ranges)
              (seek_file seek_error content)
              content_type
              size)
          ≡ rest + (part + here.count)
      total = omega (
        arith,
        same,
        stream_cons boundary first ra ranges content_type here,
        length-create_part counting_boundary first ra content_type size,
      )

      go :
          part_sizes counting_boundary false ranges content_type size ≡ pos rest
          → part_sizes counting_boundary false ranges content_type size +ℤ (pos part +ℤ ra.length)
            ≡ pos (
                length (
                  multipart_stream boundary first
                    (ra ∷ ranges)
                    (seek_file seek_error content)
                    content_type
                    size))
      go counted =
          ap₂ (λ x y. x +ℤ (pos part +ℤ y)) counted here.length_eq
          ∙ ap (λ t. pos rest +ℤ t) (pos_add part here.count (omega (arith, total, small)))
          ∙ pos_add rest (part + here.count) (omega (arith, total, small))
          ∙ ap pos (sym total)

  -- Another content type changes the length of every part.
  pub stream_retyped :
      (boundary : Bytes) (first : Bool) (ranges : List HttpRange) (short long : Bytes)
      → All (IsWithin (length content)) ranges
      → length (multipart_stream boundary first ranges (seek_file seek_error content) long size)
          + length ranges * length short
        ≡ length (multipart_stream boundary first ranges (seek_file seek_error content) short size)
          + length ranges * length long
  unfolding multipart_stream
  stream_retyped boundary first [] short long within = omega arith
  stream_retyped boundary first (ra ∷ ranges) short long (here, there) = grind (
    arith,
    stream_retyped boundary false ranges short long there,
    stream_cons boundary first ra ranges short here,
    stream_cons boundary first ra ranges long here,
  )
