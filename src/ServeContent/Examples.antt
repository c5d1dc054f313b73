-- ===== src/ServeContent/Examples.antt =====
-- Requests for ranges of a small file.
use verm.Prelude.{
  ℕ, ◌<◌, true, false, none, some, [], ◌∷◌, Bytes, codes, ◌≡◌, ◌⊎◌, ◌↔◌, refl, arith, bytes_eq,
  has_prefix, index_byte, split, trim_space, take, drop, length,
}
use verm.Prelude.Decimal.{itoa}
use verm.Prelude.Int.{pos, ltbℤ, ◌+ℤ◌, ◌-ℤ◌}
use verm.Http.{Response, HttpRequest, empty_response, get}
use verm.Ranges.{HttpRange, parse_range, spec_range, parse_int, content_range, sum_ranges_size}
use verm.Ranges.Bounds.{IsWithin}
use verm.ServeContent.{
  seek_at, seek_file, serve_content, multipart_stream, multipart_type, content_type_field,
  serve_multiple, part_sizes, any_behind, create_part, close_parts, part_body, slice, serve_ranges,
  checked_ranges,
}
use verm.ServeContent.Single.{IsPartial, serve_content-IsPartial}
use verm.ServeContent.Multiple.{part_sizes-length}
use verm.ServeContent.Multiple.Cut.{IsCut, serve_content-IsCut}
use verm.ServeContent.Conditional.{check_etag, check_etag_iff}

abbrev content : Bytes
content = codes "hello world"

abbrev ranged : HttpRequest
ranged = record {
  method = codes "GET";
  path = codes "/a.txt";
  forward_values = [];
  header =
      (codes "Range", codes "bytes=2-4")
      ∷ (codes "If-Range", codes "other")
      ∷ (codes "If-None-Match", codes "*")
      ∷ [];
}

abbrev middle : HttpRange
middle = record { start = pos 2; length = pos 3 }

abbrev front : HttpRange
front = record { start = pos 0; length = pos 1 }

abbrev middle_within : IsWithin 11 middle
middle_within = record {
  first = 2;
  count = 3;
  start_eq = refl;
  length_eq = refl;
  fits = omega arith;
}

abbrev front_within : IsWithin 11 front
front_within = record {
  first = 0;
  count = 1;
  start_eq = refl;
  length_eq = refl;
  fits = omega arith;
}

not_head : bytes_eq (codes "GET") (codes "HEAD") ≡ false
unfolding bytes_eq
not_head = refl

parsed : parse_range (get ranged.header (codes "Range")) (pos 11) ≡ some (middle ∷ [])
unfolding get parse_range spec_range parse_int split bytes_eq has_prefix index_byte trim_space take
    drop ◌+ℤ◌ ◌-ℤ◌
parsed = refl

serve_content-IsPartial_example :
    (v : Response) × (serve_content [] []
        (seek_file [] content)
        ranged
        (pos 11)
        content
        empty_response
      ≡ some v)
    × IsPartial content middle 2 3 empty_response v
serve_content-IsPartial_example =
    serve_content-IsPartial ranged empty_response refl not_head [] [] [] content middle
      (omega arith) parsed middle_within

check_etag_iff_example : ((check_etag ranged (codes "/a.txt") empty_response).1 ≡ true) ↔ (
    ((ranged.method ≡ codes "GET") ⊎ (ranged.method ≡ codes "HEAD"))
    × ((get ranged.header (codes "If-None-Match") ≡ codes "/a.txt")
        ⊎ (get ranged.header (codes "If-None-Match") ≡ codes "*")))
check_etag_iff_example = check_etag_iff ranged (codes "/a.txt") empty_response (λ e. cc)

stream_small :
    length (
      multipart_stream
        (codes "b1")
        true
        (front ∷ middle ∷ [])
        (seek_file [] content)
        (codes "text/plain")
        (pos 11))
    < 200
unfolding multipart_stream create_part close_parts part_body seek_at slice content_range itoa ◌+ℤ◌
    ◌-ℤ◌ take drop
stream_small = ground arith

part_sizes-length_example :
    part_sizes (codes "b2") true (front ∷ middle ∷ []) (codes "text/plain") (pos 11)
    ≡ pos (
        length (
          multipart_stream
            (codes "b1")
            true
            (front ∷ middle ∷ [])
            (seek_file [] content)
            (codes "text/plain")
            (pos 11)))
part_sizes-length_example =
    part_sizes-length [] content (pos 11) (codes "b1") (codes "b2") true (front ∷ middle ∷ [])
      (codes "text/plain") refl (front_within, (middle_within, tt)) (omega (arith, stream_small))

abbrev typed : Response
typed = record { status = 0; header = (codes "Content-Type", codes "text/plain") ∷ []; body = [] }

typed_lem : get typed.header content_type_field ≡ codes "text/plain"
unfolding get bytes_eq
typed_lem = refl

abbrev several : HttpRequest
several = record ranged { header = (codes "Range", codes "bytes=0-0,2-4") ∷ [] }

parsed_several :
    parse_range (get several.header (codes "Range")) (pos 11) ≡ some (front ∷ middle ∷ [])
unfolding get parse_range spec_range parse_int split bytes_eq has_prefix index_byte trim_space take
    drop ◌+ℤ◌ ◌-ℤ◌
parsed_several = refl

fits_several : ltbℤ (pos 11) (sum_ranges_size (front ∷ middle ∷ [])) ≡ false
unfolding sum_ranges_size ◌+ℤ◌
fits_several = refl

serve_content-IsCut_example :
    (v : Response) × (sent : ℕ) × (serve_content
        (codes "b1")
        (codes "b2")
        (seek_file [] content)
        several
        (pos 11)
        content
        typed
      ≡ some v)
    × IsCut typed v
        (multipart_stream
          (codes "b1")
          true
          (front ∷ middle ∷ [])
          (seek_file [] content)
          (multipart_type (codes "b1"))
          (pos 11))
        sent
        2
        (get typed.header content_type_field)
        (multipart_type (codes "b1"))
serve_content-IsCut_example =
    serve_content-IsCut several typed refl not_head (codes "b1") (codes "b2") [] content refl front
      middle [] parsed_several fits_several (front_within, (middle_within, tt))
      (rw typed_lem (omega (arith, stream_small)))

abbrev backwards : HttpRequest
backwards = record {
  method = codes "GET";
  path = codes "/a.txt";
  forward_values = [];
  header = (codes "Range", codes "bytes=0-0,--5") ∷ [];
}

-- A range that starts behind the end of the file, next to another, makes the handler panic.
panics : serve_content [] [] (seek_file [] content) backwards (pos 11) content empty_response ≡ none
unfolding serve_content serve_ranges checked_ranges get parse_range spec_range parse_int split
    bytes_eq has_prefix index_byte trim_space take drop ◌+ℤ◌ ◌-ℤ◌ serve_multiple any_behind
    sum_ranges_size
panics = refl
