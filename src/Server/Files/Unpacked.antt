-- ===== src/Server/Files/Unpacked.antt =====
-- A range of a file that is stored compressed, for a client that takes no gzip.
use verm.Prelude.{
  ℕ, suc, ◌<◌, ◌^◌, false, some, List, [], ◌∷◌, Bytes, codes, bytes_eq, drop, length, ◌≡◌, refl, ap,
  ◌∙◌, arith,
}
use verm.Prelude.Int.{ℤ, pos}
use verm.Stream.{Stream, whole, ReadEnd}
use verm.Http.{HttpRequest, Response, get}
use verm.Ranges.{HttpRange, parse_range}
use verm.Ranges.Bounds.{IsWithin}
use verm.ServeContent.{at, serve_content}
use verm.ServeContent.Single.{IsPartial, serve_content-seeking}
use verm.Seeker.{bind_option, GzipSeeker, new_gzip_seeker, seek, size}
use verm.Seeker.Refines.{IsSource, Represents, IsSought, within, behind}
use verm.Seeker.Refines.Seeks.{seek-IsSought}
use verm.Seeker.Refines.Session.{read_on_lem, new_gzip_seeker-Represents}
use verm.Server.Files.{
  Outside, decoder, sought, after_ranges, seek_seeker, serve_seeker, serve_unpacked,
  unpack_and_serve_content,
}

module _ (o : Outside) (compressed content : Bytes) (rest : List ℕ → Bytes)
    (lawful : IsSource (decoder o compressed) content rest) (small : length content < 2 ^ 63) where
  -- A position within the bytes is found, and what is read there are the bytes behind it.
  sought_within :
      (q : ℕ) (s : GzipSeeker (List ℕ))
      → q < length content
      → Represents (decoder o compressed) content rest s 0
      → sought o compressed
          (suc (length content))
          (seek (decoder o compressed) (suc (length content)) (pos q) 0 s)
        ≡ at (drop q content)
  unfolding sought
  sought_within q s lt h =
      let (out, e, f) =
        seek-IsSought (decoder o compressed) content rest lawful small (suc (length content)) 0
          (pos q) 0 (pos q) s h (omega (arith, small)) refl (omega arith) in
      ap (sought o compressed (suc (length content))) e ∙ go out f
    where
      go :
          (out : ℤ × ReadEnd × GzipSeeker (List ℕ))
          → IsSought (decoder o compressed) content rest (pos q) out
          → sought o compressed (suc (length content)) (some out) ≡ at (drop q content)
      go _ (within {s} i) = ap at (
          read_on_lem (decoder o compressed) content rest lawful small (suc (length content)) q s i
            (omega arith))
      go _ (behind le i) = absurd (omega (arith, lt))

  seeker_serves :
      (r : HttpRequest) (w : Response) (s : GzipSeeker (List ℕ))
      → Represents (decoder o compressed) content rest s 0
      → serve_seeker o r compressed content (some (some s)) w
        ≡ serve_content o.boundary o.counting_boundary
            (seek_seeker o compressed (suc (length content)) s)
            r
            (pos (length content))
            content
            w
  unfolding serve_seeker size
  seeker_serves r w s h =
      ap
        (λ z.
          serve_content o.boundary o.counting_boundary
            (seek_seeker o compressed (suc (length content)) s) r z content w)
        h.size_eq

  unpacked_serves :
      (r : HttpRequest) (unpacked : Stream) (w : Response)
      → unpacked.bytes ≡ content
      → bytes_eq (get r.header (codes "Range")) [] ≡ false
      → serve_unpacked o r compressed unpacked w
        ≡ serve_seeker o r compressed content
            (new_gzip_seeker (decoder o compressed) (suc (length content)) [])
            w
  unfolding serve_unpacked
  unpacked_serves r unpacked w all ranged =
      rw (serve_unpacked, ranged)
        (ap
          (λ b.
            serve_seeker o r compressed b
              (new_gzip_seeker (decoder o compressed) (suc (length b)) []) w)
          all)

  -- A request other than HEAD for one range that is not empty and lies within the decoded bytes is
  -- answered with status 206 and the decoded bytes of the range, if the decoder delivers these bytes in
  -- whatever portions, and no status is sent yet.
  pub unpack-IsPartial :
      (r : HttpRequest) (unpacked : Stream) (ra : HttpRange) (w : Response)
      → o.gunzip (whole compressed) ≡ some unpacked
      → unpacked.bytes ≡ content
      → rest [] ≡ content
      → w.status ≡ 0
      → bytes_eq r.method (codes "HEAD") ≡ false
      → bytes_eq (get r.header (codes "Range")) [] ≡ false
      → parse_range (get r.header (codes "Range")) (pos (length content)) ≡ some (ra ∷ [])
      → (part : IsWithin (length content) ra) → 0 < part.count
      → (v : Response) × (unpack_and_serve_content o r compressed w ≡ some v)
        × IsPartial content ra part.first part.count w v
  unfolding unpack_and_serve_content seek_seeker after_ranges bind_option
  unpack-IsPartial r unpacked ra w decoded all fresh_decoder fresh not_head ranged parsed part
        filled =
      let (s, made, h) =
        new_gzip_seeker-Represents (decoder o compressed) content rest lawful small
          (suc (length content)) [] fresh_decoder (omega arith) in
      let (v, e, f) =
        serve_content-seeking r w fresh not_head o.boundary o.counting_boundary content
          (seek_seeker o compressed (suc (length content)) s) ra small parsed part
          (sought_within part.first s (omega (arith, filled, part.fits)) h) in
      (
        v,
        rw (unpack_and_serve_content, decoded)
            (unpacked_serves r unpacked w all ranged
              ∙ ap (λ z. serve_seeker o r compressed content z w) made
              ∙ seeker_serves r w s h
              ∙ e),
        f,
      )
