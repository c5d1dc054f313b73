-- ===== src/Stream.antt =====
-- Go's `io.Reader` as the program meets it: the bytes that it delivers, and how it ends. Also
-- content_encoding.go, and the comparison of two streams in file_uploader.go.
pub mod Compare
mod Examples
use verm.Prelude.{
  ℕ, zero, suc, Bool, true, false, ◌&&◌, ◌||◌, not, Option, none, some, [], Bytes, codes, bytes_eq,
  length, take, drop, leb, ◌==◌, if◌then◌else◌,
}
use verm.Errors.{Result, ok, err, Error, unknown_encoding, bad_gzip}

pub record Stream : Type 0 where
  pub bytes : Bytes
  -- whether the stream ends with an error and not with `io.EOF`
  pub fails : Bool

abbrev pub whole : Bytes → Stream
whole b = record { bytes = b; fails = false }

-- `gzip.NewReader`: `none` where the header is refused, else the stream of the decoded bytes.
abbrev pub Gunzip : Type 0
Gunzip = Stream → Option Stream

abbrev pub gzip : Bytes
gzip = codes "gzip"

abbrev open_gzip : Option Stream → Result Stream
open_gzip none = err bad_gzip
open_gzip (some s) = ok s

-- `EncodingDecoder`
unfoldable pub encoding_decoder : Gunzip → Bytes → Stream → Result Stream
encoding_decoder gunzip encoding input =
    if bytes_eq encoding []
    then ok input
    else if bytes_eq encoding gzip
    then open_gzip (gunzip input)
    else err (unknown_encoding encoding)

-- `EncodingSuffix`
unfoldable pub encoding_suffix : Bytes → Bytes
encoding_suffix encoding = if bytes_eq encoding gzip then codes ".gz" else []

-- The `err` that `io.ReadFull` returns.
pub data ReadEnd : Type 0 where
  nil eof unexpected_eof failure : ReadEnd

-- How `io.ReadFull` ends when it has read fewer bytes than it was asked for.
short_end : Bool → ℕ → ReadEnd
short_end true n = failure
short_end false zero = eof
short_end false (suc n) = unexpected_eof

-- `io.ReadFull(s, buf)` with a buffer of `n` bytes: what was read, the error, and the rest.
unfoldable pub read_full : ℕ → Stream → Bytes × ReadEnd × Stream
unfolding short_end
read_full n s = (
  take n s.bytes,
  (if leb n (length s.bytes) then nil else short_end s.fails (length s.bytes)),
  record s { bytes = drop n s.bytes },
)

is_eof : ReadEnd → Bool
is_eof eof = true
is_eof _ = false

-- `err != nil && err != io.ErrUnexpectedEOF`
is_bad : ReadEnd → Bool
is_bad nil = false
is_bad unexpected_eof = false
is_bad _ = true

-- What one round of the loop in `sameContents` decides: a result, or one more round.
unfoldable pub compare_round : Bytes → ReadEnd → Bytes → ReadEnd → Option Bool
unfolding is_eof is_bad
compare_round b1 e1 b2 e2 =
    if length b1 == 0 && length b2 == 0
    then some (is_eof e1 && is_eof e2)
    else if not (length b1 == length b2) || not (bytes_eq b1 b2) || is_bad e1 || is_bad e2
    then some false
    else none

-- The loop, with the size of its buffers; `none` says that the fuel ran out.
unfoldable pub same_contents_loop : ℕ → ℕ → Stream → Stream → Option Bool
same_contents_loop zero size s1 s2 = none
same_contents_loop (suc f) size s1 s2 =
    let (b1, e1, r1) = read_full size s1 in
    let (b2, e2, r2) = read_full size s2 in
    elim (compare_round b1 e1 b2 e2) [ some r ↦ some r | none ↦ same_contents_loop f size r1 r2 ]

abbrev pub buffer_size : ℕ
buffer_size = 65536

-- `sameContents`
unfoldable pub same_contents : Stream → Stream → Option Bool
same_contents s1 s2 = same_contents_loop (suc (length s1.bytes)) buffer_size s1 s2
