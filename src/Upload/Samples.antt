-- ===== src/Upload/Samples.antt =====
-- A small host for tests: a stand-in for SHA-256, gzip that adds a byte, and new names.
use verm.Prelude.{
  ℕ, suc, ◌+◌, ◌%◌, ◌<◌, true, false, Option, none, some, [], ◌∷◌, ◌++◌, Bytes, codes, ◌≡◌, refl,
  arith, bytes_eq, bytes_eq_iff, length, length-append, All, zero, Bool-cases, inl, inr, ap,
  if◌then◌else◌, ◌==◌,
}
use verm.Storage.{Storage, find}
use verm.Stream.{Stream, whole}
use verm.Storage.Laws.{Keeps-refl}
use verm.Host.{Host, IsHost}

-- A stand-in for SHA-256: the length of the contents, as 32 bytes.
abbrev pub zeros : ℕ → Bytes
zeros n =
    n % 256
    ∷ 0
    ∷ 0
    ∷ 0
    ∷ 0
    ∷ 0
    ∷ 0
    ∷ 0
    ∷ 0
    ∷ 0
    ∷ 0
    ∷ 0
    ∷ 0
    ∷ 0
    ∷ 0
    ∷ 0
    ∷ 0
    ∷ 0
    ∷ 0
    ∷ 0
    ∷ 0
    ∷ 0
    ∷ 0
    ∷ 0
    ∷ 0
    ∷ 0
    ∷ 0
    ∷ 0
    ∷ 0
    ∷ 0
    ∷ 0
    ∷ 0
    ∷ []

pub zeros_bytes : (n : ℕ) → All (λ x. x < 256) (zeros n)
zeros_bytes n = omega arith

-- A name longer than every name in the store is free.
unfoldable pub longest : Storage → ℕ
longest [] = 0
longest ((p, n) ∷ s) = length p + longest s

unfoldable pub padding : ℕ → Bytes
padding zero = b'0' ∷ []
padding (suc n) = b'0' ∷ padding n

abbrev pub new_name : Bytes → Storage → Bytes
new_name d s = d ++ (codes "/_upload" ++ padding (longest s))

length-padding : (n : ℕ) → n < length (padding n)
unfolding padding
length-padding zero = omega arith
length-padding (suc n) = omega (arith, length-padding n)

find_long : (p : Bytes) (s : Storage) → longest s < length p → find p s ≡ none
unfolding find longest
find_long p [] h = refl
find_long p ((q, n) ∷ s) h = elim (Bool-cases (bytes_eq q p)) [
  | inl e ↦ absurd (omega (arith, ap length ((bytes_eq_iff q p).0 e)))
  | inr e ↦ rw e (find_long p s (omega arith))
]

new_name_free : (d : Bytes) (s : Storage) → find (new_name d s) s ≡ none
new_name_free d s = find_long (new_name d s) s (
    omega (
      arith,
      length-append d (codes "/_upload" ++ padding (longest s)),
      length-padding (longest s),
    ))

-- A stand-in for gzip: the decoder wants, and drops, a first byte 31.
strip_header : Bytes → Option Stream
strip_header [] = none
strip_header (c ∷ b) = if c == 31 then some (whole b) else none

unfoldable pub gunzip : Stream → Option Stream
unfolding strip_header
gunzip s = if s.fails then none else strip_header s.bytes

gunzip_whole : (s d : Stream) → gunzip s ≡ some d → d.fails ≡ false → s.fails ≡ false
unfolding gunzip
gunzip_whole s d e f = ground arith

gunzip_broken : gunzip (record { bytes = []; fails = true }) ≡ none
unfolding gunzip
gunzip_broken = refl

-- A system on which no call fails and no other process runs.
abbrev pub host : Host
host = record {
  mkdir_fails = λ _. false;
  tempfile_fails = λ _. false;
  link_fails = λ _. false;
  header_write_fails = λ p. false;
  write_fails = λ p. false;
  seek_fails = λ p. false;
  sync_fails = false;
  temp_name = new_name;
  interfere = λ _ s. s;
  gunzip = gunzip;
  sha256 = λ b. zeros (length b);
  parse_media_type = λ t. some t;
}

pub host-IsHost : IsHost host
host-IsHost = record {
  temp_free = new_name_free;
  temp_tail = λ d s. padding (longest s);
  temp_form = λ d s. refl;
  interfere_keeps = λ n s. Keeps-refl s;
  gunzip_broken = gunzip_broken;
  gunzip_whole = gunzip_whole;
  sha256_length = λ b. refl;
  sha256_bytes = λ b. zeros_bytes (length b);
}
