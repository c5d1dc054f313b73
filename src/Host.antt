-- ===== src/Host.antt =====
-- What the program takes from the operating system and from libraries that are not its own: the
-- outcomes of system calls, what other processes do meanwhile, gzip, SHA-256 and `mime`.
use verm.Prelude.{
  ℕ, Bool, true, false, [], some, Option, Bytes, ◌≡◌, ◌++◌, none, codes, length, All, ◌<◌,
}
use verm.Storage.{Storage, find, Keeps}
use verm.Stream.{Gunzip, Stream}

pub record Host : Type 0 where
  -- whether `os.MkdirAll`, `ioutil.TempFile` and `os.Link` fail at a path (`os.Link` for another
  -- reason than that the path exists), whether `tempFile.Sync` fails, and whether `tempFile.Seek` fails
  -- when the temporary file is to be compared with the file of that name; whether writing to the
  -- temporary file of that name fails while a gzip header is read, or behind it
  pub mkdir_fails : Bytes → Bool
  pub tempfile_fails : Bytes → Bool
  pub link_fails : Bytes → Bool
  pub header_write_fails : Bytes → Bool
  pub write_fails : Bytes → Bool
  pub seek_fails : Bytes → Bool
  pub sync_fails : Bool
  -- the name that `ioutil.TempFile` makes in a directory
  pub temp_name : Bytes → Storage → Bytes
  -- what other requests and processes change between the first look at the file of an attempt and
  -- the link of that attempt
  pub interfere : ℕ → Storage → Storage
  -- `gzip.NewReader`, `sha256.New`, and the media type of `mime.ParseMediaType`
  pub gunzip : Gunzip
  pub sha256 : Bytes → Bytes
  pub parse_media_type : Bytes → Option Bytes

-- What the program relies on: temporary files are new files called `_upload…`, other processes keep
-- the files that there are, and a SHA-256 hash has 32 bytes.
pub record IsHost (h : Host) : Type 0 where
  pub temp_free : (d : Bytes) (s : Storage) → find (h.temp_name d s) s ≡ none
  pub temp_tail : Bytes → Storage → Bytes
  pub temp_form :
      (d : Bytes) (s : Storage) → h.temp_name d s ≡ d ++ (codes "/_upload" ++ temp_tail d s)
  pub interfere_keeps : (n : ℕ) (s : Storage) → Keeps s (h.interfere n s)
  -- a stream that fails at once has no gzip header
  pub gunzip_broken : h.gunzip (record { bytes = []; fails = true }) ≡ none
  -- a decoded stream that ends well comes from a stream that ends well
  pub gunzip_whole : (s d : Stream) → h.gunzip s ≡ some d → d.fails ≡ false → s.fails ≡ false
  pub sha256_length : (b : Bytes) → length (h.sha256 b) ≡ 32
  pub sha256_bytes : (b : Bytes) → All (λ x. x < 256) (h.sha256 b)
