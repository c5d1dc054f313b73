-- ===== src/Seeker.antt =====
-- `gzipSeeker` of gzip_server.go: a decoder that can only read on, or start again, made to seek.
pub mod Refines
pub mod Examples
use verm.Prelude.{
  ℕ, zero, suc, Bool, true, false, Option, none, some, List, [], ◌∷◌, ◌++◌, Bytes, length,
  if◌then◌else◌,
}
use verm.Prelude.Int.{ℤ, pos, ◌+ℤ◌, ◌-ℤ◌, ltbℤ, pos_part}
use verm.Stream.{ReadEnd, nil, eof, unexpected_eof, failure}

-- The decoder with the compressed file that it reads: `Read` for a buffer of some length, `Seek(0, 0)`
-- of the file, and `Reset` of the decoder; none is an error.
pub record Source (R : Type 0) : Type 0 where
  pub read : ℕ → R → Bytes × ReadEnd × R
  pub seek_start : R → Option R
  pub reset : R → Option R

-- `gzipSeeker`
pub record GzipSeeker (R : Type 0) : Type 0 where
  pub reader : R
  pub position : ℤ
  pub size : ℤ

abbrev pub chunk_size : ℕ
chunk_size = 4096

-- The buffer of `io.Copy`.
abbrev pub copy_size : ℕ
copy_size = 32768

unfoldable pub bind_option {ℓ κ} : {A : Type ℓ} {B : Type κ} → Option A → (A → Option B) → Option B
bind_option none next = none
bind_option (some a) next = next a

module _ {R : Type 0} (source : Source R) where
  -- The file is wound back and the decoder is reset, unless an error stops it.
  unfoldable pub restart : R → Option R
  restart r = bind_option (source.seek_start r) source.reset

  unfoldable pub measured : ReadEnd → ℤ → R → Option (ReadEnd × ℤ × R) → Option (ReadEnd × ℤ × R)
  measured nil counted next behind = behind
  measured e counted next behind = some (e, counted, next)

  -- The loop of `NewGzipSeeker`, on fuel: how reading ended, the bytes counted, and the decoder then.
  unfoldable pub measure : ℕ → R → ℤ → Option (ReadEnd × ℤ × R)
  measure zero r size = none
  measure (suc fuel) r size =
      let (b, e, next) = source.read chunk_size r in
      let counted = size +ℤ pos (length b) in measured e counted next (measure fuel next counted)

  unfoldable pub ready : ℤ → Option R → Option (GzipSeeker R)
  ready size none = none
  ready size (some r) = some (record { reader = r; position = pos 0; size = size })

  unfoldable pub after_measure : ReadEnd × ℤ × R → Option (GzipSeeker R)
  after_measure (eof, size, r) = ready size (restart r)
  after_measure (_, size, r) = none

  -- `NewGzipSeeker`: the outer none says that the fuel ran out, the inner one is an error.
  unfoldable pub new_gzip_seeker : ℕ → R → Option (Option (GzipSeeker R))
  new_gzip_seeker fuel r = bind_option (measure fuel r (pos 0)) (λ m. some (after_measure m))

  -- `Read`
  unfoldable pub read : ℕ → GzipSeeker R → Bytes × ReadEnd × GzipSeeker R
  read n s =
      let (b, e, next) = source.read n s.reader in
      (b, e, record s { reader = next; position = s.position +ℤ pos (length b) })

  unfoldable pub continued : Bytes → ReadEnd → Bytes → Bytes
  continued b nil behind = b ++ behind
  continued b e behind = b

  unfoldable pub ended : ReadEnd → GzipSeeker R → GzipSeeker R → GzipSeeker R
  ended nil next behind = behind
  ended e next behind = next

  -- What `io.Copy` reads from the seeker until a read ends with an error, on fuel.
  unfoldable pub read_on : ℕ → GzipSeeker R → Bytes
  read_on zero s = []
  read_on (suc fuel) s = let (b, e, next) = read copy_size s in continued b e (read_on fuel next)

  -- The seeker behind `io.CopyN` for a number of bytes, on fuel.
  unfoldable pub copied : ℕ → ℤ → GzipSeeker R → GzipSeeker R
  copied zero left s = s
  copied (suc fuel) left s =
      let room = if ltbℤ (pos copy_size) left then copy_size else pos_part left in
      let (b, e, next) = read room s in
      let behind = copied fuel (left -ℤ pos (length b)) next in
      if ltbℤ (pos 0) left then ended e next behind else s

  -- How many bytes the loop of `Seek` asks for.
  unfoldable pub skip_count : ℤ → ℤ → ℕ
  skip_count offset position =
      let count = offset -ℤ position in
      if ltbℤ (pos chunk_size) count then chunk_size else pos_part count

  -- An error of a read ends the loop of `Seek`, `io.EOF` too.
  unfoldable pub skipped :
      Bytes × ReadEnd × GzipSeeker R
      → Option (ℤ × ReadEnd × GzipSeeker R)
      → Option (ℤ × ReadEnd × GzipSeeker R)
  skipped (b, nil, next) behind = behind
  skipped (b, e, next) behind = some (next.position, e, next)

  -- The loop of `Seek` that reads up to the offset, on fuel: the position and the error that it
  -- returns, and the seeker then.
  unfoldable pub skip_loop : ℕ → ℤ → GzipSeeker R → Option (ℤ × ReadEnd × GzipSeeker R)
  skip_loop zero offset s = none
  skip_loop (suc fuel) offset s =
      let got = read (skip_count offset s.position) s in
      let behind = skip_loop fuel offset got.2 in
      if ltbℤ s.position offset then skipped got behind else some (s.position, nil, s)

  unfoldable pub skip_restarted :
      ℕ → ℤ → GzipSeeker R → Option R → Option (ℤ × ReadEnd × GzipSeeker R)
  skip_restarted fuel offset s none = some (pos 0, failure, record s { position = pos 0 })
  skip_restarted fuel offset s (some r) =
      skip_loop fuel offset (record s { reader = r; position = pos 0 })

  -- `Seek(offset, io.SeekStart)`
  unfoldable pub seek_from_start : ℕ → ℤ → GzipSeeker R → Option (ℤ × ReadEnd × GzipSeeker R)
  seek_from_start fuel offset s =
      if ltbℤ offset s.position
      then skip_restarted fuel offset s (restart s.reader)
      else skip_loop fuel offset s

  -- `Seek`
  unfoldable pub seek : ℕ → ℤ → ℕ → GzipSeeker R → Option (ℤ × ReadEnd × GzipSeeker R)
  seek fuel offset zero s = seek_from_start fuel offset s
  seek fuel offset (suc zero) s = seek_from_start fuel (s.position +ℤ offset) s
  seek fuel offset (suc (suc zero)) s = seek_from_start fuel (s.size +ℤ offset) s
  seek fuel offset whence s = some (s.position, failure, s)

  -- `Size`
  unfoldable pub size : GzipSeeker R → ℤ
  size s = s.size
