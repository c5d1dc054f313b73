-- ===== src/Upload/HashName.antt =====
-- `encodeHash` of file_uploader.go: the directory and the file name for a content hash.
pub mod Shape
pub mod Injective
use verm.Prelude.{ℕ, ◌+◌, ◌*◌, ◌/◌, ◌%◌, Option, none, some, [], ◌∷◌, ◌++◌, Bytes, codes, get_or}

abbrev pub encoding_alphabet : Bytes
encoding_alphabet = codes "ABCDEFGHIJKLMNOPQRSTUVWXYZabcdefghijklmnopqrstuvwxyz0123456789-_"

-- `encodingAlphabet[i]`; the indices that `encode_hash` computes from bytes are below 64.
pub symbol : ℕ → ℕ
symbol i = get_or encoding_alphabet i 0

infixl 5 ◌>>=◌
abbrev ◌>>=◌ : Option Bytes → (Bytes → Option (Bytes × Bytes)) → Option (Bytes × Bytes)
none >>= f = none
some a >>= f = f a

-- One round of the loop: three bytes make four symbols. `(s & 0xfc) >> 2` of a byte is `s / 4`,
-- `(s & 0x03) << 4` is `s % 4 * 16`, and so on.
pub encode_triple : ℕ → ℕ → ℕ → Bytes
encode_triple s0 s1 s2 =
    symbol (s0 / 4)
    ∷ symbol (s0 % 4 * 16 + s1 / 16)
    ∷ symbol (s1 % 16 * 4 + s2 / 64)
    ∷ symbol (s2 % 64)
    ∷ []

-- The loop over `srcindex`; `none` is the panic of an index out of range.
pub encode_rest : Bytes → Option Bytes
encode_rest [] = some []
encode_rest (s0 ∷ []) = none
encode_rest (s0 ∷ s1 ∷ []) = none
encode_rest (s0 ∷ s1 ∷ s2 ∷ md) = elim (encode_rest md) [
  | none ↦ none
  | some out ↦ some (encode_triple s0 s1 s2 ++ out)
]

-- `dir` for the first two bytes
pub encode_dir : ℕ → ℕ → Bytes
encode_dir m0 m1 = b'/' ∷ symbol (m0 / 8) ∷ symbol (m0 % 8 * 8 + m1 / 32) ∷ []

-- The results are the strings `dir` and `dst`.
unfoldable pub encode_hash : Bytes → Option (Bytes × Bytes)
unfolding encode_dir encode_rest encode_triple symbol
encode_hash [] = none
encode_hash (m0 ∷ []) = none
encode_hash (m0 ∷ m1 ∷ md) = do
  rest ← encode_rest md
  some (encode_dir m0 m1, b'/' ∷ symbol (m1 % 32) ∷ rest)
