-- ===== src/Upload/HashName/Shape.antt =====
-- The form of the names that `encodeHash` makes.
use verm.Prelude.{
  ℕ, zero, suc, ◌+◌, ◌*◌, ◌/◌, ◌%◌, ◌<◌, ◌≡◌, refl, ap, Bool, true, ◌&&◌, ◌||◌, some, [], ◌∷◌, ◌++◌,
  Bytes, length, All, ◌==◌, leb, passes_below, passes_at, arith,
}
use verm.Upload.HashName.{symbol, encode_triple, encode_rest, encode_dir, encode_hash, ◌>>=◌}

abbrev pub IsByte : ℕ → Type 0
IsByte b = b < 256

-- The characters of a name: the base64url alphabet.
abbrev is_name_char : ℕ → Bool
is_name_char c =
    leb b'A' c && leb c b'Z'
    || leb b'a' c && leb c b'z'
    || leb b'0' c && leb c b'9'
    || c == b'-'
    || c == b'_'

abbrev is_first_char : ℕ → Bool
is_first_char c = leb b'A' c && leb c b'Z' || leb b'a' c && leb c b'f'

abbrev pub IsNameChar : ℕ → Type 0
IsNameChar c = is_name_char c ≡ true

-- The first character of a directory or file name: a letter, never `-`.
abbrev pub IsFirstChar : ℕ → Type 0
IsFirstChar c = is_first_char c ≡ true

name_table : passes_below (λ i. is_name_char (symbol i)) 64 ≡ true
unfolding passes_below symbol
name_table = refl

first_table : passes_below (λ i. is_first_char (symbol i)) 32 ≡ true
unfolding passes_below symbol
first_table = refl

symbol-IsNameChar : (i : ℕ) → i < 64 → IsNameChar (symbol i)
symbol-IsNameChar i h = passes_at (λ j. is_name_char (symbol j)) 64 name_table i h

symbol-IsFirstChar : (i : ℕ) → i < 32 → IsFirstChar (symbol i)
symbol-IsFirstChar i h = passes_at (λ j. is_first_char (symbol j)) 32 first_table i h

encode_triple-IsNameChar :
    (s0 s1 s2 : ℕ) → IsByte s0 → IsByte s1 → IsByte s2 → All IsNameChar (encode_triple s0 s1 s2)
unfolding encode_triple
encode_triple-IsNameChar s0 s1 s2 b0 b1 b2 = (
  symbol-IsNameChar _ (omega arith),
  (
    symbol-IsNameChar _ (omega arith),
    (symbol-IsNameChar _ (omega arith), (symbol-IsNameChar _ (omega arith), tt)),
  ),
)

-- `3 * n` bytes are encoded without a panic, as `4 * n` characters.
encode_rest_total :
    (n : ℕ) (md : Bytes)
    → length md ≡ n * 3
    → All IsByte md
    → (out : Bytes) × (encode_rest md ≡ some out) × (length out ≡ n * 4) × All IsNameChar out
unfolding encode_rest encode_triple
encode_rest_total n [] h b = ([], refl, omega arith, tt)
encode_rest_total n (s0 ∷ []) h b = absurd (omega arith)
encode_rest_total n (s0 ∷ s1 ∷ []) h b = absurd (omega arith)
encode_rest_total zero (s0 ∷ s1 ∷ s2 ∷ md) h b = absurd (omega arith)
encode_rest_total (suc n) (s0 ∷ s1 ∷ s2 ∷ md) h (b0, (b1, (b2, b))) =
    let (out, e, len, chars) = encode_rest_total n md (omega arith) b in
    let (c0, (c1, (c2, (c3, _)))) = encode_triple-IsNameChar s0 s1 s2 b0 b1 b2 in
    (encode_triple s0 s1 s2 ++ out, ground (arith, e), omega arith, (c0, (c1, (c2, (c3, chars)))))

-- What `encodeHash` promises of a hash of 32 bytes: a directory `/xy` and a file name `/z…`.
pub record IsHashName (dir dst : Bytes) : Type 0 where
  pub x : ℕ
  pub y : ℕ
  pub z : ℕ
  pub rest : Bytes
  pub dir_eq : dir ≡ b'/' ∷ x ∷ y ∷ []
  pub dst_eq : dst ≡ b'/' ∷ z ∷ rest
  pub x_first : IsFirstChar x
  pub z_first : IsFirstChar z
  pub y_char : IsNameChar y
  pub rest_chars : All IsNameChar rest
  pub rest_length : length rest ≡ 40

-- A hash of 32 bytes is encoded without an index out of range: the directory is `/` and two
-- characters, the file name `/` and 41, all from the base64url alphabet, and the first character of
-- each is one of the letters A-Z and a-f, so never `-`.
pub encode_hash-IsHashName :
    (md : Bytes)
    → length md ≡ 32
    → All IsByte md
    → (dir : Bytes) × (dst : Bytes) × (encode_hash md ≡ some (dir, dst)) × IsHashName dir dst
unfolding encode_hash
encode_hash-IsHashName [] h b = absurd (omega arith)
encode_hash-IsHashName (m0 ∷ []) h b = absurd (omega arith)
encode_hash-IsHashName (m0 ∷ m1 ∷ md) h (b0, (b1, b)) =
    let (out, e, len, chars) = encode_rest_total 10 md (omega arith) b in
    (
      _,
      _,
      ap (λ o. o >>= λ rest. some (encode_dir m0 m1, b'/' ∷ symbol (m1 % 32) ∷ rest)) e,
      record {
        x = symbol (m0 / 8);
        y = symbol (m0 % 8 * 8 + m1 / 32);
        z = symbol (m1 % 32);
        rest = out;
        dir_eq = refl;
        dst_eq = refl;
        x_first = symbol-IsFirstChar (m0 / 8) (omega arith);
        z_first = symbol-IsFirstChar (m1 % 32) (omega arith);
        y_char = symbol-IsNameChar (m0 % 8 * 8 + m1 / 32) (omega arith);
        rest_chars = chars;
        rest_length = len;
      },
    )
