-- ===== src/Ranges/Accepted.antt =====
-- The ranges that well-formed headers stand for.
use verm.Prelude.{
  ℕ, ◌+◌, ◌-◌, ◌*◌, ◌^◌, ◌≤◌, ◌<◌, true, false, some, [], ◌∷◌, ◌++◌, Bytes, codes, bytes_eq,
  has_prefix, has_prefix_append, trim_space, split, drop, take_append, drop_append, length, ◌≡◌,
  refl, ap, ap₂, ◌∙◌, sym, All, All-append, Lacks, leb, if◌then◌else◌, arith, append_assoc,
  length-append,
}
use verm.Prelude.Decimal.{itoa, value, value-itoa, IsDigit, itoa-IsDigit, itoa_cons}
use verm.Prelude.Int.{ℤ, pos, negsuc, ◌+ℤ◌, ◌-ℤ◌}
use verm.Prelude.Plain.{IsTight, trim_space_tight, split_lacking, index_byte-append}
use verm.Ranges.{
  HttpRange, scan_digits, parse_uint, parse_int, suffix_range, closed_range, bounded_range,
  range_of, spec_range, parse_specs, parse_range,
}

scan_digits-value : (n : ℕ) (s : Bytes) → All IsDigit s → scan_digits n s ≡ some (value n s)
unfolding scan_digits value
scan_digits-value n [] d = refl
scan_digits-value n (c ∷ s) d = ground (arith, scan_digits-value (n * 10 + (c - b'0')) s d.1)

parse_uint-itoa : (n : ℕ) → parse_uint (itoa n) ≡ some n
unfolding parse_uint
parse_uint-itoa n =
    let (c, s, e) = itoa_cons n in
    let d : All IsDigit (c ∷ s) = rw e at (itoa-IsDigit n) in
    rw e (scan_digits-value 0 (c ∷ s) d ∙ ap some (sym (ap (value 0) e) ∙ value-itoa n))

parse_int-itoa : (n : ℕ) → n < 2 ^ 63 → parse_int (itoa n) ≡ some (pos n)
unfolding parse_int
parse_int-itoa n small =
    let (c, s, e) = itoa_cons n in
    let d : All IsDigit (c ∷ s) = rw e at (itoa-IsDigit n) in
    let u : parse_uint (c ∷ s) ≡ some n = rw e at (parse_uint-itoa n) in rw e (ground (arith, u))

parse_int-negative : (k : ℕ) → k < 2 ^ 63 → parse_int (b'-' ∷ itoa (k + 1)) ≡ some (negsuc k)
unfolding parse_int
parse_int-negative k small = ground (arith, parse_uint-itoa (k + 1))

-- Text of a range: no white space and no comma.
abbrev IsSpecChar : ℕ → Type 0
IsSpecChar c = (b'-' ≤ c) × (c ≤ b'9')

spec-IsTight : (s : Bytes) → All IsSpecChar s → IsTight s
spec-IsTight [] h = tt
spec-IsTight (c ∷ s) h = (ground arith, spec-IsTight s h.1)

spec-Lacks : (s : Bytes) → All IsSpecChar s → Lacks b',' s
spec-Lacks [] h = tt
spec-Lacks (c ∷ s) h = (omega arith, spec-Lacks s h.1)

digits-IsSpecChar : (s : Bytes) → All IsDigit s → All IsSpecChar s
digits-IsSpecChar [] h = tt
digits-IsSpecChar (c ∷ s) h = (omega arith, digits-IsSpecChar s h.1)

digits-Lacks : (s : Bytes) → All IsDigit s → Lacks b'-' s
digits-Lacks [] h = tt
digits-Lacks (c ∷ s) h = (omega arith, digits-Lacks s h.1)

module _ (size : ℤ) (x y : Bytes) (hx : All IsSpecChar x) (hy : All IsSpecChar y)
    (dash : Lacks b'-' x) where
  drop_dash : drop (length x + 1) (x ++ b'-' ∷ y) ≡ y
  drop_dash =
      let e1 : x ++ b'-' ∷ y ≡ (x ++ b'-' ∷ []) ++ y = sym (append_assoc x (b'-' ∷ []) y) in
      let e2 : length x + 1 ≡ length (x ++ b'-' ∷ []) =
        omega (arith, length-append x (b'-' ∷ [])) in
      rw (e1, e2) (drop_append (x ++ b'-' ∷ []) y)

  -- The parts before and behind the first dash are read.
  spec_range-append : spec_range size (x ++ b'-' ∷ y) ≡ range_of size x y
  unfolding spec_range
  spec_range-append =
      rw (index_byte-append x y b'-' dash, spec_range)
        (ap₂ (range_of size)
          (ap trim_space (take_append x (b'-' ∷ y)) ∙ trim_space_tight x (spec-IsTight x hx))
          (ap trim_space drop_dash ∙ trim_space_tight y (spec-IsTight y hy)))

  spec_chars : All IsSpecChar (x ++ b'-' ∷ y)
  spec_chars = All-append IsSpecChar x (b'-' ∷ y) hx (omega arith, hy)

  spec_tight : trim_space (x ++ b'-' ∷ y) ≡ x ++ b'-' ∷ y
  spec_tight = trim_space_tight _ (spec-IsTight _ spec_chars)

  spec_nonempty : bytes_eq (x ++ b'-' ∷ y) [] ≡ false
  spec_nonempty = go x
    where
      go : (z : Bytes) → bytes_eq (z ++ b'-' ∷ y) [] ≡ false
      go [] = unfold bytes_eq in refl
      go (c ∷ z) = unfold bytes_eq in refl

  parse_specs_one :
      (r : HttpRange)
      → range_of size x y ≡ some r
      → parse_specs size ((x ++ b'-' ∷ y) ∷ []) ≡ some (r ∷ [])
  unfolding parse_specs
  parse_specs_one r e = rw (spec_tight, spec_nonempty, spec_range-append, e)

  -- A header with one range is accepted with that range, or refused with it.
  parse_range_one :
      (r : HttpRange)
      → range_of size x y ≡ some r
      → parse_range (codes "bytes=" ++ (x ++ b'-' ∷ y)) size ≡ some (r ∷ [])
  unfolding parse_range bytes_eq
  parse_range_one r e =
      let spec : Bytes = x ++ b'-' ∷ y in
      let e1 : has_prefix (codes "bytes=" ++ spec) (codes "bytes=") ≡ true =
        has_prefix_append (codes "bytes=") spec in
      let e2 : split (drop 6 (codes "bytes=" ++ spec)) b',' ≡ spec ∷ [] =
        ap (λ s. split s b',') (drop_append (codes "bytes=") spec)
        ∙ split_lacking spec b',' (spec-Lacks spec spec_chars) in
      rw (e1, parse_range) (ap (parse_specs size) e2 ∙ parse_specs_one r e)

itoa_nonempty : (n : ℕ) → bytes_eq (itoa n) [] ≡ false
itoa_nonempty n = let (c, s, e) = itoa_cons n in rw e (unfold bytes_eq in refl)

itoa-IsSpecChar : (n : ℕ) → All IsSpecChar (itoa n)
itoa-IsSpecChar n = digits-IsSpecChar (itoa n) (itoa-IsDigit n)

closed_range_lem :
    (n a b : ℕ)
    → n < 2 ^ 63
    → b < 2 ^ 63
    → a ≤ n
    → a ≤ b
    → closed_range (pos n) (pos a) (pos b)
      ≡ record { start = pos a; length = pos (if leb n b then n - a else b - a + 1) }
unfolding closed_range ◌+ℤ◌ ◌-ℤ◌
closed_range_lem n a b hn hb le ge = ground arith

range_of_closed :
    (n a b : ℕ)
    → n < 2 ^ 63
    → b < 2 ^ 63
    → a ≤ n
    → a ≤ b
    → range_of (pos n) (itoa a) (itoa b) ≡ some (closed_range (pos n) (pos a) (pos b))
unfolding range_of bounded_range
range_of_closed n a b hn hb le ge =
    rw
      (
        itoa_nonempty a,
        parse_int-itoa a (omega arith),
        itoa_nonempty b,
        parse_int-itoa b hb,
        range_of,
        bounded_range,
      )
      (ground arith)

-- The header `bytes=a-b` for a file of `n` bytes, where `a ≤ n` and `a ≤ b`, and `n` and `b` are below
-- 2^63, stands for one range from `a` to `b` or to the end of the file, whichever comes first.
pub parse_range_closed :
    (n a b : ℕ)
    → n < 2 ^ 63
    → b < 2 ^ 63
    → a ≤ n
    → a ≤ b
    → parse_range (codes "bytes=" ++ (itoa a ++ b'-' ∷ itoa b)) (pos n)
      ≡ some (record { start = pos a; length = pos (if leb n b then n - a else b - a + 1) } ∷ [])
parse_range_closed n a b hn hb le ge =
    parse_range_one (pos n) (itoa a) (itoa b) (itoa-IsSpecChar a) (itoa-IsSpecChar b)
      (digits-Lacks (itoa a) (itoa-IsDigit a)) _
      (range_of_closed n a b hn hb le ge ∙ ap some (closed_range_lem n a b hn hb le ge))

suffix_range_lem :
    (n k : ℕ)
    → n + k + 1 < 2 ^ 63
    → suffix_range (pos n) (negsuc k) ≡ record { start = pos (n + k + 1); length = negsuc k }
unfolding suffix_range ◌-ℤ◌
suffix_range_lem n k h = ground arith

-- The malformed header `bytes=--j`, with `j` = k + 1, is not refused: for a file of `n` bytes it is
-- accepted as one range that starts `j` bytes behind the end of the file and has the length -j, if
-- that start is below 2^63.
pub parse_range_backwards :
    (n k : ℕ)
    → n + k + 1 < 2 ^ 63
    → parse_range (codes "bytes=" ++ ([] ++ b'-' ∷ b'-' ∷ itoa (k + 1))) (pos n)
      ≡ some (record { start = pos (n + k + 1); length = negsuc k } ∷ [])
parse_range_backwards n k h =
    parse_range_one (pos n) [] (b'-' ∷ itoa (k + 1)) tt (omega arith, itoa-IsSpecChar (k + 1)) tt _
      (unfold range_of bytes_eq in
        rw (parse_int-negative k (omega arith), range_of) (ap some (suffix_range_lem n k h)))
