-- ===== src/Ranges.antt =====
-- The byte ranges of file_server.go: `httpRange`, `parseRange`, `sumRangesSize`, `contentRange`.
pub mod Bounds
pub mod Accepted
mod Examples
use verm.Prelude.{
  ℕ, ◌+◌, ◌-◌, ◌*◌, ◌^◌, Bool, true, false, ◌&&◌, ◌||◌, not, Option, none, some, List, [], ◌∷◌,
  ◌++◌, Bytes, codes, bytes_eq, has_prefix, index_byte, split, trim_space, take, drop, length, leb,
  ltb, ◌==◌, if◌then◌else◌,
}
use verm.Prelude.Int.{ℤ, pos, negsuc, ◌+ℤ◌, ◌-ℤ◌, lebℤ, ltbℤ}
use verm.Prelude.Decimal.{itoa}

pub record HttpRange : Type 0 where
  pub start : ℤ
  pub length : ℤ

-- The digits of `strconv.ParseUint`, behind the number read so far.
unfoldable pub scan_digits : ℕ → Bytes → Option ℕ
scan_digits n [] = some n
scan_digits n (c ∷ s) =
    if leb b'0' c && leb c b'9' then scan_digits (n * 10 + (c - b'0')) s else none

parse_uint : Bytes → Option ℕ
unfolding scan_digits
parse_uint [] = none
parse_uint (c ∷ s) = scan_digits 0 (c ∷ s)

positive : Option ℕ → Option ℤ
positive none = none
positive (some n) = if ltb n (2 ^ 63) then some (pos n) else none

negate : ℕ → ℤ
negate n = if n == 0 then pos 0 else negsuc (n - 1)

negative : Option ℕ → Option ℤ
unfolding negate
negative none = none
negative (some n) = if leb n (2 ^ 63) then some (negate n) else none

-- `strconv.ParseInt(s, 10, 64)`
unfoldable pub parse_int : Bytes → Option ℤ
unfolding parse_uint positive negative
parse_int [] = none
parse_int (c ∷ s) =
    if c == b'+'
    then positive (parse_uint s)
    else if c == b'-'
    then negative (parse_uint s)
    else positive (parse_uint (c ∷ s))

-- `-N`: the last `N` bytes.
unfoldable pub suffix_range : ℤ → ℤ → HttpRange
suffix_range size i =
    let n = if ltbℤ size i then size else i in
    record { start = size -ℤ n; length = size -ℤ (size -ℤ n) }

-- `N-M`
unfoldable pub closed_range : ℤ → ℤ → ℤ → HttpRange
closed_range size start i =
    let last = if lebℤ size i then size -ℤ pos 1 else i in
    record { start = start; length = (last -ℤ start) +ℤ pos 1 }

-- What follows the dash, where something stands before it.
unfoldable pub bounded_range : ℤ → ℤ → Bytes → Option HttpRange
unfolding closed_range
bounded_range size start end =
    if bytes_eq end []
    then some (record { start = start; length = size -ℤ start })
    else elim (parse_int end) [
      | none ↦ none
      | some i ↦ if ltbℤ i start then none else some (closed_range size start i)
    ]

-- One range, from the texts before and behind the dash; `none` is the error "invalid range".
unfoldable pub range_of : ℤ → Bytes → Bytes → Option HttpRange
unfolding bounded_range suffix_range
range_of size start end =
    if bytes_eq start []
    then elim (parse_int end) [ none ↦ none | some i ↦ some (suffix_range size i) ]
    else elim (parse_int start) [
      | none ↦ none
      | some i ↦ if ltbℤ size i || ltbℤ i (pos 0) then none else bounded_range size i end
    ]

unfoldable pub spec_range : ℤ → Bytes → Option HttpRange
unfolding range_of
spec_range size ra = elim (index_byte ra b'-') [
  | none ↦ none
  | some i ↦ range_of size (trim_space (take i ra)) (trim_space (drop (i + 1) ra))
]

cons_range : Option HttpRange → Option (List HttpRange) → Option (List HttpRange)
cons_range none rest = none
cons_range (some r) none = none
cons_range (some r) (some rs) = some (r ∷ rs)

-- The loop over the parts between commas; empty parts are skipped.
unfoldable pub parse_specs : ℤ → List Bytes → Option (List HttpRange)
unfolding cons_range
parse_specs size [] = some []
parse_specs size (part ∷ parts) =
    let rest = parse_specs size parts in
    if bytes_eq (trim_space part) []
    then rest
    else cons_range (spec_range size (trim_space part)) rest

-- `parseRange`
unfoldable pub parse_range : Bytes → ℤ → Option (List HttpRange)
unfolding parse_specs
parse_range s size =
    if bytes_eq s []
    then some []
    else if has_prefix s (codes "bytes=")
    then parse_specs size (split (drop 6 s) b',')
    else none

-- `sumRangesSize`
unfoldable pub sum_from : ℤ → List HttpRange → ℤ
sum_from size [] = size
sum_from size (ra ∷ ranges) = sum_from (size +ℤ ra.length) ranges

unfoldable pub sum_ranges_size : List HttpRange → ℤ
unfolding sum_from
sum_ranges_size ranges = sum_from (pos 0) ranges

-- `%d`
unfoldable pub decimal : ℤ → Bytes
decimal (pos n) = itoa n
decimal (negsuc n) = b'-' ∷ itoa (n + 1)

-- `contentRange`
unfoldable pub content_range : HttpRange → ℤ → Bytes
unfolding decimal
content_range r size =
    codes "bytes "
    ++ (decimal r.start
        ++ (b'-' ∷ (decimal ((r.start +ℤ r.length) -ℤ pos 1) ++ (b'/' ∷ decimal size))))
