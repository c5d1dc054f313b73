-- ===== src/Ranges/Examples.antt =====
-- Range headers for small files.
use verm.Prelude.{
  ◌+◌, none, some, [], ◌∷◌, ◌++◌, codes, ◌≡◌, ◌⊎◌, refl, All, arith, bytes_eq, has_prefix,
  index_byte, split, trim_space, take, drop,
}
use verm.Prelude.Decimal.{itoa}
use verm.Prelude.Int.{pos, negsuc, ◌+ℤ◌, ◌-ℤ◌}
use verm.Ranges.{parse_range, spec_range, parse_int, content_range}
use verm.Ranges.Bounds.{IsWithin, IsBackwards, parse_range_bounds}
use verm.Ranges.Accepted.{parse_range_closed, parse_range_backwards}

several :
    parse_range (codes "bytes=0-1, -2,3-") (pos 10)
    ≡ some (
        record { start = pos 0; length = pos 2 }
        ∷ record { start = pos 8; length = pos 2 }
        ∷ record { start = pos 3; length = pos 7 }
        ∷ [])
unfolding parse_range spec_range parse_int split bytes_eq has_prefix index_byte trim_space take drop
    ◌+ℤ◌ ◌-ℤ◌
several = refl

refused :
    (parse_range (codes "bytes=11-") (pos 10) ≡ none) × (parse_range (codes "0-1") (pos 10) ≡ none)
unfolding parse_range spec_range parse_int split bytes_eq has_prefix index_byte trim_space take drop
    ◌+ℤ◌ ◌-ℤ◌
refused = (refl, refl)

described : content_range (record { start = pos 3; length = pos 7 }) (pos 10) ≡ codes "bytes 3-9/10"
unfolding content_range itoa ◌+ℤ◌ ◌-ℤ◌
described = refl

parse_range_bounds_example :
    All
      (λ r. IsWithin 10 r ⊎ IsBackwards r)
      (record { start = pos 0; length = pos 2 }
        ∷ record { start = pos 8; length = pos 2 }
        ∷ record { start = pos 3; length = pos 7 }
        ∷ [])
parse_range_bounds_example =
    parse_range_bounds 10 (omega arith) (codes "bytes=0-1, -2,3-") _ several

parse_range_closed_run :
    parse_range (codes "bytes=" ++ (itoa 3 ++ b'-' ∷ itoa 20)) (pos 10)
    ≡ some (record { start = pos 3; length = pos 7 } ∷ [])
parse_range_closed_run =
    parse_range_closed 10 3 20 (omega arith) (omega arith) (omega arith) (omega arith)

parse_range_backwards_run :
    parse_range (codes "bytes=" ++ ([] ++ b'-' ∷ b'-' ∷ itoa (4 + 1))) (pos 10)
    ≡ some (record { start = pos 15; length = negsuc 4 } ∷ [])
parse_range_backwards_run = parse_range_backwards 10 4 (omega arith)
