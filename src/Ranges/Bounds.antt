-- ===== src/Ranges/Bounds.antt =====
-- Where the ranges that `parseRange` accepts lie.
use verm.Prelude.{
  ℕ, ◌+◌, ◌-◌, ◌^◌, ◌≤◌, ◌<◌, ◌||◌, Option, none, some, List, [], ◌∷◌, Bytes, bytes_eq, trim_space,
  drop, has_prefix, codes, ◌≡◌, ◌⊎◌, inl, inr, refl, Bool-cases, All, arith, leb, if◌then◌else◌,
  ◌==◌, index_byte, take, some_inj, subst,
}
use verm.Prelude.Int.{ℤ, pos, negsuc, ◌+ℤ◌, ◌-ℤ◌, ltbℤ, IsInt64}
use verm.Ranges.{
  HttpRange, parse_uint, positive, negative, parse_int, suffix_range, closed_range, bounded_range,
  range_of, spec_range, parse_specs, parse_range, cons_range,
}

-- The range names bytes of a file of `n` bytes; it may be empty, and may then stand at the end.
pub record IsWithin (n : ℕ) (r : HttpRange) : Type 0 where
  pub first : ℕ
  pub count : ℕ
  pub start_eq : r.start ≡ pos first
  pub length_eq : r.length ≡ pos count
  pub fits : first + count ≤ n

abbrev IsNegative : ℤ → Type 0
IsNegative (pos n) = ⊥
IsNegative (negsuc n) = Unit

-- The range of a suffix with a negative length.
abbrev pub IsBackwards : HttpRange → Type 0
IsBackwards r = IsNegative r.length

module _ (n : ℕ) (small : n < 2 ^ 63) where
  abbrev Placed : HttpRange → Type 0
  Placed r = IsWithin n r ⊎ IsBackwards r

  suffix_within : (i : ℕ) → i < 2 ^ 63 → IsWithin n (suffix_range (pos n) (pos i))
  unfolding suffix_range ◌-ℤ◌
  suffix_within i h = record {
    first = n - i;
    count = n - (n - i);
    start_eq = ground arith;
    length_eq = ground arith;
    fits = omega arith;
  }

  suffix_backwards : (k : ℕ) → k < 2 ^ 63 → (suffix_range (pos n) (negsuc k)).length ≡ negsuc k
  unfolding suffix_range ◌-ℤ◌
  suffix_backwards k h = ground arith

  suffix-Placed : (i : ℤ) → IsInt64 i → Placed (suffix_range (pos n) i)
  suffix-Placed (pos i) h = inl (suffix_within i (omega arith))
  suffix-Placed (negsuc k) h = inr (rw (suffix_backwards k (omega arith)) tt)

  closed_within :
      (f j : ℕ) → f ≤ n → f ≤ j → j < 2 ^ 63 → IsWithin n (closed_range (pos n) (pos f) (pos j))
  unfolding closed_range ◌-ℤ◌ ◌+ℤ◌
  closed_within f j le ge h = record {
    first = f;
    count = if leb n j then n - f else j - f + 1;
    start_eq = refl;
    length_eq = ground arith;
    fits = ground arith;
  }

  open_within : (f : ℕ) → f ≤ n → IsWithin n (record { start = pos f; length = pos n -ℤ pos f })
  unfolding ◌-ℤ◌
  open_within f le = record {
    first = f;
    count = n - f;
    start_eq = refl;
    length_eq = ground arith;
    fits = omega arith;
  }

  parse_int-IsInt64 : (s : Bytes) (i : ℤ) → parse_int s ≡ some i → IsInt64 i
  unfolding parse_int
  parse_int-IsInt64 [] i e = cc
  parse_int-IsInt64 (c ∷ s) i e = elim (Bool-cases (c == b'+')) [
    | inl p ↦ signed (parse_uint s) i (inl (rw p at e))
    | inr p ↦ elim (Bool-cases (c == b'-')) [
      | inl q ↦ signed (parse_uint s) i (inr (rw (p, q) at e))
      | inr q ↦ signed (parse_uint (c ∷ s)) i (inl (rw (p, q) at e))
    ]
  ]
    where
      signed : (o : Option ℕ) (i : ℤ) → (positive o ≡ some i) ⊎ (negative o ≡ some i) → IsInt64 i
      signed none i (inl e) = cc
      signed none i (inr e) = cc
      signed (some m) i (inl e) = ground arith
      signed (some m) i (inr e) = ground arith

  bounded_within :
      (f : ℕ) (end : Bytes) (r : HttpRange)
      → f ≤ n
      → bounded_range (pos n) (pos f) end ≡ some r
      → IsWithin n r
  unfolding bounded_range
  bounded_within f end r le e = elim (Bool-cases (bytes_eq end [])) [
    | inl q ↦ subst (IsWithin n) (some_inj (rw q at e)) (open_within f le)
    | inr q ↦ closed (parse_int end) refl (rw q at e)
  ]
    where
      guarded :
          (i : ℤ)
          → IsInt64 i
          → (if ltbℤ i (pos f) then none else some (closed_range (pos n) (pos f) i)) ≡ some r
          → IsWithin n r
      guarded (negsuc k) h q = absurd (ground arith)
      guarded (pos j) h q = elim (Bool-cases (ltbℤ (pos j) (pos f))) [
        | inl t ↦ cc (rw t at q)
        | inr t ↦
            subst (IsWithin n) (some_inj (rw t at q))
              (closed_within f j le (ground arith) (omega arith))
      ]

      closed :
          (o : Option ℤ)
          → parse_int end ≡ o
          → ◌≡◌ {A = Option HttpRange}
              (elim o [
                | none ↦ none
                | some i ↦ if ltbℤ i (pos f) then none else some (closed_range (pos n) (pos f) i)
              ])
              (some r)
          → IsWithin n r
      closed none p q = cc
      closed (some i) p q = guarded i (parse_int-IsInt64 end i p) q

  range-Placed :
      (start end : Bytes) (r : HttpRange) → range_of (pos n) start end ≡ some r → Placed r
  unfolding range_of
  range-Placed start end r e = elim (Bool-cases (bytes_eq start [])) [
    | inl q ↦ suffix (parse_int end) refl (rw q at e)
    | inr q ↦ from (parse_int start) refl (rw q at e)
  ]
    where
      suffix :
          (o : Option ℤ)
          → parse_int end ≡ o
          → ◌≡◌ {A = Option HttpRange}
              (elim o [ none ↦ none | some i ↦ some (suffix_range (pos n) i) ])
              (some r)
          → Placed r
      suffix none p q = cc
      suffix (some i) p q = subst Placed (some_inj q) (suffix-Placed i (parse_int-IsInt64 end i p))

      guarded :
          (i : ℤ)
          → (if ltbℤ (pos n) i || ltbℤ i (pos 0) then none else bounded_range (pos n) i end)
            ≡ some r
          → Placed r
      guarded (negsuc k) q = absurd (ground arith)
      guarded (pos f) q = elim (Bool-cases (ltbℤ (pos n) (pos f) || ltbℤ (pos f) (pos 0))) [
        | inl t ↦ cc (rw t at q)
        | inr t ↦ inl (bounded_within f end r (ground arith) (rw t at q))
      ]

      from :
          (o : Option ℤ)
          → parse_int start ≡ o
          → ◌≡◌ {A = Option HttpRange}
              (elim o [
                | none ↦ none
                | some i ↦
                    if ltbℤ (pos n) i || ltbℤ i (pos 0) then none else bounded_range (pos n) i end
              ])
              (some r)
          → Placed r
      from none p q = cc
      from (some i) p q = guarded i q

  spec-Placed : (ra : Bytes) (r : HttpRange) → spec_range (pos n) ra ≡ some r → Placed r
  unfolding spec_range
  spec-Placed ra r e = go (index_byte ra b'-') e
    where
      go :
          (o : Option ℕ)
          → ◌≡◌ {A = Option HttpRange}
              (elim o [
                | none ↦ none
                | some i ↦ range_of (pos n) (trim_space (take i ra)) (trim_space (drop (i + 1) ra))
              ])
              (some r)
          → Placed r
      go none q = cc
      go (some i) q = range-Placed _ _ r q

  specs-Placed :
      (parts : List Bytes) (rs : List HttpRange)
      → parse_specs (pos n) parts ≡ some rs
      → All Placed rs
  unfolding parse_specs
  specs-Placed [] rs e = subst (All Placed) (some_inj e) tt
  specs-Placed (part ∷ parts) rs e = elim (Bool-cases (bytes_eq (trim_space part) [])) [
    | inl q ↦ specs-Placed parts rs (rw q at e)
    | inr q ↦
        both (spec_range (pos n) (trim_space part)) (parse_specs (pos n) parts) (spec-Placed _)
          (specs-Placed parts) (rw q at e)
  ]
    where
      both :
          (o : Option HttpRange) (p : Option (List HttpRange))
          → ((r : HttpRange) → o ≡ some r → Placed r)
          → ((qs : List HttpRange) → p ≡ some qs → All Placed qs)
          → cons_range o p ≡ some rs
          → All Placed rs
      both none p f g q = cc
      both (some r) none f g q = cc
      both (some r) (some qs) f g q = subst (All Placed) (some_inj q) (f r refl, g qs refl)

  -- For a file of `n` bytes, each range of an accepted header lies within the file, or it has a
  -- negative length.
  pub parse_range_bounds :
      (header : Bytes) (rs : List HttpRange)
      → parse_range header (pos n) ≡ some rs
      → All (λ r. IsWithin n r ⊎ IsBackwards r) rs
  unfolding parse_range
  parse_range_bounds header rs e = elim (Bool-cases (bytes_eq header [])) [
    | inl q ↦ subst (All Placed) (some_inj (rw q at e)) tt
    | inr q ↦ elim (Bool-cases (has_prefix header (codes "bytes="))) [
      | inl p ↦ specs-Placed _ rs (rw (q, p) at e)
      | inr p ↦ cc (rw (q, p) at e)
    ]
  ]
