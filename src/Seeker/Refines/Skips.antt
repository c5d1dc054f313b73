-- ===== src/Seeker/Refines/Skips.antt =====
-- The loop of `Seek` that reads up to an offset.
use verm.Prelude.{
  ℕ, zero, suc, ◌+◌, ◌-◌, ◌≤◌, ◌<◌, ◌^◌, min, true, false, some, Bytes, length, ◌≡◌, inl, inr, refl,
  ltb, ltb→lt, Bool-cases, ap, ◌∙◌, subst, arith,
}
use verm.Prelude.Int.{ℤ, pos, ◌-ℤ◌, ltbℤ, wrap64}
use verm.Stream.{ReadEnd, nil, eof}
use verm.Seeker.{Source, GzipSeeker, read, skip_count, skipped, skip_loop}
use verm.Seeker.Refines.{Represents, IsSource, IsRead, IsSought, within, behind, Represents-IsRead}

module _ {R : Type 0} (source : Source R) (content : Bytes) (rest : R → Bytes)
    (lawful : IsSource source content rest) (small : length content < 2 ^ 63) where
  skip_count_lem :
      (p q : ℕ)
      → p < q
      → q < 2 ^ 63
      → (n : ℕ) × (skip_count source (pos q) (pos p) ≡ suc n) × (suc n ≤ q - p)
  unfolding skip_count ◌-ℤ◌ wrap64
  skip_count_lem p q lt fits = (min (q - p) 4096 - 1, ground arith, omega arith)

  unfoldable pub Sought : ℕ → ℤ → GzipSeeker R → Type 0
  Sought fuel target s =
      (out : ℤ × ReadEnd × GzipSeeker R) × (skip_loop source fuel target s ≡ some out)
      × IsSought source content rest target out

  skip_step :
      (fuel : ℕ) (target : ℤ) (s : GzipSeeker R) (got : Bytes × ReadEnd × GzipSeeker R)
      → ltbℤ s.position target ≡ true
      → read source (skip_count source target s.position) s ≡ got
      → skip_loop source (suc fuel) target s
        ≡ skipped source got (skip_loop source fuel target got.2)
  unfolding skip_loop
  skip_step fuel target s got lt e =
      rw (skip_loop, lt) (ap (λ g. skipped source g (skip_loop source fuel target g.2)) e)

  pub skip_stop :
      (fuel : ℕ) (target : ℤ) (s : GzipSeeker R)
      → ltbℤ s.position target ≡ false
      → skip_loop source (suc fuel) target s ≡ some (s.position, nil, s)
  unfolding skip_loop
  skip_stop fuel target s ge = rw (skip_loop, ge) refl

  pub skip_loop_lem :
      (fuel p q : ℕ) (s : GzipSeeker R)
      → Represents source content rest s p
      → p ≤ q
      → q < 2 ^ 63
      → length content < p + fuel
      → Sought fuel (pos q) s
  unfolding skip_loop skipped Sought
  skip_loop_lem zero p q s h le fits enough = absurd (omega (arith, h.inside))
  skip_loop_lem (suc fuel) p q s h le fits enough = elim (Bool-cases (ltb p q)) [
    | inl lt ↦
        (let (n, count, fewer) = skip_count_lem p q (omega (arith, ltb→lt p q lt)) fits in
          let r = Represents-IsRead source content rest lawful small n p s h in
          let lower : ltbℤ s.position (pos q) ≡ true =
            ap (λ z. ltbℤ z (pos q)) h.position_eq ∙ ground arith in
          let got : read source (skip_count source (pos q) s.position) s
              ≡ (r.bytes, r.end, r.next) =
            ap (λ z. read source (skip_count source (pos q) z) s) h.position_eq
            ∙ ap (λ k. read source k s) count
            ∙ r.read_eq in
          go (n) r (skip_step fuel (pos q) s _ lower got) fewer (λ one.
            skip_loop_lem fuel (p + length r.bytes) q r.next r.moves (omega (arith, r.room, fewer))
              fits (omega (arith, one, enough))))
    | inr ge ↦
        (let here : p ≡ q = ground arith in
          let stands = subst (Represents source content rest s) here h in
          let upper : ltbℤ s.position (pos q) ≡ false =
            ap (λ z. ltbℤ z (pos q)) stands.position_eq ∙ ground arith in
          (
            (pos q, nil, s),
            skip_stop fuel (pos q) s upper ∙ ap (λ z. some (z, nil, s)) stands.position_eq,
            within stands,
          ))
  ]
    where
      go :
          (n : ℕ) (r : IsRead source content rest p (suc n) s)
          → skip_loop source (suc fuel) (pos q) s
            ≡ skipped source (r.bytes, r.end, r.next) (skip_loop source fuel (pos q) r.next)
          → suc n ≤ q - p
          → (1 ≤ length r.bytes → Sought fuel (pos q) r.next)
          → Sought (suc fuel) (pos q) s
      go n r step fewer more = elim r.ends [
        | inl (e, one) ↦ (let (out, f, sought) = more one in (out, step ∙ rw e f, sought))
        | inr (e, all) ↦
            (let stands = subst (Represents source content rest r.next) all r.moves in
              (
                (pos (length content), eof, r.next),
                step ∙ rw e (ap (λ z. some (z, eof, r.next)) stands.position_eq),
                behind (omega (arith, all, r.room, fewer)) stands,
              ))
      ]
