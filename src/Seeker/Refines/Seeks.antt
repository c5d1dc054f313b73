-- ===== src/Seeker/Refines/Seeks.antt =====
-- A seek, from any position to any target.
use verm.Prelude.{
  drop_zero, ℕ, zero, suc, ◌<◌, ◌^◌, Bool, true, false, Option, none, some, Bytes, length, ◌≡◌, inl,
  inr, refl, sym, some_inj, ltb, Bool-cases, ap, ◌∙◌, subst, arith,
}
use verm.Prelude.Int.{ℤ, pos, negsuc, ◌+ℤ◌, ltbℤ, pos_part, wrap64}
use verm.Stream.{ReadEnd, nil}
use verm.Seeker.{Source, GzipSeeker, restart, skip_loop, skip_restarted, seek_from_start, seek}
use verm.Seeker.Refines.{Represents, IsSource, IsSought, before}
use verm.Seeker.Refines.Skips.{Sought, skip_stop, skip_loop_lem}

module _ {R : Type 0} (source : Source R) (content : Bytes) (rest : R → Bytes)
    (lawful : IsSource source content rest) (small : length content < 2 ^ 63) where
  -- The outcome of a seek by the code, from any state of the seeker.
  Reaches : ℤ → Option (ℤ × ReadEnd × GzipSeeker R) → Type 0
  Reaches target result =
      (out : ℤ × ReadEnd × GzipSeeker R) × (result ≡ some out)
      × IsSought source content rest target out

  restarted : (s : GzipSeeker R) → R → GzipSeeker R
  restarted s r = record s { reader = r; position = pos 0 }

  restarted-Represents :
      (p : ℕ) (s : GzipSeeker R) (r : R)
      → Represents source content rest s p
      → rest r ≡ content
      → Represents source content rest (restarted s r) 0
  unfolding restarted
  restarted-Represents p s r h e = record {
    position_eq = refl;
    size_eq = h.size_eq;
    rest_eq = e ∙ sym (drop_zero content);
    inside = omega arith;
  }

  goes_back :
      (fuel : ℕ) (target : ℤ) (s : GzipSeeker R) (r : R)
      → ltbℤ target s.position ≡ true
      → restart source s.reader ≡ some r
      → seek_from_start source fuel target s ≡ skip_loop source fuel target (restarted s r)
  unfolding seek_from_start skip_restarted restarted
  goes_back fuel target s r lt e = rw (seek_from_start, lt, e) refl

  goes_on :
      (fuel : ℕ) (target : ℤ) (s : GzipSeeker R)
      → ltbℤ target s.position ≡ false
      → seek_from_start source fuel target s ≡ skip_loop source fuel target s
  unfolding seek_from_start
  goes_on fuel target s ge = rw (seek_from_start, ge) refl

  position_test :
      (target : ℤ) (p : ℕ) (s : GzipSeeker R)
      → Represents source content rest s p
      → {b : Bool} → ltbℤ target (pos p) ≡ b
      → ltbℤ target s.position ≡ b
  position_test target p s h e = ap (ltbℤ target) h.position_eq ∙ e

  from_start :
      (fuel p : ℕ) (target : ℤ) (s : GzipSeeker R)
      → Represents source content rest s p
      → pos_part target < 2 ^ 63
      → length content < fuel
      → Reaches target (seek_from_start source fuel target s)
  unfolding restarted Sought Reaches
  from_start fuel p (pos q) s h fits enough = elim (Bool-cases (ltb q p)) [
    | inl lt ↦
        (let (r, e, f) = lawful.restarts s.reader in
          let (out, g, sought) =
            skip_loop_lem source content rest lawful small fuel 0 q (restarted s r)
              (restarted-Represents p s r h f) (omega arith) fits (omega (arith, enough)) in
          (
            out,
            goes_back fuel (pos q) s r (position_test (pos q) p s h (ground arith)) e ∙ g,
            sought,
          ))
    | inr ge ↦
        (let (out, g, sought) =
            skip_loop_lem source content rest lawful small fuel p q s h (ground arith) fits
              (omega (arith, enough)) in
          (out, goes_on fuel (pos q) s (position_test (pos q) p s h (ground arith)) ∙ g, sought))
  ]
  from_start zero p (negsuc k) s h fits enough = absurd (omega arith)
  from_start (suc fuel) p (negsuc k) s h fits enough =
      let (r, e, f) = lawful.restarts s.reader in
      (
        (pos 0, nil, restarted s r),
        goes_back (suc fuel) (negsuc k) s r (position_test (negsuc k) p s h (ground arith)) e
            ∙ skip_stop source content rest lawful small fuel (negsuc k) (restarted s r)
                (ground arith),
        before (restarted-Represents p s r h f),
      )

  -- Where a seek is to go.
  abbrev pub seek_target : ℕ → ℤ → ℕ → Option ℤ
  seek_target p offset zero = some offset
  seek_target p offset (suc zero) = some (pos p +ℤ offset)
  seek_target p offset (suc (suc zero)) = some (pos (length content) +ℤ offset)
  seek_target p offset whence = none

  sum_fits : (a b : ℤ) → pos_part (a +ℤ b) < 2 ^ 63
  unfolding ◌+ℤ◌ wrap64
  sum_fits a b = ground arith

  -- A seek reaches its target within the bytes, and stops at their start or at their end; enough fuel
  -- is one more than there are bytes.
  pub seek-IsSought :
      (fuel p : ℕ) (offset : ℤ) (whence : ℕ) (target : ℤ) (s : GzipSeeker R)
      → Represents source content rest s p
      → pos_part offset < 2 ^ 63
      → seek_target p offset whence ≡ some target
      → length content < fuel
      → (out : ℤ × ReadEnd × GzipSeeker R) × (seek source fuel offset whence s ≡ some out)
        × IsSought source content rest target out
  unfolding seek Reaches
  seek-IsSought fuel p offset zero target s h fits e enough =
      subst (λ z. Reaches z (seek source fuel offset 0 s)) (some_inj e)
        (from_start fuel p offset s h fits enough)
  seek-IsSought fuel p offset (suc zero) target s h fits e enough =
      subst (λ z. Reaches z (seek source fuel offset 1 s))
        (ap (λ z. z +ℤ offset) h.position_eq ∙ some_inj e)
        (from_start fuel p (s.position +ℤ offset) s h (sum_fits s.position offset) enough)
  seek-IsSought fuel p offset (suc (suc zero)) target s h fits e enough =
      subst (λ z. Reaches z (seek source fuel offset 2 s))
        (ap (λ z. z +ℤ offset) h.size_eq ∙ some_inj e)
        (from_start fuel p (s.size +ℤ offset) s h (sum_fits s.size offset) enough)
  seek-IsSought fuel p offset (suc (suc (suc n))) target s h fits e enough = cc
