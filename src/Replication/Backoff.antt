-- ===== src/Replication/Backoff.antt =====
-- replication_backoff.go: how long to wait after a number of failures.
use verm.Prelude.{
  ℕ, suc, ◌+◌, ◌-◌, ◌*◌, ◌/◌, ◌^◌, ◌≤◌, ◌<◌, Bool, true, false, ltb, leb, ◌==◌, if◌then◌else◌, ◌≡◌,
  ◌↔◌, ◌≢◌, ◌&&◌, ◌⊎◌, inl, inr, refl, arith, passes_below, passes_at, Bool-cases,
}
use verm.Prelude.Int.{ℤ, pos, negsuc, ◌+ℤ◌, wrap64, ltbℤ}

-- `ReplicationBackoffBaseDelay` and `ReplicationBackoffMaxDelay`, in seconds
abbrev base_delay : ℕ
base_delay = 1

abbrev max_delay : ℕ
max_delay = 120

abbrev second : ℕ
second = 1000000000

-- A number of seconds as a `time.Duration`, in nanoseconds.
unfoldable pub seconds : ℤ → ℤ
seconds (pos n) = wrap64 (n * second) 0
seconds (negsuc n) = wrap64 0 (suc n * second)

-- The `uint` that is `failures - 3`.
unfoldable pub shift_count : ℕ → ℕ
shift_count failures = if ltb failures 3 then failures + 2 ^ 64 - 3 else failures - 3

-- `base_delay * (2 << count)` as an `int`
unfoldable pub shifted : ℕ → ℤ
shifted count = if ltb count 64 then wrap64 (base_delay * (2 * 2 ^ count)) 0 else pos 0

-- The random part; `int63n` stands for `rand.Int63n`.
unfoldable pub spread : (ℕ → ℕ) → ℤ → ℤ
unfolding ◌+ℤ◌
spread int63n (negsuc n) = negsuc n
spread int63n (pos n) = if ltb 1 n then pos (n / 2) +ℤ pos (int63n (n / 2)) else pos n

-- The delay, at most the maximum.
unfoldable pub capped : ℤ → ℤ
unfolding seconds
capped time = if ltbℤ (pos max_delay) time then seconds (pos max_delay) else seconds time

-- `backoffTime`
unfoldable pub backoff_time : (ℕ → ℕ) → ℕ → ℤ
unfolding seconds
backoff_time int63n failures =
    if ltb failures 2
    then seconds (pos base_delay)
    else capped (spread int63n (shifted (shift_count failures)))

abbrev is_positive : ℤ → Bool
is_positive (pos m) = leb 2 m && ltb m (2 ^ 63)
is_positive (negsuc m) = false

-- Up to 61 places, the shifted number is a positive `int`.
shifted_positive :
    (count : ℕ) → count < 62 → (m : ℕ) × (shifted count ≡ pos m) × (2 ≤ m) × (m < 2 ^ 63)
unfolding shifted wrap64 passes_below
shifted_positive count small =
    go (shifted count) refl (passes_at (λ c. is_positive (shifted c)) 62 all_positive count small)
  where
    all_positive : passes_below (λ c. is_positive (shifted c)) 62 ≡ true
    all_positive = refl

    go :
        (x : ℤ)
        → shifted count ≡ x
        → is_positive (shifted count) ≡ true
        → (m : ℕ) × (shifted count ≡ pos m) × (2 ≤ m) × (m < 2 ^ 63)
    go (pos m) e t =
        let u : is_positive (pos m) ≡ true = rw e at t in (m, e, ground arith, ground arith)
    go (negsuc m) e t = cc (rw e at t)

-- The numbers of failures for which the shift overflows.
abbrev pub IsOverflow : ℕ → Type 0
IsOverflow failures = (failures ≡ 2) ⊎ (65 ≤ failures)

IsOverflow-dec : (failures : ℕ) → IsOverflow failures ⊎ ((failures < 65) × (failures ≢ 2))
IsOverflow-dec failures = ground arith

shifted_beyond : (count : ℕ) → 64 ≤ count → shifted count ≡ pos 0
unfolding shifted
shifted_beyond count large = ground arith

shift_count_lem : (failures : ℕ) → 3 ≤ failures → shift_count failures ≡ failures - 3
unfolding shift_count
shift_count_lem failures le = ground arith

base_second : seconds (pos base_delay) ≡ pos (1 * second)
unfolding seconds wrap64
base_second = refl

module _ (int63n : ℕ → ℕ) where
  capped_zero : capped (spread int63n (pos 0)) ≡ pos 0
  unfolding capped spread seconds wrap64
  capped_zero = refl

  overflown :
      (failures : ℕ)
      → ltb failures 2 ≡ false
      → shift_count failures ≡ failures - 3
      → shifted (failures - 3) ≡ pos 0
      → backoff_time int63n failures ≡ pos 0
  unfolding backoff_time
  overflown failures t c z = rw (t, c, z) capped_zero

  overflow_zero : (failures : ℕ) → IsOverflow failures → backoff_time int63n failures ≡ pos 0
  unfolding backoff_time shift_count spread seconds wrap64 shifted capped
  overflow_zero failures (inl e) = rw e refl
  overflow_zero failures (inr le) = elim (Bool-cases (failures == 65)) [
    | inl e ↦ let f : failures ≡ 65 = ground arith in rw f refl
    | inr e ↦ elim (Bool-cases (failures == 66)) [
      | inl d ↦ let f : failures ≡ 66 = ground arith in rw f refl
      | inr d ↦
          let z : shifted (failures - 3) ≡ pos 0 = shifted_beyond (failures - 3) (ground arith) in
          overflown failures (ground arith) (shift_count_lem failures (ground arith)) z
    ]
  ]

  module _ (in_range : (n : ℕ) → 1 ≤ n → int63n n < n) where
    capped-spread :
        (m : ℕ)
        → 2 ≤ m
        → m < 2 ^ 63
        → (s : ℕ) × (1 ≤ s) × (s ≤ max_delay) × (capped (spread int63n (pos m)) ≡ pos (s * second))
    unfolding spread capped seconds wrap64 ◌+ℤ◌
    capped-spread m low high =
        let r = in_range (m / 2) (omega arith) in
        let t = m / 2 + int63n (m / 2) in
        (if ltb max_delay t then max_delay else t, ground arith, ground arith, ground arith)

    other_positive :
        (failures : ℕ)
        → failures < 65
        → failures ≢ 2
        → (s : ℕ) × (1 ≤ s) × (s ≤ max_delay) × (backoff_time int63n failures ≡ pos (s * second))
    unfolding backoff_time
    other_positive failures bound o = elim (Bool-cases (ltb failures 2)) [
      | inl t ↦ (1, omega arith, omega arith, rw t base_second)
      | inr t ↦
          let (m, e, low, high) = shifted_positive (failures - 3) (ground arith) in
          rw (t, shift_count_lem failures (ground arith), e) (capped-spread m low high)
    ]

    -- The delay is 0 exactly when the shift overflows, at 2 failures and from 65 on.
    pub backoff_time-zero_iff :
        (failures : ℕ) → (backoff_time int63n failures ≡ pos 0) ↔ IsOverflow failures
    backoff_time-zero_iff failures = (to, overflow_zero failures)
      where
        to : backoff_time int63n failures ≡ pos 0 → IsOverflow failures
        to e = elim (IsOverflow-dec failures) [
          | inl o ↦ o
          | inr (a, b) ↦
              let (s, low, high, d) = other_positive failures a b in
              absurd (ground (arith, e, d, low))
        ]

    -- The delay is a whole number of seconds, at most 120.
    pub backoff_time_bounds :
        (failures : ℕ)
        → (s : ℕ) × (s ≤ max_delay) × (backoff_time int63n failures ≡ pos (s * second))
    backoff_time_bounds failures = elim (IsOverflow-dec failures) [
      | inl o ↦ (0, omega arith, overflow_zero failures o)
      | inr (a, b) ↦ let (s, low, high, e) = other_positive failures a b in (s, high, e)
    ]
