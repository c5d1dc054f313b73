-- ===== src/Prelude/Decimal.antt =====
-- `%d` of `fmt.Sprintf` for numbers that are not negative.
use Prim.Native.Nat.{ℕ, zero, suc, ◌+◌, ◌-◌, ◌*◌, ◌/◌, ◌%◌, ◌≤◌, ◌<◌}
use mathlib.Core.Path.{◌≡◌, refl, sym, ap, ◌∙◌}
use mathlib.Core.List.{[], ◌∷◌, ◌++◌}
use mathlib.Core.Bool.{Bool, true, false}
use native.Mathlib.Omega.{arith}
use verm.Prelude.Tests.{ltb, if◌then◌else◌}
use verm.Prelude.Lists.{All, All-append}
use verm.Prelude.Text.{Bytes, Lacks}

-- The fuel `n + 1` is more than the number of digits.
itoa_fuel : ℕ → ℕ → Bytes
itoa_fuel zero n = []
itoa_fuel (suc f) n =
    let more = itoa_fuel f (n / 10) ++ (b'0' + n % 10) ∷ [] in
    if ltb n 10 then (b'0' + n) ∷ [] else more

unfoldable pub itoa : ℕ → Bytes
unfolding itoa_fuel
itoa n = itoa_fuel (suc n) n

abbrev pub IsDigit : ℕ → Type 0
IsDigit c = (b'0' ≤ c) × (c ≤ b'9')

-- The number that digits spell behind `n`.
unfoldable pub value : ℕ → Bytes → ℕ
value n [] = n
value n (c ∷ s) = value (n * 10 + (c - b'0')) s

value-append : (n : ℕ) (s t : Bytes) → value n (s ++ t) ≡ value (value n s) t
unfolding value
value-append n [] t = refl
value-append n (c ∷ s) t = value-append (n * 10 + (c - b'0')) s t

value-itoa_fuel : (f n : ℕ) → n < f → value 0 (itoa_fuel f n) ≡ n
unfolding itoa_fuel value
value-itoa_fuel zero n h = absurd (omega arith)
value-itoa_fuel (suc f) n h = ground (
  arith,
  value-append 0 (itoa_fuel f (n / 10)) ((b'0' + n % 10) ∷ []),
  value-itoa_fuel f (n / 10),
)

pub value-itoa : (n : ℕ) → value 0 (itoa n) ≡ n
unfolding itoa
value-itoa n = value-itoa_fuel (suc n) n (omega arith)

pub itoa_inj : (m n : ℕ) → itoa m ≡ itoa n → m ≡ n
itoa_inj m n e = sym (value-itoa m) ∙ ap (value 0) e ∙ value-itoa n

itoa_fuel-IsDigit : (f n : ℕ) → All IsDigit (itoa_fuel f n)
unfolding itoa_fuel
itoa_fuel-IsDigit zero n = tt
itoa_fuel-IsDigit (suc f) n =
    let more : All IsDigit (itoa_fuel f (n / 10) ++ (b'0' + n % 10) ∷ []) =
      All-append IsDigit (itoa_fuel f (n / 10)) _ (itoa_fuel-IsDigit f (n / 10)) (omega arith) in
    ground arith

pub itoa-IsDigit : (n : ℕ) → All IsDigit (itoa n)
unfolding itoa
itoa-IsDigit n = itoa_fuel-IsDigit (suc n) n

pub digits_lack : (c : ℕ) (s : Bytes) → c < b'0' → All IsDigit s → Lacks c s
digits_lack c [] lt h = tt
digits_lack c (d ∷ s) lt (h, hs) = (ground arith, digits_lack c s lt hs)

-- A number has at least one digit.
pub itoa_cons : (n : ℕ) → (c : ℕ) × (s : Bytes) × (itoa n ≡ c ∷ s)
unfolding itoa itoa_fuel
itoa_cons n = go (itoa_fuel n (n / 10)) (ltb n 10)
  where
    go :
        (more : Bytes) (b : Bool)
        → (c : ℕ) × (s : Bytes) × ((if b then (b'0' + n) ∷ [] else more ++ (b'0' + n % 10) ∷ [])
            ≡ c ∷ s)
    go more true = (_, _, refl)
    go [] false = (_, _, refl)
    go (x ∷ more) false = (_, _, refl)
