-- ===== src/Prelude/Text.antt =====
-- Go strings as byte lists, and the functions of Go's `strings` and `bytes` packages that the
-- program calls.
use Prim.Native.Nat.{ℕ, suc, ◌-◌}
use Prim.Native.Char.{code}
use Prim.Native.String.{String}
use mathlib.Core.Path.{◌≡◌, refl}
use mathlib.Core.Bool.{Bool, true, false, ◌&&◌, ◌||◌}
use mathlib.Core.Logic.{◌↔◌, ◌≢◌}
use mathlib.Core.List.{List, [], ◌∷◌, ◌++◌}
use mathlib.Core.Option
use mathlib.Core.Option.{Option, none, some}
use native.Mathlib.Omega.{arith}
use verm.Prelude.Tests.{◌==◌, if◌then◌else◌, ==_refl}
use verm.Prelude.Lists.{length, take, drop, All}

abbrev pub Bytes : Type 0
Bytes = List ℕ

-- The bytes of an ASCII literal.
abbrev pub codes : String → Bytes
codes String.[] = []
codes (String.◌∷◌ c s) = code c ∷ codes s

-- `a == b`
unfoldable pub bytes_eq : Bytes → Bytes → Bool
bytes_eq [] [] = true
bytes_eq [] (y ∷ ys) = false
bytes_eq (x ∷ xs) [] = false
bytes_eq (x ∷ xs) (y ∷ ys) = x == y && bytes_eq xs ys

pub bytes_eq→eq : (a b : Bytes) → bytes_eq a b ≡ true → a ≡ b
unfolding bytes_eq
bytes_eq→eq [] [] h = refl
bytes_eq→eq [] (y ∷ ys) h = cc
bytes_eq→eq (x ∷ xs) [] h = cc
bytes_eq→eq (x ∷ xs) (y ∷ ys) h = ground (arith, bytes_eq→eq xs ys)

pub bytes_eq_refl : (a : Bytes) → bytes_eq a a ≡ true
unfolding bytes_eq
bytes_eq_refl [] = refl
bytes_eq_refl (x ∷ xs) = rw (==_refl x) (bytes_eq_refl xs)

pub bytes_eq_iff : (a b : Bytes) → (bytes_eq a b ≡ true) ↔ (a ≡ b)
bytes_eq_iff a b = (bytes_eq→eq a b, λ e. rw e (bytes_eq_refl b))

-- `strings.HasPrefix(s, prefix)`
unfoldable pub has_prefix : Bytes → Bytes → Bool
has_prefix s [] = true
has_prefix [] (p ∷ ps) = false
has_prefix (c ∷ s) (p ∷ ps) = c == p && has_prefix s ps

-- `strings.HasSuffix(s, suffix)` for a suffix no longer than `s`, as `strings.TrimSuffix` uses it
unfoldable pub has_suffix : Bytes → Bytes → Bool
has_suffix [] suffix = bytes_eq [] suffix
has_suffix (c ∷ s) suffix = bytes_eq (c ∷ s) suffix || has_suffix s suffix

-- `strings.TrimSuffix(s, suffix)`
unfoldable pub trim_suffix : Bytes → Bytes → Bytes
trim_suffix s suffix = if has_suffix s suffix then take (length s - length suffix) s else s

-- `strings.Contains(s, c)` and `bytes.IndexByte(s, c)` for one byte
unfoldable pub contains_byte : Bytes → ℕ → Bool
contains_byte [] c = false
contains_byte (x ∷ s) c = x == c || contains_byte s c

unfoldable pub index_byte : Bytes → ℕ → Option ℕ
index_byte [] c = none
index_byte (x ∷ s) c = let rest = index_byte s c in if x == c then some 0 else Option.map suc rest

-- The text before the first `c`, and the one behind it, if there is one.
unfoldable pub before_byte : Bytes → ℕ → Bytes
before_byte s c = elim (index_byte s c) [ none ↦ s | some i ↦ take i s ]

unfoldable pub behind_byte : Bytes → ℕ → Bytes
behind_byte s c = elim (index_byte s c) [ none ↦ [] | some i ↦ drop (suc i) s ]

-- `strings.LastIndex(s, c)` for one byte; -1 is `none`
unfoldable pub last_index : Bytes → ℕ → Option ℕ
last_index [] c = none
last_index (x ∷ s) c = elim (last_index s c) [
  | some i ↦ some (suc i)
  | none ↦ if x == c then some 0 else none
]

-- The part before the first separator, and what stands behind that separator.
unfoldable pub split_head : Bytes → List Bytes → List Bytes
split_head cur [] = cur ∷ []
split_head cur (p ∷ ps) = (cur ++ p) ∷ ps

-- `strings.Split(s, sep)` for a separator of one byte
unfoldable pub split : Bytes → ℕ → List Bytes
unfolding split_head
split [] sep = [] ∷ []
split (c ∷ s) sep =
    let rest = split s sep in if c == sep then [] ∷ rest else split_head (c ∷ []) rest

-- the ASCII white space of `unicode.IsSpace`
abbrev pub is_space : ℕ → Bool
is_space c = c == 9 || c == 10 || c == 11 || c == 12 || c == 13 || c == 32

unfoldable pub trim_left : Bytes → Bytes
trim_left [] = []
trim_left (c ∷ s) = let rest = trim_left s in if is_space c then rest else c ∷ s

-- drops the white space at the end
unfoldable pub trim_right : Bytes → Bytes
trim_right [] = []
trim_right (c ∷ s) = elim (trim_right s) [
  | [] ↦ if is_space c then [] else c ∷ []
  | x ∷ r ↦ c ∷ x ∷ r
]

-- `strings.TrimSpace(s)` of ASCII text
unfoldable pub trim_space : Bytes → Bytes
unfolding trim_left trim_right
trim_space s = trim_right (trim_left s)

pub has_prefix_append : (p s : Bytes) → has_prefix (p ++ s) p ≡ true
unfolding has_prefix
has_prefix_append [] s = refl
has_prefix_append (x ∷ p) s = rw (==_refl x) (has_prefix_append p s)

-- A text with a given prefix is that prefix with the rest behind it.
pub has_prefix→append : (s p : Bytes) → has_prefix s p ≡ true → s ≡ p ++ drop (length p) s
unfolding has_prefix drop
has_prefix→append [] [] h = refl
has_prefix→append (c ∷ s) [] h = refl
has_prefix→append [] (p ∷ ps) h = cc
has_prefix→append (c ∷ s) (p ∷ ps) h = ground (arith, has_prefix→append s ps)

-- No byte of the text is `c`.
abbrev pub Lacks : ℕ → Bytes → Type 0
Lacks c = All (λ b. b ≢ c)

pub contains_byte→Lacks : (s : Bytes) (c : ℕ) → contains_byte s c ≡ false → Lacks c s
unfolding contains_byte
contains_byte→Lacks [] c h = tt
contains_byte→Lacks (x ∷ s) c h = ground (arith, contains_byte→Lacks s c)
