-- ===== src/Prelude/Plain.antt =====
-- How the text functions act on text in which they find nothing to do.
use Prim.Native.Nat.{ℕ, suc}
use mathlib.Core.Path.{◌≡◌, refl}
use mathlib.Core.Bool.{false}
use mathlib.Core.List.{[], ◌∷◌, ◌++◌}
use mathlib.Core.Option.{some, none}
use native.Mathlib.Omega.{arith}
use verm.Prelude.Tests.{==_refl}
use verm.Prelude.Lists.{All, length, drop, take_append}
use verm.Prelude.Text.{
  Bytes, Lacks, split, split_head, index_byte, before_byte, behind_byte, trim_space, trim_left,
  trim_right, is_space,
}

-- Text without white space.
abbrev pub IsTight : Bytes → Type 0
IsTight = All (λ c. is_space c ≡ false)

trim_left_tight : (s : Bytes) → IsTight s → trim_left s ≡ s
unfolding trim_left
trim_left_tight [] t = refl
trim_left_tight (c ∷ s) t = rw t.0

trim_right_tight : (s : Bytes) → IsTight s → trim_right s ≡ s
unfolding trim_right
trim_right_tight [] t = refl
trim_right_tight (c ∷ []) t = rw t.0
trim_right_tight (c ∷ d ∷ s) t = rw (trim_right_tight (d ∷ s) t.1, trim_right)

pub trim_space_tight : (s : Bytes) → IsTight s → trim_space s ≡ s
unfolding trim_space
trim_space_tight s t = rw (trim_left_tight s t) (trim_right_tight s t)

-- Text without the separator is one part.
pub split_lacking : (s : Bytes) (sep : ℕ) → Lacks sep s → split s sep ≡ s ∷ []
unfolding split
split_lacking [] sep l = refl
split_lacking (c ∷ s) sep l = rw (split_lacking s sep l.1) (ground arith)

-- The first occurrence of a byte.
pub index_byte-append :
    (x y : Bytes) (c : ℕ) → Lacks c x → index_byte (x ++ c ∷ y) c ≡ some (length x)
unfolding index_byte
index_byte-append [] y c l = rw (==_refl c)
index_byte-append (d ∷ x) y c l = rw (index_byte-append x y c l.1) (ground arith)

index_byte-lacking : (s : Bytes) (c : ℕ) → Lacks c s → index_byte s c ≡ none
unfolding index_byte
index_byte-lacking [] c l = refl
index_byte-lacking (d ∷ s) c l = rw (index_byte-lacking s c l.1) (ground arith)

pub before_byte-lacking : (s : Bytes) (c : ℕ) → Lacks c s → before_byte s c ≡ s
unfolding before_byte
before_byte-lacking s c l = rw (before_byte, index_byte-lacking s c l) refl

drop_past : (x y : Bytes) (c : ℕ) → drop (suc (length x)) (x ++ c ∷ y) ≡ y
unfolding drop
drop_past [] [] c = refl
drop_past [] (d ∷ y) c = refl
drop_past (d ∷ x) y c = drop_past x y c

pub behind_byte-append : (x y : Bytes) (c : ℕ) → Lacks c x → behind_byte (x ++ c ∷ y) c ≡ y
unfolding behind_byte
behind_byte-append x y c l = rw (behind_byte, index_byte-append x y c l) (drop_past x y c)

pub before_byte-append : (x y : Bytes) (c : ℕ) → Lacks c x → before_byte (x ++ c ∷ y) c ≡ x
unfolding before_byte
before_byte-append x y c l = rw (before_byte, index_byte-append x y c l) (take_append x (c ∷ y))

-- The part before a separator is the first one.
pub split-append :
    (x y : Bytes) (sep : ℕ) → Lacks sep x → split (x ++ sep ∷ y) sep ≡ x ∷ split y sep
unfolding split split_head
split-append [] y sep l = rw (==_refl sep) refl
split-append (c ∷ x) y sep l = rw (split-append x y sep l.1) (ground arith)
