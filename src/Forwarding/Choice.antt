-- ===== src/Forwarding/Choice.antt =====
-- `shouldForwardRead` of replica_forwarding.go: which reads are passed on to the replicas.
pub mod Named
use verm.Prelude.{
  ℕ, zero, suc, Bool, true, false, ◌&&◌, ◌||◌, List, [], ◌∷◌, Bytes, codes, bytes_eq, leb, ◌==◌,
  if◌then◌else◌,
}
use verm.Http.{HttpRequest}

-- `[A-Za-z0-9]`
abbrev pub is_alnum : ℕ → Bool
is_alnum c = (leb b'A' c && leb c b'Z') || (leb b'a' c && leb c b'z') || (leb b'0' c && leb c b'9')

-- `[A-Za-g]` and `[A-Za-z0-9_-]`
abbrev pub is_hash_first : ℕ → Bool
is_hash_first c = (leb b'A' c && leb c b'Z') || (leb b'a' c && leb c b'g')

abbrev pub is_hash_char : ℕ → Bool
is_hash_char c = is_alnum c || c == b'_' || c == b'-'

-- `(\.[A-Za-z0-9]+|$)` at the front: what stands behind the first character of the extension is free.
unfoldable pub extension_here : Bytes → Bool
extension_here [] = true
extension_here (d ∷ []) = false
extension_here (d ∷ c ∷ s) = d == b'.' && is_alnum c

-- `[A-Za-z0-9_-]{n}` at the front, and the extension behind it
unfoldable pub chars_here : ℕ → Bytes → Bool
chars_here zero s = extension_here s
chars_here (suc n) [] = false
chars_here (suc n) (c ∷ s) = is_hash_char c && chars_here n s

-- `hashlikeExpression` at the front
unfoldable pub hash_here : Bytes → Bool
hash_here (p ∷ x ∷ y ∷ q ∷ z ∷ s) =
    p == b'/'
    && is_hash_first x
    && is_hash_char y
    && q == b'/'
    && is_hash_first z
    && chars_here 40 s
hash_here s = false

-- `hashlikeExpression.MatchString`
unfoldable pub matches_hash : Bytes → Bool
matches_hash [] = false
matches_hash (c ∷ s) = hash_here (c ∷ s) || matches_hash s

-- Whether there are values, and the last one is "0".
unfoldable pub last_is_zero : List Bytes → Bool
last_is_zero [] = false
last_is_zero (v ∷ []) = bytes_eq v (codes "0")
last_is_zero (v ∷ u ∷ values) = last_is_zero (u ∷ values)

-- `shouldForwardRead`
unfoldable pub should_forward_read : HttpRequest → Bool
should_forward_read r = if last_is_zero r.forward_values then false else matches_hash r.path
