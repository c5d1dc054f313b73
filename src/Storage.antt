-- ===== src/Storage.antt =====
-- The files that the program sees: a map from full paths to what stands there. The operating
-- system's calls `os.Open`, `os.Link` and `os.Remove` as the program uses them.
pub mod Laws
use verm.Prelude.{Option, none, some, List, [], ◌∷◌, Bytes, bytes_eq, if◌then◌else◌, ◌≡◌}

-- A regular file with its bytes, a directory, or an entry that exists and cannot be opened.
pub data Node : Type 0 where
  file : Bytes → Node
  directory closed : Node

abbrev pub Storage : Type 0
Storage = List (Bytes × Node)

unfoldable pub find : Bytes → Storage → Option Node
find p [] = none
find p ((q, n) ∷ s) = if bytes_eq q p then some n else find p s

-- A new entry; the caller has found that the path is free.
unfoldable pub add : Bytes → Node → Storage → Storage
add p n s = (p, n) ∷ s

-- `os.Remove(p)`, its error ignored
unfoldable pub remove : Bytes → Storage → Storage
remove p [] = []
remove p ((q, n) ∷ s) = let rest = remove p s in if bytes_eq q p then rest else (q, n) ∷ rest

-- Every file of the one is in the other, with the same bytes: nothing was overwritten or deleted.
abbrev pub Keeps : Storage → Storage → Type 0
Keeps s t = (p : Bytes) (n : Node) → find p s ≡ some n → find p t ≡ some n
