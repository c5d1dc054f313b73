-- ===== src/UrlPath.antt =====
-- `path.Clean` of Go's library, which the handlers apply to the path of a request, and `filepath.Ext`.
pub mod Clean
mod Examples
use verm.Prelude.{
  Bool, true, false, ◌&&◌, not, Option, none, some, List, [], ◌∷◌, ◌++◌, Bytes, codes, bytes_eq,
  split, drop, if◌then◌else◌, ◌==◌, contains_byte, last_index,
}

abbrev pub slash : Bytes
slash = b'/' ∷ []

-- Each component behind a slash.
unfoldable pub render : List Bytes → Bytes
render [] = []
render (c ∷ cs) = b'/' ∷ (c ++ render cs)

-- Empty components and `.` are dropped.
pub is_kept : Bytes → Bool
is_kept c = not (bytes_eq c []) && not (bytes_eq c (codes "."))

abbrev pub dots : Bytes
dots = codes ".."

-- The components so far, the last one first, when `..` is met.
back : Bool → List Bytes → List Bytes
back true [] = []
back false [] = dots ∷ []
back rooted (t ∷ r) = if bytes_eq t dots then dots ∷ t ∷ r else r

push : Bool → List Bytes → Bytes → List Bytes
unfolding back
push rooted stack c = if bytes_eq c dots then back rooted stack else c ∷ stack

walk : Bool → List Bytes → List Bytes → List Bytes
unfolding push is_kept
walk rooted stack [] = stack
walk rooted stack (c ∷ cs) = walk rooted (if is_kept c then push rooted stack c else stack) cs

rev_append : List Bytes → List Bytes → List Bytes
rev_append [] acc = acc
rev_append (x ∷ xs) acc = rev_append xs (x ∷ acc)

-- The components of a path, cleaned.
components : Bool → Bytes → List Bytes
unfolding walk rev_append
components rooted p = rev_append (walk rooted [] (split p b'/')) []

abbrev or_else : Bytes → Bytes → Bytes
or_else d [] = d
or_else d (c ∷ s) = c ∷ s

-- `path.Clean(p)`
unfoldable pub clean : Bytes → Bytes
unfolding components render
clean [] = codes "."
clean (c ∷ p) =
    if c == b'/'
    then or_else slash (render (components true p))
    else or_else (codes ".") (drop 1 (render (components false (c ∷ p))))

-- `filepath.Ext(p)`: from the last dot of the last component on
unfoldable pub ext : Bytes → Bytes
ext p = elim (last_index p b'.') [
  | none ↦ []
  | some i ↦ let e = drop i p in if contains_byte e b'/' then [] else e
]
