-- ===== src/Storage/Laws.antt =====
-- Looking up after `add` and `remove`.
use verm.Prelude.{
  none, some, [], ◌∷◌, Bytes, bytes_eq, bytes_eq_iff, if◌then◌else◌, ◌≡◌, refl, ap, arith,
  Bool-cases, inl, inr, bytes_eq_refl,
}
use verm.Storage.{Node, Storage, find, add, remove, Keeps}

pub find-add :
    (p q : Bytes) (n : Node) (s : Storage)
    → find q (add p n s) ≡ (if bytes_eq p q then some n else find q s)
unfolding find add
find-add p q n s = refl

pub find-remove :
    (p q : Bytes) (s : Storage) → find q (remove p s) ≡ (if bytes_eq p q then none else find q s)
unfolding find remove
find-remove p q [] = ground arith
find-remove p q ((r, n) ∷ s) =
    ground (arith, find-remove p q s, bytes_eq_iff r p, bytes_eq_iff r q, bytes_eq_iff p q)

pub find-add_self : (p : Bytes) (n : Node) (s : Storage) → find p (add p n s) ≡ some n
unfolding find add
find-add_self p n s = rw (bytes_eq_refl p) refl

-- Adding at a free path keeps every file.
pub Keeps-add : (p : Bytes) (n : Node) (s : Storage) → find p s ≡ none → Keeps s (add p n s)
Keeps-add p n s h q m e = rw find-add (elim (Bool-cases (bytes_eq p q)) [
  | inl same ↦ cc (ap (λ x. find x s) ((bytes_eq_iff p q).0 same))
  | inr other ↦ rw other e
])

pub Keeps-refl : (s : Storage) → Keeps s s
Keeps-refl s p n h = h

pub Keeps-trans : (s t u : Storage) → Keeps s t → Keeps t u → Keeps s u
Keeps-trans s t u f g p n h = g p n (f p n h)
