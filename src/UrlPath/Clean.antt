-- ===== src/UrlPath/Clean.antt =====
-- A cleaned rooted path cannot leave its root, and cleaning it again changes nothing.
use verm.Prelude.{
  ℕ, true, false, ◌≡◌, refl, ap, List, [], ◌∷◌, ◌++◌, Bytes, bytes_eq, split, split_head,
  if◌then◌else◌, ◌==◌, All, Lacks, arith, append-nil, Bool-cases, inl, inr, ◌≢◌, ◌⊎◌, sym, ◌∙◌,
  append_assoc,
}
use verm.UrlPath.{
  slash, render, is_kept, dots, back, push, walk, rev_append, components, or_else, clean,
}

-- A component that names an entry of a directory: not empty, without a slash, not `.` and not `..`.
pub record IsNormal (c : Bytes) : Type 0 where
  pub kept : is_kept c ≡ true
  pub not_dots : bytes_eq c dots ≡ false
  pub no_slash : Lacks b'/' c

-- The parts of a split hold no separator.
split-Lacks : (s : Bytes) (sep : ℕ) → All (Lacks sep) (split s sep)
unfolding split
split-Lacks [] sep = (tt, tt)
split-Lacks (c ∷ s) sep = step (split s sep) (split-Lacks s sep)
  where
    step :
        (rest : List Bytes)
        → All (Lacks sep) rest
        → All (Lacks sep) (if c == sep then [] ∷ rest else split_head (c ∷ []) rest)
    step [] h = ground arith
    step (p ∷ ps) h = ground arith

push-IsNormal :
    (stack : List Bytes) (c : Bytes)
    → is_kept c ≡ true
    → Lacks b'/' c
    → All IsNormal stack
    → All IsNormal (push true stack c)
unfolding push back
push-IsNormal [] c k l h = elim (Bool-cases (bytes_eq c dots)) [
  | inl e ↦ rw e tt
  | inr e ↦ rw e (record { kept = k; not_dots = e; no_slash = l }, tt)
]
push-IsNormal (t ∷ r) c k l h = elim (Bool-cases (bytes_eq c dots)) [
  | inl e ↦ rw (e, h.0.not_dots) h.1
  | inr e ↦ rw e (record { kept = k; not_dots = e; no_slash = l }, h)
]

walk-IsNormal :
    (cs stack : List Bytes)
    → All (Lacks b'/') cs
    → All IsNormal stack
    → All IsNormal (walk true stack cs)
unfolding walk
walk-IsNormal [] stack l h = h
walk-IsNormal (c ∷ cs) stack l h = elim (Bool-cases (is_kept c)) [
  | inl e ↦ rw e (walk-IsNormal cs (push true stack c) l.1 (push-IsNormal stack c e l.0 h))
  | inr e ↦ rw e (walk-IsNormal cs stack l.1 h)
]

rev_append-IsNormal :
    (xs acc : List Bytes) → All IsNormal xs → All IsNormal acc → All IsNormal (rev_append xs acc)
unfolding rev_append
rev_append-IsNormal [] acc h k = k
rev_append-IsNormal (x ∷ xs) acc h k = rev_append-IsNormal xs (x ∷ acc) h.1 (h.0, k)

-- The form of a cleaned rooted path: `/`, or components that name entries, each behind a slash.
pub record IsClean (p : Bytes) : Type 0 where
  pub parts : List Bytes
  pub p_eq : p ≡ or_else slash (render parts)
  pub normal : All IsNormal parts

-- The cleaned path of a request that begins with a slash is a chain of proper names below the root:
-- no component of it is empty, `.` or `..`.
pub clean-IsClean : (p : Bytes) → IsClean (clean (b'/' ∷ p))
unfolding clean components
clean-IsClean p = record {
  parts = components true p;
  p_eq = refl;
  normal =
      rev_append-IsNormal (walk true [] (split p b'/')) []
        (walk-IsNormal (split p b'/') [] (split-Lacks p b'/') tt) tt;
}

-- A rendered chain is split into its components.
split-render :
    (c : Bytes) (cs : List Bytes)
    → Lacks b'/' c
    → All IsNormal cs
    → split (c ++ render cs) b'/' ≡ c ∷ cs
unfolding split render
split-render [] [] l h = refl
split-render [] (d ∷ ds) l h = ap (λ r. [] ∷ r) (split-render d ds h.0.no_slash h.1)
split-render (x ∷ c) cs l h = rw (split-render c cs l.1 h) (ground arith)

walk-normal : (cs stack : List Bytes) → All IsNormal cs → walk true stack cs ≡ rev_append cs stack
unfolding walk push rev_append
walk-normal [] stack h = refl
walk-normal (c ∷ cs) stack h = rw (h.0.kept, h.0.not_dots) (walk-normal cs (c ∷ stack) h.1)

rev_append_twice :
    (xs ys acc : List Bytes) → rev_append (rev_append xs ys) acc ≡ rev_append ys (xs ++ acc)
unfolding rev_append
rev_append_twice [] ys acc = refl
rev_append_twice (x ∷ xs) ys acc = rev_append_twice xs (x ∷ ys) acc

components-render :
    (c : Bytes) (cs : List Bytes)
    → All IsNormal (c ∷ cs)
    → components true (c ++ render cs) ≡ c ∷ cs
unfolding components
components-render c cs h =
    rw (split-render c cs h.0.no_slash h.1, walk-normal (c ∷ cs) [] h, rev_append_twice)
      (unfold rev_append in append-nil (c ∷ cs))

-- A clean path is left as it is.
pub clean_of_IsClean : {p : Bytes} → IsClean p → clean p ≡ p
clean_of_IsClean {p} h = rw h.p_eq (fixed h.parts h.normal)
  where
    fixed :
        (cs : List Bytes)
        → All IsNormal cs
        → clean (or_else slash (render cs)) ≡ or_else slash (render cs)
    fixed [] n = unfold clean split bytes_eq in refl
    fixed (c ∷ cs) n = unfold clean in ap (λ r. or_else slash (render r)) (components-render c cs n)

-- Cleaning the path of a request twice is cleaning it once.
pub clean-clean : (p : Bytes) → clean (clean (b'/' ∷ p)) ≡ clean (b'/' ∷ p)
clean-clean p = clean_of_IsClean (clean-IsClean p)

-- A component that begins with neither a dot nor a slash, and has no slash behind it.
pub letter-IsNormal : (c : ℕ) (s : Bytes) → c ≢ b'.' → c ≢ b'/' → Lacks b'/' s → IsNormal (c ∷ s)
unfolding is_kept bytes_eq
letter-IsNormal c s dot slash lacks = record {
  kept = ground arith;
  not_dots = ground arith;
  no_slash = (slash, lacks);
}

pub render-append : (xs ys : List Bytes) → render (xs ++ ys) ≡ render xs ++ render ys
unfolding render
render-append [] ys = refl
render-append (x ∷ xs) ys =
    ap (λ r. b'/' ∷ (x ++ r)) (render-append xs ys)
    ∙ ap (λ r. b'/' ∷ r) (sym (append_assoc x (render xs) (render ys)))

-- A chain of proper names is clean.
pub render-IsClean :
    (c : Bytes) (cs : List Bytes) → All IsNormal (c ∷ cs) → IsClean (render (c ∷ cs))
unfolding render
render-IsClean c cs h = record { parts = c ∷ cs; p_eq = unfold render in refl; normal = h }

-- A clean path is `/` or a chain of proper names.
pub IsClean-cases :
    {p : Bytes}
    → IsClean p
    → (p ≡ slash)
      ⊎ ((c : Bytes) × (cs : List Bytes) × (p ≡ render (c ∷ cs)) × All IsNormal (c ∷ cs))
IsClean-cases {p} h = go h.parts h.p_eq h.normal
  where
    go :
        (parts : List Bytes)
        → p ≡ or_else slash (render parts)
        → All IsNormal parts
        → (p ≡ slash)
          ⊎ ((c : Bytes) × (cs : List Bytes) × (p ≡ render (c ∷ cs)) × All IsNormal (c ∷ cs))
    go [] e n = unfold render in inl e
    go (c ∷ cs) e n = unfold render in inr (c, cs, e, n)
