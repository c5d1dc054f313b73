-- ===== src/Replication/Resync/Enumerated.antt =====
-- A resync lists exactly the files that there are, and `Put` finds each of them.
use verm.Prelude.{
  suc, ◌-◌, Bool, true, false, Option, none, some, List, [], ◌∷◌, ◌++◌, Bytes, codes, bytes_eq,
  has_suffix, trim_suffix, take, length, if◌then◌else◌, ◌≡◌, ◌⊎◌, ◌↔◌, inl, inr, refl, sym, ap, ◌∙◌,
  arith, Bool-cases, bytes_eq_iff, length-append,
}
use mathlib.Core.List.Memᴰ.{head, tail, append_left, append_right, append_cases, not-nil}
use mathlib.Core.List.{Memᴰ}
use verm.Storage.{Storage, file, find}
use verm.Replication.Push.{open_location, open_file, opened_node, choose_opened}
use verm.Stream.{Stream, whole}
use verm.Replication.Resync.{
  Listing, ending, regular, subdirectory, irregular, is_kept, expanded, enumerate_subdirectory,
  HasFile, here, inside, behind_regular, behind_subdirectory, behind_irregular,
}

abbrev pub location_of : Bytes → Bytes
location_of p = trim_suffix p (codes ".gz")

-- What the entry `name` adds to the locations behind it.
keep : Bool → List Bytes → List Bytes → List Bytes
keep b own behind = if b then own ++ behind else behind

keep_behind :
    {l : Bytes} (b : Bool) (own : List Bytes) {behind : List Bytes}
    → Memᴰ l behind
    → Memᴰ l (keep b own behind)
unfolding keep
keep_behind true own m = append_right own m
keep_behind false own m = m

keep_cases :
    {l : Bytes} (b : Bool) (own : List Bytes) {behind : List Bytes}
    → Memᴰ l (keep b own behind)
    → ((b ≡ true) × Memᴰ l own) ⊎ Memᴰ l behind
unfolding keep
keep_cases true own m = elim (append_cases own m) [ inl a ↦ inl (refl, a) | inr c ↦ inr c ]
keep_cases false own m = inr m

complete :
    {d : Bytes} {t : Listing} {p : Bytes}
    → HasFile d t p
    → Memᴰ (location_of p) (enumerate_subdirectory d t)
unfolding enumerate_subdirectory keep
complete (here k) = rw k (head refl)
complete {d} (inside {inner} {rest} k h) =
    rw k (append_left (enumerate_subdirectory d rest) (complete h))
complete {d} (behind_regular {name} {rest} h) =
    keep_behind (is_kept name) (location_of (expanded d name) ∷ []) (complete h)
complete {d} (behind_subdirectory {name} {inner} {rest} h) =
    keep_behind (is_kept name) (enumerate_subdirectory (expanded d name) inner) (complete h)
complete (behind_irregular h) = complete h

sound :
    (d : Bytes) (t : Listing) (l : Bytes)
    → Memᴰ l (enumerate_subdirectory d t)
    → (p : Bytes) × HasFile d t p × (l ≡ location_of p)
unfolding enumerate_subdirectory keep
sound d ending l m = absurd (not-nil m)
sound d (regular name rest) l m =
    go (keep_cases (is_kept name) (location_of (expanded d name) ∷ []) m) (sound d rest l)
  where
    go :
        ((is_kept name ≡ true) × Memᴰ l (location_of (expanded d name) ∷ []))
          ⊎ Memᴰ l (enumerate_subdirectory d rest)
        → (Memᴰ l (enumerate_subdirectory d rest)
            → (p : Bytes) × HasFile d rest p × (l ≡ location_of p))
        → (p : Bytes) × HasFile d (regular name rest) p × (l ≡ location_of p)
    go (inl (k, head e)) below = (expanded d name, here k, e)
    go (inl (k, tail n)) below = absurd (not-nil n)
    go (inr n) below = let (p, h, e) = below n in (p, behind_regular h, e)
sound d (subdirectory name inner rest) l m =
    go (keep_cases (is_kept name) (enumerate_subdirectory (expanded d name) inner) m)
      (sound (expanded d name) inner l) (sound d rest l)
  where
    go :
        ((is_kept name ≡ true) × Memᴰ l (enumerate_subdirectory (expanded d name) inner))
          ⊎ Memᴰ l (enumerate_subdirectory d rest)
        → (Memᴰ l (enumerate_subdirectory (expanded d name) inner)
            → (p : Bytes) × HasFile (expanded d name) inner p × (l ≡ location_of p))
        → (Memᴰ l (enumerate_subdirectory d rest)
            → (p : Bytes) × HasFile d rest p × (l ≡ location_of p))
        → (p : Bytes) × HasFile d (subdirectory name inner rest) p × (l ≡ location_of p)
    go (inl (k, n)) within below = let (p, h, e) = within n in (p, inside k h, e)
    go (inr n) within below = let (p, h, e) = below n in (p, behind_subdirectory h, e)
sound d (irregular name rest) l m = let (p, h, e) = sound d rest l m in (p, behind_irregular h, e)

-- A location is sent exactly if it is the path, without `.gz` at its end, of a regular file that is
-- below the directory and has no temporary name on the way to it.
pub enumerate_subdirectory_iff :
    (d : Bytes) (t : Listing) (l : Bytes)
    → Memᴰ l (enumerate_subdirectory d t) ↔ ((p : Bytes) × HasFile d t p × (l ≡ location_of p))
enumerate_subdirectory_iff d t l = (sound d t l, λ (p, h, e). rw e (complete h))

-- What `trim_suffix` takes off.
take_suffix :
    (s suffix : Bytes)
    → has_suffix s suffix ≡ true
    → take (length s - length suffix) s ++ suffix ≡ s
unfolding has_suffix take
take_suffix [] suffix h = sym ((bytes_eq_iff [] suffix).0 h)
take_suffix (c ∷ s) suffix h = elim (Bool-cases (bytes_eq (c ∷ s) suffix)) [
  | inl e ↦ whole ((bytes_eq_iff (c ∷ s) suffix).0 e)
  | inr e ↦ shorter (take_suffix s suffix (rw e at h))
]
  where
    whole : c ∷ s ≡ suffix → take (suc (length s) - length suffix) (c ∷ s) ++ suffix ≡ c ∷ s
    whole e =
        let z : suc (length s) - length suffix ≡ 0 = omega (arith, ap length e) in
        ap (λ n. take n (c ∷ s) ++ suffix) z ∙ sym e

    shorter :
        take (length s - length suffix) s ++ suffix ≡ s
        → take (suc (length s) - length suffix) (c ∷ s) ++ suffix ≡ c ∷ s
    shorter e =
        let z : suc (length s) - length suffix ≡ suc (length s - length suffix) =
          omega (arith, ap length e, length-append (take (length s - length suffix) s) suffix) in
        ap (λ n. take n (c ∷ s) ++ suffix) z ∙ ap (λ t. c ∷ t) e

pub trim_suffix-cases :
    (s suffix : Bytes) → (trim_suffix s suffix ++ suffix ≡ s) ⊎ (trim_suffix s suffix ≡ s)
unfolding trim_suffix
trim_suffix-cases s suffix = elim (Bool-cases (has_suffix s suffix)) [
  | inl e ↦ inl (rw e (take_suffix s suffix e))
  | inr e ↦ inr (rw e refl)
]

open_file_lem :
    (s : Storage) (path b : Bytes) → find path s ≡ some (file b) → open_file s path ≡ some (whole b)
unfolding open_file opened_node
open_file_lem s path b e = rw (open_file, e) refl

-- `Put` finds what to send, compressed or not, for the location of every file that there is.
pub enumerated_opens :
    (s : Storage) (root p b : Bytes)
    → find (root ++ p) s ≡ some (file b)
    → (opened : Bytes × Stream) × (open_location s root (trim_suffix p (codes ".gz")) ≡ some opened)
unfolding open_location choose_opened
enumerated_opens s root p b e = elim (trim_suffix-cases p (codes ".gz")) [
  | inl q ↦
      compressed (open_file_lem s _ b (ap (λ t. find (root ++ t) s) q ∙ e))
        (open_file s (root ++ trim_suffix p (codes ".gz")))
  | inr q ↦
      raw (open_file s (root ++ (trim_suffix p (codes ".gz") ++ codes ".gz")))
        (open_file_lem s _ b (ap (λ t. find (root ++ t) s) q ∙ e))
]
  where
    compressed :
        {c : Option Stream}
        → c ≡ some (whole b)
        → (r : Option Stream) → (opened : Bytes × Stream) × (choose_opened c r ≡ some opened)
    compressed f r = ((codes "gzip", whole b), rw f refl)

    raw :
        (c : Option Stream) {r : Option Stream}
        → r ≡ some (whole b)
        → (opened : Bytes × Stream) × (choose_opened c r ≡ some opened)
    raw (some input) f = ((codes "gzip", input), refl)
    raw none f = (([], whole b), rw f refl)
