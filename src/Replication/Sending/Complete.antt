-- ===== src/Replication/Sending/Complete.antt =====
-- What a resync queues, in terms of the files of the two servers.
use verm.Prelude.{
  ℕ, Bool, true, false, some, List, [], ◌∷◌, ◌++◌, Bytes, codes, if◌then◌else◌, ◌≡◌, ◌≢◌, ◌⊎◌, ◌↔◌,
  inl, inr, refl, sym, ap, ◌∙◌, subst, arith, All,
}
use mathlib.Core.List.{Memᴰ}
use mathlib.Core.List.Memᴰ.{head, tail, not-nil}
use verm.Storage.{Storage}
use verm.Stream.{Gunzip}
use verm.Replication.Lines.{IsLine}
use verm.Replication.Missing.{filter, is_missing}
use verm.Replication.Resync.{
  Listing, expanded, enumerate_files, HasFile, here, inside, behind_regular, behind_subdirectory,
  behind_irregular,
}
use verm.Replication.Resync.Enumerated.{location_of, enumerate_subdirectory_iff, trim_suffix-cases}
use verm.Replication.Sending.{ListClient, resync}
use verm.Replication.Sending.Resynced.{IsReached, sync_file_lists_lem}

Mem→filter :
    (test : Bytes → Bool) (ls : List Bytes) {l : Bytes}
    → Memᴰ l ls
    → test l ≡ true
    → Memᴰ l (filter test ls)
unfolding filter
Mem→filter test [] m t = absurd (not-nil m)
Mem→filter test (m ∷ ls) (head e) t = rw (sym (ap test e) ∙ t) (head e)
Mem→filter test (m ∷ ls) {l} (tail n) t = keep (test m) (Mem→filter test ls n t)
  where
    keep :
        (b : Bool)
        → Memᴰ l (filter test ls)
        → Memᴰ l (if b then m ∷ filter test ls else filter test ls)
    keep true k = tail k
    keep false k = k

filter→Mem :
    (test : Bytes → Bool) (ls : List Bytes) {l : Bytes}
    → Memᴰ l (filter test ls)
    → Memᴰ l ls × (test l ≡ true)
unfolding filter
filter→Mem test [] m = absurd (not-nil m)
filter→Mem test (k ∷ ls) {l} m = go (test k) refl m (filter→Mem test ls)
  where
    go :
        (b : Bool)
        → test k ≡ b
        → Memᴰ l (if b then k ∷ filter test ls else filter test ls)
        → (Memᴰ l (filter test ls) → Memᴰ l ls × (test l ≡ true))
        → Memᴰ l (k ∷ ls) × (test l ≡ true)
    go true t (head e) below = (head e, ap test e ∙ t)
    go true t (tail n) below = let (a, b) = below n in (tail a, b)
    go false t n below = let (a, b) = below n in (tail a, b)

-- The path is empty or begins with a slash.
IsRooted : Bytes → Type 0
IsRooted d = (d ≡ []) ⊎ ((q : Bytes) × (d ≡ b'/' ∷ q))

expanded-rooted : (d name : Bytes) → IsRooted d → (q : Bytes) × (expanded d name ≡ b'/' ∷ q)
unfolding expanded IsRooted
expanded-rooted d name (inl e) = (name, rw e refl)
expanded-rooted d name (inr (q, e)) = (q ++ codes "/" ++ name, rw e refl)

HasFile-rooted :
    {d : Bytes} {t : Listing} {p : Bytes}
    → HasFile d t p
    → IsRooted d
    → (q : Bytes) × (p ≡ b'/' ∷ q)
unfolding IsRooted
HasFile-rooted {d} (here {name} k) r = expanded-rooted d name r
HasFile-rooted {d} (inside {name} k h) r = HasFile-rooted h (inr (expanded-rooted d name r))
HasFile-rooted (behind_regular h) r = HasFile-rooted h r
HasFile-rooted (behind_subdirectory h) r = HasFile-rooted h r
HasFile-rooted (behind_irregular h) r = HasFile-rooted h r

front : Bytes → ℕ
front [] = 0
front (c ∷ s) = c

location_of-filled : (p : Bytes) → ((q : Bytes) × (p ≡ b'/' ∷ q)) → location_of p ≢ []
unfolding front
location_of-filled p (q, e) empty = elim (trim_suffix-cases p (codes ".gz")) [
  | inl f ↦
      let d : codes ".gz" ≡ b'/' ∷ q = ap (λ t. t ++ codes ".gz") (sym empty) ∙ f ∙ e in
      absurd (omega (arith, ap front d))
  | inr f ↦ absurd (cc)
]

module _ (s : Storage) (root : Bytes) (limit : ℕ) (gunzip : Gunzip) (compress : Bytes → Bytes)
    (int63n : ℕ → ℕ) (clients : ℕ → ListClient) (tries : ℕ → ℕ) (fuel : ℕ) where
  enumerated_fit :
      (t : Listing)
      → ((p : Bytes) → HasFile [] t p → IsLine limit (location_of p))
      → (ls : List Bytes) → ((l : Bytes) → Memᴰ l ls → Memᴰ l (enumerate_files t))
      → All (λ m. m ≢ []) ls × All (IsLine limit) ls
  unfolding enumerate_files IsRooted
  enumerated_fit t fit [] sub = (tt, tt)
  enumerated_fit t fit (l ∷ ls) sub =
      let (filled, lines) = enumerated_fit t fit ls (λ k m. sub k (tail m)) in
      let (p, h, e) = (enumerate_subdirectory_iff [] t l).0 (sub l (head refl)) in
      (
        (λ z. location_of-filled p (HasFile-rooted h (inl refl)) (sym e ∙ z), filled),
        (subst (IsLine limit) (sym e) (fit p h), lines),
      )

  -- Whichever attempts fail and however the lists are cut, a resync ends, and what it has queued are the
  -- locations of the files of this server, without `.gz` at their end, that the target has no file for.
  -- The names of the files have no line break, and their paths are not too long for the scanner.
  pub resync_iff :
      (hostname port : Bytes)
      → IsReached s root limit gunzip compress int63n clients tries fuel
      → (timed_out : ℕ → Bool) (flushed : Bytes → ℕ) (t : Listing)
      → ((p : Bytes) → HasFile [] t p → IsLine limit (location_of p))
      → (queued : List Bytes) × (resync limit gunzip timed_out flushed int63n clients compress
            hostname port fuel t
          ≡ some queued)
        × ((l : Bytes)
            → Memᴰ l queued ↔ (
                ((p : Bytes) × HasFile [] t p × (l ≡ location_of p))
                × (is_missing s root l ≡ true)))
  unfolding resync enumerate_files
  resync_iff hostname port reached timed_out flushed t fit =
      let (filled, lines) = enumerated_fit t fit (enumerate_files t) (λ l m. m) in
      let e =
        sync_file_lists_lem s root limit gunzip compress int63n clients tries fuel hostname port
          reached timed_out flushed (enumerate_files t) filled lines in
      (
        filter (is_missing s root) (enumerate_files t),
        e,
        λ l. (
          λ m.
              (let (n, missing) = filter→Mem (is_missing s root) (enumerate_files t) m in
                ((enumerate_subdirectory_iff [] t l).0 n, missing)),
          λ (h, missing).
              Mem→filter (is_missing s root) (enumerate_files t)
                ((enumerate_subdirectory_iff [] t l).1 h) missing,
        ),
      )
