-- ===== src/Upload/Finish/WriteOnce.antt =====
-- `Finish` changes no file that is there.
use verm.Prelude.{
  ℕ, zero, suc, ◌+◌, ◌⊎◌, inl, inr, Bool, true, false, ◌&&◌, ◌==◌, Option, none, some, Bytes, ◌≡◌,
  refl, ap, Bool-cases,
}
use verm.Errors.{Result, ok, err}
use verm.Storage.{Node, Storage, file, find, add, Keeps}
use verm.Storage.Laws.{Keeps-add, Keeps-refl, Keeps-trans}
use verm.Host.{Host, IsHost}
use verm.Upload.Types.{FileUpload}
use verm.Upload.Finish.{
  Link, linked, exists, failed, Outcome, done, again, carry_on, link, filename_of, settle,
  after_link, try_link, after_look, attempt_once, next_location, attempt_loop,
}

-- A result of the loop is that of the round, or of the rounds behind it.
pub carry_on_cases :
    (next : Storage → Option (Result (Bytes × Bool) × Storage)) (o : Outcome)
    {r : Result (Bytes × Bool)} {s : Storage}
    → carry_on next o ≡ some (r, s)
    → (o ≡ done r s) ⊎ ((t : Storage) × (o ≡ again t) × (next t ≡ some (r, s)))
unfolding carry_on
carry_on_cases next (done r s) e = inl (cc)
carry_on_cases next (again t) e = inr (t, refl, e)

abbrev pub storage_of : Outcome → Storage
storage_of (done r s) = s
storage_of (again s) = s

abbrev linked_in : Storage → Link → Storage
linked_in s (linked s') = s'
linked_in s _ = s

module _ {h : Host} (w : IsHost h) (up : FileUpload) (n : ℕ) (l : Bytes) where
  settle-storage : (s : Storage) (r : Result Bool) → storage_of (settle h up l s r) ≡ s
  unfolding settle
  settle-storage s (ok true) = refl
  settle-storage s (ok false) = refl
  settle-storage s (err e) = refl

  link-Keeps : (s : Storage) → Keeps s (linked_in s (link h up.content (filename_of h up l) s))
  unfolding link
  link-Keeps s = elim (Bool-cases (h.link_fails (filename_of h up l))) [
    | inl e ↦ rw e (Keeps-refl s)
    | inr e ↦ rw e (free (find (filename_of h up l) s) refl)
  ]
    where
      free :
          (o : Option Node)
          → find (filename_of h up l) s ≡ o
          → Keeps s (
              linked_in s (elim o [
                | none ↦ linked (add (filename_of h up l) (file up.content) s)
                | some x ↦ exists
              ]))
      free none e = Keeps-add _ _ s e
      free (some x) e = Keeps-refl s

  after_link-Keeps :
      (s : Storage) (k : Link)
      → Keeps s (linked_in s k)
      → Keeps s (storage_of (after_link h up l s k))
  unfolding after_link
  after_link-Keeps s (linked s') keep = keep
  after_link-Keeps s failed keep = keep
  after_link-Keeps s exists keep = rw settle-storage keep

  try_link-Keeps : (s : Storage) → Keeps s (storage_of (try_link h up l s))
  unfolding try_link
  try_link-Keeps s = after_link-Keeps s _ (link-Keeps s)

  go_on-Keeps : (s : Storage) → Keeps s (storage_of (after_look h up n l s (ok false)))
  unfolding after_look
  go_on-Keeps s = elim (Bool-cases (n == 1 && h.sync_fails)) [
    | inl e ↦ rw e (Keeps-refl s)
    | inr e ↦ rw e (
        Keeps-trans s (h.interfere n s) _ (w.interfere_keeps n s)
          (try_link-Keeps (h.interfere n s)))
  ]

  after_look-Keeps :
      (s : Storage) (r : Result Bool) → Keeps s (storage_of (after_look h up n l s r))
  unfolding after_look
  after_look-Keeps s (ok true) = Keeps-refl s
  after_look-Keeps s (ok false) = go_on-Keeps s
  after_look-Keeps s (err e) = go_on-Keeps s

  -- A round keeps every file, whatever other processes do between its steps.
  pub attempt_once-Keeps : (s : Storage) → Keeps s (storage_of (attempt_once h up n l s))
  unfolding attempt_once
  attempt_once-Keeps s = after_look-Keeps s _

module _ {h : Host} (w : IsHost h) (up : FileUpload) where
  -- However many attempts the loop makes, and whatever it returns, it keeps every file.
  pub attempt_loop-Keeps :
      (stem : Bytes) (fuel n : ℕ) (l : Bytes) (s s' : Storage) (r : Result (Bytes × Bool))
      → attempt_loop h up stem fuel n l s ≡ some (r, s')
      → Keeps s s'
  unfolding attempt_loop
  attempt_loop-Keeps stem zero n l s s' r e = cc
  attempt_loop-Keeps stem (suc fuel) n l s s' r e =
      elim (carry_on_cases _ (attempt_once h up n l s) e) [
        | inl q ↦ rw (ap storage_of q) at (attempt_once-Keeps w up n l s)
        | inr (t, q, more) ↦
            Keeps-trans s t s' (rw (ap storage_of q) at (attempt_once-Keeps w up n l s))
              (attempt_loop-Keeps stem fuel (n + 1) (next_location h up stem (n + 1)) t s' r more)
      ]
