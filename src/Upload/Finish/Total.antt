-- ===== src/Upload/Finish/Total.antt =====
-- The loop of `Finish` ends: every attempt uses another name, and only finitely many are taken.
use verm.Prelude.{
  ℕ, zero, suc, ◌+◌, ◌≤◌, ◌<◌, inl, inr, ◌≢◌, Bool, true, false, Option, none, some, [], ◌∷◌, ◌++◌,
  ◌==◌, ◌&&◌, Bytes, ◌≡◌, refl, Bool-cases, arith, length, append_cancel, append_cancel_right,
  bytes_eq, bytes_eq_iff,
}
use verm.Prelude.Decimal.{itoa, itoa_inj}
use verm.Errors.{Result, ok, err, open_failed}
use verm.Storage.{Node, Storage, find, remove}
use verm.Storage.Laws.{find-remove}
use verm.Host.{Host}
use verm.Upload.Types.{FileUpload}
use verm.Upload.Finish.{
  Link, linked, exists, failed, Outcome, done, again, carry_on, same_uploaded_file, link,
  filename_of, settle, after_link, try_link, after_look, attempt_once, next_location, attempt_loop,
}

pub length-remove-le : (p : Bytes) (s : Storage) → length (remove p s) ≤ length s
unfolding remove
length-remove-le p [] = omega arith
length-remove-le p ((q, n) ∷ s) = ground (arith, length-remove-le p s)

length-remove : (p : Bytes) (s : Storage) → find p s ≢ none → length (remove p s) < length s
unfolding find remove
length-remove p [] h = absurd (h refl)
length-remove p ((q, n) ∷ s) h = elim (Bool-cases (bytes_eq q p)) [
  | inl e ↦ rw e (omega (arith, length-remove-le p s))
  | inr e ↦ rw e (omega (arith, length-remove p s (rw e at h)))
]

-- Of more different names than there are files, one is free.
pub free_name :
    (f : ℕ → Bytes)
    → ((i j : ℕ) → f i ≡ f j → i ≡ j)
    → (n : ℕ) (s : Storage) → length s ≤ n
    → (k : ℕ) × (k ≤ n) × (find (f k) s ≡ none)
free_name f inj n [] h = (0, omega arith, unfold find in refl)
free_name f inj zero (x ∷ s) h = absurd (omega arith)
free_name f inj (suc n) (x ∷ s) h = go (find (f (suc n)) (x ∷ s)) refl (free_name f inj n)
  where
    go :
        (o : Option Node)
        → find (f (suc n)) (x ∷ s) ≡ o
        → ((t : Storage) → length t ≤ n → (k : ℕ) × (k ≤ n) × (find (f k) t ≡ none))
        → (k : ℕ) × (k ≤ suc n) × (find (f k) (x ∷ s) ≡ none)
    go none e below = (suc n, omega arith, e)
    go (some y) e below =
        let shorter = length-remove (f (suc n)) (x ∷ s) (λ q. cc (e, q)) in
        let (k, le, free) = below (remove (f (suc n)) (x ∷ s)) (omega arith) in
        let other : bytes_eq (f (suc n)) (f k) ≡ false =
          elim (Bool-cases (bytes_eq (f (suc n)) (f k))) [
            | inl q ↦ absurd (omega (arith, inj (suc n) k ((bytes_eq_iff _ _).0 q)))
            | inr q ↦ q
          ] in
        (k, omega arith, rw (find-remove, other) at free)

module _ (h : Host) (up : FileUpload) (stem : Bytes) where
  -- The name on disk of attempt `n`, from the second on.
  abbrev name_of : ℕ → Bytes
  name_of n = filename_of h up (next_location h up stem n)

  name_of_inj : (m n : ℕ) → name_of m ≡ name_of n → m ≡ n
  unfolding filename_of next_location
  name_of_inj m n e =
      let e1 = append_cancel up.root _ _ e in
      let e2 = append_cancel_right _ _ _ e1 in
      let e3 = append_cancel stem _ _ e2 in
      let e4 : itoa m ++ up.extension ≡ itoa n ++ up.extension = cc in
      itoa_inj m n (append_cancel_right (itoa m) (itoa n) up.extension e4)

  module _ (l : Bytes) where
    settle_again : (s t : Storage) (r : Result Bool) → settle h up l s r ≡ again t → t ≡ s
    unfolding settle
    settle_again s t (ok true) e = cc
    settle_again s t (ok false) e = cc
    settle_again s t (err x) e = cc

    after_link_again : (s t : Storage) (k : Link) → after_link h up l s k ≡ again t → t ≡ s
    unfolding after_link
    after_link_again s t (linked s') e = cc
    after_link_again s t failed e = cc
    after_link_again s t exists e = settle_again s t _ e

    go_on_again :
        (n : ℕ) (s t : Storage) → after_look h up n l s (ok false) ≡ again t → t ≡ h.interfere n s
    unfolding after_look try_link
    go_on_again n s t e = elim (Bool-cases (n == 1 && h.sync_fails)) [
      | inl q ↦ cc (rw q at e)
      | inr q ↦ after_link_again (h.interfere n s) t _ (rw q at e)
    ]

    after_look_again :
        (n : ℕ) (s t : Storage) (r : Result Bool)
        → after_look h up n l s r ≡ again t
        → t ≡ h.interfere n s
    unfolding after_look
    after_look_again n s t (ok true) e = cc
    after_look_again n s t (ok false) e = go_on_again n s t e
    after_look_again n s t (err x) e = go_on_again n s t e

    -- A round that goes on has changed nothing itself.
    again_storage :
        (n : ℕ) (s t : Storage) → attempt_once h up n l s ≡ again t → t ≡ h.interfere n s
    unfolding attempt_once
    again_storage n s t e = after_look_again n s t _ e

    free_link :
        (n : ℕ) (s t : Storage)
        → find (filename_of h up l) s ≡ none
        → after_link h up l s (link h up.content (filename_of h up l) s) ≢ again t
    unfolding link
    free_link n s t e = elim (Bool-cases (h.link_fails (filename_of h up l))) [
      | inl q ↦ rw q (unfold after_link in λ x. cc)
      | inr q ↦ rw (q, e) (unfold after_link in λ x. cc)
    ]

    same_uploaded_file-none :
        (s : Storage)
        → find (filename_of h up l) s ≡ none
        → same_uploaded_file h up s (filename_of h up l) ≡ err open_failed
    unfolding same_uploaded_file
    same_uploaded_file-none s e = rw (e, same_uploaded_file)

    -- At a free name the loop ends.
    free_done :
        (n : ℕ) (s t : Storage)
        → find (filename_of h up l) s ≡ none
        → find (filename_of h up l) (h.interfere n s) ≡ none
        → attempt_once h up n l s ≢ again t
    unfolding attempt_once after_look try_link
    free_done n s t e1 e2 =
        rw (same_uploaded_file-none s e1, after_look)
          (elim (Bool-cases (n == 1 && h.sync_fails)) [
            | inl q ↦ rw q (λ x. cc)
            | inr q ↦ rw q (free_link n (h.interfere n s) t e2)
          ])

  -- While other processes leave the names of this content alone, the loop returns as soon as it has
  -- the fuel to come to a free name.
  module _
      (alone : (l : Bytes) (n : ℕ) (s : Storage)
        → find (filename_of h up (stem ++ l)) s ≡ none
        → find (filename_of h up (stem ++ l)) (h.interfere n s) ≡ none) where
    abbrev Returns : ℕ → ℕ → Bytes → Storage → Type 0
    Returns fuel n l s =
        (r : Result (Bytes × Bool)) × (t : Storage) × (attempt_loop h up stem fuel n l s
          ≡ some (r, t))

    loop_done :
        (fuel n : ℕ) (l : Bytes) (s t : Storage) (r : Result (Bytes × Bool))
        → attempt_once h up n l s ≡ done r t
        → Returns (suc fuel) n l s
    unfolding attempt_loop
    loop_done fuel n l s t r q = (r, t, rw q (unfold carry_on in refl))

    loop_again :
        (fuel n : ℕ) (l : Bytes) (s t : Storage)
        → attempt_once h up n l s ≡ again t
        → Returns fuel (n + 1) (next_location h up stem (n + 1)) t
        → Returns (suc fuel) n l s
    unfolding attempt_loop
    loop_again fuel n l s t q (r, u, e) = (r, u, rw q (unfold carry_on in e))

    now :
        (fuel n : ℕ) (l : Bytes) (s : Storage)
        → find (filename_of h up (stem ++ l)) s ≡ none
        → Returns (suc fuel) n (stem ++ l) s
    now fuel n l s e = go (attempt_once h up n (stem ++ l) s) refl
      where
        go :
            (o : Outcome)
            → attempt_once h up n (stem ++ l) s ≡ o
            → Returns (suc fuel) n (stem ++ l) s
        go (done r t) q = loop_done fuel n (stem ++ l) s t r q
        go (again t) q = absurd (free_done (stem ++ l) n s t e (alone l n s e) q)

    name_alone :
        (m n : ℕ) (s : Storage)
        → find (name_of m) s ≡ none
        → find (name_of m) (h.interfere n s) ≡ none
    unfolding next_location
    name_alone m n s e = alone _ n s e

    -- One more round, if the rounds behind it return.
    step :
        (m fuel n : ℕ) (l : Bytes) (s : Storage)
        → ((t : Storage)
            → find (name_of m) t ≡ none
            → Returns fuel (n + 1) (next_location h up stem (n + 1)) t)
        → find (name_of m) s ≡ none
        → Returns (suc fuel) n l s
    step m fuel n l s rest e = go (attempt_once h up n l s) refl
      where
        go : (o : Outcome) → attempt_once h up n l s ≡ o → Returns (suc fuel) n l s
        go (done r t) q = loop_done fuel n l s t r q
        go (again t) q =
            loop_again fuel n l s t q (rest t (rw (again_storage l n s t q) (name_alone m n s e)))

    now_named :
        (fuel n m : ℕ) (t : Storage)
        → find (name_of m) t ≡ none
        → Returns (suc fuel) n (next_location h up stem m) t
    unfolding next_location
    now_named fuel n m t e = now fuel n _ t e

    later :
        (k fuel n : ℕ) (l : Bytes) (s : Storage)
        → k < fuel
        → find (name_of (n + 1 + k)) s ≡ none
        → Returns (suc fuel) n l s
    later k zero n l s lt e = absurd (omega arith)
    later zero (suc fuel) n l s lt e =
        let m : n + 1 + 0 ≡ n + 1 = omega arith in
        step (n + 1) (suc fuel) n l s (λ t q. now_named fuel (n + 1) (n + 1) t q) (rw m at e)
    later (suc k) (suc fuel) n l s lt e =
        let m : n + 1 + suc k ≡ n + 1 + 1 + k = omega arith in
        step (n + 1 + 1 + k) (suc fuel) n l s
          (λ t q. later k fuel (n + 1) (next_location h up stem (n + 1)) t (omega arith) q)
          (rw m at e)

    -- With two rounds more than there are files the loop returns.
    pub attempt_loop_total :
        (fuel n : ℕ) (l : Bytes) (s : Storage) → length s + 1 < fuel → Returns fuel n l s
    attempt_loop_total zero n l s lt = absurd (omega arith)
    attempt_loop_total (suc fuel) n l s lt =
        let (k, le, free) =
          free_name (λ i. name_of (n + 1 + i)) (λ i j e. omega (arith, name_of_inj _ _ e))
            (length s) s (omega arith) in
        later k fuel n l s (omega arith) free
