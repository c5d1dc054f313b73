-- ===== src/Forwarding/Winner.antt =====
-- Which reply a forwarded read is answered with.
use verm.Prelude.{
  map, Bool, true, false, Option, none, some, List, [], ◌∷◌, Bytes, ◌==◌, ==_iff, if◌then◌else◌,
  ◌≡◌, refl, sym, ap, ◌∙◌, subst,
}
use mathlib.Core.List.{Memᴰ}
use mathlib.Core.List.Memᴰ.{head, tail, not-nil}
use verm.Http.{HttpRequest, Response}
use verm.Forwarding.{successful, Reply, first_reply, forward_read, pass_on}
use verm.Forwarding.Race.{replies, gather_first}
use verm.Forwarding.Request.{Replicas, forward_url, forward_request, outcomes}

reply-counted :
    (xs : List (Option Reply)) (r : Reply)
    → Memᴰ (some r) xs
    → r.status ≡ 200
    → Memᴰ r (replies (map successful xs))
unfolding replies successful
reply-counted [] r m e = absurd (not-nil m)
reply-counted (x ∷ xs) r (head f) e =
    subst (λ y. Memᴰ r (replies (successful y ∷ map successful xs))) f
      (rw (successful, e) (head refl))
reply-counted (none ∷ xs) r (tail m) e = reply-counted xs r m e
reply-counted (some q ∷ xs) r (tail m) e = keep (q.status == 200) (reply-counted xs r m e)
  where
    keep :
        (b : Bool)
        → Memᴰ r (replies (map successful xs))
        → Memᴰ r (replies ((if b then some q else none) ∷ map successful xs))
    keep true k = tail k
    keep false k = k

counted-reply :
    (xs : List (Option Reply)) (r : Reply)
    → Memᴰ r (replies (map successful xs))
    → Memᴰ (some r) xs × (r.status ≡ 200)
unfolding replies successful
counted-reply [] r m = absurd (not-nil m)
counted-reply (none ∷ xs) r m = let (n, e) = counted-reply xs r m in (tail n, e)
counted-reply (some q ∷ xs) r m = go (q.status == 200) refl m (counted-reply xs r)
  where
    go :
        (b : Bool)
        → (q.status == 200) ≡ b
        → Memᴰ r (replies ((if b then some q else none) ∷ map successful xs))
        → (Memᴰ r (replies (map successful xs)) → Memᴰ (some r) xs × (r.status ≡ 200))
        → Memᴰ (some r) (some q ∷ xs) × (r.status ≡ 200)
    go true t (head e) below =
        (head (ap some e), ap (λ (z : Reply). z.status) e ∙ (==_iff q.status 200).0 t)
    go true t (tail n) below = let (a, b) = below n in (tail a, b)
    go false t n below = let (a, b) = below n in (tail a, b)

first_of :
    (rs : List Reply) (r : Reply) → Memᴰ r rs → (q : Reply) × (first_reply rs ≡ some q) × Memᴰ q rs
unfolding first_reply
first_of [] r m = absurd (not-nil m)
first_of (q ∷ rs) r m = (q, refl, head refl)

-- Of outcomes with a reply of status 200, one is passed on.
pub forward_read_wins :
    (xs : List (Option Reply)) (r : Reply) (w : Response)
    → Memᴰ (some r) xs
    → r.status ≡ 200
    → (q : Reply) × (forward_read xs w ≡ pass_on w (some q)) × Memᴰ (some q) xs × (q.status ≡ 200)
unfolding forward_read
forward_read_wins xs r w m e =
    let (q, f, n) = first_of (replies (map successful xs)) r (reply-counted xs r m e) in
    let (k, s) = counted-reply xs q n in
    (q, ap (pass_on w) ((gather_first (map successful xs)).1 ∙ f), k, s)

module _ (replicas : Replicas) (r : HttpRequest) where
  -- The outcome for a target.
  abbrev pub outcome_of : Bytes × Bytes → Option Reply
  outcome_of t = replicas.proxy_client (forward_request t r)

  pub outcomes-map :
      (targets : List (Bytes × Bytes))
      → ((t : Bytes × Bytes) → Memᴰ t targets → replicas.takes_url (forward_url t r.path) ≡ true)
      → outcomes replicas targets r ≡ some (map outcome_of targets)
  unfolding outcomes
  outcomes-map [] takes = refl
  outcomes-map (t ∷ targets) takes =
      rw (takes t (head refl), outcomes-map targets (λ u m. takes u (tail m))) refl

  pub Mem-outcome :
      (targets : List (Bytes × Bytes)) {t : Bytes × Bytes}
      → Memᴰ t targets
      → Memᴰ (outcome_of t) (map outcome_of targets)
  Mem-outcome (u ∷ targets) (head e) = head (ap outcome_of e)
  Mem-outcome (u ∷ targets) (tail m) = tail (Mem-outcome targets m)
  Mem-outcome [] m = absurd (not-nil m)

  pub outcome-Mem :
      (targets : List (Bytes × Bytes)) {x : Option Reply}
      → Memᴰ x (map outcome_of targets)
      → (t : Bytes × Bytes) × Memᴰ t targets × (outcome_of t ≡ x)
  outcome-Mem [] m = absurd (not-nil m)
  outcome-Mem (u ∷ targets) (head e) = (u, head refl, sym e)
  outcome-Mem (u ∷ targets) (tail m) = let (t, n, e) = outcome-Mem targets m in (t, tail n, e)
