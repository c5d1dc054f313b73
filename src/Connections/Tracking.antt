-- ===== src/Connections/Tracking.antt =====
-- When `Shutdown` returns.
use verm.Prelude.{
  ℕ, Bool, true, false, List, [], ◌∷◌, ◌==◌, if◌then◌else◌, ◌≡◌, inl, inr, length, leb, refl, arith,
  Bool-cases, sym, ap, ◌∙◌,
}
use verm.Connections.{
  is_open, insert, delete, Tracker, Event, new_tracker, opened, closing, shutdown, deadline, handle,
  goes_on, Track, done, receive,
}

-- The last event that the tracker has received for a connection.
unfoldable pub last_open : ℕ → Bool → List Event → Bool
last_open nc before [] = before
last_open nc before (opened c ∷ es) = last_open nc (if c == nc then true else before) es
last_open nc before (closing c ∷ es) = last_open nc (if c == nc then false else before) es
last_open nc before (shutdown ∷ es) = last_open nc before es
last_open nc before (deadline ∷ es) = last_open nc before es

is_open-insert :
    (nc c : ℕ) (cs : List ℕ) → is_open nc (insert c cs) ≡ (if c == nc then true else is_open nc cs)
unfolding is_open insert
is_open-insert nc c cs = elim (Bool-cases (is_open c cs)) [
  | inl e ↦ rw (insert, e) (known e)
  | inr e ↦ rw (insert, e) refl
]
  where
    known : is_open c cs ≡ true → is_open nc cs ≡ (if c == nc then true else is_open nc cs)
    known e = elim (Bool-cases (c == nc)) [
      | inl q ↦ let d : c ≡ nc = ground arith in rw q (ap (λ x. is_open x cs) (sym d) ∙ e)
      | inr q ↦ rw q refl
    ]

is_open-delete :
    (nc c : ℕ) (cs : List ℕ) → is_open nc (delete c cs) ≡ (if c == nc then false else is_open nc cs)
unfolding is_open delete
is_open-delete nc c [] = ground arith
is_open-delete nc c (d ∷ cs) = ground (arith, is_open-delete nc c cs)

Track-last :
    {t u : Tracker} {es : List Event} (nc : ℕ)
    → Track t es u
    → is_open nc u.connections ≡ last_open nc (is_open nc t.connections) es
unfolding last_open handle
Track-last nc (done e) = refl
Track-last {t} nc (receive (opened c) {es} on valid r) =
    Track-last nc r ∙ ap (λ b. last_open nc b es) (is_open-insert nc c t.connections)
Track-last {t} nc (receive (closing c) {es} on valid r) =
    Track-last nc r ∙ ap (λ b. last_open nc b es) (is_open-delete nc c t.connections)
Track-last nc (receive shutdown on valid r) = Track-last nc r
Track-last nc (receive deadline on valid r) = Track-last nc r

Track-ends : {t u : Tracker} {es : List Event} → Track t es u → goes_on u ≡ false
Track-ends (done e) = e
Track-ends (receive e on valid r) = Track-ends r

-- When the tracker finishes, every connection that it has seen opened has been closed since, and a
-- shutdown was asked for.
pub Track-finished :
    {u : Tracker} (es : List Event) (nc : ℕ)
    → Track new_tracker es u
    → (u.shutting_down ≡ true) × (last_open nc false es ≡ false)
unfolding goes_on is_open
Track-finished {u} es nc r = stopped u (Track-ends r) (sym (Track-last nc r))
  where
    branch :
        (down : Bool) (cs : List ℕ)
        → (if down then leb 1 (length cs) else true) ≡ false
        → last_open nc false es ≡ is_open nc cs
        → (down ≡ true) × (last_open nc false es ≡ false)
    branch true [] e l = (refl, l)
    branch true (c ∷ cs) e l = absurd (ground (arith, e))
    branch false cs e l = cc

    stopped :
        (v : Tracker)
        → goes_on v ≡ false
        → last_open nc false es ≡ is_open nc v.connections
        → (v.shutting_down ≡ true) × (last_open nc false es ≡ false)
    stopped v e l = branch v.shutting_down v.connections e l
