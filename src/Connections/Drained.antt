-- ===== src/Connections/Drained.antt =====
-- The states of connections that the server reports, up to the end of a shutdown.
use verm.Prelude.{
  ℕ, Bool, true, false, Option, none, some, List, [], ◌∷◌, ◌++◌, ◌==◌, ◌≡◌, if◌then◌else◌, refl, ap,
  sym, ◌∙◌, Bool-cases, inl, inr,
}
use verm.Connections.{
  Tracker, Event, new_tracker, shutdown, deadline, ConnState, state_new, state_active, state_idle,
  state_hijacked, state_closed, conn_state, Track,
}
use verm.Connections.Tracking.{last_open, Track-finished}

-- What happens to the server: a connection changes its state, `Shutdown` is called, its timer fires.
pub data Occurrence : Type 0 where
  changes : ℕ → ConnState → Occurrence
  shuts_down times_out : Occurrence

-- The events that the tracker receives.
unfoldable pub sent : List Occurrence → List Event
sent [] = []
sent (changes nc s ∷ os) = conn_state nc s ++ sent os
sent (shuts_down ∷ os) = shutdown ∷ sent os
sent (times_out ∷ os) = deadline ∷ sent os

-- The state of a connection behind the occurrences.
unfoldable pub state_after : ℕ → Option ConnState → List Occurrence → Option ConnState
state_after nc before [] = before
state_after nc before (changes c s ∷ os) = state_after nc (if c == nc then some s else before) os
state_after nc before (shuts_down ∷ os) = state_after nc before os
state_after nc before (times_out ∷ os) = state_after nc before os

-- A connection that the server still handles.
unfoldable pub is_live : Option ConnState → Bool
is_live none = false
is_live (some state_hijacked) = false
is_live (some state_closed) = false
is_live (some _) = true

-- As `net/http` documents it: a connection is new at first; a hijacked or closed one has no further
-- state.
unfoldable pub follows : Option ConnState → ConnState → Bool
follows none state_new = true
follows none _ = false
follows (some s) state_new = false
follows (some s) _ = is_live (some s)

unfoldable pub InOrder : ℕ → Option ConnState → List Occurrence → Type 0
InOrder nc before [] = Unit
InOrder nc before (changes c s ∷ os) =
    ((c == nc) ≡ true → follows before s ≡ true)
    × InOrder nc (if c == nc then some s else before) os
InOrder nc before (shuts_down ∷ os) = InOrder nc before os
InOrder nc before (times_out ∷ os) = InOrder nc before os

-- The change of one connection, as the tracker sees it.
last_open-conn_state :
    (nc c : ℕ) (before : Option ConnState) (s : ConnState) (es : List Event)
    → ((c == nc) ≡ true → follows before s ≡ true)
    → last_open nc (is_live before) (conn_state c s ++ es)
      ≡ last_open nc (is_live (if c == nc then some s else before)) es
unfolding last_open is_live conn_state follows
last_open-conn_state nc c before s es f = elim (Bool-cases (c == nc)) [
  | inl e ↦ rw e (mine before s (f e) e)
  | inr e ↦ rw e (other s e)
]
  where
    other :
        (s : ConnState)
        → (c == nc) ≡ false
        → last_open nc (is_live before) (conn_state c s ++ es) ≡ last_open nc (is_live before) es
    other state_new e = rw e refl
    other state_active e = refl
    other state_idle e = refl
    other state_hijacked e = rw e refl
    other state_closed e = rw e refl

    mine :
        (before : Option ConnState) (s : ConnState)
        → follows before s ≡ true
        → (c == nc) ≡ true
        → last_open nc (is_live before) (conn_state c s ++ es) ≡ last_open nc (is_live (some s)) es
    mine before state_new p e = rw e refl
    mine before state_hijacked p e = rw e refl
    mine before state_closed p e = rw e refl
    mine none state_active p e = cc
    mine none state_idle p e = cc
    mine (some b) state_active p e = ap (λ x. last_open nc x es) p
    mine (some b) state_idle p e = ap (λ x. last_open nc x es) p

last_open-sent :
    (nc : ℕ) (before : Option ConnState) (os : List Occurrence)
    → InOrder nc before os
    → last_open nc (is_live before) (sent os) ≡ is_live (state_after nc before os)
unfolding last_open sent state_after InOrder
last_open-sent nc before [] h = refl
last_open-sent nc before (changes c s ∷ os) h =
    last_open-conn_state nc c before s (sent os) h.0
    ∙ last_open-sent nc (if c == nc then some s else before) os h.1
last_open-sent nc before (shuts_down ∷ os) h = last_open-sent nc before os h
last_open-sent nc before (times_out ∷ os) h = last_open-sent nc before os h

-- If the states of a connection come in the order of `net/http`, then a tracker finishes only when a
-- shutdown was asked for, and the connection, if there was one, has been closed or hijacked.
pub Track-drained :
    {u : Tracker} (os : List Occurrence) (nc : ℕ)
    → InOrder nc none os
    → Track new_tracker (sent os) u
    → (u.shutting_down ≡ true) × (is_live (state_after nc none os) ≡ false)
unfolding is_live
Track-drained os nc h r =
    let (down, closed) = Track-finished (sent os) nc r in
    (down, sym (last_open-sent nc none os h) ∙ closed)
