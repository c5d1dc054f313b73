-- ===== src/Connections.antt =====
-- connection_tracker.go: the goroutine that counts the open connections and ends a shutdown.
pub mod Tracking
pub mod Drained
mod Examples
use verm.Prelude.{
  ℕ, Bool, true, false, Option, none, some, List, [], ◌∷◌, ◌==◌, if◌then◌else◌, ◌≡◌, ◌≢◌, length,
  leb, ◌≤◌,
}

-- The keys of a map from connections.
unfoldable pub is_open : ℕ → List ℕ → Bool
is_open nc [] = false
is_open nc (c ∷ cs) = if c == nc then true else is_open nc cs

-- `connections[nc] = struct{}{}`
unfoldable pub insert : ℕ → List ℕ → List ℕ
unfolding is_open
insert nc cs = if is_open nc cs then cs else nc ∷ cs

-- `delete(connections, nc)`
unfoldable pub delete : ℕ → List ℕ → List ℕ
delete nc [] = []
delete nc (c ∷ cs) = let rest = delete nc cs in if c == nc then rest else c ∷ rest

-- The variables of `track`, and what it has done to connections: `CloseRead`, and `Close`.
pub record Tracker : Type 0 where
  pub connections : List ℕ
  -- `deadline != nil`
  pub shutting_down : Bool
  pub read_closed : List ℕ
  pub closed : List ℕ

abbrev pub new_tracker : Tracker
new_tracker = record { connections = []; shutting_down = false; read_closed = []; closed = [] }

-- What the `select` receives.
pub data Event : Type 0 where
  opened closing : ℕ → Event
  shutdown deadline : Event

-- `http.ConnState`
pub data ConnState : Type 0 where
  state_new state_active state_idle state_hijacked state_closed : ConnState

-- What `ConnState` sends to the tracker when the server reports a state of a connection.
unfoldable pub conn_state : ℕ → ConnState → List Event
conn_state nc state_new = opened nc ∷ []
conn_state nc state_closed = closing nc ∷ []
conn_state nc state_hijacked = closing nc ∷ []
conn_state nc _ = []

-- The cases of the `select`; `deadline` is nil before a shutdown, and is then never received.
unfoldable pub handle : Event → Tracker → Tracker
unfolding insert delete
handle (opened nc) t = record t { connections = insert nc t.connections }
handle (closing nc) t = record t { connections = delete nc t.connections }
handle shutdown t = record t { shutting_down = true; read_closed = t.connections }
handle deadline t = record t { closed = t.connections }

-- The condition of the loop.
unfoldable pub goes_on : Tracker → Bool
goes_on t = if t.shutting_down then leb 1 (length t.connections) else true

-- A run of `track` from a state: it ends, and closes `finished`, where the condition fails.
pub data Track : Tracker → List Event → Tracker → Type 0 where
  done : {t : Tracker} → goes_on t ≡ false → Track t [] t
  receive :
      {t u : Tracker} (e : Event) {es : List Event}
      → goes_on t ≡ true
      → (e ≡ deadline → t.shutting_down ≡ true)
      → Track (handle e t) es u
      → Track t (e ∷ es) u
