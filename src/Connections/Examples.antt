-- ===== src/Connections/Examples.antt =====
-- A connection that is opened, closed after a shutdown was asked for.
use verm.Prelude.{List, none, true, false, [], ◌∷◌, ◌≡◌, refl}
use verm.Connections.{
  Track, done, receive, new_tracker, opened, closing, shutdown, handle, goes_on, insert, delete,
  is_open, state_new, state_active, state_closed, conn_state,
}
use verm.Connections.Drained.{
  Occurrence, changes, shuts_down, sent, state_after, is_live, follows, InOrder, Track-drained,
}
use verm.Connections.Tracking.{last_open, Track-finished}

ends :
    Track new_tracker
      (opened 7 ∷ shutdown ∷ closing 7 ∷ [])
      (record new_tracker { shutting_down = true; read_closed = 7 ∷ [] })
unfolding handle goes_on insert delete is_open
ends =
    receive (opened 7) refl (λ e. cc)
      (receive shutdown refl (λ e. cc) (receive (closing 7) refl (λ e. cc) (done refl)))

Track-finished_run :
    (true ≡ true) × (last_open 7 false (opened 7 ∷ shutdown ∷ closing 7 ∷ []) ≡ false)
Track-finished_run = Track-finished (opened 7 ∷ shutdown ∷ closing 7 ∷ []) 7 ends

abbrev occurrences : List Occurrence
occurrences =
    changes 7 state_new ∷ changes 7 state_active ∷ shuts_down ∷ changes 7 state_closed ∷ []

Track-drained_example : (true ≡ true) × (is_live (state_after 7 none occurrences) ≡ false)
unfolding InOrder follows sent conn_state is_live
Track-drained_example = Track-drained occurrences 7 (λ e. refl, (λ e. refl, (λ e. refl, tt))) ends
