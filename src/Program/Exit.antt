-- ===== src/Program/Exit.antt =====
-- The end of the process: the goroutine of `waitForSignals`, and `main` behind `Serve`.
use verm.Prelude.{
  ℕ, Bool, true, false, Option, none, some, ◌≡◌, refl, sym, ◌∙◌, inl, inr, Bool-cases,
}

-- What the two goroutines share and where they stand: `stopping` lies between `close(done)` and the
-- close of the listener, `serve_failed` says that `Serve` has returned, and `serve_error` that what it
-- returned is an error.
pub record Ending : Type 0 where
  pub closed : Bool
  pub done_open : Bool
  pub listener_open : Bool
  pub stopping : Bool
  -- the listener has failed, by itself
  pub broken : Bool
  pub serve_failed : Bool
  pub serve_error : Bool
  -- the status with which the process ends
  pub exit_status : Option ℕ

abbrev pub running : Ending
running = record {
  closed = false;
  done_open = true;
  listener_open = true;
  stopping = false;
  broken = false;
  serve_failed = false;
  serve_error = false;
  exit_status = none;
}

-- The goroutine of `waitForSignals`, at the first SIGINT or SIGTERM.
pub data SignalStep : Ending → Ending → Type 0 where
  -- `closed = true; close(done)`
  close_done :
      {e : Ending}
      → e.closed ≡ false
      → SignalStep e (record e { closed = true; done_open = false; stopping = true })
  -- `server.Listener.Close()`
  close_listener :
      {e : Ending}
      → e.stopping ≡ true
      → SignalStep e (record e { listener_open = false; stopping = false })

pub data Step : Ending → Ending → Type 0 where
  signals : {e f : Ending} → SignalStep e f → Step e f
  -- The listener fails, as the system may do to it.
  break : {e : Ending} → Step e (record e { broken = true })
  -- `Serve` returns because the listener is closed, or because it has failed; as `net/http` documents
  -- it, it returns an error always.
  serve_closed :
      {e : Ending}
      → e.listener_open ≡ false
      → Step e (record e { serve_failed = true; serve_error = true })
  serve_broken :
      {e : Ending} → e.broken ≡ true → Step e (record e { serve_failed = true; serve_error = true })
  -- The `select` of `main`: `done` is ready if it is closed, and the process ends with status 0 behind
  -- `Tracker.Shutdown`; else it ends with status 1 if `Serve` has returned an error, and with 0 if not.
  exit_done :
      {e : Ending}
      → e.serve_failed ≡ true
      → e.done_open ≡ false
      → e.exit_status ≡ none
      → Step e (record e { exit_status = some 0 })
  exit_failed :
      {e : Ending}
      → e.serve_failed ≡ true
      → e.done_open ≡ true
      → e.serve_error ≡ true
      → e.exit_status ≡ none
      → Step e (record e { exit_status = some 1 })
  exit_returned :
      {e : Ending}
      → e.serve_failed ≡ true
      → e.done_open ≡ true
      → e.serve_error ≡ false
      → e.exit_status ≡ none
      → Step e (record e { exit_status = some 0 })

pub data Reachable : Ending → Type 0 where
  start : Reachable running
  next : {e f : Ending} → Reachable e → Step e f → Reachable f

-- What `main` relies on: `done` is closed before the listener is.
pub record IsOrdered (e : Ending) : Type 0 where
  pub listener_closed : e.listener_open ≡ false → e.done_open ≡ false
  pub stopping_done : e.stopping ≡ true → e.done_open ≡ false
  pub serve_why : e.serve_failed ≡ true → e.broken ≡ false → e.listener_open ≡ false
  pub serve_what : e.serve_failed ≡ true → e.serve_error ≡ true
  pub zero_done : e.exit_status ≡ some 0 → e.closed ≡ true
  pub one_broken : e.exit_status ≡ some 1 → e.broken ≡ true
  pub done_closed : e.done_open ≡ false → e.closed ≡ true

true-false : true ≡ false → ⊥
true-false q = cc

failed_why :
    {e : Ending} → IsOrdered e → e.serve_failed ≡ true → e.done_open ≡ true → e.broken ≡ true
failed_why {e} h s d = elim (Bool-cases e.broken) [
  | inl t ↦ t
  | inr w ↦ absurd (true-false (sym d ∙ h.listener_closed (h.serve_why s w)))
]

Step-IsOrdered : {e f : Ending} → Step e f → IsOrdered e → IsOrdered f
Step-IsOrdered (signals (close_done c)) h = record {
  listener_closed = λ l. refl;
  stopping_done = λ t. refl;
  serve_why = h.serve_why;
  serve_what = h.serve_what;
  zero_done = λ z. refl;
  one_broken = h.one_broken;
  done_closed = λ d. refl;
}
Step-IsOrdered (signals (close_listener s)) h = record {
  listener_closed = λ l. h.stopping_done s;
  stopping_done = λ t. cc;
  serve_why = λ w b. refl;
  serve_what = h.serve_what;
  zero_done = h.zero_done;
  one_broken = h.one_broken;
  done_closed = h.done_closed;
}
Step-IsOrdered break h = record {
  listener_closed = h.listener_closed;
  stopping_done = h.stopping_done;
  serve_why = λ w b. cc;
  serve_what = h.serve_what;
  zero_done = h.zero_done;
  one_broken = λ z. refl;
  done_closed = h.done_closed;
}
Step-IsOrdered (serve_closed l) h = record {
  listener_closed = h.listener_closed;
  stopping_done = h.stopping_done;
  serve_why = λ w n. l;
  serve_what = λ w. refl;
  zero_done = h.zero_done;
  one_broken = h.one_broken;
  done_closed = h.done_closed;
}
Step-IsOrdered (serve_broken b) h = record {
  listener_closed = h.listener_closed;
  stopping_done = h.stopping_done;
  serve_why = λ w n. cc;
  serve_what = λ w. refl;
  zero_done = h.zero_done;
  one_broken = h.one_broken;
  done_closed = h.done_closed;
}
Step-IsOrdered (exit_done s d n) h = record {
  listener_closed = h.listener_closed;
  stopping_done = h.stopping_done;
  serve_why = h.serve_why;
  serve_what = h.serve_what;
  zero_done = λ z. h.done_closed d;
  one_broken = λ z. cc;
  done_closed = h.done_closed;
}
Step-IsOrdered (exit_returned s d v n) h = record {
  listener_closed = h.listener_closed;
  stopping_done = h.stopping_done;
  serve_why = h.serve_why;
  serve_what = h.serve_what;
  zero_done = λ z. absurd (true-false (sym (h.serve_what s) ∙ v));
  one_broken = λ z. cc;
  done_closed = h.done_closed;
}
Step-IsOrdered (exit_failed s d v n) h = record {
  listener_closed = h.listener_closed;
  stopping_done = h.stopping_done;
  serve_why = h.serve_why;
  serve_what = h.serve_what;
  zero_done = λ z. cc;
  one_broken = λ z. failed_why h s d;
  done_closed = h.done_closed;
}

running-IsOrdered : IsOrdered running
running-IsOrdered = record {
  listener_closed = λ e. cc;
  stopping_done = λ e. cc;
  serve_why = λ e b. cc;
  serve_what = λ e. cc;
  zero_done = λ e. cc;
  one_broken = λ e. cc;
  done_closed = λ e. cc;
}

-- However the steps interleave: when the listener is closed, so is the channel `done`; the process ends
-- with status 0 only after a signal that asks for it, and with status 1 only if the listener has failed.
pub Reachable-IsOrdered : {e : Ending} → Reachable e → IsOrdered e
Reachable-IsOrdered start = running-IsOrdered
Reachable-IsOrdered (next r s) = Step-IsOrdered s (Reachable-IsOrdered r)
