-- ===== src/Program/Signals.antt =====
-- What the signals do.
use verm.Prelude.{
  Bool, true, false, not, ◌||◌, Option, some, List, [], ◌∷◌, ◌++◌, Bytes, if◌then◌else◌, ◌≡◌, refl,
  subst,
}
use verm.Replication.Targets.{NamedTarget}
use verm.Program.{
  Process, Signal, sigint, sigterm, sigusr1, sigusr2, shutdown, print_unless_quiet, stop,
  handle_signal, bind_process, wait_for_signals, active, serving, verm_server,
}

-- Whether a signal asks for the end.
unfoldable pub is_stop : Signal → Bool
is_stop sigint = true
is_stop sigterm = true
is_stop sigusr1 = false
is_stop sigusr2 = false

unfoldable pub any_stop : List Signal → Bool
any_stop [] = false
any_stop (s ∷ signals) = is_stop s || any_stop signals

-- A process that has been stopped or not.
pub record IsProcess (stopped : Bool) (p : Process) : Type 0 where
  pub closed_eq : p.closed ≡ stopped
  pub done_eq : p.done_open ≡ not stopped
  pub listener_eq : p.listener_open ≡ not stopped
  pub handler_active : active p.handler ≡ true

Handled : Bool → Option Process → Type 0
Handled stopped r = (p : Process) × (r ≡ some p) × IsProcess stopped p

stop-IsProcess : (b : Bool) (p : Process) → IsProcess b p → Handled true (stop p)
unfolding stop shutdown Handled
stop-IsProcess true p h = (p, rw (stop, h.closed_eq) refl, h)
stop-IsProcess false p h = (
  record p { closed = true; done_open = false; listener_open = false },
  rw (stop, h.closed_eq, h.done_eq) refl,
  record {
    closed_eq = refl;
    done_eq = refl;
    listener_eq = refl;
    handler_active = h.handler_active;
  },
)

print-IsProcess :
    (b : Bool) (message : Bytes) (p : Process)
    → IsProcess b p
    → IsProcess b (print_unless_quiet message p)
unfolding print_unless_quiet
print-IsProcess b message p h = branch p.server.quiet
  where
    branch :
        (q : Bool) → IsProcess b (if q then p else record p { printed = p.printed ++ message ∷ [] })
    branch true = h
    branch false = record {
      closed_eq = h.closed_eq;
      done_eq = h.done_eq;
      listener_eq = h.listener_eq;
      handler_active = h.handler_active;
    }

or_true : (b : Bool) → (b || true) ≡ true
or_true true = refl
or_true false = refl

or_false : (b : Bool) → (b || false) ≡ b
or_false true = refl
or_false false = refl

signal-IsProcess :
    (b : Bool) (s : Signal) (p : Process)
    → IsProcess b p
    → Handled (b || is_stop s) (handle_signal s p)
unfolding handle_signal is_stop Handled
signal-IsProcess b sigusr1 p h = rw (or_false b) (
  _,
  refl,
  record {
    closed_eq = h.closed_eq;
    done_eq = h.done_eq;
    listener_eq = h.listener_eq;
    handler_active = h.handler_active;
  },
)
signal-IsProcess b sigusr2 p h = rw (or_false b) (p, refl, h)
signal-IsProcess b sigint p h = rw (or_true b) (stop-IsProcess b _ (print-IsProcess b _ p h))
signal-IsProcess b sigterm p h = rw (or_true b) (stop-IsProcess b _ (print-IsProcess b _ p h))

or_assoc : (a b c : Bool) → ((a || b) || c) ≡ (a || (b || c))
or_assoc true b c = refl
or_assoc false b c = refl

signals-IsProcess :
    (b : Bool) (signals : List Signal) (p : Process)
    → IsProcess b p
    → Handled (b || any_stop signals) (wait_for_signals signals p)
unfolding wait_for_signals bind_process any_stop Handled
signals-IsProcess b [] p h = rw (or_false b) (p, refl, h)
signals-IsProcess b (s ∷ signals) p h =
    let (q, e, k) = signal-IsProcess b s p h in
    let (r, f, i) = signals-IsProcess (b || is_stop s) signals q k in
    (
      r,
      rw (wait_for_signals, e) f,
      subst (λ c. IsProcess c r) (or_assoc b (is_stop s) (any_stop signals)) i,
    )

-- Whatever signals come, and however often, they are handled without a panic; the listener and the
-- channel `done` are closed exactly if one of them was SIGINT or SIGTERM, and the server that handles
-- requests is still active then.
pub wait_for_signals-IsProcess :
    (quiet : Bool) (targets : List NamedTarget) (signals : List Signal)
    → (p : Process) × (wait_for_signals signals (serving quiet targets) ≡ some p)
      × IsProcess (any_stop signals) p
unfolding Handled serving verm_server active
wait_for_signals-IsProcess quiet targets signals =
    signals-IsProcess false signals (serving quiet targets)
      (record { closed_eq = refl; done_eq = refl; listener_eq = refl; handler_active = refl })
