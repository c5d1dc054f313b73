-- ===== src/Program.antt =====
-- verm.go and http_server.go: the signals that the process handles, and how it ends. Flags are in the
-- child Flags.
pub mod Signals
pub mod Exit
pub mod Flags
mod Examples
use verm.Prelude.{
  ℕ, Bool, true, false, Option, none, some, List, [], ◌∷◌, ◌++◌, Bytes, codes, ◌==◌, if◌then◌else◌,
}
use verm.Replication.Targets.{NamedTarget, enqueue_resync_all}

-- The fields of `vermServer` that are not references: a copy of the struct has its own.
pub record VermServer : Type 0 where
  -- a `uint32` that is 0 or 1
  pub closed : ℕ
  pub quiet : Bool

-- `VermServer`
unfoldable pub verm_server : Bool → VermServer
verm_server quiet = record { closed = 0; quiet = quiet }

-- `Active`
unfoldable pub active : VermServer → Bool
active server = server.closed == 0

-- The process: the variable `server` of `main`, the copy of it that `http.Handle` is given, what they
-- share, the variable of `waitForSignals`, and what is printed.
pub record Process : Type 0 where
  pub server : VermServer
  pub handler : VermServer
  pub listener_open : Bool
  pub done_open : Bool
  pub closed : Bool
  pub targets : List NamedTarget
  pub printed : List Bytes

-- What `main` has set up when it calls `Serve`.
unfoldable pub serving : Bool → List NamedTarget → Process
serving quiet targets = record {
  server = verm_server quiet;
  handler = verm_server quiet;
  listener_open = true;
  done_open = true;
  closed = false;
  targets = enqueue_resync_all targets;
  printed = [];
}

-- `Shutdown` is a method of the value: it stores to its own copy of the server, which is the first
-- result, and closes the listener that all copies share.
unfoldable pub shutdown : VermServer → Process → VermServer × Process
shutdown server p = (record server { closed = 1 }, record p { listener_open = false })

pub data Signal : Type 0 where
  sigint sigterm sigusr1 sigusr2 : Signal

unfoldable pub print_unless_quiet : Bytes → Process → Process
print_unless_quiet message p =
    if p.server.quiet then p else record p { printed = p.printed ++ message ∷ [] }

-- `if !closed { closed = true; close(done); server.Shutdown() }`; none is the panic of a second close.
unfoldable pub stop : Process → Option Process
stop p =
    if p.closed
    then some p
    else if p.done_open
    then some (shutdown p.server (record p { closed = true; done_open = false })).1
    else none

-- The `switch` of `waitForSignals`; SIGUSR2 prints a profile.
unfoldable pub handle_signal : Signal → Process → Option Process
handle_signal sigusr1 p = some (record p {
  printed = p.printed ++ codes "Resyncing by request" ∷ [];
  targets = enqueue_resync_all p.targets;
})
handle_signal sigusr2 p = some p
handle_signal sigint p = stop (print_unless_quiet (codes "Verm shutting down by request") p)
handle_signal sigterm p = stop (print_unless_quiet (codes "Verm shutting down by request") p)

unfoldable pub bind_process : Option Process → (Process → Option Process) → Option Process
bind_process none next = none
bind_process (some p) next = next p

-- The loop of `waitForSignals` over the signals that it receives.
unfoldable pub wait_for_signals : List Signal → Process → Option Process
wait_for_signals [] p = some p
wait_for_signals (s ∷ signals) p = bind_process (handle_signal s p) (wait_for_signals signals)
