-- ===== src/Program/Examples.antt =====
-- A process that is asked to end twice.
use verm.Prelude.{true, false, some, [], ◌∷◌, codes, bytes_eq, ◌≡◌, refl, arith}
use verm.Program.{sigint, sigterm, sigusr1, serving, wait_for_signals, Process}
use verm.Program.Signals.{IsProcess, any_stop, is_stop, wait_for_signals-IsProcess}
use verm.Program.Exit.{
  Ending, running, Reachable, start, next, signals, close_done, close_listener, serve_closed,
  exit_done, IsOrdered, Reachable-IsOrdered,
}
use verm.Program.Flags.{
  variable_of, to_upper, replace_dashes, set_flag_from_environment, variable_of_inj,
}

wait_for_signals-IsProcess_example :
    (p : Process) × (wait_for_signals (sigusr1 ∷ sigint ∷ sigterm ∷ []) (serving true []) ≡ some p)
    × IsProcess true p
unfolding any_stop is_stop
wait_for_signals-IsProcess_example =
    wait_for_signals-IsProcess true [] (sigusr1 ∷ sigint ∷ sigterm ∷ [])

abbrev ended : Ending
ended = record running {
  closed = true;
  done_open = false;
  listener_open = false;
  serve_failed = true;
  serve_error = true;
  exit_status = some 0;
}

ended-Reachable : Reachable ended
ended-Reachable =
    next
      (next (next (next start (signals (close_done refl))) (signals (close_listener refl)))
        (serve_closed refl))
      (exit_done refl refl refl)

Reachable-IsOrdered_example : IsOrdered ended
Reachable-IsOrdered_example = Reachable-IsOrdered ended-Reachable

mime_variable : variable_of (codes "mime-types-file") ≡ codes "VERM_MIME_TYPES_FILE"
unfolding variable_of to_upper replace_dashes
mime_variable = refl

-- The value of a variable that is set replaces that of the flag.
sets_port :
    set_flag_from_environment
      (λ name. codes "80")
      (λ name text value. text)
      (record { name = codes "port"; value = codes "3404" })
    ≡ record { name = codes "port"; value = codes "80" }
unfolding set_flag_from_environment bytes_eq
sets_port = refl

variable_of_inj_run : codes "data" ≡ codes "data"
variable_of_inj_run =
    variable_of_inj (codes "data") (codes "data") (ground arith) (ground arith) refl
