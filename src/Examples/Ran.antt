-- ===== src/Examples/Ran.antt =====
-- Tests of cmd/gateway/main.go.
use node_gateway.Base.{
  ℤ, pos, negsuc, String, ◌≡◌, refl, true, false, List, [], ◌∷◌, Option, none, some, ◌==◌,
  string_eq, if◌then◌else◌, inl,
}
use node_gateway.Server.Wiring.{Gateway}
use node_gateway.Main.{
  level_or, setup_global_logger, boot, running, panicked, killed, exited, made, watching, emitting,
  start, Process, wired, metrics_made, notified, signalled, ticked, emitted, rpc_listens,
  metrics_listens, rpc_shut, metrics_shut, Event, run, advance, receive_signal, assign_rpc_server,
  assign_metrics_server, shut_down_rpc, shut_down_metrics, listen, shut, emit, start_emitting,
  stop_emitting,
}
use node_gateway.Main.Schedule.{in_order, is_signal, is_rpc_shut, is_metrics_shut}
use node_gateway.Main.Shutdown.{run-shut_down}

abbrev gateway : Gateway
gateway = record { mux = []; graphs = [] }

abbrev serving : Process
serving = record start {
  gateway = some gateway;
  rpc_server = made;
  metrics_server = made;
  phase = watching;
}

abbrev schedule : List Event
schedule =
    rpc_listens true
    ∷ metrics_listens true
    ∷ ticked
    ∷ signalled
    ∷ rpc_shut true
    ∷ emitted
    ∷ signalled
    ∷ metrics_shut true
    ∷ []

run-shut_down_example : (run (some gateway) schedule serving).outcome ≡ (
    if in_order (is_signal ∷ is_rpc_shut ∷ is_metrics_shut ∷ []) schedule
    then exited 0
    else running)
run-shut_down_example =
    run-shut_down (some gateway) schedule serving refl refl refl refl
      (refl, (refl, (refl, (refl, (refl, (refl, (refl, (refl, tt))))))))

graceful_test :
    (run (some gateway) (wired ∷ notified ∷ metrics_made ∷ schedule) start).outcome ≡ exited 0
unfolding run advance receive_signal assign_rpc_server assign_metrics_server shut_down_rpc
    shut_down_metrics listen shut emit start_emitting stop_emitting
graceful_test = refl

-- A signal that is handled before the object graph is wired reads a field of a nil server.
early_signal_test :
    (run
      (some gateway)
      (notified ∷ metrics_made ∷ signalled ∷ rpc_shut true ∷ wired ∷ [])
      start).outcome
    ≡ panicked
unfolding run advance receive_signal assign_rpc_server assign_metrics_server shut_down_rpc shut
early_signal_test = refl

-- Before signal.Notify a signal kills the process.
killed_test : (run (some gateway) (wired ∷ signalled ∷ []) start).outcome ≡ killed
unfolding run advance receive_signal assign_rpc_server
killed_test = refl

-- The shutdown does not reach the goroutine of the statistics while it reads the descriptors.
lost_shutdown_test :
    (run
      (some gateway)
      (wired
        ∷ notified
        ∷ metrics_made
        ∷ metrics_listens true
        ∷ ticked
        ∷ signalled
        ∷ rpc_shut true
        ∷ metrics_shut true
        ∷ [])
      start).emitter
    ≡ emitting
unfolding run advance receive_signal assign_rpc_server assign_metrics_server shut_down_rpc
    shut_down_metrics listen shut emit start_emitting stop_emitting
lost_shutdown_test = refl

abbrev parse_level : String → Option ℤ
parse_level text = if text == "warn" then some (pos 1) else none

-- A level that cannot be parsed is the default and no error.
logger_test :
    setup_global_logger parse_level (λ _. true) "development" "loud"
    ≡ some (record { is_production = false; level = negsuc 0 })
unfolding setup_global_logger level_or
logger_test = refl

warn_test :
    setup_global_logger parse_level (λ _. true) "" "warn"
    ≡ some (record { is_production = true; level = pos 1 })
unfolding setup_global_logger level_or
warn_test = refl

-- Without an argument the file is not read.
no_file_test : boot (some (record { is_production = true; level = pos 0 })) 1 none ≡ inl (exited 1)
unfolding boot
no_file_test = refl
