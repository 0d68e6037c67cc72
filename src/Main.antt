-- ===== src/Main.antt =====
-- The process: cmd/gateway/main.go, with the start and the shutdown of the servers of
-- internal/server/web_server.go and internal/metrics/metrics.go. An event is what one goroutine does
-- next; a schedule is a list of them. Prometheus and the sockets are not modelled.
pub mod Schedule
pub mod Steps
pub mod Shutdown
use node_gateway.Base.{
  ℕ, ℤ, pos, negsuc, ltb, ◌⊎◌, inl, inr, String, Bool, true, false, List, [], ◌∷◌, Option, none,
  some, ◌==◌, string_eq, ◌||◌, value_or, if◌then◌else◌,
}
use node_gateway.Config.{Config, ErrorsConfig, LatencyConfig}
use node_gateway.Config.Pointers.{Heap}
use node_gateway.Config.Yaml.{LoadError, load_config}
use node_gateway.Server.Wiring.{Gateway}

abbrev pub expected_num_args : ℕ
expected_num_args = 2

-- zapcore.InfoLevel and zapcore.DebugLevel
abbrev pub default_log_level_production : ℤ
default_log_level_production = pos 0

abbrev pub default_log_level_development : ℤ
default_log_level_development = negsuc 0

pub record LoggerConfig : Type 0 where
  pub is_production : Bool
  pub level : ℤ

-- A level that is not set, or that zapcore.ParseLevel refuses, is the default.
unfoldable pub level_or : (String → Option ℤ) → ℤ → String → ℤ
level_or parse_level default_level text =
    if text == "" then default_level else value_or default_level (parse_level text)

-- The error of ParseLevel is overwritten by that of Build, which the parameter `builds` decides.
unfoldable pub setup_global_logger :
    (String → Option ℤ) → (LoggerConfig → Bool) → String → String → Option LoggerConfig
unfolding level_or
setup_global_logger parse_level builds env log_level =
    let is_production = env == "" || env == "production" in
    let default_level =
      if is_production then default_log_level_production else default_log_level_development in
    let c : LoggerConfig = record {
      is_production = is_production;
      level = level_or parse_level default_level log_level;
    } in
    if builds c then some c else none

-- A Fatal of the logger exits with the code 1.
pub data Outcome : Type 0 where
  running panicked killed : Outcome
  exited : ℕ → Outcome

-- The first part of main, up to the configuration: the arguments count the program itself.
unfoldable pub boot :
    Option LoggerConfig
    → ℕ
    → Option (Option (Config ℕ ℕ × Heap))
    → Outcome ⊎ Config ErrorsConfig LatencyConfig
unfolding load_config
boot none num_args file = inl panicked
boot (some logger) num_args file =
    if ltb num_args expected_num_args then inl (exited 1) else elim (load_config file) [
      | none ↦ inl panicked
      | some (some c, none) ↦ inr c
      | some (_, _) ↦ inl (exited 1)
    ]

-- A server: the nil pointer; constructed; in ListenAndServe; shut down.
pub data ServerState : Type 0 where
  absent made listening closed : ServerState

-- The goroutine of StartEmittingSystemStats: not started; waiting; reading the descriptors; returned.
pub data Emitter : Type 0 where
  idle waiting emitting stopped : Emitter

-- main before signal.Notify; at the channel of the signal; at the shutdown of each server.
pub data Phase : Type 0 where
  starting watching stopping_rpc stopping_metrics : Phase

pub record Process : Type 0 where
  pub gateway : Option Gateway
  pub rpc_server : ServerState
  pub metrics_server : ServerState
  pub emitter : Emitter
  pub phase : Phase
  pub outcome : Outcome

abbrev pub start : Process
start = record {
  gateway = none;
  rpc_server = absent;
  metrics_server = absent;
  emitter = idle;
  phase = starting;
  outcome = running;
}

-- What a goroutine does, `true` where it returns no error: the object graph is wired and assigned; a
-- server is constructed, binds its port, loses its socket; main registers for signals; a signal
-- arrives; a Shutdown is called and returns; a round of the statistics begins and ends.
pub data Event : Type 0 where
  wired metrics_made notified signalled rpc_lost metrics_lost ticked emitted : Event
  rpc_listens metrics_listens rpc_shut metrics_shut : Bool → Event

-- ListenAndServe, which returns ErrServerClosed after a Shutdown; any other return is fatal.
unfoldable pub listen : Bool → ServerState → Outcome ⊎ ServerState
listen bound absent = inr absent
listen true made = inr listening
listen false made = inl (exited 1)
listen bound listening = inr listening
listen bound closed = inr closed

unfoldable pub lose : ServerState → Outcome ⊎ ServerState
lose listening = inl (exited 1)
lose absent = inr absent
lose made = inr made
lose closed = inr closed

-- Shutdown, which reads a field of its receiver.
unfoldable pub shut : Bool → ServerState → Outcome ⊎ ServerState
shut ok absent = inl panicked
shut true _ = inr closed
shut false _ = inl (exited 1)

abbrev put_rpc : Outcome ⊎ ServerState → Phase → Process → Process
put_rpc (inl o) phase p = record p { outcome = o }
put_rpc (inr s) phase p = record p { rpc_server = s; phase = phase }

abbrev put_metrics : Outcome ⊎ ServerState → Outcome → Process → Process
put_metrics (inl o) next p = record p { outcome = o }
put_metrics (inr s) next p = record p { metrics_server = s; outcome = next }

-- The goroutine runs from Start on, whatever ListenAndServe gives.
unfoldable pub start_emitting : ServerState → Emitter → Emitter
start_emitting absent e = e
start_emitting _ idle = waiting
start_emitting _ e = e

-- The send on the channel of the shutdown is lost unless the goroutine waits.
unfoldable pub stop_emitting : Emitter → Emitter
stop_emitting waiting = stopped
stop_emitting e = e

unfoldable pub receive_signal : Process → Process
receive_signal p = elim p.phase [
  | starting ↦ record p { outcome = killed }
  | watching ↦ record p { phase = stopping_rpc }
  | _ ↦ p
]

unfoldable pub assign_rpc_server : Option Gateway → Process → Process
assign_rpc_server wiring p = elim p.rpc_server [
  | absent ↦ elim wiring [
    | none ↦ record p { outcome = panicked }
    | some g ↦ record p { gateway = some g; rpc_server = made }
  ]
  | _ ↦ p
]

unfoldable pub assign_metrics_server : Process → Process
assign_metrics_server p = elim p.metrics_server [
  | absent ↦ record p { metrics_server = made }
  | _ ↦ p
]

-- The two shutdowns at the end of main, in this order; then main returns.
unfoldable pub shut_down_rpc : Bool → Process → Process
unfolding shut
shut_down_rpc ok p = elim p.phase [
  | stopping_rpc ↦ put_rpc (shut ok p.rpc_server) stopping_metrics p
  | _ ↦ p
]

unfoldable pub shut_down_metrics : Bool → Process → Process
unfolding shut stop_emitting
shut_down_metrics ok p = elim p.phase [
  | stopping_metrics ↦
      put_metrics (shut ok p.metrics_server) (exited 0)
        (record p { emitter = stop_emitting p.emitter })
  | _ ↦ p
]

unfoldable pub emit : Event → Emitter → Emitter
emit ticked waiting = emitting
emit emitted emitting = waiting
emit _ e = e

-- One event of a process that runs, for what the wiring of its configuration gives.
unfoldable pub advance : Option Gateway → Event → Process → Process
unfolding listen lose receive_signal assign_rpc_server assign_metrics_server shut_down_rpc
    shut_down_metrics emit start_emitting
advance wiring wired p = assign_rpc_server wiring p
advance wiring metrics_made p = assign_metrics_server p
advance wiring notified p = elim p.phase [ starting ↦ record p { phase = watching } | _ ↦ p ]
advance wiring signalled p = receive_signal p
advance wiring rpc_lost p = put_rpc (lose p.rpc_server) p.phase p
advance wiring metrics_lost p = put_metrics (lose p.metrics_server) p.outcome p
advance wiring ticked p = record p { emitter = emit ticked p.emitter }
advance wiring emitted p = record p { emitter = emit emitted p.emitter }
advance wiring (rpc_listens bound) p = put_rpc (listen bound p.rpc_server) p.phase p
advance wiring (metrics_listens bound) p =
    put_metrics (listen bound p.metrics_server) p.outcome
      (record p { emitter = start_emitting p.metrics_server p.emitter })
advance wiring (rpc_shut ok) p = shut_down_rpc ok p
advance wiring (metrics_shut ok) p = shut_down_metrics ok p

abbrev pub while_running : Outcome → Process → Process → Process
while_running running next p = next
while_running _ next p = p

unfoldable pub run : Option Gateway → List Event → Process → Process
unfolding advance
run wiring [] p = p
run wiring (e ∷ es) p = while_running p.outcome (run wiring es (advance wiring e p)) p
