-- ===== src/Checks/Manager.antt =====
-- internal/checks/manager.go: the checks of all upstreams. The goroutines of a round work on checks
-- of their own; what they send to the store is listed upstream by upstream.
pub mod Coverage
pub mod Requests
pub mod Rounds
pub mod Orders
use node_gateway.Base.{
  ℕ, String, Bool, true, false, List, [], ◌∷◌, ◌++◌, Option, none, some, Map, lookup, insert,
  if◌then◌else◌, ◌>>=◌,
}
use node_gateway.Config.{UpstreamConfig, RoutingConfig, ErrorsConfig, LatencyConfig}
use node_gateway.Metadata.Store.{Op}
use node_gateway.Checks.Breaker.{CircuitBreaker}
use node_gateway.Checks.Client.{Reply}
use node_gateway.Checks.Request.{RequestData}
use node_gateway.Checks.ErrorCheck
use node_gateway.Checks.ErrorCheck.{ErrorCheck, new_error_checker}
use node_gateway.Checks.LatencyCheck
use node_gateway.Checks.LatencyCheck.{LatencyCheck, new_latency_checker}
use node_gateway.Checks.PeerCheck
use node_gateway.Checks.PeerCheck.{PeerCheck, new_peer_checker}
use node_gateway.Checks.BlockHeight
use node_gateway.Checks.BlockHeight.{BlockHeightCheck, new_block_height_checker}

-- internal/types/types.go
pub record UpstreamStatus (S : Type 0) : Type 0 where
  pub block_height_check : BlockHeightCheck
  pub peer_check : PeerCheck
  pub error_check : ErrorCheck S
  pub latency_check : LatencyCheck S
  pub id : String
  pub group_id : String

pub record HealthCheckManager (S : Type 0) : Type 0 where
  pub upstream_id_to_status : Map (UpstreamStatus S)
  pub configs : List UpstreamConfig
  pub routing_config : RoutingConfig ErrorsConfig LatencyConfig
  pub is_initialized : Bool

-- What the clients of one upstream answer in one round.
pub record Replies : Type 0 where
  pub ws_dial : Reply (Unit {0})
  pub subscribed : Reply (Unit {0})
  pub http_dial : Reply (Unit {0})
  pub header : Reply ℕ
  pub peer_dial : Reply (Unit {0})
  pub peer_count : Reply ℕ
  pub next_peer_count : Reply ℕ

module _ {S : Type 0} where
  -- `none` is the panic on an unknown upstream.
  unfoldable pub get_upstream_status : String → HealthCheckManager S → Option (UpstreamStatus S)
  unfolding lookup
  get_upstream_status upstream_id m = lookup upstream_id m.upstream_id_to_status

  unfoldable pub set_upstream_status :
      String → UpstreamStatus S → HealthCheckManager S → HealthCheckManager S
  unfolding insert
  set_upstream_status upstream_id status m = record m {
    upstream_id_to_status = insert upstream_id status m.upstream_id_to_status;
  }

  unfoldable pub run_checks : Replies → UpstreamStatus S → UpstreamStatus S × List Op
  unfolding BlockHeight.run_check PeerCheck.run_check
  run_checks r status =
      let (height, sent) = BlockHeight.run_check r.http_dial r.header status.block_height_check in
      (
        record status {
          block_height_check = height;
          peer_check =
              PeerCheck.run_check r.peer_dial r.peer_count r.next_peer_count status.peer_check;
        },
        sent,
      )

  -- The loop of runChecksOnce.
  unfoldable pub run_checks_on :
      (String → Replies)
      → List UpstreamConfig
      → HealthCheckManager S
      → Option (HealthCheckManager S × List Op)
  unfolding get_upstream_status set_upstream_status run_checks
  run_checks_on replies [] m = some (m, [])
  run_checks_on replies (config ∷ configs) m = do
    status ← get_upstream_status config.id m
    let checked = run_checks (replies config.id) status
    (m', sent) ← run_checks_on replies configs (set_upstream_status config.id checked.0 m)
    some (m', checked.1 ++ sent)

  unfoldable pub run_checks_once :
      (String → Replies) → HealthCheckManager S → Option (HealthCheckManager S × List Op)
  unfolding run_checks_on
  run_checks_once replies m = do
    (m', sent) ← run_checks_on replies m.configs m
    some (record m' { is_initialized = true }, sent)

  -- runPeriodicChecks, one round at once and one for each tick of the ticker.
  unfoldable pub run_periodic_checks :
      List (String → Replies) → HealthCheckManager S → Option (HealthCheckManager S × List Op)
  unfolding run_checks_once
  run_periodic_checks [] m = some (m, [])
  run_periodic_checks (replies ∷ rounds) m = do
    (m', sent) ← run_checks_once replies m
    (m'', sent') ← run_periodic_checks rounds m'
    some (m'', sent ++ sent')

module _ {S : Type 0} ⦃b : CircuitBreaker S⦄ where
  unfoldable pub new_health_check_manager :
      List UpstreamConfig → RoutingConfig ErrorsConfig LatencyConfig → HealthCheckManager S
  new_health_check_manager configs routing = record {
    upstream_id_to_status = [];
    configs = configs;
    routing_config = routing;
    is_initialized = false;
  }

  unfoldable pub new_upstream_status :
      Replies
      → RoutingConfig ErrorsConfig LatencyConfig
      → UpstreamConfig
      → UpstreamStatus S × List Op
  unfolding new_block_height_checker new_peer_checker new_error_checker new_latency_checker
  new_upstream_status r routing config =
      let (height, sent) = new_block_height_checker config r.ws_dial r.subscribed r.http_dial in
      (
        record {
          block_height_check = height;
          peer_check = new_peer_checker config r.peer_dial r.peer_count;
          error_check = new_error_checker routing;
          latency_check = new_latency_checker routing;
          id = config.id;
          group_id = config.group_id;
        },
        sent,
      )

  -- The loop of initializeChecks.
  unfoldable pub initialize_checks_on :
      (String → Replies)
      → List UpstreamConfig
      → HealthCheckManager S
      → HealthCheckManager S × List Op
  unfolding new_upstream_status set_upstream_status
  initialize_checks_on replies [] m = (m, [])
  initialize_checks_on replies (config ∷ configs) m =
      let made = new_upstream_status (replies config.id) m.routing_config config in
      let (m', sent) =
        initialize_checks_on replies configs (set_upstream_status config.id made.0 m) in
      (m', made.1 ++ sent)

  unfoldable pub initialize_checks :
      (String → Replies) → HealthCheckManager S → HealthCheckManager S × List Op
  unfolding initialize_checks_on
  initialize_checks replies m = initialize_checks_on replies m.configs m

  unfoldable pub record_request :
      ℕ → String → RequestData → HealthCheckManager S → Option (HealthCheckManager S)
  unfolding get_upstream_status set_upstream_status ErrorCheck.record_request
      LatencyCheck.record_request
  record_request now upstream_id d m = do
    status ← get_upstream_status upstream_id m
    (is_error, errors) ← ErrorCheck.record_request now d status.error_check
    let latencies =
        if is_error
        then status.latency_check
        else (LatencyCheck.record_request now d status.latency_check).1
    some (
        set_upstream_status upstream_id
          (record status { error_check = errors; latency_check = latencies }) m)
