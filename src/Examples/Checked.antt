-- ===== src/Examples/Checked.antt =====
-- Tests of internal/checks.
use node_gateway.Base.{
  none, ℕ, ◌≡◌, ◌↔◌, ◌⊎◌, refl, true, not, ◌||◌, String, List, [], ◌∷◌, some, arith, lookup, ◌==◌,
  string_eq, if◌then◌else◌, all, All, bytes, eq_iff,
}
use node_gateway.Config.{UpstreamConfig}
use node_gateway.Errors.{plain}
use node_gateway.Metadata.Store.{Op, get_block_height_status}
use node_gateway.Checks.Client.{Reply, answered, failed}
use node_gateway.Checks.Patterns.{is_match}
use node_gateway.Checks.Matching.{Matches, is_match_iff}
use node_gateway.Checks.ErrorCheck
use node_gateway.Checks.ErrorCheck.{is_http_failure}
use node_gateway.Checks.ErrorCheck.Outcomes.{outcomes, has_error, tell, record_request-outcomes}
use node_gateway.Checks.LatencyCheck
use node_gateway.Checks.LatencyCheck.{record_latency, is_high_latency, get_latency_threshold}
use node_gateway.Checks.LatencyCheck.Breakers.{
  open_in, HasConfigThresholds, is_passing-all, record_request-threshold,
}
use node_gateway.Checks.BlockHeight.{wants_websockets}
use node_gateway.Checks.BlockHeight.Polling.{Poll, events, last_failure, failed_polls_unreported}
use node_gateway.Checks.BlockHeight.Observer.{
  poll, new_head, on_events, start, block_height-on_events,
}
use node_gateway.Checks.Manager
use node_gateway.Checks.Manager.{
  HealthCheckManager, Replies, get_upstream_status, new_health_check_manager, initialize_checks,
  run_periodic_checks,
}
use node_gateway.Checks.Manager.Coverage.{IsKnown, start_health_checks_total}
use node_gateway.Checks.Manager.Requests.{after_request, record_request-after_request}
use node_gateway.Examples.Data.{
  replies, breaker, breaker-ClosesForGood, errors, routing, upstream, upstreams, error_check,
  latency_check, status, manager, slow_call,
}

-- A pattern of internal/checks/error_test.go.
matches_5xx : is_match (bytes "503") "5xx" ≡ true
unfolding is_match bytes
matches_5xx = refl

is_match_iff_example : (is_match (bytes "503") "5xx" ≡ true) ↔ Matches (bytes "503") (bytes "5xx")
is_match_iff_example = is_match_iff (bytes "503") "5xx"

record_request-outcomes_example :
    ErrorCheck.record_request 10 slow_call error_check
    ≡ some (
      is_http_failure slow_call || has_error (outcomes errors slow_call),
      record error_check {
        error_circuit_breaker =
            tell 10 (outcomes errors slow_call) error_check.error_circuit_breaker;
      },
    )
record_request-outcomes_example = record_request-outcomes 10 errors slow_call error_check refl refl

is_passing-all_example :
    ((LatencyCheck.is_passing 10 ("eth_call" ∷ []) latency_check).0
      ≡ all (λ j. not (open_in 10 latency_check.method_latency_breaker j)) ("eth_call" ∷ []))
    × ((j : String)
        → open_in 10
            (LatencyCheck.is_passing 10 ("eth_call" ∷ []) latency_check).1.method_latency_breaker
            j
          ≡ open_in 10 latency_check.method_latency_breaker j)
is_passing-all_example =
    is_passing-all breaker-ClosesForGood 10 ("eth_call" ∷ []) latency_check refl

thresholds : HasConfigThresholds latency_check.routing_config latency_check.method_latency_breaker
unfolding get_latency_threshold lookup
thresholds j l e = ground (arith, eq_iff "eth_call" j)

record_request-threshold_example :
    ((LatencyCheck.record_request 10 slow_call latency_check).0
      ≡ is_high_latency
          (get_latency_threshold (some latency_check.routing_config) slow_call.method)
          slow_call.latency)
    × HasConfigThresholds latency_check.routing_config
        (LatencyCheck.record_request 10 slow_call latency_check).1.method_latency_breaker
record_request-threshold_example =
    record_request-threshold 10 slow_call latency_check refl thresholds

abbrev header : Reply ℕ
header = answered 12

block_height-on_events_example :
    let (c, s) = start (upstream "geth" "fallback") (answered tt) (answered tt) (answered tt) in
    let (c', s') = on_events (poll (answered tt) header ∷ new_head 13 ∷ []) c s in
    (get_block_height_status "fallback" c'.upstream_config.id s').block_height ≡ c'.block_height
block_height-on_events_example =
    block_height-on_events "fallback" (upstream "geth" "fallback") (answered tt) (answered tt)
      (answered tt) (poll (answered tt) header ∷ new_head 13 ∷ [])

abbrev polls : List Poll
polls =
    (answered tt, answered 12)
    ∷ (answered tt, failed (plain "timeout"))
    ∷ (failed (plain "refused"), failed (plain "refused"))
    ∷ []

failed_polls_unreported_example :
    let (c, s) =
      start (upstream "geth" "fallback") (failed (plain "no ws")) (answered tt) (answered tt) in
    let (c', s') = on_events (events polls) c s in
    ((get_block_height_status "fallback" "geth" s').error ≡ none)
    × (c'.block_height_error ≡ last_failure none polls)
unfolding wants_websockets
failed_polls_unreported_example =
    failed_polls_unreported "fallback" (upstream "geth" "fallback") (failed (plain "no ws"))
      (answered tt) polls refl

abbrev rounds : List (String → Replies)
rounds = (λ _. replies) ∷ []

start_health_checks_total_example :
    let made =
      initialize_checks {S = ℕ} (λ _. replies) (new_health_check_manager upstreams routing) in
    (m : HealthCheckManager ℕ) × (sent : List Op) × (run_periodic_checks rounds made.0
      ≡ some (m, sent))
    × ((rounds ≡ []) ⊎ (m.is_initialized ≡ true))
    × All (λ (c : UpstreamConfig). IsKnown c.id m) upstreams
start_health_checks_total_example =
    start_health_checks_total upstreams routing (λ _. replies) rounds

record_request-after_request_example :
    (m' : HealthCheckManager ℕ) × (Manager.record_request 10 "geth" slow_call manager ≡ some m')
    × ((j : String)
        → get_upstream_status j m' ≡ (
            if "geth" == j
            then some (after_request 10 errors slow_call (status "geth" "fallback"))
            else get_upstream_status j manager))
unfolding get_upstream_status lookup
record_request-after_request_example =
    record_request-after_request 10 errors "geth" slow_call manager (status "geth" "fallback") refl
      refl refl
