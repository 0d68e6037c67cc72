-- ===== src/Checks/Manager/Requests.antt =====
-- internal/checks/manager.go: what the result of a request does to the checks.
use node_gateway.Base.{
  ℕ, String, ◌≡◌, ap, Bool, true, ◌||◌, some, lookup-insert, ◌==◌, string_eq, if◌then◌else◌, ◌>>=◌,
}
use node_gateway.Config.{ErrorsConfig}
use node_gateway.Checks.Breaker.{CircuitBreaker}
use node_gateway.Checks.Request.{RequestData}
use node_gateway.Checks.ErrorCheck
use node_gateway.Checks.ErrorCheck.{is_http_failure}
use node_gateway.Checks.ErrorCheck.Outcomes.{outcomes, has_error, tell, record_request-outcomes}
use node_gateway.Checks.LatencyCheck
use node_gateway.Checks.Manager.{
  UpstreamStatus, HealthCheckManager, get_upstream_status, set_upstream_status, record_request,
}

module _ {S : Type 0} ⦃b : CircuitBreaker S⦄ where
  -- The checks of an upstream once they have seen a request: the latency counts only if the request
  -- has no error.
  abbrev pub after_request : ℕ → ErrorsConfig → RequestData → UpstreamStatus S → UpstreamStatus S
  after_request now e d status =
      let errors = status.error_check in
      record status {
        error_check = record errors {
          error_circuit_breaker = tell now (outcomes e d) errors.error_circuit_breaker;
        };
        latency_check =
            if is_http_failure d || has_error (outcomes e d)
            then status.latency_check
            else (LatencyCheck.record_request now d status.latency_check).1;
      }

  -- For a known upstream with an enabled error check whose `Errors` is set, RecordRequest never
  -- panics. It tells the error check all outcomes of the request, tells the latency check the
  -- latency exactly when none of them is an error and the request did not fail as a whole, and
  -- leaves the checks of every other upstream alone.
  pub record_request-after_request :
      (now : ℕ) (e : ErrorsConfig) (id : String) (d : RequestData) (m : HealthCheckManager S)
      (status : UpstreamStatus S)
      → get_upstream_status id m ≡ some status
      → status.error_check.is_check_enabled ≡ true
      → status.error_check.routing_config.errors ≡ some e
      → (m' : HealthCheckManager S) × (record_request now id d m ≡ some m')
        × ((j : String)
            → get_upstream_status j m'
              ≡ (if id == j then some (after_request now e d status) else get_upstream_status j m))
  unfolding record_request get_upstream_status
  record_request-after_request now e id d m status found enabled has_errors = (
    set_upstream_status id (after_request now e d status) m,
    rw found (
        ap
          (λ o. o >>= λ (r : Bool × ErrorCheck.ErrorCheck S). some (
            set_upstream_status id
              (record status {
                error_check = r.1;
                latency_check =
                    if r.0
                    then status.latency_check
                    else (LatencyCheck.record_request now d status.latency_check).1;
              })
              m))
          (record_request-outcomes now e d status.error_check enabled has_errors)),
    λ j. lookup-insert id j (after_request now e d status) m.upstream_id_to_status,
  )
