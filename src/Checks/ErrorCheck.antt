-- ===== src/Checks/ErrorCheck.antt =====
-- internal/checks/error.go: the check that bans an upstream with too many errors.
pub mod Outcomes
use node_gateway.Base.{
  ℕ, ℤ, pos, leb_ℤ, String, Bool, true, false, not, ◌||◌, List, [], ◌∷◌, Option, none, some,
  if◌then◌else◌, is_none, itoa, value_or, ◌>>=◌,
}
use node_gateway.Config.{
  Duration, Float64, RoutingConfig, ErrorsConfig, LatencyConfig, default_error_rate,
}
use node_gateway.Jsonrpc.{ResponseBody, SingleResponseBody, ErrorObject, get_sub_responses}
use node_gateway.Checks.Breaker.{
  CircuitBreaker, new_circuit_breaker, is_open, get_detection_window, get_ban_window,
}
use node_gateway.Checks.Patterns.{is_error}
use node_gateway.Checks.Request.{RequestData}

-- The constructor always sets the breaker.
pub record ErrorCheck (S : Type 0) : Type 0 where
  pub routing_config : RoutingConfig ErrorsConfig LatencyConfig
  pub error_circuit_breaker : S
  pub is_check_enabled : Bool

unfoldable pub get_errors_rate : Option (RoutingConfig ErrorsConfig LatencyConfig) → Float64
get_errors_rate none = default_error_rate
get_errors_rate (some r) = elim r.errors [ none ↦ default_error_rate | some e ↦ e.rate ]

-- A response that the HTTP layer refused, or that has no body.
unfoldable pub is_http_failure : RequestData → Bool
is_http_failure d = leb_ℤ (pos 400) d.http_response_code || is_none d.response_body

unfoldable pub is_http_error : RequestData → ErrorsConfig → Bool
unfolding is_error itoa
is_http_error d e = is_error e (itoa d.http_response_code) [] (value_or "" d.error)

-- Whether a response counts as an error, which panics on a nil `Errors`.
unfoldable pub is_counted : Option ErrorsConfig → SingleResponseBody → Option Bool
unfolding is_error itoa
is_counted errors resp = elim resp.error [
  | none ↦ some false
  | some err ↦ do e ← errors; some (is_error e [] (itoa err.code) err.message)
]

unfoldable pub sub_responses : RequestData → List SingleResponseBody
unfolding get_sub_responses
sub_responses d = elim d.response_body [ none ↦ [] | some body ↦ get_sub_responses body ]

module _ {S : Type 0} ⦃b : CircuitBreaker S⦄ where
  unfoldable pub new_error_stats : RoutingConfig ErrorsConfig LatencyConfig → S
  unfolding new_circuit_breaker get_errors_rate get_detection_window get_ban_window
  new_error_stats r =
      new_circuit_breaker (get_errors_rate (some r)) (get_detection_window (some r))
        (get_ban_window (some r))

  unfoldable pub new_error_checker : RoutingConfig ErrorsConfig LatencyConfig → ErrorCheck S
  unfolding new_error_stats
  new_error_checker r = record {
    routing_config = r;
    error_circuit_breaker = new_error_stats r;
    is_check_enabled = r.is_enabled;
  }

  unfoldable pub record_response : ℕ → Bool → S → S
  record_response now is_error s =
      if is_error then b.record_failure now s else b.record_success now s

  -- The answer, and the check afterwards: asking may close the breaker.
  unfoldable pub is_passing : ℕ → ErrorCheck S → Bool × ErrorCheck S
  unfolding is_open
  is_passing now c =
      if c.is_check_enabled
      then (let (open?, s) = is_open now c.error_circuit_breaker in
          (not open?, record c { error_circuit_breaker = s }))
      else (true, c)

  -- The loop over the responses; `found` is `isError`.
  unfoldable pub record_responses :
      ℕ → Bool → List SingleResponseBody → ErrorCheck S → Option (Bool × ErrorCheck S)
  unfolding is_counted record_response
  record_responses now found [] c = some (found, c)
  record_responses now found (resp ∷ rest) c = do
    counted ← is_counted c.routing_config.errors resp
    record_responses now (found || counted) rest
        (record c { error_circuit_breaker = record_response now counted c.error_circuit_breaker })

  unfoldable pub record_request : ℕ → RequestData → ErrorCheck S → Option (Bool × ErrorCheck S)
  unfolding is_http_failure is_http_error sub_responses record_responses record_response
  record_request now d c =
      if c.is_check_enabled
      then if is_http_failure d
        then (do
          e ← c.routing_config.errors
          some (
            true,
            record c {
              error_circuit_breaker =
                  record_response now (is_http_error d e) c.error_circuit_breaker;
            },
          ))
        else record_responses now false (sub_responses d) c
      else some (false, c)
