-- ===== src/Checks/LatencyCheck.antt =====
-- internal/checks/latency.go: the check that bans an upstream for slow methods. `lock` makes each
-- call of the check one step.
pub mod Breakers
use node_gateway.Base.{
  ℕ, ℤ, pos, leb_ℤ, String, Bool, true, false, not, List, [], ◌∷◌, Option, none, some, Map, lookup,
  insert, if◌then◌else◌,
}
use node_gateway.Config.{
  Duration, RoutingConfig, ErrorsConfig, LatencyConfig, default_latency_too_high_rate,
  default_max_latency,
}
use node_gateway.Checks.Breaker.{
  CircuitBreaker, new_circuit_breaker, is_open, get_detection_window, get_ban_window,
}
use node_gateway.Checks.Request.{RequestData}

pub record LatencyStats (S : Type 0) : Type 0 where
  pub circuit_breaker : S
  pub threshold : Duration

-- The constructor always sets the map.
pub record LatencyCheck (S : Type 0) : Type 0 where
  pub routing_config : RoutingConfig ErrorsConfig LatencyConfig
  pub method_latency_breaker : Map (LatencyStats S)
  pub is_check_enabled : Bool

unfoldable pub get_latency_threshold :
    Option (RoutingConfig ErrorsConfig LatencyConfig) → String → Duration
unfolding lookup
get_latency_threshold none method = default_max_latency
get_latency_threshold (some r) method = elim r.latency [
  | none ↦ default_max_latency
  | some l ↦ elim (lookup method l.method_latency_thresholds) [
    | some latency ↦ latency
    | none ↦ l.threshold
  ]
]

-- `latency >= threshold`
unfoldable pub is_high_latency : Duration → Duration → Bool
is_high_latency threshold latency = leb_ℤ threshold latency

module _ {S : Type 0} ⦃b : CircuitBreaker S⦄ where
  unfoldable pub new_latency_stats :
      RoutingConfig ErrorsConfig LatencyConfig → String → LatencyStats S
  unfolding get_latency_threshold new_circuit_breaker get_detection_window get_ban_window
  new_latency_stats r method = record {
    threshold = get_latency_threshold (some r) method;
    circuit_breaker =
        new_circuit_breaker default_latency_too_high_rate (get_detection_window (some r))
          (get_ban_window (some r));
  }

  unfoldable pub new_latency_checker : RoutingConfig ErrorsConfig LatencyConfig → LatencyCheck S
  new_latency_checker r = record {
    routing_config = r;
    method_latency_breaker = [];
    is_check_enabled = r.is_enabled;
  }

  unfoldable pub record_latency : ℕ → Duration → LatencyStats S → LatencyStats S
  unfolding is_high_latency
  record_latency now latency l = record l {
    circuit_breaker =
        if is_high_latency l.threshold latency
        then b.record_failure now l.circuit_breaker
        else b.record_success now l.circuit_breaker;
  }

  -- The breaker of the method, made on the first call, and the check that holds it.
  unfoldable pub get_latency_circuit_breaker :
      String → LatencyCheck S → LatencyStats S × LatencyCheck S
  unfolding lookup insert new_latency_stats
  get_latency_circuit_breaker method c = elim (lookup method c.method_latency_breaker) [
    | some stats ↦ (stats, c)
    | none ↦ (
      new_latency_stats c.routing_config method,
      record c {
        method_latency_breaker =
            insert method (new_latency_stats c.routing_config method) c.method_latency_breaker;
      },
    )
  ]

  unfoldable pub record_request : ℕ → RequestData → LatencyCheck S → Bool × LatencyCheck S
  unfolding get_latency_circuit_breaker record_latency is_high_latency insert
  record_request now d c =
      if c.is_check_enabled
      then (let (stats, c') = get_latency_circuit_breaker d.method c in
          (
            is_high_latency stats.threshold d.latency,
            record c' {
              method_latency_breaker =
                  insert d.method (record_latency now d.latency stats) c'.method_latency_breaker;
            },
          ))
      else (false, c)

  -- One round of the loop of IsPassing: whether the breaker of the method is open, and the map
  -- afterwards, since asking may close the breaker.
  unfoldable pub is_method_open : ℕ → String → Map (LatencyStats S) → Bool × Map (LatencyStats S)
  unfolding is_open lookup insert
  is_method_open now method m = elim (lookup method m) [
    | none ↦ (false, m)
    | some stats ↦
        let (open?, s) = is_open now stats.circuit_breaker in
        (open?, insert method (record stats { circuit_breaker = s }) m)
  ]

  unfoldable pub is_passing_loop :
      ℕ → List String → Map (LatencyStats S) → Bool × Map (LatencyStats S)
  unfolding is_method_open
  is_passing_loop now [] m = (true, m)
  is_passing_loop now (method ∷ methods) m =
      let (open?, m') = is_method_open now method m in
      let rest = is_passing_loop now methods m' in if open? then (false, m') else rest

  unfoldable pub is_passing : ℕ → List String → LatencyCheck S → Bool × LatencyCheck S
  unfolding is_passing_loop
  is_passing now methods c =
      if c.is_check_enabled
      then (let (passing, m) = is_passing_loop now methods c.method_latency_breaker in
          (passing, record c { method_latency_breaker = m }))
      else (true, c)
