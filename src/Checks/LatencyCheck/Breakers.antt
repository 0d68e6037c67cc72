-- ===== src/Checks/LatencyCheck/Breakers.antt =====
-- The breakers of the methods in internal/checks/latency.go.
use node_gateway.Base.{
  ℕ, pos, ltb_ℤ, String, ◌≡◌, refl, sym, ap, ◌∙◌, fun_ext, Bool, true, false, not, List, [], ◌∷◌,
  Option, none, some, arith, Map, lookup, lookup-insert, value_or, ◌==◌, string_eq, eq_iff,
  if◌then◌else◌, if_true, if_false, all, Option-cases, Bool-cases, inl, inr,
}
use node_gateway.Config.{Duration, RoutingConfig, ErrorsConfig, LatencyConfig}
use node_gateway.Checks.Breaker.{CircuitBreaker, ClosesForGood, is_open}
use node_gateway.Checks.Request.{RequestData}
use node_gateway.Checks.LatencyCheck.{
  LatencyStats, LatencyCheck, get_latency_threshold, is_high_latency, new_latency_stats,
  record_latency, get_latency_circuit_breaker, record_request, is_method_open, is_passing_loop,
  is_passing,
}

module _ {S : Type 0} ⦃b : CircuitBreaker S⦄ where
  -- The breaker that a method has, or would be given.
  abbrev pub stats_of : String → LatencyCheck S → LatencyStats S
  stats_of method c =
      value_or (new_latency_stats c.routing_config method) (lookup method c.method_latency_breaker)

  get-stats_of :
      (method : String) (c : LatencyCheck S)
      → (get_latency_circuit_breaker method c).0 ≡ stats_of method c
  unfolding get_latency_circuit_breaker
  get-stats_of method c = elim (Option-cases (lookup method c.method_latency_breaker)) [
    | inl e ↦ rw (e, get_latency_circuit_breaker)
    | inr (s, e) ↦ rw (e, get_latency_circuit_breaker)
  ]

  others-get :
      (method j : String) (c : LatencyCheck S)
      → (method == j) ≡ false
      → lookup j (get_latency_circuit_breaker method c).1.method_latency_breaker
        ≡ lookup j c.method_latency_breaker
  unfolding get_latency_circuit_breaker
  others-get method j c other = elim (Option-cases (lookup method c.method_latency_breaker)) [
    | inl e ↦
        rw (e, get_latency_circuit_breaker)
          (lookup-insert method j (new_latency_stats c.routing_config method)
              c.method_latency_breaker
            ∙ if_false _ _ other)
    | inr (s, e) ↦ rw (e, get_latency_circuit_breaker)
  ]

  -- An enabled check records the latency with the breaker of the method, which it makes first if it
  -- is missing, and leaves the breakers of the other methods alone.
  pub lookup-record_request :
      (now : ℕ) (d : RequestData) (j : String) (c : LatencyCheck S)
      → c.is_check_enabled ≡ true
      → lookup j (record_request now d c).1.method_latency_breaker ≡ (
          if d.method == j
          then some (record_latency now d.latency (stats_of d.method c))
          else lookup j c.method_latency_breaker)
  unfolding record_request
  lookup-record_request now d j c enabled =
      ap (λ (r : Bool × LatencyCheck S). lookup j r.1.method_latency_breaker) (if_true _ _ enabled)
      ∙ (lookup-insert d.method j
            (record_latency now d.latency (get_latency_circuit_breaker d.method c).0)
            (get_latency_circuit_breaker d.method c).1.method_latency_breaker
          ∙ elim (Bool-cases (d.method == j)) [
            | inl same ↦ if_true _ _ same ∙ (rw (get-stats_of d.method c) (sym (if_true _ _ same)))
            | inr other ↦
                if_false _ _ other ∙ (others-get d.method j c other ∙ sym (if_false _ _ other))
          ])

  -- Every breaker has the threshold that the configuration gives its method.
  abbrev pub HasConfigThresholds :
      RoutingConfig ErrorsConfig LatencyConfig → Map (LatencyStats S) → Type 0
  HasConfigThresholds r m =
      (method : String) (l : LatencyStats S)
      → lookup method m ≡ some l
      → l.threshold ≡ get_latency_threshold (some r) method

  -- `open_in now m method`: the method has a breaker, and that is open.
  abbrev pub open_in : ℕ → Map (LatencyStats S) → String → Bool
  open_in now m method = elim (lookup method m) [
    | none ↦ false
    | some l ↦ ltb_ℤ (pos 0) (b.remaining_delay now l.circuit_breaker)
  ]

  open-is_method_open :
      (now : ℕ) (method : String) (m : Map (LatencyStats S))
      → (is_method_open now method m).0 ≡ open_in now m method
  unfolding is_method_open
  open-is_method_open now method m = ground arith

  module _ (closes : ClosesForGood b) where
    open_in-is_method_open :
        (now : ℕ) (method j : String) (m : Map (LatencyStats S))
        → open_in now (is_method_open now method m).1 j ≡ open_in now m j
    unfolding is_method_open
    open_in-is_method_open now method j m = elim (Option-cases (lookup method m)) [
      | inl e ↦ rw (e, is_method_open)
      | inr (l, e) ↦ ground (
        arith,
        eq_iff method j,
        closes now l.circuit_breaker,
        lookup-insert method j (record l { circuit_breaker = (is_open now l.circuit_breaker).1 }) m,
      )
    ]

    pub open_in-loop :
        (now : ℕ) (j : String) (methods : List String) (m : Map (LatencyStats S))
        → open_in now (is_passing_loop now methods m).1 j ≡ open_in now m j
    unfolding is_passing_loop
    open_in-loop now j [] m = refl
    open_in-loop now j (method ∷ methods) m =
        let round = open_in-is_method_open now method j m in
        elim (Bool-cases (is_method_open now method m).0) [
          | inl stop ↦
              ap (λ (r : Bool × Map (LatencyStats S)). open_in now r.1 j) (if_true _ _ stop) ∙ round
          | inr go ↦
              ap (λ (r : Bool × Map (LatencyStats S)). open_in now r.1 j) (if_false _ _ go)
              ∙ (open_in-loop now j methods (is_method_open now method m).1 ∙ round)
        ]

    answer-loop :
        (now : ℕ) (methods : List String) (m : Map (LatencyStats S))
        → (is_passing_loop now methods m).0 ≡ all (λ j. not (open_in now m j)) methods
    unfolding is_passing_loop
    answer-loop now [] m = refl
    answer-loop now (method ∷ methods) m =
        let asked = open-is_method_open now method m in
        elim (Bool-cases (is_method_open now method m).0) [
          | inl stop ↦
              ap (λ (r : Bool × Map (LatencyStats S)). r.0) (if_true _ _ stop)
              ∙ rw (← asked) (rw stop)
          | inr go ↦
              ap (λ (r : Bool × Map (LatencyStats S)). r.0) (if_false _ _ go)
              ∙ (answer-loop now methods (is_method_open now method m).1
                  ∙ (ap (λ (f : String → Bool). all f methods)
                        (fun_ext (λ j. ap not (open_in-is_method_open now method j m)))
                      ∙ rw (← asked) (rw go)))
        ]

    -- Where a breaker that is closed stays closed, an enabled check passes exactly when no method
    -- of the request has an open breaker, and asking changes no breaker's answer at that time.
    pub is_passing-all :
        (now : ℕ) (methods : List String) (c : LatencyCheck S)
        → c.is_check_enabled ≡ true
        → ((is_passing now methods c).0
            ≡ all (λ j. not (open_in now c.method_latency_breaker j)) methods)
          × ((j : String)
              → open_in now (is_passing now methods c).1.method_latency_breaker j
                ≡ open_in now c.method_latency_breaker j)
    unfolding is_passing
    is_passing-all now methods c enabled = (
      ap (λ (r : Bool × LatencyCheck S). r.0) (if_true _ _ enabled)
          ∙ answer-loop now methods c.method_latency_breaker,
      λ j.
          ap (λ (r : Bool × LatencyCheck S). open_in now r.1.method_latency_breaker j)
            (if_true _ _ enabled)
          ∙ open_in-loop now j methods c.method_latency_breaker,
    )

  threshold-record_latency :
      (now : ℕ) (latency : Duration) (l l' : LatencyStats S)
      → ◌≡◌ {A = Option (LatencyStats S)} (some (record_latency now latency l)) (some l')
      → l'.threshold ≡ l.threshold
  unfolding record_latency
  threshold-record_latency now latency l l' e = ground arith

  config-stats_of :
      (method : String) (c : LatencyCheck S)
      → HasConfigThresholds c.routing_config c.method_latency_breaker
      → (stats_of method c).threshold ≡ get_latency_threshold (some c.routing_config) method
  unfolding new_latency_stats
  config-stats_of method c h = elim (Option-cases (lookup method c.method_latency_breaker)) [
    | inl e ↦ rw e
    | inr (l, e) ↦ rw e (h method l e)
  ]

  -- Where every breaker has the threshold that the configuration gives its method, an enabled check
  -- reports a request as slow exactly when its latency reaches the configured threshold, and the
  -- breakers keep that property.
  pub record_request-threshold :
      (now : ℕ) (d : RequestData) (c : LatencyCheck S)
      → c.is_check_enabled ≡ true
      → HasConfigThresholds c.routing_config c.method_latency_breaker
      → ((record_request now d c).0
          ≡ is_high_latency (get_latency_threshold (some c.routing_config) d.method) d.latency)
        × HasConfigThresholds c.routing_config (record_request now d c).1.method_latency_breaker
  record_request-threshold now d c enabled h = (flag, kept)
    where
      flag :
          (record_request now d c).0
          ≡ is_high_latency (get_latency_threshold (some c.routing_config) d.method) d.latency
      flag =
          unfold record_request in
          (ap (λ (r : Bool × LatencyCheck S). r.0) (if_true _ _ enabled)
            ∙ ap (λ (l : LatencyStats S). is_high_latency l.threshold d.latency)
                (get-stats_of d.method c)
            ∙ ap (λ t. is_high_latency t d.latency) (config-stats_of d.method c h))

      kept : HasConfigThresholds c.routing_config (record_request now d c).1.method_latency_breaker
      kept j l e = elim (Bool-cases (d.method == j)) [
        | inl same ↦
            let told = sym (if_true _ _ same) ∙ sym (lookup-record_request now d j c enabled) ∙ e in
            threshold-record_latency now d.latency (stats_of d.method c) l told
            ∙ (config-stats_of d.method c h
                ∙ ap (get_latency_threshold (some c.routing_config)) ((eq_iff d.method j).0 same))
        | inr other ↦
            h j l (sym (if_false _ _ other) ∙ sym (lookup-record_request now d j c enabled) ∙ e)
      ]
