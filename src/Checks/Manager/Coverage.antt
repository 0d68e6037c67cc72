-- ===== src/Checks/Manager/Coverage.antt =====
-- internal/checks/manager.go: once the checks are initialized no upstream of the configuration is
-- unknown, so that no round panics.
use node_gateway.Base.{
  String, ◌≡◌, refl, sym, true, List, [], ◌∷◌, ◌++◌, some, is_some, arith, lookup-insert, In, All,
  All-map, All-of-In, In-map, List-cases, map, subst, inl, inr, ◌⊎◌, ◌≢◌, eq_iff, Option-cases,
}
use node_gateway.Config.{UpstreamConfig, RoutingConfig, ErrorsConfig, LatencyConfig}
use node_gateway.Metadata.Store.{Op}
use node_gateway.Checks.Breaker.{CircuitBreaker}
use node_gateway.Checks.Manager.{
  UpstreamStatus, HealthCheckManager, Replies, get_upstream_status, set_upstream_status, run_checks,
  run_checks_on, run_periodic_checks, new_health_check_manager, new_upstream_status,
  initialize_checks_on, initialize_checks,
}

module _ {S : Type 0} where
  -- The manager has a status for the upstream.
  abbrev pub IsKnown : String → HealthCheckManager S → Type 0
  IsKnown id m = is_some (get_upstream_status id m) ≡ true

  set-IsKnown :
      (id j : String) (s : UpstreamStatus S) (m : HealthCheckManager S)
      → (j ≡ id) ⊎ IsKnown id m
      → IsKnown id (set_upstream_status j s m)
  unfolding get_upstream_status set_upstream_status
  set-IsKnown id j s m h = ground (arith, lookup-insert j id s m.upstream_id_to_status, eq_iff j id)

  -- A round over known upstreams does not panic, and forgets none.
  run_checks_on_total :
      (replies : String → Replies) (configs : List UpstreamConfig) (m : HealthCheckManager S)
      → All (λ (c : UpstreamConfig). IsKnown c.id m) configs
      → (m' : HealthCheckManager S) × (sent : List Op) × (run_checks_on replies configs m
          ≡ some (m', sent))
        × (m'.configs ≡ m.configs)
        × ((id : String) → IsKnown id m → IsKnown id m')
  unfolding run_checks_on
  run_checks_on_total replies [] m h = (m, [], refl, refl, λ id k. k)
  run_checks_on_total replies (c ∷ cs) m h = elim (Option-cases (get_upstream_status c.id m)) [
    | inl unknown ↦ absurd (ground arith)
    | inr (status, found) ↦
        let checked = run_checks (replies c.id) status in
        let m1 = set_upstream_status c.id checked.0 m in
        let keep = λ (id : String) (k : IsKnown id m). set-IsKnown id c.id checked.0 m (inr k) in
        let (m', sent, ran, same, kept) =
          run_checks_on_total replies cs m1
            (All-map (λ (d : UpstreamConfig) (k : IsKnown d.id m). keep d.id k) cs h.1) in
        (m', checked.1 ++ sent, rw found (rw ran), same, λ id k. kept id (keep id k))
  ]

  -- Rounds of checks: each is a round of runChecksOnce, so that the manager ends initialized.
  run_periodic_checks_total :
      (rounds : List (String → Replies)) (m : HealthCheckManager S)
      → All (λ (c : UpstreamConfig). IsKnown c.id m) m.configs
      → (m' : HealthCheckManager S) × (sent : List Op) × (run_periodic_checks rounds m
          ≡ some (m', sent))
        × ((m.is_initialized ≡ true) ⊎ (rounds ≢ []) → m'.is_initialized ≡ true)
        × All (λ (c : UpstreamConfig). IsKnown c.id m') m.configs
  unfolding run_periodic_checks
  run_periodic_checks_total [] m h =
      (m, [], refl, elim [ inl e ↦ e | inr ne ↦ absurd (ne refl) ], h)
  run_periodic_checks_total (replies ∷ rounds) m h =
      let (m1, sent, ran, same, kept) = run_checks_on_total replies m.configs m h in
      let ready = record m1 { is_initialized = true } in
      let h1 : All (λ (c : UpstreamConfig). IsKnown c.id ready) m.configs =
        All-map (λ (c : UpstreamConfig) (k : IsKnown c.id m). kept c.id k) m.configs h in
      let (m', sent', ran', started, kept') =
        run_periodic_checks_total rounds ready
          (subst (All (λ (c : UpstreamConfig). IsKnown c.id ready)) (sym same) h1) in
      (
        m',
        sent ++ sent',
        rw ran (rw ran'),
        λ _. started (inl refl),
        subst (All (λ (c : UpstreamConfig). IsKnown c.id m')) same kept',
      )

module _ {S : Type 0} ⦃b : CircuitBreaker S⦄ where
  initialize-IsKnown :
      (replies : String → Replies) (configs : List UpstreamConfig) (m : HealthCheckManager S)
      (id : String)
      → IsKnown id m ⊎ In id (map (λ (c : UpstreamConfig). c.id) configs)
      → IsKnown id (initialize_checks_on replies configs m).0
  unfolding initialize_checks_on
  initialize-IsKnown replies [] m id (inl k) = k
  initialize-IsKnown replies [] m id (inr none_left) = absurd none_left
  initialize-IsKnown replies (c ∷ cs) m id h =
      let status = (new_upstream_status (replies c.id) m.routing_config c).0 in
      initialize-IsKnown replies cs (set_upstream_status c.id status m) id (elim h [
        | inl k ↦ inl (set-IsKnown id c.id status m (inr k))
        | inr (inl e) ↦ inl (set-IsKnown id c.id status m (inl (sym e)))
        | inr (inr later) ↦ inr later
      ])

  initialize-configs :
      (replies : String → Replies) (configs : List UpstreamConfig) (m : HealthCheckManager S)
      → (initialize_checks_on replies configs m).0.configs ≡ m.configs
  unfolding initialize_checks_on
  initialize-configs replies [] m = refl
  initialize-configs replies (c ∷ cs) m = initialize-configs replies cs _

  -- Whatever the upstreams answer, StartHealthChecks never panics: the checks are made, any number
  -- of rounds runs, the manager is initialized after the first, and every upstream of the
  -- configuration has a status from then on.
  pub start_health_checks_total :
      (configs : List UpstreamConfig) (routing : RoutingConfig ErrorsConfig LatencyConfig)
      (first : String → Replies) (rounds : List (String → Replies))
      → let made = initialize_checks {S = S} first (new_health_check_manager configs routing) in
        (m : HealthCheckManager S) × (sent : List Op) × (run_periodic_checks rounds made.0
          ≡ some (m, sent))
        × ((rounds ≡ []) ⊎ (m.is_initialized ≡ true))
        × All (λ (c : UpstreamConfig). IsKnown c.id m) configs
  unfolding initialize_checks new_health_check_manager
  start_health_checks_total configs routing first rounds =
      let blank = new_health_check_manager {S = S} configs routing in
      let made = (initialize_checks_on first configs blank).0 in
      let same = initialize-configs first configs blank in
      let known : All (λ (c : UpstreamConfig). IsKnown c.id made) configs =
        All-of-In (λ (c : UpstreamConfig). IsKnown c.id made) configs
          (λ c m.
            initialize-IsKnown first configs blank c.id
              (inr (In-map (λ (d : UpstreamConfig). d.id) c configs m))) in
      let (m', sent, ran, started, kept) =
        run_periodic_checks_total rounds made
          (subst (All (λ (c : UpstreamConfig). IsKnown c.id made)) (sym same) known) in
      (
        m',
        sent,
        ran,
        elim (List-cases rounds) [
          | inl e ↦ inl e
          | inr (r, rs, e) ↦ inr (started (inr (λ bare. ground arith)))
        ],
        subst (All (λ (c : UpstreamConfig). IsKnown c.id m')) same kept,
      )
