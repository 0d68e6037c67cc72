-- ===== src/Server/Wiring/Starting.antt =====
-- The start of all chains, RPCServer.Start and RouterCollection.Start, and what `/health` then says.
use node_gateway.Base.{
  pos, String, ◌≡◌, ◌≢◌, ◌⊎◌, inl, inr, refl, ap, ◌∙◌, Bool, true, List, [], ◌∷◌, ◌++◌, map, Option,
  some, ◌>>=◌, All, if_true, if◌then◌else◌,
}
use node_gateway.Config.{ErrorsConfig, LatencyConfig, SingleChainConfig}
use node_gateway.Metadata.Store.{Op, run_ops}
use node_gateway.Checks.Breaker.{CircuitBreaker}
use node_gateway.Checks.Manager.{
  HealthCheckManager, Replies, initialize_checks, run_periodic_checks, new_health_check_manager,
}
use node_gateway.Checks.Manager.Coverage.{start_health_checks_total}
use node_gateway.Route.World.{World}
use node_gateway.Server.{serve_health, is_initialized, respond_raw}
use node_gateway.Server.Wiring.{new_world}

-- What the clients of a chain answer at the start and in each round since.
pub record Script : Type 0 where
  pub first : String → Replies
  pub rounds : List (String → Replies)

abbrev Chain : Type 0
Chain = SingleChainConfig ErrorsConfig LatencyConfig

module _ {S : Type 0} ⦃b : CircuitBreaker S⦄ where
  -- Start of the router: the store takes what the checks send.
  unfoldable pub start_router : Script → World S → Option (World S)
  unfolding initialize_checks run_periodic_checks run_ops
  start_router script w =
      let (m, sent) = initialize_checks script.first w.manager in
      run_periodic_checks script.rounds m >>= λ (x : HealthCheckManager S × List Op).
      some (record w { manager = x.0; store = run_ops (sent ++ x.1) w.store })

  -- The loop over the routers. The checks of each run in a goroutine of their own.
  unfoldable pub start_all : (World S → Script) → List (World S) → Option (List (World S))
  unfolding start_router
  start_all script [] = some []
  start_all script (w ∷ ws) = start_router (script w) w >>= λ (w' : World S).
      start_all script ws >>= λ (ws' : List (World S)). some (w' ∷ ws')

  start_router-new :
      (s : Script) (c : Chain)
      → s.rounds ≢ []
      → (w : World S) × (start_router s (new_world c) ≡ some w) × (w.manager.is_initialized ≡ true)
  unfolding start_router new_world
  start_router-new s c some_round =
      let (m, sent, ran, done, known) =
        start_health_checks_total {S = S} c.upstreams c.routing s.first s.rounds in
      let made =
        initialize_checks s.first (new_health_check_manager {S = S} c.upstreams c.routing) in
      (
        record (new_world {S = S} c) {
          manager = m;
          store = run_ops (made.1 ++ sent) (new_world {S = S} c).store;
        },
        rw ran refl,
        elim done [ inl none_run ↦ absurd (some_round none_run) | inr e ↦ e ],
      )

  -- Where every chain runs at least one round of checks after its start, all routers of a wired
  -- configuration start without a panic, and the health handler then answers 200; before the start
  -- it answers 503, if there is a chain.
  pub start_all-serve_health :
      (script : World S → Script) (cs : List Chain)
      → All (λ c. (script (new_world c)).rounds ≢ []) cs
      → (ws : List (World S)) × (start_all script (map (λ (c : Chain). new_world c) cs) ≡ some ws)
        × (serve_health (map (λ (w : World S). w.manager) ws) ≡ respond_raw "OK" (pos 200))
        × ((cs ≡ [])
            ⊎ (serve_health (map (λ (w : World S). w.manager) (map (λ (c : Chain). new_world c) cs))
                ≡ respond_raw "Starting up" (pos 503)))
  unfolding start_all serve_health is_initialized new_world
  start_all-serve_health script [] h = ([], refl, refl, inl refl)
  start_all-serve_health script (c ∷ cs) (h, hs) =
      let (w, e, done) = start_router-new (script (new_world c)) c h in
      let (ws, es, healthy, _) = start_all-serve_health script cs hs in
      (
        w ∷ ws,
        rw (start_all, e, es) refl,
        ap
              (λ (t : Bool).
                if t then respond_raw "OK" (pos 200) else respond_raw "Starting up" (pos 503))
              (if_true _ _ done)
            ∙ healthy,
        inr refl,
      )
