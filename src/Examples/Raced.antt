-- ===== src/Examples/Raced.antt =====
-- Tests of what happens at once: requests in internal/route/routing_strategy.go, the checks of a round,
-- and a request before the checks are made.
use mathlib.Core.Bool.{true≢false}
use node_gateway.Base.{
  String, ◌≢◌, sym, inl, inr, ◌++◌, string_eq, eq_iff, ℕ, ◌+◌, ◌≤◌, ◌≡◌, refl, List, [], ◌∷◌, map,
  none, some, All, length, put_at, lookup, arith,
}
use node_gateway.Config.{UpstreamConfig}
use node_gateway.Checks.Manager.{get_upstream_status, new_health_check_manager}
use node_gateway.Route.RoundRobin.{index_of}
use node_gateway.Route.RoundRobin.Race.{Request, ready, chose, turn, race, IsFair, race-IsFair}
use node_gateway.Checks.Manager.{HealthCheckManager, run_checks_on}
use node_gateway.Checks.Manager.Orders.{run_checks_on-orders, initialize_checks_on-IsOwn}
use node_gateway.Checks.Manager.Rounds.{is_listed, IsOwn}
use node_gateway.Checks.Manager.{initialize_checks_on}
use node_gateway.Metadata.Store.{Op, new_chain_metadata_store, get_block_height_status, run_ops}
use node_gateway.Examples.Data.{replies, breaker, routing, upstream, upstreams}

abbrev two : List (List UpstreamConfig)
two = upstreams ∷ upstreams ∷ []

race-IsFair_example :
    (rs : List Request) × (d : ℕ) × (race (0 ∷ 1 ∷ 0 ∷ 1 ∷ []) (map ready two) 0 ≡ some (rs, d))
    × (d ≤ 0 + length two)
    × All (IsFair 0 d) rs
race-IsFair_example = race-IsFair (0 ∷ 1 ∷ 0 ∷ 1 ∷ []) two 0 (omega arith) (λ e. cc, (λ e. cc, tt))

-- One after the other, two requests go to two upstreams.
in_turn_test :
    race (0 ∷ 0 ∷ 1 ∷ 1 ∷ []) (map ready two) 0
    ≡ some (
      chose upstreams (upstream "erigon" "primary")
          ∷ chose upstreams (upstream "geth" "fallback")
          ∷ [],
      2,
    )
unfolding race turn index_of put_at
in_turn_test = refl

-- Where both add before they read, both go to the same one.
same_choice_test :
    race (0 ∷ 1 ∷ 0 ∷ 1 ∷ []) (map ready two) 0
    ≡ some (
      chose upstreams (upstream "geth" "fallback")
          ∷ chose upstreams (upstream "geth" "fallback")
          ∷ [],
      2,
    )
unfolding race turn index_of put_at
same_choice_test = refl

-- Before the goroutine of StartHealthChecks has made the checks, GetUpstreamStatus panics.
early_request_test :
    get_upstream_status "geth" (new_health_check_manager {S = ℕ} upstreams routing) ≡ none
unfolding get_upstream_status new_health_check_manager lookup
early_request_test = refl

abbrev reversed : List UpstreamConfig
reversed = upstream "erigon" "primary" ∷ upstream "geth" "fallback" ∷ []

same_members : (id : String) → is_listed id upstreams ≡ is_listed id reversed
same_members id = ground arith

abbrev made : HealthCheckManager ℕ
made =
    (initialize_checks_on (λ _. replies) upstreams (new_health_check_manager upstreams routing)).0

apart : ◌≢◌ {A = String} "geth" "erigon"
apart e = true≢false (sym ((eq_iff "geth" "erigon").1 e))

run_checks_on-orders_example :
    (m1 : HealthCheckManager ℕ) × (sent1 : List Op) × (m2 : HealthCheckManager ℕ) × (sent2 : List
      Op)
    × (run_checks_on (λ _. replies) upstreams made ≡ some (m1, sent1))
    × (run_checks_on (λ _. replies) reversed made ≡ some (m2, sent2))
    × ((id : String) → get_upstream_status id m1 ≡ get_upstream_status id m2)
    × ((id : String) → IsOwn id made → IsOwn id m1)
    × ((g u : String) (earlier : List Op)
        → get_block_height_status g u (run_ops (earlier ++ sent1) new_chain_metadata_store)
          ≡ get_block_height_status g u (run_ops (earlier ++ sent2) new_chain_metadata_store))
run_checks_on-orders_example =
    run_checks_on-orders (λ _. replies) upstreams reversed made
      ((elim [ inl e ↦ apart e | inr f ↦ absurd f ]), (λ f. f, tt))
      ((elim [ inl e ↦ apart (sym e) | inr f ↦ absurd f ]), (λ f. f, tt)) same_members
      (λ id listed.
        initialize_checks_on-IsOwn (λ _. replies) upstreams
          (new_health_check_manager upstreams routing) id (inr listed))
