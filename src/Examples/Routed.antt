-- ===== src/Examples/Routed.antt =====
-- Tests of internal/route.
use node_gateway.Base.{
  ℕ, pos, ◌+◌, ◌%◌, ◌≡◌, ◌≢◌, ◌⊎◌, inl, inr, refl, List, [], ◌∷◌, ◌++◌, map, reverse, none, some,
  arith, lookup, string_eq, int_eq, length, In,
}
use node_gateway.Config.{UpstreamConfig}
use node_gateway.Checks.Manager.{get_upstream_status}
use node_gateway.Route.World.{World, PriorityToUpstreamsMap}
use node_gateway.Route.Filter.{
  Filters, nil, cons, and_filter, has_enough_peers, is_at_max_height_for_group, apply,
}
use node_gateway.Route.Filter.View.{view, verdict}
use node_gateway.Route.Filter.Asking.{Yields}
use node_gateway.Route.Filter.Refinement.{apply-verdict}
use node_gateway.Route.Filtering.{filter_upstreams}
use node_gateway.Route.Filtering.Kept.{passing_by_priority, filter_upstreams-passing}
use node_gateway.Route.AlwaysRoute
use node_gateway.Route.AlwaysRoute.Known.{IsKnown}
use node_gateway.Route.AlwaysRoute.Relaxing.{IsRelaxed, route_next_request-IsRelaxed}
use node_gateway.Route.RoundRobin
use node_gateway.Route.RoundRobin.{at_priority}
use node_gateway.Route.RoundRobin.Choice.{priorities, IsBare, IsChoice, route_next_request-lowest}
use node_gateway.Route.RoundRobin.Fairness.{
  IsLowest, answer, counted, route_requests, route_requests-rotation,
}
use node_gateway.Route.Router.{
  removable_filters, wire_filters, group_upstreams_by_priority, priority_of, append_at, group_from,
}
use node_gateway.Route.Router.Grouping.{with_priority, at_priority-group_upstreams_by_priority}
use node_gateway.Route.Router.Delivery.{route_next_request-delivers}
use node_gateway.Examples.Data.{
  breaker, breaker-ClosesForGood, upstream, upstreams, groups, world, eth_call,
}

abbrev filters : Filters
filters =
    wire_filters (and_filter (cons (has_enough_peers 3) (cons is_at_max_height_for_group nil)))

abbrev by_priority : PriorityToUpstreamsMap
by_priority =
    (pos 1, upstream "geth" "fallback" ∷ [])
    ∷ (pos 0, upstream "erigon" "primary" ∷ upstream "geth" "primary" ∷ [])
    ∷ []

-- Each upstream joins the list of its group's priority.
grouped :
    group_upstreams_by_priority upstreams groups
    ≡ (pos 1, upstream "geth" "fallback" ∷ []) ∷ (pos 0, upstream "erigon" "primary" ∷ []) ∷ []
unfolding group_upstreams_by_priority group_from append_at priority_of
grouped = refl

upstreams-IsKnown : IsKnown (view 10 world) (group_upstreams_by_priority upstreams groups)
unfolding group_upstreams_by_priority group_from append_at priority_of get_upstream_status lookup
upstreams-IsKnown = (((_, refl), tt), (((_, refl), tt), tt))

not_bare : {A : Type 0} (x : A) (xs : List A) → (x ∷ xs) ≢ []
not_bare x xs e = ground arith

route_next_request-delivers_example :
    (u : UpstreamConfig) × In u upstreams
    × (w' : World ℕ) × (AlwaysRoute.route_next_request 10 filters removable_filters
          RoundRobin.route_next_request
          (group_upstreams_by_priority upstreams groups)
          eth_call
          world
        ≡ some (some u.id, w'))
    × (w'.counter ≡ world.counter + 1)
route_next_request-delivers_example =
    route_next_request-delivers 10 breaker-ClosesForGood filters removable_filters upstreams groups
      eth_call world upstreams-IsKnown (not_bare _ _) (omega arith)

route_next_request-IsRelaxed_example :
    (chosen : PriorityToUpstreamsMap) × (w' : World ℕ) × (AlwaysRoute.route_next_request 10 filters
        removable_filters RoundRobin.route_next_request
        (group_upstreams_by_priority upstreams groups)
        eth_call
        world
      ≡ RoundRobin.route_next_request chosen eth_call w')
    × (view 10 w' ≡ view 10 world)
    × IsRelaxed
        (view 10 world)
        eth_call
        (group_upstreams_by_priority upstreams groups)
        (reverse removable_filters)
        filters
        chosen
route_next_request-IsRelaxed_example =
    route_next_request-IsRelaxed 10 breaker-ClosesForGood filters removable_filters
      RoundRobin.route_next_request (group_upstreams_by_priority upstreams groups) eth_call world
      upstreams-IsKnown

apply-verdict_example :
    Yields 10
      (view 10 world)
      (apply 10 eth_call (upstream "geth" "fallback") 2 (and_filter filters) world)
      (verdict (view 10 world) eth_call (upstream "geth" "fallback") 2 (and_filter filters))
apply-verdict_example =
    apply-verdict 10 breaker-ClosesForGood eth_call (upstream "geth" "fallback") 2
      (and_filter filters) world

filter_upstreams-passing_example :
    Yields 10
      (view 10 world)
      (filter_upstreams 10 filters eth_call by_priority world)
      (passing_by_priority (view 10 world) filters eth_call by_priority)
filter_upstreams-passing_example =
    filter_upstreams-passing 10 breaker-ClosesForGood (view 10 world) filters eth_call by_priority
      world refl

route_next_request-lowest_example :
    (IsBare by_priority (priorities by_priority)
      × (RoundRobin.route_next_request by_priority eth_call world ≡ some (none, world)))
    ⊎ ((u : UpstreamConfig) × IsChoice by_priority 5 (priorities by_priority) u
        × (RoundRobin.route_next_request by_priority eth_call world
            ≡ some (some u.id, record world { counter = 5 })))
route_next_request-lowest_example =
    route_next_request-lowest by_priority eth_call world (omega arith)

lowest : IsLowest by_priority (pos 0)
unfolding at_priority
lowest = record {
  is_listed = inr (inl refl);
  is_used = not_bare _ _;
  is_first = (λ _. omega arith, (λ _. omega arith, tt));
}

route_requests-rotation_example :
    (us : List UpstreamConfig) × (vs : List UpstreamConfig) × (at_priority (pos 0) by_priority
      ≡ us ++ vs)
    × (length us ≡ (world.counter + 1) % length (at_priority (pos 0) by_priority))
    × (route_requests (length (at_priority (pos 0) by_priority)) by_priority eth_call world
        ≡ some (map answer (vs ++ us), counted (length (at_priority (pos 0) by_priority)) world))
unfolding at_priority
route_requests-rotation_example =
    route_requests-rotation by_priority eth_call (pos 0) lowest world (omega arith)

at_priority-group_upstreams_by_priority_example :
    at_priority (pos 0) (group_upstreams_by_priority upstreams groups)
    ≡ with_priority (pos 0) groups upstreams
at_priority-group_upstreams_by_priority_example =
    at_priority-group_upstreams_by_priority (pos 0) upstreams groups
