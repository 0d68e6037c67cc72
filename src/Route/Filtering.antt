-- ===== src/Route/Filtering.antt =====
-- internal/route/filtering_strategy.go
pub mod Kept
use node_gateway.Base.{
  ℕ, ℤ, String, Bool, true, false, List, [], ◌∷◌, Option, is_empty, if◌then◌else◌, length,
}
use node_gateway.Config.{UpstreamConfig}
use node_gateway.Metadata.Parser.{RequestMetadata}
use node_gateway.Checks.Breaker.{CircuitBreaker}
use node_gateway.Route.World.{World, M, ◌>>=◌, return, PriorityToUpstreamsMap}
use node_gateway.Route.Filter.{NodeFilter, Filters, nil, cons, and_filter, apply}

-- RoutingStrategy of internal/route/routing_strategy.go: the ID of the upstream, or `none` for the
-- error that there is no healthy one.
abbrev pub RoutingStrategy : Type 0 → Type 0
RoutingStrategy S = PriorityToUpstreamsMap → RequestMetadata → M S (Option String)

module _ {S : Type 0} ⦃b : CircuitBreaker S⦄ (now : ℕ) where
  -- The loop over the upstreams of one priority.
  unfoldable pub keep_passing :
      Filters → RequestMetadata → ℕ → List UpstreamConfig → M S (List UpstreamConfig)
  unfolding apply
  keep_passing filters request num_upstreams [] = return []
  keep_passing filters request num_upstreams (u ∷ us) = do
    ok ← apply now request u num_upstreams (and_filter filters)
    rest ← keep_passing filters request num_upstreams us
    return (if ok then u ∷ rest else rest)

  -- The loop over the priorities: one that keeps no upstream has no entry in the result.
  unfoldable pub filter_upstreams :
      Filters → RequestMetadata → PriorityToUpstreamsMap → M S PriorityToUpstreamsMap
  unfolding keep_passing
  filter_upstreams filters request [] = return []
  filter_upstreams filters request ((priority, us) ∷ entries) = do
    kept ← keep_passing filters request (length us) us
    rest ← filter_upstreams filters request entries
    return (if is_empty kept then rest else (priority, kept) ∷ rest)

  unfoldable pub route_next_request : NodeFilter → RoutingStrategy S → RoutingStrategy S
  unfolding filter_upstreams
  route_next_request node_filter backing upstreams request = do
    filtered ← filter_upstreams (cons node_filter nil) request upstreams
    backing filtered request
