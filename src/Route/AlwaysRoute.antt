-- ===== src/Route/AlwaysRoute.antt =====
-- internal/route/always_route_filtering_strategy.go
pub mod Known
pub mod Relaxing
use node_gateway.Base.{
  ℕ, ℤ, String, Bool, true, false, List, [], ◌∷◌, Option, is_empty, if◌then◌else◌, reverse, ◌==◌,
  string_eq,
}
use node_gateway.Config.{UpstreamConfig}
use node_gateway.Metadata.Parser.{RequestMetadata}
use node_gateway.Checks.Breaker.{CircuitBreaker}
use node_gateway.Route.World.{World, M, ◌>>=◌, return, PriorityToUpstreamsMap}
use node_gateway.Route.Filter.{
  NodeFilter, Filters, nil, cons, and_filter, has_enough_peers, is_error_rate_acceptable,
  is_latency_acceptable, is_close_to_global_max_height, is_at_max_height_for_group,
  are_methods_allowed,
}
use node_gateway.Route.Filtering.{RoutingStrategy, filter_upstreams}

-- GetFilterTypeName of internal/route/node_filter.go: the name of the filter's Go type.
unfoldable pub filter_type_name : NodeFilter → String
filter_type_name (and_filter fs) = "AndFilter"
filter_type_name (has_enough_peers minimum) = "HasEnoughPeers"
filter_type_name is_error_rate_acceptable = "IsErrorRateAcceptable"
filter_type_name is_latency_acceptable = "IsLatencyAcceptable"
filter_type_name (is_close_to_global_max_height behind) = "IsCloseToGlobalMaxHeight"
filter_type_name is_at_max_height_for_group = "IsAtMaxHeightForGroup"
filter_type_name are_methods_allowed = "AreMethodsAllowed"

unfoldable pub remove_filters : Filters → String → Filters
unfolding filter_type_name
remove_filters nil removed = nil
remove_filters (cons f fs) removed =
    if filter_type_name f == removed
    then remove_filters fs removed
    else cons f (remove_filters fs removed)

module _ {S : Type 0} ⦃b : CircuitBreaker S⦄ (now : ℕ) (backing : RoutingStrategy S)
    (upstreams : PriorityToUpstreamsMap) (request : RequestMetadata) where
  -- The loop. The filters still to remove stand with the last one first.
  unfoldable pub attempt : List String → Filters → M S (Option String)
  unfolding filter_upstreams remove_filters
  attempt _ nil = backing upstreams request
  attempt [] (cons f fs) = do
    kept ← filter_upstreams now (cons f fs) request upstreams
    if is_empty kept then backing upstreams request else backing kept request
  attempt (removed ∷ removable) (cons f fs) = do
    kept ← filter_upstreams now (cons f fs) request upstreams
    if is_empty kept
        then attempt removable (remove_filters (cons f fs) removed)
        else backing kept request

module _ {S : Type 0} ⦃b : CircuitBreaker S⦄ (now : ℕ) where
  unfoldable pub route_next_request : Filters → List String → RoutingStrategy S → RoutingStrategy S
  unfolding attempt
  route_next_request filters removable backing upstreams request =
      attempt now backing upstreams request (reverse removable) filters
