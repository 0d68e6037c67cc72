-- ===== src/Route/Router.antt =====
-- internal/route/router.go, and which filters and strategy internal/server/object_graph.go gives it.
pub mod Grouping
pub mod Serving
pub mod Delivery
use node_gateway.Base.{
  ℕ, ℤ, pos, negsuc, ◌-◌, ◌%◌, ◌^◌, suc, String, Bool, true, false, List, [], ◌∷◌, ◌++◌, Option,
  none, some, ◌==◌, string_eq, int_eq, if◌then◌else◌, map, value_or,
}
use node_gateway.Config.{
  Duration, UpstreamConfig, GroupConfig, ChainCacheConfig, RoutingConfig, ErrorsConfig,
  LatencyConfig,
}
use node_gateway.Errors.{RouteError, no_healthy_upstreams, error_text}
use node_gateway.Jsonrpc.{RequestBody, ResponseBody, get_method}
use node_gateway.Jsonrpc.Codec.{Codec}
use node_gateway.Cache.{CacheRead, CacheWrite}
use node_gateway.Metadata.Parser.{RequestMetadata, parse}
use node_gateway.Checks.Breaker.{CircuitBreaker}
use node_gateway.Checks.Request.{RequestData}
use node_gateway.Checks.PeerCheck.{minimum_peer_count}
use node_gateway.Checks.Manager
use node_gateway.Route.World.{World, M, ◌>>=◌, return, PriorityToUpstreamsMap}
use node_gateway.Route.Filter.{
  NodeFilter, Filters, nil, cons, and_filter, has_enough_peers, is_error_rate_acceptable,
  is_latency_acceptable, is_close_to_global_max_height, is_at_max_height_for_group,
  are_methods_allowed,
}
use node_gateway.Route.Filtering
use node_gateway.Route.Filtering.{RoutingStrategy}
use node_gateway.Route.AlwaysRoute
use node_gateway.Route.RoundRobin
use node_gateway.Route.Executor.{HttpReply, Answer, build_and_route}

-- The priority of the first group with the ID, 0 without one.
unfoldable pub priority_of : List GroupConfig → String → ℤ
priority_of [] group_id = pos 0
priority_of (g ∷ gs) group_id = if g.id == group_id then g.priority else priority_of gs group_id

-- `m[priority] = append(m[priority], upstream)`
unfoldable pub append_at : ℤ → UpstreamConfig → PriorityToUpstreamsMap → PriorityToUpstreamsMap
append_at p u [] = (p, u ∷ []) ∷ []
append_at p u ((q, us) ∷ m) = if q == p then (q, us ++ u ∷ []) ∷ m else (q, us) ∷ append_at p u m

unfoldable pub group_from :
    List GroupConfig → PriorityToUpstreamsMap → List UpstreamConfig → PriorityToUpstreamsMap
unfolding append_at priority_of
group_from groups m [] = m
group_from groups m (u ∷ us) = group_from groups (append_at (priority_of groups u.group_id) u m) us

unfoldable pub group_upstreams_by_priority :
    List UpstreamConfig → List GroupConfig → PriorityToUpstreamsMap
unfolding group_from
group_upstreams_by_priority upstreams groups = group_from groups [] upstreams

-- CreateSingleNodeFilter of internal/route/node_filter.go: `none` is a panic.
abbrev pub default_max_blocks_behind : ℤ
default_max_blocks_behind = pos 10

-- `uint64(n)` of an int
abbrev pub uint64_of : ℤ → ℕ
uint64_of (pos n) = n % 2 ^ 64
uint64_of (negsuc n) = (2 ^ 64 - suc n % 2 ^ 64) % 2 ^ 64

abbrev pub max_blocks_behind_of : ℤ → ℤ
max_blocks_behind_of n = if n == pos 0 then default_max_blocks_behind else n

unfoldable pub create_single_node_filter :
    String → RoutingConfig ErrorsConfig LatencyConfig → Option NodeFilter
create_single_node_filter name r =
    if name == "healthy"
    then some (and_filter (cons (has_enough_peers minimum_peer_count) nil))
    else if name == "nearGlobalMaxHeight"
    then some (is_close_to_global_max_height (uint64_of (max_blocks_behind_of r.max_blocks_behind)))
    else if name == "maxHeightForGroup"
    then some is_at_max_height_for_group
    else if name == "methodsAllowed"
    then some are_methods_allowed
    else none

unfoldable pub create_filters :
    List String → RoutingConfig ErrorsConfig LatencyConfig → Option Filters
unfolding create_single_node_filter
create_filters [] r = some nil
create_filters (name ∷ names) r = elim (create_single_node_filter name r) [
  | none ↦ none
  | some f ↦ elim (create_filters names r) [ none ↦ none | some fs ↦ some (cons f fs) ]
]

unfoldable pub create_node_filter :
    List String → RoutingConfig ErrorsConfig LatencyConfig → Option NodeFilter
unfolding create_filters
create_node_filter names r = elim (create_filters names r) [
  | none ↦ none
  | some fs ↦ some (and_filter fs)
]

abbrev pub enabled_node_filters : List String
enabled_node_filters =
    "healthy" ∷ "maxHeightForGroup" ∷ "methodsAllowed" ∷ "nearGlobalMaxHeight" ∷ []

abbrev pub removable_filters : List String
removable_filters = "IsErrorRateAcceptable" ∷ "IsLatencyAcceptable" ∷ []

unfoldable pub wire_filters : NodeFilter → Filters
wire_filters f = cons f (cons is_error_rate_acceptable (cons is_latency_acceptable nil))

-- The strategy of one chain.
unfoldable pub wire_strategy :
    {S : Type 0} ⦃b : CircuitBreaker S⦄
    → ℕ
    → RoutingConfig ErrorsConfig LatencyConfig
    → Option (RoutingStrategy S)
unfolding create_node_filter wire_filters
wire_strategy now r = elim (create_node_filter enabled_node_filters r) [
  | none ↦ none
  | some f ↦ some (
      if value_or false r.always_route
      then AlwaysRoute.route_next_request now (wire_filters f) removable_filters
          RoundRobin.route_next_request
      else Filtering.route_next_request now (and_filter (wire_filters f))
          RoundRobin.route_next_request)
]

pub record Router : Type 0 where
  pub upstream_configs : List UpstreamConfig
  pub priority_to_upstreams : PriorityToUpstreamsMap
  pub cache : Option ChainCacheConfig
  pub chain_name : String
  pub codec : Codec

unfoldable pub new_router :
    String → Option ChainCacheConfig → Codec → List UpstreamConfig → List GroupConfig → Router
unfolding group_upstreams_by_priority
new_router chain cache codec upstreams groups = record {
  upstream_configs = upstreams;
  priority_to_upstreams = group_upstreams_by_priority upstreams groups;
  cache = cache;
  chain_name = chain;
  codec = codec;
}

-- The last configuration with the ID; `none` is the zero value.
unfoldable pub find_config : String → List UpstreamConfig → Option UpstreamConfig
find_config id [] = none
find_config id (u ∷ us) = elim (find_config id us) [
  | some v ↦ some v
  | none ↦ if u.id == id then some u else none
]

-- What happens while the request is out: the error of building it, if it fails, what the cache reads, what the upstream answers to the
-- first and the second request, how long it all takes, and the time when it is over.
pub record Exchange : Type 0 where
  pub unbuilt : Option String
  pub read : CacheRead
  pub first : HttpReply
  pub second : HttpReply
  pub latency : Duration
  pub finished : ℕ

pub record Routed : Type 0 where
  pub upstream_id : String
  pub response_body : Option ResponseBody
  pub error : Option RouteError
  pub write : Option CacheWrite

abbrev pub error_text_of : Option RouteError → Option String
error_text_of none = none
error_text_of (some e) = some (error_text e)

abbrev pub request_data : RequestBody → Answer → Duration → RequestData
request_data body a latency = record {
  response_body = a.response_body;
  error = error_text_of a.error;
  method = get_method body;
  http_response_code = value_or (pos 0) a.status;
  latency = latency;
}

module _ {S : Type 0} ⦃b : CircuitBreaker S⦄ where
  -- The part of Route that follows the choice of an upstream.
  unfoldable pub ask_upstream :
      Router → RequestBody → (Option UpstreamConfig → Exchange) → String → M S Routed
  unfolding find_config build_and_route error_text get_method Manager.record_request
  ask_upstream r body exchange id w =
      let x = exchange (find_config id r.upstream_configs) in
      elim (build_and_route x.unbuilt r.codec r.cache r.chain_name body x.read x.first x.second) [
        | none ↦ none
        | some (a, write) ↦
            elim (Manager.record_request x.finished id (request_data body a x.latency) w.manager) [
              | none ↦ none
              | some m ↦ some (
                record {
                  upstream_id = id;
                  response_body = a.response_body;
                  error = a.error;
                  write = write;
                },
                record w { manager = m },
              )
            ]
      ]

  unfoldable pub route :
      Router → RoutingStrategy S → RequestBody → (Option UpstreamConfig → Exchange) → M S Routed
  unfolding parse ask_upstream
  route r strategy body exchange = do
    chosen ← strategy r.priority_to_upstreams (parse body)
    elim chosen [
      | none ↦ return (record {
        upstream_id = "";
        response_body = none;
        error = some no_healthy_upstreams;
        write = none;
      })
      | some id ↦ ask_upstream r body exchange id
    ]
