-- ===== src/Server/Wiring.antt =====
-- internal/server/object_graph.go: the objects of every chain, and the paths that they serve. The
-- configuration is the one that is loaded, read through its pointers.
pub mod Paths
pub mod Isolation
pub mod Starting
use node_gateway.Base.{
  not, ◌&&◌, ℕ, zero, suc, pos, String, Bool, true, false, List, [], ◌∷◌, map, Option, none, some,
  ◌==◌, string_eq, if◌then◌else◌, ◌>>=◌, any, concat, get_elem?, put_at,
}
use node_gateway.Config.{
  Duration, ErrorsConfig, LatencyConfig, UpstreamConfig, RoutingConfig, ChainCacheConfig,
  SingleChainConfig, Config,
}
use node_gateway.Config.Yaml.{get_redis_addresses}
use node_gateway.Cache.{get_local_ttl}
use node_gateway.Jsonrpc.{RequestBody}
use node_gateway.Jsonrpc.Codec.{Codec}
use node_gateway.Metadata.Store.{new_chain_metadata_store}
use node_gateway.Checks.Breaker.{CircuitBreaker}
use node_gateway.Checks.Manager.{new_health_check_manager}
use node_gateway.Route.World.{World, M}
use node_gateway.Route.World
use node_gateway.Route.Router.{Router, Exchange, Routed, new_router, wire_strategy, route}
use node_gateway.Server.{
  HttpRequest, HttpResponse, serve_http, serve_health, respond_raw, server_port, empty,
}
use node_gateway.Server.CleanPath.{clean_path}

-- The Redis client of an address; the empty address has none.
unfoldable pub create_redis_client : String → Option String
create_redis_client url = if url == "" then none else some url

pub record RpcCache : Type 0 where
  pub reader : String
  pub writer : String
  pub local_ttl : Duration
  pub cache_config : ChainCacheConfig

-- FromClients
unfoldable pub from_clients : ChainCacheConfig → Option String → Option String → Option RpcCache
unfolding get_local_ttl
from_clients c (some reader) (some writer) =
    some
      (record { reader = reader; writer = writer; local_ttl = get_local_ttl c; cache_config = c })
from_clients c _ _ = none

-- singleChainObjectGraph, without its state.
pub record ChainGraph : Type 0 where
  pub router : Router
  pub routing : RoutingConfig ErrorsConfig LatencyConfig
  pub path : String
  pub chain_name : String

abbrev pub config_of : Option RpcCache → Option ChainCacheConfig
config_of none = none
config_of (some c) = some c.cache_config

abbrev pub path_of : String → String
path_of name = concat ("/" ∷ name ∷ [])

unfoldable pub wire_single_chain :
    Codec
    → Option String
    → Option String
    → SingleChainConfig ErrorsConfig LatencyConfig
    → ChainGraph
unfolding from_clients new_router concat
wire_single_chain codec reader writer c = record {
  router =
      new_router c.chain_name (config_of (from_clients c.cache reader writer)) codec c.upstreams
        c.groups;
  routing = c.routing;
  path = path_of c.chain_name;
  chain_name = c.chain_name;
}

-- The state of a chain that is new.
unfoldable pub new_world :
    {S : Type 0} ⦃b : CircuitBreaker S⦄ → SingleChainConfig ErrorsConfig LatencyConfig → World S
unfolding new_health_check_manager new_chain_metadata_store
new_world c = record {
  manager = new_health_check_manager c.upstreams c.routing;
  store = new_chain_metadata_store;
  counter = 0;
}

-- What the mux replies: the response of a handler or one of its own, or a redirect with the status 301
-- to a path.
pub data Reply : Type 0 where
  answered : HttpResponse → Reply
  moved : String → Reply

-- http.ServeMux, for plain patterns, which stand for the path itself: a slash and a name that is not
-- empty and has no slash, brace, percent sign or blank. Handle panics on a pattern that is there.
pub data Handler : Type 0 where
  health : Handler
  chain : ℕ → Handler

abbrev pub Mux : Type 0
Mux = List (String × Handler)

unfoldable pub handle : String → Handler → Mux → Option Mux
handle pat h mux =
    if any (λ (e : String × Handler). e.0 == pat) mux then none else some ((pat, h) ∷ mux)

unfoldable pub find_handler : String → Mux → Option Handler
find_handler path [] = none
find_handler path ((pat, h) ∷ mux) = if pat == path then some h else find_handler path mux

-- The loop of newServeMux, from the chain at position `i` on.
unfoldable pub handle_chains : ℕ → List ChainGraph → Mux → Option Mux
unfolding handle
handle_chains i [] mux = some mux
handle_chains i (g ∷ gs) mux =
    handle g.path (chain i) mux >>= λ (mux' : Mux). handle_chains (suc i) gs mux'

unfoldable pub new_serve_mux : List ChainGraph → Option Mux
unfolding handle handle_chains
new_serve_mux graphs = handle "/health" health [] >>= λ (mux : Mux). handle_chains 0 graphs mux

pub record Gateway : Type 0 where
  pub mux : Mux
  pub graphs : List ChainGraph

-- WireDependenciesForAllChains: `none` is the panic of the mux.
unfoldable pub wire_dependencies_for_all_chains :
    Codec → Config ErrorsConfig LatencyConfig → Option Gateway
unfolding get_redis_addresses create_redis_client wire_single_chain new_serve_mux
wire_dependencies_for_all_chains codec c =
    let addresses = get_redis_addresses c.global.cache in
    let graphs =
      map
        (wire_single_chain codec (create_redis_client addresses.0)
          (create_redis_client addresses.1))
        c.chains in
    new_serve_mux graphs >>= λ (mux : Mux). some (record { mux = mux; graphs = graphs })

module _ {S : Type 0} ⦃b : CircuitBreaker S⦄ where
  -- A request to a chain, at the time `now`.
  unfoldable pub serve_chain :
      Codec → ℕ → (Option UpstreamConfig → Exchange) → ChainGraph → HttpRequest → M S HttpResponse
  unfolding wire_strategy route serve_http
  serve_chain codec now exchange g req w = wire_strategy now g.routing >>= λ strategy.
      serve_http codec g.path (λ body. route g.router strategy body exchange) req w

  -- A request to the gateway, over the states of the chains. The mux moves a request to its clean
  -- path, unless the request is a CONNECT.
  unfoldable pub serve :
      Gateway
      → Codec
      → ℕ
      → (Option UpstreamConfig → Exchange)
      → HttpRequest
      → List (World S)
      → Option (Reply × List (World S))
  unfolding clean_path find_handler serve_health respond_raw serve_chain
  serve gateway codec now exchange req ws =
      if req.path == "*"
      then some (answered (record { status = pos 400; upstream_id = none; content = empty }), ws)
      else if not (req.method == "CONNECT") && not (clean_path req.path == req.path)
      then some (moved (clean_path req.path), ws)
      else elim (find_handler req.path gateway.mux) [
        | none ↦ some (answered (respond_raw "404 page not found\n" (pos 404)), ws)
        | some health ↦ some (answered (serve_health (map (λ (w : World S). w.manager) ws)), ws)
        | some (chain i) ↦ get_elem? gateway.graphs i >>= λ (g : ChainGraph).
            get_elem? ws i >>= λ (w : World S).
            serve_chain codec now exchange g req w >>= λ (x : HttpResponse × World S).
            some (answered x.0, put_at i x.1 ws)
      ]
