-- ===== src/Examples/Wired.antt =====
-- Tests of internal/server/object_graph.go.
use node_gateway.Base.{
  none, ◌≢◌, ℕ, pos, String, ◌≡◌, ◌↔◌, ◌⊎◌, refl, List, [], ◌∷◌, map, Option, some, ◌>>=◌, concat,
  string_eq, get_elem?, put_at, In,
}
use node_gateway.Config.{Config, SingleChainConfig, ErrorsConfig, LatencyConfig, UpstreamConfig}
use node_gateway.Config.Validation.Spec.{IsDistinct}
use node_gateway.Config.Yaml.{get_redis_addresses}
use node_gateway.Route.World.{World}
use node_gateway.Route.Router.{Exchange}
use node_gateway.Server.{HttpRequest, HttpResponse, serve_health, respond_raw}
use node_gateway.Jsonrpc.Codec.{ok}
use node_gateway.Server.CleanPath.{clean_path}
use node_gateway.Server.Wiring.{
  ChainGraph, Gateway, health, chain, handle, handle_chains, new_serve_mux, wire_single_chain,
  path_of, new_world, serve, answered, moved, serve_chain, wire_dependencies_for_all_chains,
}
use node_gateway.Server.Wiring.Paths.{names, wire_dependencies_iff}
use node_gateway.Server.Wiring.Isolation.{graph_of, serve-paths}
use node_gateway.Server.Wiring.Starting.{Script, start_all, start_all-serve_health}
use node_gateway.Examples.Data.{
  breaker, routing, upstreams, groups, world, codec, cache_config, replies,
}
use node_gateway.Cache.{miss}
use node_gateway.Route.Executor.{received}

abbrev chain_config : String → SingleChainConfig ErrorsConfig LatencyConfig
chain_config name = record {
  cache = cache_config;
  chain_name = name;
  routing = routing;
  upstreams = upstreams;
  groups = groups;
}

abbrev two_chains : Config ErrorsConfig LatencyConfig
two_chains = record {
  chains = chain_config "mainnet" ∷ chain_config "polygon" ∷ [];
  global = record {
    cache = record { redis = "r:1"; redis_reader = ""; redis_writer = "w:1" };
    routing = routing;
    port = pos 0;
  };
}

-- Of the new addresses one is missing, so that the old one serves both.
redis_test : get_redis_addresses two_chains.global.cache ≡ ("r:1", "r:1")
unfolding get_redis_addresses
redis_test = refl

wire_dependencies_iff_example :
    ((g : Gateway) × (wire_dependencies_for_all_chains codec two_chains ≡ some g))
    ↔ IsDistinct ("health" ∷ names two_chains)
wire_dependencies_iff_example = wire_dependencies_iff codec two_chains

abbrev gateway : Gateway
gateway = record {
  mux = ("/polygon", chain 1) ∷ ("/mainnet", chain 0) ∷ ("/health", health) ∷ [];
  graphs =
      graph_of codec two_chains (chain_config "mainnet")
      ∷ graph_of codec two_chains (chain_config "polygon")
      ∷ [];
}

wired_test : wire_dependencies_for_all_chains codec two_chains ≡ some gateway
unfolding wire_dependencies_for_all_chains new_serve_mux handle handle_chains wire_single_chain
    concat
wired_test = refl

abbrev posted : HttpRequest
posted = record {
  path = "/polygon";
  method = "POST";
  content_type = "application/json";
  client = "";
  body = ok "17";
}

abbrev exchange : Option UpstreamConfig → Exchange
exchange _ = record {
  unbuilt = none;
  read = miss;
  first = received (pos 200) "17";
  second = received (pos 200) "17";
  latency = pos 3;
  finished = 20;
}

-- A path that is not clean, and where the mux sends it.
abbrev crooked : HttpRequest
crooked = record posted { path = "//mainnet/../polygon/" }

clean_test : clean_path crooked.path ≡ "/polygon/"
unfolding clean_path
clean_test = refl

clean_chain_test : clean_path (path_of "polygon") ≡ path_of "polygon"
unfolding clean_path concat
clean_chain_test = refl

abbrev both : List (World ℕ)
both = world ∷ world ∷ []

serve-paths_example :
    ((i : ℕ) (x : SingleChainConfig ErrorsConfig LatencyConfig) (w : World ℕ)
      → get_elem? two_chains.chains i ≡ some x
      → get_elem? both i ≡ some w
      → clean_path (path_of x.chain_name) ≡ path_of x.chain_name
      → serve gateway codec 10 exchange (record crooked { path = path_of x.chain_name }) both ≡ (
          serve_chain codec 10 exchange
            (graph_of codec two_chains x)
            (record crooked { path = path_of x.chain_name })
            w
          >>= λ (r : HttpResponse × World ℕ). some (answered r.0, put_at i r.1 both)))
    × (serve gateway codec 10 exchange (record crooked { path = "/health" }) both
        ≡ some (answered (serve_health (map (λ (w : World ℕ). w.manager) both)), both))
    × (clean_path crooked.path ≡ crooked.path
        → ¬ In crooked.path (
            "/health"
            ∷ map (λ (x : ChainGraph). x.path) (map (graph_of codec two_chains) two_chains.chains))
        → serve gateway codec 10 exchange crooked both
          ≡ some (answered (respond_raw "404 page not found\n" (pos 404)), both))
    × (crooked.path ≢ "*"
        → crooked.method ≢ "CONNECT"
        → clean_path crooked.path ≢ crooked.path
        → serve gateway codec 10 exchange crooked both
          ≡ some (moved (clean_path crooked.path), both))
serve-paths_example = serve-paths codec two_chains gateway 10 exchange crooked both wired_test

abbrev script : World ℕ → Script
script _ = record { first = λ _. replies; rounds = (λ _. replies) ∷ [] }

start_all-serve_health_example :
    (ws : List (World ℕ)) × (start_all script
        (map (λ (c : SingleChainConfig ErrorsConfig LatencyConfig). new_world c) two_chains.chains)
      ≡ some ws)
    × (serve_health (map (λ (w : World ℕ). w.manager) ws) ≡ respond_raw "OK" (pos 200))
    × ((two_chains.chains ≡ [])
        ⊎ (serve_health (
              map
                (λ (w : World ℕ). w.manager)
                (map
                  (λ (c : SingleChainConfig ErrorsConfig LatencyConfig). new_world c)
                  two_chains.chains))
            ≡ respond_raw "Starting up" (pos 503)))
start_all-serve_health_example =
    start_all-serve_health script two_chains.chains (λ e. cc, (λ e. cc, tt))
