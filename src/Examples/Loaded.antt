-- ===== src/Examples/Loaded.antt =====
-- Tests of the loading of internal/config/config.go.
use node_gateway.Base.{
  ℕ, pos, ltb_ℤ, String, ◌≡◌, ◌≢◌, ◌↔◌, inl, refl, true, false, List, [], ◌∷◌, Option, none, some,
  join, lookup, value_or, any, ◌==◌, string_eq, if◌then◌else◌, arith, All,
}
use node_gateway.Config.{Config, ErrorsConfig, LatencyConfig, MethodsConfig, ChainCacheConfig}
use node_gateway.Config.Pointers.{Heap, Routing}
use node_gateway.Config.Ttl.{get_ttl_for_method}
use node_gateway.Config.Validation.Spec.{IsValidChain, IsValidRate}
use node_gateway.Config.Yaml.{
  LoadError, MethodTtlConfig, unmarshal_methods, unmarshal_cache, load_config, split,
}
use node_gateway.Config.Yaml.Names.{
  unmarshal_methods-join, last_ttl, get_ttl_for_method-unmarshal_cache,
}
use node_gateway.Config.Yaml.Loading.{routings, IsLoadedFrom, load_config_iff}
use node_gateway.Config.Defaults.{dereference, set_config_defaults}
use node_gateway.Examples.Data.{breaker, upstreams, groups, cache_config}

-- As in the test of the repository: no blank is trimmed.
split_test : split "eth_getBalance, getLogs" ≡ "eth_getBalance" ∷ " getLogs" ∷ []
unfolding split
split_test = refl

unmarshal_methods-join_example :
    (m : MethodsConfig) × (unmarshal_methods
        (some (join "," ("eth_call" ∷ "eth_getLogs" ∷ []), join "," ("net_version" ∷ [])))
      ≡ some m)
    × (value_or false (lookup "eth_call" m.enabled)
        ≡ any (λ (n : String). n == "eth_call") ("eth_call" ∷ "eth_getLogs" ∷ []))
    × (value_or false (lookup "eth_call" m.disabled)
        ≡ any (λ (n : String). n == "eth_call") ("net_version" ∷ []))
unmarshal_methods-join_example =
    unmarshal_methods-join "eth_call" ("eth_getLogs" ∷ []) "net_version" [] "eth_call"
      (ground arith) (ground arith)

abbrev ttls : List MethodTtlConfig
ttls =
    record { method = "eth_call"; ttl = pos 3 } ∷ record { method = "eth_call"; ttl = pos 0 } ∷ []

get_ttl_for_method-unmarshal_cache_example :
    (c : ChainCacheConfig) × (unmarshal_cache (some (ttls, pos 9)) ≡ some c)
    × (get_ttl_for_method "eth_call" c ≡ (
        if ltb_ℤ (pos 0) (value_or (pos 0) (last_ttl "eth_call" ttls none))
        then value_or (pos 0) (last_ttl "eth_call" ttls none)
        else pos 9))
get_ttl_for_method-unmarshal_cache_example =
    get_ttl_for_method-unmarshal_cache "eth_call" ttls (pos 9)

abbrev blank_routing : Routing
blank_routing = record {
  always_route = some true;
  errors = none;
  latency = none;
  detection_window = none;
  ban_window = none;
  max_blocks_behind = pos 0;
  is_initialized = false;
  is_enabled = false;
}

abbrev empty_heap : Heap
empty_heap = record { errors = []; latencies = [] }

-- What the YAML library reads: one chain over a global configuration.
abbrev parsed : Config ℕ ℕ
parsed = record {
  chains =
      record {
        cache = cache_config;
        chain_name = "mainnet";
        routing = blank_routing;
        upstreams = upstreams;
        groups = groups;
      }
      ∷ [];
  global = record {
    cache = record { redis = ""; redis_reader = ""; redis_writer = "" };
    routing = blank_routing;
    port = pos 0;
  };
}

load_config_iff_example :
    (loaded : Config ErrorsConfig LatencyConfig) × (error : Option LoadError) × (rs : List Routing)
    × (g : Routing) × (h' : Heap) × (load_config (some (some (parsed, empty_heap)))
        ≡ some (some loaded, error))
    × (set_config_defaults parsed.global.routing (routings parsed) empty_heap ≡ some (rs, g, h'))
    × IsLoadedFrom h' parsed.chains rs loaded.chains
    × (loaded.global.routing ≡ dereference g h')
    × (loaded.global.cache ≡ parsed.global.cache)
    × (loaded.global.port ≡ parsed.global.port)
    × ((error ≡ none) ↔ (
        (loaded.chains ≢ [])
        × All IsValidChain loaded.chains
        × IsValidRate loaded.global.routing.errors))
load_config_iff_example =
    load_config_iff parsed empty_heap ((inl refl, inl refl), inl refl)
      (((inl refl, inl refl), inl refl), tt)
