-- ===== src/Examples/Configs.antt =====
-- Tests of internal/config/config.go.
use node_gateway.Base.{
  bytes, ◌++◌, length, inr, List, lookup, get_elem?, ℕ, String, none, some, false, inl, pos, ◌≤ℤ◌,
  ◌≡◌, ◌≢◌, ◌↔◌, refl, true, [], ◌∷◌, All, string_eq, int_eq,
}
use node_gateway.Config.{finite, Config, SingleChainConfig, ErrorsConfig, LatencyConfig}
use node_gateway.Config.Defaults.Patterns.{MatchesMerged, merge_errors-matches}
use node_gateway.Checks.Patterns.{
  is_match_for_patterns, is_error_matches, is_match, match_bytes, is_wildcard,
}
use node_gateway.Config.Pointers.{
  sort_and_remove_duplicates, sort_texts, insert_text, compact, compact_after,
}
use node_gateway.Config.Pointers.{merge_errors, Heap, Routing}
use node_gateway.Config.Pointers.{merge_latency}
use node_gateway.Config.Defaults.Merging.{or_else, merge_latency-threshold}
use node_gateway.Config.Defaults.{set_config_defaults}
use node_gateway.Config.Defaults.Total.{IsWellFormed, set_config_defaults_total}
use node_gateway.Checks.Request.{RequestData}
use node_gateway.Checks.LatencyCheck
use node_gateway.Config.Ttl.{get_ttl_for_method, get_minimum_ttl}
use node_gateway.Cache.{
  CacheWrite, miss, get_local_ttl, should_cache_method, from_origin, handle_request_parallel,
}
use node_gateway.Cache.Key.{create_request_key}
use node_gateway.Cache.Local.{handle_request_parallel-local_ttl}
use node_gateway.Jsonrpc.{SingleResponseBody}
use node_gateway.Jsonrpc.Codec.{Result, ok}
use node_gateway.Server.Wiring.{RpcCache, from_clients}
use node_gateway.Config.Validation.{validate}
use node_gateway.Config.Validation.Spec.{IsValidChain, IsValidRate}
use node_gateway.Config.Validation.Accepts.{validate_iff}
use node_gateway.Examples.Data.{
  breaker, slow_call, routing, upstreams, groups, cache_config, call_request, call_response,
}

abbrev chain : SingleChainConfig ErrorsConfig LatencyConfig
chain = record {
  cache = record { method_ttls = []; ttl = pos 0 };
  chain_name = "mainnet";
  routing = routing;
  upstreams = upstreams;
  groups = groups;
}

abbrev config : Config ErrorsConfig LatencyConfig
config = record {
  chains = chain ∷ [];
  global = record {
    cache = record { redis = ""; redis_reader = ""; redis_writer = "" };
    routing = routing;
    port = pos 8080;
  };
}

accepted : validate config ≡ true
unfolding validate
accepted = refl

validate_iff_example : (validate config ≡ true) ↔ (
    (config.chains ≢ [])
    × All IsValidChain config.chains
    × IsValidRate config.global.routing.errors)
validate_iff_example = validate_iff config

abbrev wired_cache : RpcCache
wired_cache = record {
  reader = "r:1";
  writer = "w:1";
  local_ttl = pos 5;
  cache_config = cache_config;
}

abbrev first_write : CacheWrite
first_write = record { key = create_request_key "mainnet" call_request; value = "17"; ttl = pos 5 }

abbrev good_origin : Result SingleResponseBody String
good_origin = ok call_response

local_ttl_test : from_clients cache_config (some "r:1") (some "w:1") ≡ some wired_cache
unfolding from_clients get_local_ttl get_minimum_ttl
local_ttl_test = refl

write_test :
    handle_request_parallel wired_cache.cache_config "mainnet" call_request miss good_origin
    ≡ (ok (some "17"), false, some first_write)
unfolding handle_request_parallel from_origin get_ttl_for_method
write_test = refl

handle_request_parallel-local_ttl_example : wired_cache.local_ttl ≤ℤ first_write.ttl
unfolding should_cache_method get_ttl_for_method
handle_request_parallel-local_ttl_example =
    handle_request_parallel-local_ttl cache_config (some "r:1") (some "w:1") wired_cache "mainnet"
      call_request miss good_origin (ok (some "17")) false first_write local_ttl_test refl
      write_test

-- Without any TTL nothing is cached, and the local cache gets its default.
unset_ttl_test : get_local_ttl (record { method_ttls = []; ttl = pos 0 }) ≡ pos 10_000_000_000
unfolding get_local_ttl get_minimum_ttl
unset_ttl_test = refl

abbrev only_always_route : Routing
only_always_route = record {
  always_route = some true;
  errors = none;
  latency = none;
  detection_window = none;
  ban_window = none;
  max_blocks_behind = pos 0;
  is_initialized = false;
  is_enabled = false;
}

abbrev blank_routing : Routing
blank_routing = record only_always_route { always_route = none }

abbrev empty_heap : Heap
empty_heap = record { errors = []; latencies = [] }

abbrev quick : RequestData
quick = record slow_call { latency = pos 0 }

abbrev own_latency : LatencyConfig
own_latency = record {
  method_latency_thresholds = ("eth_call", pos 5) ∷ [];
  methods = [];
  threshold = pos 7;
}

abbrev global_latency : LatencyConfig
global_latency = record {
  method_latency_thresholds = ("eth_call", pos 8) ∷ ("eth_getLogs", pos 9) ∷ [];
  methods = [];
  threshold = pos 0;
}

abbrev two_latencies : Heap
two_latencies = record { errors = []; latencies = own_latency ∷ global_latency ∷ [] }

merge_latency-threshold_example :
    (h' : Heap) × (c' : LatencyConfig) × (merge_latency 0 (some 1) two_latencies ≡ some h')
    × (get_elem? h'.latencies 0 ≡ some c')
    × ((method : String)
        → lookup method c'.method_latency_thresholds
          ≡ or_else
              (lookup method own_latency.method_latency_thresholds)
              (lookup method global_latency.method_latency_thresholds))
    × (c'.threshold ≡ pos 7)
    × ((i : ℕ) → i ≢ 0 → get_elem? h'.latencies i ≡ get_elem? two_latencies.latencies i)
merge_latency-threshold_example =
    merge_latency-threshold 0 1 two_latencies own_latency global_latency refl refl

abbrev own_errors : ErrorsConfig
own_errors = record {
  http_codes = "5xx" ∷ "420" ∷ [];
  json_rpc_codes = [];
  error_strings = "out of gas" ∷ [];
  rate = finite (pos 3);
}

abbrev global_errors : ErrorsConfig
global_errors = record {
  http_codes = "420" ∷ [];
  json_rpc_codes = "32xxx" ∷ [];
  error_strings = [];
  rate = finite (pos 1);
}

abbrev two_errors : Heap
two_errors = record { errors = own_errors ∷ global_errors ∷ []; latencies = [] }

merge_errors-matches_example :
    (h' : Heap) × (c' : ErrorsConfig) × (merge_errors 0 (some 1) two_errors ≡ some h')
    × (get_elem? h'.errors 0 ≡ some c')
    × ((code : List ℕ) (text : String)
        → MatchesMerged
            (is_match_for_patterns code)
            own_errors.http_codes
            global_errors.http_codes
            c'.http_codes
          × MatchesMerged
              (is_match_for_patterns code)
              own_errors.json_rpc_codes
              global_errors.json_rpc_codes
              c'.json_rpc_codes
          × MatchesMerged
              (is_error_matches text)
              own_errors.error_strings
              global_errors.error_strings
              c'.error_strings)
    × (c'.rate ≡ finite (pos 3))
    × ((i : ℕ) → i ≢ 0 → get_elem? h'.errors i ≡ get_elem? two_errors.errors i)
merge_errors-matches_example =
    merge_errors-matches 0 1 two_errors own_errors global_errors refl refl

-- A list without patterns matches every code; merged, it matches no more than the other.
narrowed_test :
    (is_match_for_patterns (bytes "7") [] ≡ true)
    × (is_match_for_patterns (bytes "7") (sort_and_remove_duplicates ([] ++ "5" ∷ [])) ≡ false)
unfolding is_match_for_patterns is_match match_bytes is_wildcard bytes sort_and_remove_duplicates
    sort_texts insert_text compact compact_after
narrowed_test = (refl, refl)

abbrev with_latency : Routing
with_latency = record only_always_route { latency = some 0 }

set_config_defaults_total_example :
    (rs' : List Routing) × (g' : Routing) × (h' : Heap) × (set_config_defaults only_always_route
        (with_latency ∷ only_always_route ∷ [])
        two_latencies
      ≡ some (rs', g', h'))
    × All (λ r. IsWellFormed r h') rs'
    × IsWellFormed g' h'
    × (length rs' ≡ 2)
set_config_defaults_total_example =
    set_config_defaults_total only_always_route (with_latency ∷ only_always_route ∷ [])
      two_latencies ((inl refl, inl refl), inl refl)
      (
        ((inr (0, refl, (own_latency, refl)), inl refl), inl refl),
        (((inl refl, inl refl), inl refl), tt),
      )
