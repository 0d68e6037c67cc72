-- ===== src/Config/Validation.antt =====
-- internal/config/config.go: the validation of a configuration.
pub mod Spec
pub mod Accepts
use node_gateway.Base.{
  ℤ, pos, ◌^◌, leb_ℤ, ltb_ℤ, String, Bool, true, false, not, ◌&&◌, List, [], ◌∷◌, map, Option, none,
  some, Map, Comparable, ◌==◌, string_eq, int_eq, if◌then◌else◌, all, any, is_empty,
}
use node_gateway.Config.{
  UpstreamConfig, GroupConfig, ErrorsConfig, LatencyConfig, MethodConfig, RoutingConfig,
  ChainCacheConfig, SingleChainConfig, Config, Float64, finite, second, Duration,
}

-- The loops over `uniqueIDs` and `uniquePriorities`. Nothing reads the values of these maps, so
-- that each is the list of its keys.
module _ {A : Type 0} ⦃e : Comparable A⦄ where
  unfoldable pub is_unique_from : List A → List A → Bool
  is_unique_from seen [] = true
  is_unique_from seen (x ∷ xs) =
      if any (λ y. y == x) seen then false else is_unique_from (x ∷ seen) xs

-- The tests of `isValid` on an upstream; each sets `isValid` to false and goes on.
unfoldable pub is_ws_url_missing : UpstreamConfig → Bool
is_ws_url_missing c = elim c.health_check_config.use_ws_for_block_height [
  | none ↦ false
  | some use_ws ↦ use_ws && c.ws_url == ""
]

unfoldable pub is_group_valid : UpstreamConfig → List GroupConfig → Bool
is_group_valid c [] = true
is_group_valid c (g ∷ gs) =
    if c.group_id == "" then false else any (λ (h : GroupConfig). h.id == c.group_id) (g ∷ gs)

unfoldable pub is_upstream_valid : List GroupConfig → UpstreamConfig → Bool
unfolding is_ws_url_missing is_group_valid
is_upstream_valid groups c =
    not (c.http_url == "")
    && (not (c.node_type == "") && (not (is_ws_url_missing c) && is_group_valid c groups))

unfoldable pub is_upstreams_valid : List UpstreamConfig → Bool
unfolding is_unique_from
is_upstreams_valid upstreams = is_unique_from [] (map (λ (c : UpstreamConfig). c.id) upstreams)

unfoldable pub is_groups_valid : List GroupConfig → Bool
unfolding is_unique_from
is_groups_valid groups =
    is_unique_from [] (map (λ (g : GroupConfig). g.id) groups)
    && is_unique_from [] (map (λ (g : GroupConfig). g.priority) groups)

-- `0 < ttl && ttl < time.Second`
unfoldable pub is_below_second : Duration → Bool
is_below_second ttl = ltb_ℤ (pos 0) ttl && ltb_ℤ ttl (pos second)

-- The loop over the TTLs of the methods leaves at the first entry that is refused.
unfoldable pub is_method_ttls_valid : Map Duration → Bool
unfolding is_below_second
is_method_ttls_valid [] = true
is_method_ttls_valid ((method, ttl) ∷ ttls) =
    if is_below_second ttl then false else if method == "" then false else is_method_ttls_valid ttls

unfoldable pub is_cache_valid : ChainCacheConfig → Bool
unfolding is_method_ttls_valid
is_cache_valid c = if is_below_second c.ttl then false else is_method_ttls_valid c.method_ttls

-- `0.0 <= rate && rate <= 1.0`
unfoldable pub is_rate_in_range : Float64 → Bool
is_rate_in_range (finite n) = leb_ℤ (pos 0) n && leb_ℤ n (pos (2 ^ 1074))
is_rate_in_range _ = false

unfoldable pub is_method_config_valid : MethodConfig → Bool
is_method_config_valid c = true

unfoldable pub is_latency_config_valid : Option LatencyConfig → Bool
unfolding is_method_config_valid
is_latency_config_valid none = true
is_latency_config_valid (some c) = all is_method_config_valid c.methods

unfoldable pub is_error_rate_valid : Option ErrorsConfig → Bool
unfolding is_rate_in_range
is_error_rate_valid none = true
is_error_rate_valid (some e) = is_rate_in_range e.rate

unfoldable pub is_routing_config_valid : RoutingConfig ErrorsConfig LatencyConfig → Bool
unfolding is_error_rate_valid is_latency_config_valid
is_routing_config_valid r = is_error_rate_valid r.errors && is_latency_config_valid r.latency

unfoldable pub is_chain_valid : SingleChainConfig ErrorsConfig LatencyConfig → Bool
unfolding is_groups_valid is_upstreams_valid is_cache_valid is_routing_config_valid
    is_upstream_valid
is_chain_valid c =
    is_groups_valid c.groups
    && (is_upstreams_valid c.upstreams
        && (is_cache_valid c.cache
            && (is_routing_config_valid c.routing
                && (all (is_upstream_valid c.groups) c.upstreams && not (c.chain_name == "")))))

unfoldable pub is_chains_valid : List (SingleChainConfig ErrorsConfig LatencyConfig) → Bool
unfolding is_chain_valid
is_chains_valid chains = not (is_empty chains) && all is_chain_valid chains

-- `Validate`: whether it returns no error.
unfoldable pub validate : Config ErrorsConfig LatencyConfig → Bool
unfolding is_chains_valid is_routing_config_valid
validate config = is_chains_valid config.chains && is_routing_config_valid config.global.routing
