-- ===== src/Config/Validation/Accepts.antt =====
-- `Validate` of internal/config/config.go decides the specification.
use node_gateway.Base.{
  ◌≡◌, refl, ◌≢◌, ◌↔◌, true, not, List, [], ◌∷◌, map, Option, none, some, arith, string_eq, int_eq,
  all, is_empty, All,
}
use node_gateway.Config.{
  UpstreamConfig, GroupConfig, ErrorsConfig, LatencyConfig, MethodConfig, RoutingConfig,
  ChainCacheConfig, SingleChainConfig, Config,
}
use node_gateway.Config.Validation.{
  is_upstream_valid, is_cache_valid, is_method_config_valid, is_latency_config_valid,
  is_routing_config_valid, is_chain_valid, validate,
}
use node_gateway.Config.Validation.Spec.{
  IsValidUpstream, IsValidTtl, IsValidRate, IsValidChain, is_unique_iff, all-All, neq_iff, and_both,
  is_upstream_valid_iff, ttl_iff, method_ttls_iff, rate_iff,
}

latency_valid : (c : Option LatencyConfig) → is_latency_config_valid c ≡ true
unfolding is_latency_config_valid
latency_valid none = refl
latency_valid (some c) = go c.methods
  where
    go : (ms : List MethodConfig) → all is_method_config_valid ms ≡ true
    go [] = refl
    go (m ∷ ms) = go ms

routing_iff :
    (r : RoutingConfig ErrorsConfig LatencyConfig)
    → (is_routing_config_valid r ≡ true) ↔ IsValidRate r.errors
unfolding is_routing_config_valid
routing_iff r = ground (arith, latency_valid r.latency, rate_iff r.errors)

cache_iff :
    (c : ChainCacheConfig)
    → (is_cache_valid c ≡ true)
      ↔ (IsValidTtl c.ttl × All (λ e. (e.0 ≢ "") × IsValidTtl e.1) c.method_ttls)
unfolding is_cache_valid
cache_iff c = ground (arith, ttl_iff c.ttl, method_ttls_iff c.method_ttls)

-- A chain is accepted exactly when it is valid.
is_chain_valid_iff :
    (c : SingleChainConfig ErrorsConfig LatencyConfig) → (is_chain_valid c ≡ true) ↔ IsValidChain c
unfolding is_chain_valid
is_chain_valid_iff c =
    let tests =
      and_both
        (and_both (is_unique_iff (map (λ (g : GroupConfig). g.id) c.groups))
          (is_unique_iff (map (λ (g : GroupConfig). g.priority) c.groups)))
        (and_both (is_unique_iff (map (λ (u : UpstreamConfig). u.id) c.upstreams)) (
          and_both (cache_iff c.cache) (
            and_both (routing_iff c.routing) (
              and_both
                (all-All (is_upstream_valid c.groups) (IsValidUpstream c.groups)
                  (is_upstream_valid_iff c.groups) c.upstreams)
                (neq_iff c.chain_name))))) in
    (
      λ h.
          let (groups, rest) = tests.0 h in
          let (ids, rest') = rest in
          let (ttls, rest'') = rest' in
          let (rate, rest''') = rest'' in
          record {
            distinct_group_ids = groups.0;
            distinct_priorities = groups.1;
            distinct_upstream_ids = ids;
            valid_ttl = ttls.0;
            valid_method_ttls = ttls.1;
            valid_rate = rate;
            valid_upstreams = rest'''.0;
            has_name = rest'''.1;
          },
      λ v. tests.1 (
        (v.distinct_group_ids, v.distinct_priorities),
        (
          v.distinct_upstream_ids,
          ((v.valid_ttl, v.valid_method_ttls), (v.valid_rate, (v.valid_upstreams, v.has_name))),
        ),
      ),
    )

non_empty_iff :
    (chains : List (SingleChainConfig ErrorsConfig LatencyConfig))
    → (not (is_empty chains) ≡ true) ↔ (chains ≢ [])
non_empty_iff [] = (λ h. cc, λ n. absurd (n refl))
non_empty_iff (c ∷ cs) = (λ h e. cc, λ n. refl)

-- `Validate` accepts a configuration exactly when it has a chain, every chain is valid and the
-- global error rate, where one is given, lies in [0, 1].
pub validate_iff :
    (config : Config ErrorsConfig LatencyConfig)
    → (validate config ≡ true) ↔ (
        (config.chains ≢ [])
        × All IsValidChain config.chains
        × IsValidRate config.global.routing.errors)
unfolding validate
validate_iff config =
    let tests =
      and_both
        (and_both (non_empty_iff config.chains)
          (all-All is_chain_valid IsValidChain is_chain_valid_iff config.chains))
        (routing_iff config.global.routing) in
    (
      λ h. let (chains, rate) = tests.0 h in (chains.0, chains.1, rate),
      λ v. tests.1 ((v.0, v.1), v.2),
    )
