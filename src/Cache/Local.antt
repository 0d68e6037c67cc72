-- ===== src/Cache/Local.antt =====
-- The TTL of the local copies of internal/cache/rpc_cache.go, one for all methods of a chain.
use node_gateway.Base.{
  sym, pos, ◌≤ℤ◌, ◌<ℤ◌, String, ◌≡◌, ap, true, false, Option, none, some, Bool, ◌==◌, int_eq,
  int_beq_iff, arith,
}
use node_gateway.Config.{ChainCacheConfig}
use node_gateway.Config.Ttl.{
  get_ttl_for_method, get_minimum_ttl, get_minimum_ttl-le, get_minimum_ttl_set,
}
use node_gateway.Jsonrpc.{SingleRequestBody, SingleResponseBody}
use node_gateway.Jsonrpc.Codec.{Result, ok, err}
use node_gateway.Cache.{
  CacheRead, hit, miss, broken, CacheWrite, get_local_ttl, should_cache_method, from_origin,
  handle_request_parallel,
}
use node_gateway.Cache.Key.{create_request_key}
use node_gateway.Server.Wiring.{RpcCache, from_clients}

get_local_ttl-le :
    (c : ChainCacheConfig) (method : String)
    → should_cache_method method c ≡ true
    → get_local_ttl c ≤ℤ get_ttl_for_method method c
unfolding get_local_ttl should_cache_method
get_local_ttl-le c method cached =
    let positive : pos 0 <ℤ get_ttl_for_method method c = ground (arith, cached) in
    let set : (get_minimum_ttl c == pos 0) ≡ false =
      ground
        (arith, get_minimum_ttl_set c method positive, int_beq_iff (get_minimum_ttl c) (pos 0)) in
    rw (get_local_ttl, set) (get_minimum_ttl-le c method positive)

from_clients-local_ttl :
    (c : ChainCacheConfig) (reader writer : Option String) (cache : RpcCache)
    → from_clients c reader writer ≡ some cache
    → cache.local_ttl ≡ get_local_ttl cache.cache_config
unfolding from_clients
from_clients-local_ttl c none writer cache made = cc
from_clients-local_ttl c (some reader) none cache made = cc
from_clients-local_ttl c (some reader) (some writer) cache made = cc

-- The write of a request to the origin has the TTL of the request's method.
from_origin-ttl :
    {E : Type 0} (c : ChainCacheConfig) (chain : String) (r : SingleRequestBody)
    (origin : Result SingleResponseBody E) (result : Result (Option String) E) (cached : Bool)
    (w : CacheWrite)
    → from_origin c chain r origin ≡ (result, cached, some w)
    → get_ttl_for_method r.method c ≡ w.ttl
unfolding from_origin
from_origin-ttl c chain r (err e) result cached w ran = cc
from_origin-ttl {E} c chain r (ok body) result cached w ran = stored body.result (ap write_of ran)
  where
    write_of : Result (Option String) E × Bool × Option CacheWrite → Option CacheWrite
    write_of x = x.2

    stored :
        (value : Option String)
        → (elim value as (λ _. Option CacheWrite) [
          | none ↦ none
          | some v ↦ some (record {
            key = create_request_key chain r;
            value = v;
            ttl = get_ttl_for_method r.method c;
          })
        ])
          ≡ some w
        → get_ttl_for_method r.method c ≡ w.ttl
    stored none e = cc
    stored (some v) e = cc

-- The TTL for local copies, with which a chain's cache is made from its configuration and its Redis
-- clients, is at most the TTL of every write that a request for a cached method makes over this
-- cache, whatever its read finds and the origin answers.
pub handle_request_parallel-local_ttl :
    {E : Type 0} (c : ChainCacheConfig) (reader writer : Option String) (cache : RpcCache)
    (chain : String) (r : SingleRequestBody) (read : CacheRead)
    (origin : Result SingleResponseBody E) (result : Result (Option String) E) (cached : Bool)
    (w : CacheWrite)
    → from_clients c reader writer ≡ some cache
    → should_cache_method r.method cache.cache_config ≡ true
    → handle_request_parallel cache.cache_config chain r read origin ≡ (result, cached, some w)
    → cache.local_ttl ≤ℤ w.ttl
unfolding handle_request_parallel
handle_request_parallel-local_ttl c reader writer cache chain r read origin result cached w made
      is_cached ran =
    rw (from_clients-local_ttl c reader writer cache made, sym (written read ran))
      (get_local_ttl-le cache.cache_config r.method is_cached)
  where
    written :
        (found : CacheRead)
        → handle_request_parallel cache.cache_config chain r found origin ≡ (result, cached, some w)
        → get_ttl_for_method r.method cache.cache_config ≡ w.ttl
    written (hit value) e = cc
    written miss e = from_origin-ttl cache.cache_config chain r origin result cached w e
    written broken e = from_origin-ttl cache.cache_config chain r origin result cached w e
