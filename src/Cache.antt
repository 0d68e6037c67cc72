-- ===== src/Cache.antt =====
-- internal/cache/rpc_cache.go: the keys, and one read and at most one write for a request. Redis with
-- its local copies is not modelled: what a read gives is an input, and a write is a result.
pub mod Key
pub mod Sharing
pub mod Local
use node_gateway.Base.{
  ℤ, pos, ltb_ℤ, String, Bool, true, false, Option, none, some, ◌==◌, int_eq, if◌then◌else◌, ◌*◌,
}
use node_gateway.Config.{Duration, ChainCacheConfig, second}
use node_gateway.Config.Ttl.{get_ttl_for_method, get_minimum_ttl}
use node_gateway.Jsonrpc.{SingleRequestBody, SingleResponseBody}
use node_gateway.Jsonrpc.Codec.{Result, ok, err}
use node_gateway.Cache.Key.{create_request_key}

-- What the cache has for a key: a value, which may be the nil slice; nothing; or an error.
pub data CacheRead : Type 0 where
  hit : Option String → CacheRead
  miss broken : CacheRead

-- A value that is set if the key has none.
pub record CacheWrite : Type 0 where
  pub key : String
  pub value : String
  pub ttl : Duration

abbrev pub default_local_cache_ttl : Duration
default_local_cache_ttl = pos (10 * second)

-- getMinimumTTL
unfoldable pub get_local_ttl : ChainCacheConfig → Duration
unfolding get_minimum_ttl
get_local_ttl c = if get_minimum_ttl c == pos 0 then default_local_cache_ttl else get_minimum_ttl c

unfoldable pub should_cache_method : String → ChainCacheConfig → Bool
unfolding get_ttl_for_method
should_cache_method method c = ltb_ℤ (pos 0) (get_ttl_for_method method c)

-- What follows a request to the origin.
unfoldable pub from_origin :
    {E : Type 0}
    → ChainCacheConfig
    → String
    → SingleRequestBody
    → Result SingleResponseBody E
    → Result (Option String) E × Bool × Option CacheWrite
unfolding create_request_key get_ttl_for_method
from_origin c chain r (err e) = (err e, false, none)
from_origin c chain r (ok body) = (
  ok body.result,
  false,
  elim body.result [
    | none ↦ none
    | some value ↦ some (record {
      key = create_request_key chain r;
      value = value;
      ttl = get_ttl_for_method r.method c;
    })
  ],
)

-- HandleRequestParallel, for a read that found `read` and an origin that answers `origin` if asked:
-- the value, whether it was cached, and the write.
unfoldable pub handle_request_parallel :
    {E : Type 0}
    → ChainCacheConfig
    → String
    → SingleRequestBody
    → CacheRead
    → Result SingleResponseBody E
    → Result (Option String) E × Bool × Option CacheWrite
unfolding from_origin
handle_request_parallel c chain r (hit value) _ = (ok value, true, none)
handle_request_parallel c chain r miss origin = from_origin c chain r origin
handle_request_parallel c chain r broken origin = from_origin c chain r origin
