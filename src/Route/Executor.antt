-- ===== src/Route/Executor.antt =====
-- internal/route/request_executor.go: a request to one upstream, and the cache in front of it. How
-- net/http sends the request is not modelled: what comes back is an input; Upstream builds it.
pub mod Caching
pub mod Codes
use node_gateway.Base.{
  ℤ, pos, leb_ℤ, String, Bool, true, false, Option, none, some, ◌==◌, string_eq, value_or, is_none,
  ◌&&◌, if◌then◌else◌, ◌>>=◌,
}
use node_gateway.Config.{ChainCacheConfig}
use node_gateway.Errors.{RouteError, decode, origin, other}
use node_gateway.Jsonrpc.{
  SingleRequestBody, RequestBody, SingleResponseBody, ResponseBody, get_method,
}
use node_gateway.Jsonrpc.Codec.{Codec, Result, ok, err, decode_response_body}
use node_gateway.Cache.{CacheRead, CacheWrite, should_cache_method, handle_request_parallel}

-- What httpClient.Do comes to: an error, a body that cannot be read, or a body.
pub data HttpReply : Type 0 where
  unreachable : String → HttpReply
  unreadable : (status : ℤ) (message : String) → HttpReply
  received : (status : ℤ) (body : String) → HttpReply

-- The results of routeToConfig: the response, the status of the HTTP response if there was one,
-- whether the response was cached, and the error.
pub record Answer : Type 0 where
  pub response_body : Option ResponseBody
  pub status : Option ℤ
  pub is_cached : Bool
  pub error : Option RouteError

-- A JSON-RPC error or a null is passed back but never cached.
pub data OriginFailure : Type 0 where
  handled : SingleResponseBody → OriginFailure
  failure : RouteError → OriginFailure

unfoldable pub get_response_body : Codec → HttpReply → Answer
unfolding decode_response_body
get_response_body codec (unreachable message) = record {
  response_body = none;
  status = none;
  is_cached = false;
  error = some (origin (some message) "" (pos 0));
}
get_response_body codec (unreadable status message) = record {
  response_body = none;
  status = some status;
  is_cached = false;
  error = some (origin (some message) "" (pos 0));
}
get_response_body codec (received status body) =
    if leb_ℤ (pos 400) status
    then record {
      response_body = none;
      status = some status;
      is_cached = false;
      error = some (origin none body status);
    }
    else elim (decode_response_body codec body) [
      | ok response ↦ record {
        response_body = response;
        status = some status;
        is_cached = false;
        error = none;
      }
      | err e ↦ record {
        response_body = none;
        status = some status;
        is_cached = false;
        error = some e;
      }
    ]

-- What originFunc makes of the response.
unfoldable pub judge_response : Option ResponseBody → Result SingleResponseBody OriginFailure
judge_response none = err (failure (other "batched responses do not support caching"))
judge_response (some (ResponseBody.batch rs)) =
    err (failure (other "batched responses do not support caching"))
judge_response (some (ResponseBody.single r)) = elim r.error [
  | some _ ↦ err (handled r)
  | none ↦ if value_or "" r.result == "null" then err (handled r) else ok r
]

unfoldable pub origin_func : Answer → Result SingleResponseBody OriginFailure
unfolding judge_response
origin_func a = elim a.error [ some e ↦ err (failure e) | none ↦ judge_response a.response_body ]

abbrev pub no_answer : Answer
no_answer = record { response_body = none; status = none; is_cached = false; error = none }

-- A response with the ID and the version of the request, and the status 200. A request without an ID
-- panics.
unfoldable pub fill_in : SingleRequestBody → SingleResponseBody → Option Answer
fill_in r body = do
  id ← r.id
  some (record {
    response_body =
        some (ResponseBody.single (record body { id = id; jsonrpc = r.jsonrpc_version }));
    status = some (pos 200);
    is_cached = false;
    error = none;
  })

-- What retrieveOrCacheRequest returns for the result of the cache, where `seen` is what originFunc
-- has set, if it ran.
unfoldable pub resolve :
    SingleRequestBody → Answer → Result (Option String) OriginFailure → Option Answer
unfolding fill_in
resolve r seen (err (failure e)) = some (record seen { response_body = none; error = some e })
resolve r seen (err (handled body)) =
    if is_none seen.status && is_none seen.response_body then fill_in r body else some seen
resolve r seen (ok value) =
    if is_none seen.status && is_none seen.response_body
    then elim value [
      | none ↦ some (record seen { error = some (other "unexpected empty response from cache") })
      | some result ↦
          fill_in r (record { error = none; jsonrpc = ""; result = some result; id = pos 0 })
    ]
    else some seen

-- retrieveOrCacheRequest, where the cache has `read` for the key and the upstream sends `reply` if
-- it is asked. `none` is a panic.
unfoldable pub retrieve_or_cache_request :
    Codec
    → ChainCacheConfig
    → String
    → SingleRequestBody
    → CacheRead
    → HttpReply
    → Option (Answer × Option CacheWrite)
unfolding get_response_body origin_func handle_request_parallel resolve
retrieve_or_cache_request codec c chain r read reply = do
  let fetched = get_response_body codec reply
  let (result, cached, write) = handle_request_parallel c chain r read (origin_func fetched)
  answer ← resolve r (if cached then no_answer else fetched) result
  some (record answer { is_cached = cached }, write)

unfoldable pub use_cache : RequestBody → Option ChainCacheConfig → Bool
unfolding should_cache_method get_method
use_cache body none = false
use_cache body (some c) = should_cache_method (get_method body) c

-- Whether the answer of the cached path is final: an unknown error of the cache is not.
unfoldable pub is_final : Answer → Bool
is_final a = elim a.error [
  | none ↦ true
  | some (decode _ _) ↦ true
  | some (origin _ _ _) ↦ true
  | some _ ↦ false
]

unfoldable pub keep_or_ask :
    Codec → HttpReply → Answer × Option CacheWrite → Answer × Option CacheWrite
unfolding is_final get_response_body
keep_or_ask codec reply (a, write) =
    (if is_final a then a else get_response_body codec reply, write)

-- routeToConfig. The second reply is for the request that is sent without the cache.
unfoldable pub route_to_config :
    Codec
    → Option ChainCacheConfig
    → String
    → RequestBody
    → CacheRead
    → HttpReply
    → HttpReply
    → Option (Answer × Option CacheWrite)
unfolding retrieve_or_cache_request use_cache keep_or_ask get_response_body
route_to_config codec (some c) chain (RequestBody.single r) read first second =
    if use_cache (RequestBody.single r) (some c)
    then (retrieve_or_cache_request codec c chain r read first
        >>= λ (a : Answer × Option CacheWrite). some (keep_or_ask codec second a))
    else some (get_response_body codec second, none)
route_to_config codec (some c) chain (RequestBody.batch rs) read first second =
    some (get_response_body codec second, none)
route_to_config codec none chain body read first second =
    some (get_response_body codec second, none)

-- routeToConfig from its start, where `unbuilt` is the error of Encode or of NewRequestWithContext, if
-- one of them fails.
unfoldable pub build_and_route :
    Option String
    → Codec
    → Option ChainCacheConfig
    → String
    → RequestBody
    → CacheRead
    → HttpReply
    → HttpReply
    → Option (Answer × Option CacheWrite)
unfolding route_to_config
build_and_route (some message) codec c chain body read first second =
    some (record no_answer { error = some (other message) }, none)
build_and_route none codec c chain body read first second =
    route_to_config codec c chain body read first second
