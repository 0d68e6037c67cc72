-- ===== src/Route/Upstream/Sending.antt =====
-- routeToConfig of internal/route/request_executor.go from the request that is built to the answer,
-- with the requests that are sent to the upstream.
pub mod Attempts
use node_gateway.Base.{
  ℕ, zero, suc, ◌+◌, pos, leb_ℤ, String, ◌≡◌, refl, sym, ap, Bool, true, false, inl, inr, ◌∙◌,
  if_true, if_false, if_elim, Bool-cases, Option, none, some, Option-cases, List, [], ◌∷◌, ◌++◌,
  length, not, ◌&&◌, ◌||◌, is_none, is_some, ◌==◌, string_eq, if◌then◌else◌, ◌>>=◌,
}
use node_gateway.Config.{UpstreamConfig, ChainCacheConfig}
use node_gateway.Errors.{other}
use node_gateway.Jsonrpc.{
  RequestBody, SingleRequestBody, SingleResponseBody, ResponseBody, get_method,
}
use node_gateway.Jsonrpc.Codec.{Codec, Result, ok, err, decode_response_body}
use node_gateway.Cache.{
  CacheRead, hit, miss, broken, CacheWrite, should_cache_method, from_origin,
  handle_request_parallel,
}
use node_gateway.Route.Executor.{
  HttpReply, unreachable, unreadable, received, Answer, no_answer, judge_response, origin_func,
  resolve, fill_in, route_to_config, get_response_body, retrieve_or_cache_request, use_cache,
  is_final, keep_or_ask,
}
use node_gateway.Route.Executor.Caching.{is_hit, settle, settle-body, accepted}
use node_gateway.Route.Upstream.{Outgoing, build_request, request_headers, clone_request, send}

-- What net/http and the upstream make of a request, by the number of requests that were sent before.
abbrev pub Transport : Type 0
Transport = ℕ → Outgoing → HttpReply

abbrev pub Sent : Type 0
Sent = Option (Answer × Option CacheWrite) × List Outgoing

-- The request that is sent without the cache, after the requests `sent`.
unfoldable pub ask_directly :
    Codec → Transport → Outgoing → Option CacheWrite → List Outgoing → Sent
unfolding send get_response_body
ask_directly codec transport r write sent =
    let (reply, _) = send (transport (length sent)) r in
    (some (get_response_body codec reply, write), sent ++ r ∷ [])

-- What follows the cached path: an unknown error of the cache falls back to asking directly.
unfoldable pub fall_back :
    Codec → Transport → Outgoing → Option (Answer × Option CacheWrite) → List Outgoing → Sent
unfolding is_final ask_directly
fall_back codec transport r none sent = (none, sent)
fall_back codec transport r (some (a, write)) sent =
    if is_final a then (some (a, write), sent) else ask_directly codec transport r write sent

-- The cached path sends the clone, where the cache asks the origin.
unfoldable pub execute_cached :
    Codec → ChainCacheConfig → String → SingleRequestBody → Transport → CacheRead → Outgoing → Sent
unfolding clone_request send retrieve_or_cache_request fall_back
execute_cached codec c chain single transport read r =
    let (kept, clone) = clone_request r in
    let (reply, _) = send (transport 0) clone in
    fall_back codec transport kept (retrieve_or_cache_request codec c chain single read reply)
      (if is_hit read then [] else clone ∷ [])

unfoldable pub execute_built :
    Codec → Option ChainCacheConfig → String → RequestBody → Transport → CacheRead → Outgoing → Sent
unfolding use_cache execute_cached ask_directly
execute_built codec (some c) chain (RequestBody.single single) transport read r =
    if use_cache (RequestBody.single single) (some c)
    then execute_cached codec c chain single transport read r
    else ask_directly codec transport r none []
execute_built codec c chain body transport read r = ask_directly codec transport r none []

-- routeToConfig; `encoded` is the text of the body or the error of encoding it.
unfoldable pub execute :
    Codec
    → Option ChainCacheConfig
    → String
    → RequestBody
    → (String → Option String)
    → Result String String
    → Transport
    → CacheRead
    → UpstreamConfig
    → Sent
unfolding build_request execute_built
execute codec c chain body new_request encoded transport read u =
    elim (build_request new_request encoded u) [
      | err message ↦ (some (record no_answer { error = some (other message) }, none), [])
      | ok r ↦ execute_built codec c chain body transport read r
    ]
