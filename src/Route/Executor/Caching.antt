-- ===== src/Route/Executor/Caching.antt =====
-- What the cache does to the answers of internal/route/request_executor.go.
use mathlib.Core.Bool.{true≢false}
use node_gateway.Base.{
  ℤ, pos, leb_ℤ, if_false, String, ◌≡◌, refl, sym, subst, ◌∙◌, ap, if_true, Option-cases, ◌⊎◌, inl,
  inr, Bool, true, false, Option, none, some, ◌==◌, string_eq, is_none, if◌then◌else◌, Bool-cases,
  ◌>>=◌,
}
use node_gateway.Config.{ChainCacheConfig}
use node_gateway.Config.Ttl.{get_ttl_for_method}
use node_gateway.Errors.{RouteError, decode, origin, no_healthy_upstreams, other}
use node_gateway.Jsonrpc.{
  ErrorObject, SingleRequestBody, RequestBody, SingleResponseBody, ResponseBody, get_method,
}
use node_gateway.Jsonrpc.Codec.{Codec, Result, ok, err, decode_response_body}
use node_gateway.Cache.{
  CacheRead, CacheWrite, hit, miss, broken, should_cache_method, from_origin,
  handle_request_parallel,
}
use node_gateway.Cache.Key.{create_request_key}
use node_gateway.Route.Executor.{
  HttpReply, unreachable, unreadable, received, Answer, get_response_body, judge_response,
  origin_func, no_answer, fill_in, resolve, retrieve_or_cache_request, use_cache, is_final,
  keep_or_ask, route_to_config,
}

-- On a hit with a value that is not nil, a single request for a cached method that has an ID is
-- answered from the cache, with its own ID and version and the status 200, whatever the upstream
-- would say, and nothing is written; a request without an ID panics.
pub route_to_config-hit :
    (codec : Codec) (c : ChainCacheConfig) (chain : String) (r : SingleRequestBody) (value : String)
    (first second : HttpReply)
    → should_cache_method r.method c ≡ true
    → route_to_config codec (some c) chain (RequestBody.single r) (hit (some value)) first second
      ≡ (r.id >>= λ (id : ℤ). some (
        record {
          response_body = some (
              ResponseBody.single (record {
                error = none;
                jsonrpc = r.jsonrpc_version;
                result = some value;
                id = id;
              }));
          status = some (pos 200);
          is_cached = true;
          error = none;
        },
        none,
      ))
unfolding route_to_config retrieve_or_cache_request use_cache handle_request_parallel resolve
    fill_in is_final keep_or_ask get_method
route_to_config-hit codec c chain r value first second cached =
    if_true _ _ cached ∙ elim (Option-cases r.id) [ inl e ↦ rw e refl | inr (id, e) ↦ rw e refl ]

-- What may be stored of an answer: a result of a single request that is neither an error nor null.
unfoldable pub stored : ChainCacheConfig → String → SingleRequestBody → Answer → Option CacheWrite
stored c chain r a = elim a.response_body [
  | some (ResponseBody.single body) ↦ if is_none body.error then keep body.result else none
  | _ ↦ none
]
  where
    keep : Option String → Option CacheWrite
    keep none = none
    keep (some result) =
        if result == "null"
        then none
        else some (record {
          key = create_request_key chain r;
          value = result;
          ttl = get_ttl_for_method r.method c;
        })

abbrev refused : Option ℤ → RouteError → Answer
refused status e = record {
  response_body = none;
  status = status;
  is_cached = false;
  error = some e;
}

abbrev pub accepted : Option ResponseBody → ℤ → Answer
accepted body status = record {
  response_body = body;
  status = some status;
  is_cached = false;
  error = none;
}

-- An answer of the upstream has an error and no response, or no error and a status.
abbrev Shape : Answer → Type 0
Shape a =
    ((status : Option ℤ) × (e : RouteError) × (a ≡ refused status e))
    ⊎ ((body : Option ResponseBody) × (status : ℤ) × (a ≡ accepted body status))

get_response_body-Shape :
    (codec : Codec) (reply : HttpReply) → Shape (get_response_body codec reply)
unfolding get_response_body
get_response_body-Shape codec (unreachable message) = inl (_, _, refl)
get_response_body-Shape codec (unreadable status message) = inl (_, _, refl)
get_response_body-Shape codec (received status body) = elim (Bool-cases (leb_ℤ (pos 400) status)) [
  | inl e ↦ inl (_, _, if_true _ _ e)
  | inr e ↦ decoded e (decode_response_body codec body) refl
]
  where
    decoded :
        leb_ℤ (pos 400) status ≡ false
        → (o : Result (Option ResponseBody) RouteError) → decode_response_body codec body ≡ o
        → Shape (get_response_body codec (received status body))
    decoded e (ok response) d = inr (response, status, if_false _ _ e ∙ rw d refl)
    decoded e (err error) d = inl (some status, error, if_false _ _ e ∙ rw d refl)

-- The cached path on what the upstream has answered.
abbrev pub settle :
    ChainCacheConfig → String → SingleRequestBody → Answer → Option (Answer × Option CacheWrite)
settle c chain r a =
    let (result, cached, write) = from_origin c chain r (origin_func a) in
    resolve r (if cached then no_answer else a) result >>= λ (b : Answer).
    some (record b { is_cached = cached }, write)

module _ (c : ChainCacheConfig) (chain : String) (r : SingleRequestBody) where
  pub settle-body :
      (error : Option ErrorObject) (jsonrpc : String) (result : Option String) (id status : ℤ)
      → let body : SingleResponseBody = record {
        error = error;
        jsonrpc = jsonrpc;
        result = result;
        id = id;
      } in
        let a = accepted (some (ResponseBody.single body)) status in
        settle c chain r a ≡ some (a, stored c chain r a)
  unfolding from_origin origin_func judge_response resolve stored
  settle-body (some e) jsonrpc result id status = refl
  settle-body none jsonrpc none id status = refl
  settle-body none jsonrpc (some v) id status = elim (Bool-cases (v == "null")) [
    | inl e ↦ rw e refl
    | inr e ↦ rw e refl
  ]

  module _ (codec : Codec) (reply : HttpReply) where
    -- What the cached path makes of the upstream's answer is that answer, kept or asked for again.
    abbrev Settles : Answer → Type 0
    Settles a =
        (settle c chain r a >>= λ (b : Answer × Option CacheWrite).
        some (keep_or_ask codec reply b))
        ≡ some (a, stored c chain r a)

    settle-refused :
        (status : Option ℤ) (e : RouteError)
        → get_response_body codec reply ≡ refused status e
        → Settles (refused status e)
    unfolding from_origin origin_func resolve stored keep_or_ask is_final
    settle-refused status (decode message content) asked = refl
    settle-refused status (origin message response code) asked = refl
    settle-refused status no_healthy_upstreams asked = rw asked refl
    settle-refused status (other message) asked = rw asked refl

    settle-accepted :
        (body : Option ResponseBody) (status : ℤ)
        → get_response_body codec reply ≡ accepted body status
        → Settles (accepted body status)
    unfolding from_origin origin_func judge_response resolve stored keep_or_ask is_final
    settle-accepted none status asked = rw asked refl
    settle-accepted (some (ResponseBody.batch rs)) status asked = rw asked refl
    settle-accepted (some (ResponseBody.single body)) status asked =
        ap
          (λ (o : Option (Answer × Option CacheWrite)).
            o >>= λ (b : Answer × Option CacheWrite). some (keep_or_ask codec reply b))
          (settle-body body.error body.jsonrpc body.result body.id status)

    settle-answer : (a : Answer) → Shape a → get_response_body codec reply ≡ a → Settles a
    settle-answer a (inl (status, e, same)) asked =
        subst Settles (sym same) (settle-refused status e (asked ∙ same))
    settle-answer a (inr (body, status, same)) asked =
        subst Settles (sym same) (settle-accepted body status (asked ∙ same))

abbrev pub is_hit : CacheRead → Bool
is_hit (hit value) = true
is_hit miss = false
is_hit broken = false

-- Where the cache has nothing for the key, or fails, the answer to a single request for a cached
-- method is what the upstream answers to the same request without the cache, errors included, if
-- it answers alike when it is asked twice; it never panics. The write is the result of a single
-- response that is neither a JSON-RPC error nor null, under the request's key with the method's
-- TTL, and there is no write otherwise.
pub route_to_config-miss :
    (codec : Codec) (c : ChainCacheConfig) (chain : String) (r : SingleRequestBody)
    (read : CacheRead) (reply : HttpReply)
    → should_cache_method r.method c ≡ true
    → is_hit read ≡ false
    → route_to_config codec (some c) chain (RequestBody.single r) read reply reply
      ≡ some (get_response_body codec reply, stored c chain r (get_response_body codec reply))
unfolding route_to_config retrieve_or_cache_request use_cache handle_request_parallel get_method
route_to_config-miss codec c chain r (hit value) reply cached empty = absurd (true≢false empty)
route_to_config-miss codec c chain r miss reply cached empty =
    if_true _ _ cached
    ∙ settle-answer c chain r codec reply (get_response_body codec reply)
        (get_response_body-Shape codec reply) refl
route_to_config-miss codec c chain r broken reply cached empty =
    if_true _ _ cached
    ∙ settle-answer c chain r codec reply (get_response_body codec reply)
        (get_response_body-Shape codec reply) refl
