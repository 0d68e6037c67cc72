-- ===== src/Route/Executor/Codes.antt =====
-- The codes in the errors of internal/route/request_executor.go.
use node_gateway.Base.{
  pos, ◌≤ℤ◌, leb_ℤ, String, ◌≡◌, refl, sym, subst, ◌⊎◌, inl, inr, Bool, true, false, Option, none,
  some, arith, ◌==◌, int_eq, if◌then◌else◌, if_true, if_false, Bool-cases, is_none, ◌&&◌, ◌>>=◌,
  if_elim, Option-cases, value_or, string_eq,
}
use node_gateway.Errors.{RouteError, decode, origin, other}
use node_gateway.Config.{ChainCacheConfig}
use node_gateway.Jsonrpc.{RequestBody, ResponseBody, SingleRequestBody, SingleResponseBody}
use node_gateway.Jsonrpc.Codec.{Codec, Result, ok, err, decode_response_body}
use node_gateway.Cache.{
  CacheRead, CacheWrite, hit, miss, broken, from_origin, handle_request_parallel,
}
use node_gateway.Route.Executor.{
  HttpReply, unreachable, unreadable, received, Answer, OriginFailure, handled, failure,
  get_response_body, judge_response, origin_func, no_answer, fill_in, resolve,
  retrieve_or_cache_request, use_cache, is_final, keep_or_ask, route_to_config, build_and_route,
}

-- The code of an origin error is the status 400 or above of the upstream's response, or 0.
unfoldable pub IsOriginCode : Option RouteError → Type 0
IsOriginCode (some (origin _ _ code)) = (code ≡ pos 0) ⊎ (pos 400 ≤ℤ code)
IsOriginCode _ = Unit

-- The predicate on the other results of the executor.
unfoldable IsResultCode : {A : Type 0} → Result A OriginFailure → Type 0
IsResultCode (err (failure e)) = IsOriginCode (some e)
IsResultCode _ = Unit

unfoldable pub IsAnswerCode : Option (Answer × Option CacheWrite) → Type 0
IsAnswerCode none = Unit
IsAnswerCode (some (a, write)) = IsOriginCode a.error

unfoldable IsDecodeCode : Result (Option ResponseBody) RouteError → Type 0
IsDecodeCode (err e) = IsOriginCode (some e)
IsDecodeCode (ok _) = Unit

decode_response_body-codes :
    (codec : Codec) (text : String) → IsDecodeCode (decode_response_body codec text)
unfolding decode_response_body IsOriginCode IsDecodeCode
decode_response_body-codes codec text = if_elim IsDecodeCode (text == "") tt not_empty
  where
    not_empty : IsDecodeCode (elim (codec.decode_response text) [
      | some body ↦ ok (some (ResponseBody.single body))
      | none ↦ elim (codec.decode_responses text) [
        | some bodies ↦ ok (some (ResponseBody.batch bodies))
        | none ↦ err (decode "unexpected decoding response error" text)
      ]
    ])
    not_empty = elim (Option-cases (codec.decode_response text)) [
      | inr (body, e) ↦ rw e tt
      | inl e ↦ elim (Option-cases (codec.decode_responses text)) [
        | inr (bodies, f) ↦ rw (e, f) tt
        | inl f ↦ rw (e, f) tt
      ]
    ]

get_response_body-codes :
    (codec : Codec) (reply : HttpReply) → IsOriginCode (get_response_body codec reply).error
unfolding get_response_body IsOriginCode IsDecodeCode
get_response_body-codes codec (unreachable message) = inl refl
get_response_body-codes codec (unreadable status message) = inl refl
get_response_body-codes codec (received status text) = elim (Bool-cases (leb_ℤ (pos 400) status)) [
  | inl e ↦ subst (λ (a : Answer). IsOriginCode a.error) (sym (if_true _ _ e)) (inr (at_least e))
  | inr e ↦
      subst (λ (a : Answer). IsOriginCode a.error) (sym (if_false _ _ e))
        (decoded (decode_response_body codec text) (decode_response_body-codes codec text))
]
  where
    at_least : leb_ℤ (pos 400) status ≡ true → pos 400 ≤ℤ status
    at_least e = ground arith

    decoded :
        (o : Result (Option ResponseBody) RouteError)
        → IsDecodeCode o
        → IsOriginCode
            (elim o as (λ _. Answer) [
              | ok response ↦ record {
                response_body = response;
                status = some status;
                is_cached = false;
                error = none;
              }
              | err e ↦ record {
                response_body = none;
                status = some status;
                is_cached = false;
                error = some e;
              }
            ]).error
    decoded (ok response) h = tt
    decoded (err e) h = h

judge_response-codes : (o : Option ResponseBody) → IsResultCode (judge_response o)
unfolding judge_response IsOriginCode IsResultCode
judge_response-codes none = tt
judge_response-codes (some (ResponseBody.batch rs)) = tt
judge_response-codes (some (ResponseBody.single r)) = elim (Option-cases r.error) [
  | inr (e, h) ↦ rw h tt
  | inl h ↦ rw h (
      if_elim {left = err (handled r)} {right = ok r} IsResultCode (value_or "" r.result == "null")
        tt tt)
]

origin_func-codes : (a : Answer) → IsOriginCode a.error → IsResultCode (origin_func a)
unfolding origin_func IsResultCode
origin_func-codes a h = elim (Option-cases a.error) [
  | inr (e, f) ↦ rw f (subst IsOriginCode f h)
  | inl f ↦ rw f (judge_response-codes a.response_body)
]

fill_in-codes :
    (r : SingleRequestBody) (body : SingleResponseBody) (cached : Bool) (write : Option CacheWrite)
    → IsAnswerCode
        (fill_in r body >>= λ (a : Answer). some (record a { is_cached = cached }, write))
unfolding fill_in IsAnswerCode IsOriginCode
fill_in-codes r body cached write = elim (Option-cases r.id) [
  | inl e ↦ rw e tt
  | inr (id, e) ↦ rw e tt
]

resolve-codes :
    (r : SingleRequestBody) (seen : Answer) (o : Result (Option String) OriginFailure)
    (cached : Bool) (write : Option CacheWrite)
    → IsOriginCode seen.error
    → IsResultCode o
    → IsAnswerCode
        (resolve r seen o >>= λ (a : Answer). some (record a { is_cached = cached }, write))
unfolding resolve IsAnswerCode IsResultCode IsOriginCode
resolve-codes r seen (err (failure e)) cached write h k = k
resolve-codes r seen (err (handled body)) cached write h k =
    elim (Bool-cases (is_none seen.status && is_none seen.response_body)) [
      | inl e ↦ rw e (fill_in-codes r body cached write)
      | inr e ↦ rw e h
    ]
resolve-codes r seen (ok value) cached write h k =
    elim (Bool-cases (is_none seen.status && is_none seen.response_body)) [
      | inl e ↦ rw e (from_cache value)
      | inr e ↦ rw e h
    ]
  where
    from_cache :
        (value : Option String)
        → IsAnswerCode (
            elim value as (λ _. Option Answer) [
              | none ↦
                  some (record seen { error = some (other "unexpected empty response from cache") })
              | some result ↦
                  fill_in r
                    (record { error = none; jsonrpc = ""; result = some result; id = pos 0 })
            ]
            >>= λ (a : Answer). some (record a { is_cached = cached }, write))
    from_cache none = tt
    from_cache (some result) =
        fill_in-codes r (record { error = none; jsonrpc = ""; result = some result; id = pos 0 })
          cached write

handle-codes :
    (c : ChainCacheConfig) (chain : String) (r : SingleRequestBody) (read : CacheRead)
    (o : Result SingleResponseBody OriginFailure)
    → IsResultCode o
    → IsResultCode (handle_request_parallel c chain r read o).0
unfolding handle_request_parallel from_origin IsResultCode
handle-codes c chain r (hit value) o h = tt
handle-codes c chain r miss (ok body) h = tt
handle-codes c chain r miss (err e) h = h
handle-codes c chain r broken (ok body) h = tt
handle-codes c chain r broken (err e) h = h

retrieve-codes :
    (codec : Codec) (c : ChainCacheConfig) (chain : String) (r : SingleRequestBody)
    (read : CacheRead) (reply : HttpReply)
    → IsAnswerCode (retrieve_or_cache_request codec c chain r read reply)
unfolding retrieve_or_cache_request IsOriginCode
retrieve-codes codec c chain r read reply =
    let fetched = get_response_body codec reply in
    let o = handle_request_parallel c chain r read (origin_func fetched) in
    resolve-codes r (if o.1 then no_answer else fetched) o.0 o.1 o.2
      (if_elim (λ (a : Answer). IsOriginCode a.error) o.1 tt (get_response_body-codes codec reply))
      (handle-codes c chain r read (origin_func fetched)
        (origin_func-codes fetched (get_response_body-codes codec reply)))

keep_or_ask-codes :
    (codec : Codec) (reply : HttpReply) (o : Option (Answer × Option CacheWrite))
    → IsAnswerCode o
    → IsAnswerCode (o >>= λ (a : Answer × Option CacheWrite). some (keep_or_ask codec reply a))
unfolding keep_or_ask IsAnswerCode
keep_or_ask-codes codec reply none h = tt
keep_or_ask-codes codec reply (some (a, write)) h =
    if_elim (λ (a : Answer). IsOriginCode a.error) (is_final a) h
      (get_response_body-codes codec reply)

-- Every origin error that routeToConfig returns has the code 0 or a code of 400 or above, on the
-- paths with and without the cache.
route_to_config-codes :
    (codec : Codec) (cache : Option ChainCacheConfig) (chain : String) (body : RequestBody)
    (read : CacheRead) (first second : HttpReply)
    → IsAnswerCode (route_to_config codec cache chain body read first second)
unfolding route_to_config IsAnswerCode
route_to_config-codes codec none chain body read first second = get_response_body-codes codec second
route_to_config-codes codec (some c) chain (RequestBody.batch rs) read first second =
    get_response_body-codes codec second
route_to_config-codes codec (some c) chain (RequestBody.single r) read first second =
    if_elim IsAnswerCode (use_cache (RequestBody.single r) (some c))
      (keep_or_ask-codes codec second (retrieve_or_cache_request codec c chain r read first)
        (retrieve-codes codec c chain r read first))
      (get_response_body-codes codec second)

pub build_and_route-codes :
    (unbuilt : Option String) (codec : Codec) (cache : Option ChainCacheConfig) (chain : String)
    (body : RequestBody) (read : CacheRead) (first second : HttpReply)
    → IsAnswerCode (build_and_route unbuilt codec cache chain body read first second)
unfolding build_and_route IsAnswerCode IsOriginCode
build_and_route-codes none codec cache chain body read first second =
    route_to_config-codes codec cache chain body read first second
build_and_route-codes (some message) codec cache chain body read first second = tt
