-- ===== src/Route/Upstream/Sending/Attempts.antt =====
-- How often routeToConfig of internal/route/request_executor.go sends its request, and what it makes of
-- the replies.
use node_gateway.Base.{
  ℕ, zero, suc, ◌+◌, pos, leb_ℤ, String, ◌≡◌, refl, ap, Bool, false, inl, inr, Bool-cases, Option,
  none, some, Option-cases, List, [], ◌∷◌, ◌++◌, length, not, ◌&&◌, ◌||◌, is_none, is_some, ◌==◌,
  string_eq, if◌then◌else◌, ◌>>=◌,
}
use node_gateway.Config.{UpstreamConfig, ChainCacheConfig}
use node_gateway.Jsonrpc.{RequestBody, SingleRequestBody, get_method}
use node_gateway.Jsonrpc.Codec.{Codec, ok, decode_response_body}
use node_gateway.Cache.{
  CacheRead, hit, miss, broken, CacheWrite, should_cache_method, from_origin,
  handle_request_parallel,
}
use node_gateway.Route.Executor.{
  HttpReply, unreachable, unreadable, received, Answer, judge_response, origin_func, resolve,
  fill_in, route_to_config, get_response_body, retrieve_or_cache_request, use_cache, is_final,
  keep_or_ask,
}
use node_gateway.Route.Executor.Caching.{is_hit, settle, settle-body}
use node_gateway.Route.Upstream.{Outgoing, build_request, request_headers, clone_request, send}
use node_gateway.Route.Upstream.Sending.{
  Transport, ask_directly, fall_back, execute_cached, execute_built, execute,
}

-- Whether the cached path ends with an error that is not final.
abbrev is_open : Option (Answer × Option CacheWrite) → Bool
is_open none = false
is_open (some (a, write)) = not (is_final a)

fall_back-keep_or_ask :
    (codec : Codec) (transport : Transport) (r : Outgoing) (o : Option (Answer × Option CacheWrite))
    (sent : List Outgoing)
    → fall_back codec transport r o sent ≡ (
      o >>= λ (a : Answer × Option CacheWrite).
          some (keep_or_ask codec (transport (length sent) r) a),
      if is_open o then sent ++ r ∷ [] else sent,
    )
unfolding fall_back ask_directly send keep_or_ask
fall_back-keep_or_ask codec transport r none sent = refl
fall_back-keep_or_ask codec transport r (some (a, write)) sent = elim (Bool-cases (is_final a)) [
  | inl e ↦ rw e refl
  | inr e ↦ rw e refl
]

-- A response without an error that is empty or a batch: the upstream is asked again without the cache.
unfoldable pub is_asked_again : Codec → HttpReply → Bool
is_asked_again codec (unreachable message) = false
is_asked_again codec (unreadable status message) = false
is_asked_again codec (received status text) =
    not (leb_ℤ (pos 400) status)
    && (text == "" || is_none (codec.decode_response text) && is_some (codec.decode_responses text))

module _ (codec : Codec) (c : ChainCacheConfig) (chain : String) (r : SingleRequestBody) where
  settle-is_asked_again :
      (reply : HttpReply)
      → is_open (settle c chain r (get_response_body codec reply)) ≡ is_asked_again codec reply
  unfolding get_response_body from_origin origin_func judge_response resolve is_final is_asked_again
      decode_response_body
  settle-is_asked_again (unreachable message) = refl
  settle-is_asked_again (unreadable status message) = refl
  settle-is_asked_again (received status text) = elim (Bool-cases (leb_ℤ (pos 400) status)) [
    | inl high ↦ rw high refl
    | inr low ↦ elim (Bool-cases (text == "")) [
      | inl nothing ↦ rw (low, nothing) refl
      | inr something ↦ elim (Option-cases (codec.decode_response text)) [
        | inr (body, e) ↦
            let body_settled =
              settle-body c chain r body.error body.jsonrpc body.result body.id status in
            rw (low, something, e) (ap is_open body_settled)
        | inl e ↦ elim (Option-cases (codec.decode_responses text)) [
          | inr (bodies, f) ↦ rw (low, something, e, f) refl
          | inl f ↦ rw (low, something, e, f) refl
        ]
      ]
    ]
  ]

-- How many requests are sent past the cache, where the first has the reply `first`, and how many
-- without it.
unfoldable pub cached_sends : Codec → CacheRead → HttpReply → ℕ × ℕ
unfolding is_asked_again
cached_sends codec (hit (some value)) first = (0, 0)
cached_sends codec (hit none) first = (0, 1)
cached_sends codec miss first = (1, if is_asked_again codec first then 1 else 0)
cached_sends codec broken first = (1, if is_asked_again codec first then 1 else 0)

unfoldable pub sends : Codec → Option ChainCacheConfig → RequestBody → CacheRead → HttpReply → ℕ × ℕ
unfolding should_cache_method cached_sends
sends codec (some c) (RequestBody.single r) read first =
    if should_cache_method r.method c then cached_sends codec read first else (0, 1)
sends codec c body read first = (0, 1)

unfoldable pub copies : ℕ → Outgoing → List Outgoing
copies zero r = []
copies (suc n) r = r ∷ copies n r

module _ (codec : Codec) (c : ChainCacheConfig) (chain : String) (single : SingleRequestBody)
    (transport : Transport) (r : Outgoing) where
  -- What the cached path comes to where it sends `n.0` requests and then `n.1`.
  abbrev Comes : CacheRead → ℕ × ℕ → Type 0
  Comes read n = execute_cached codec c chain single transport read r ≡ (
    retrieve_or_cache_request codec c chain single read (transport 0 r)
        >>= λ (a : Answer × Option CacheWrite). some (keep_or_ask codec (transport n.0 r) a),
    copies (n.0 + n.1) r,
  )

  asked-Comes :
      (read : CacheRead)
      → is_hit read ≡ false
      → retrieve_or_cache_request codec c chain single read (transport 0 r)
        ≡ settle c chain single (get_response_body codec (transport 0 r))
      → Comes read (1, if is_asked_again codec (transport 0 r) then 1 else 0)
  unfolding execute_cached clone_request send copies
  asked-Comes read empty settled =
      let again = settle-is_asked_again codec c chain single (transport 0 r) in
      rw (execute_cached, empty, fall_back-keep_or_ask, settled, again)
        (elim (Bool-cases (is_asked_again codec (transport 0 r))) [
          | inl e ↦ rw e refl
          | inr e ↦ rw e refl
        ])

  execute_cached-Comes : (read : CacheRead) → Comes read (cached_sends codec read (transport 0 r))
  unfolding execute_cached clone_request send retrieve_or_cache_request handle_request_parallel
      resolve fill_in cached_sends copies fall_back is_final keep_or_ask ask_directly
  execute_cached-Comes (hit none) = refl
  execute_cached-Comes (hit (some value)) = elim (Option-cases single.id) [
    | inl e ↦ rw e refl
    | inr (id, e) ↦ rw e refl
  ]
  execute_cached-Comes miss = asked-Comes miss refl refl
  execute_cached-Comes broken = asked-Comes broken refl refl

abbrev pub whole_request : UpstreamConfig → String → Outgoing
whole_request u text = record { url = u.http_url; headers = request_headers u; body = text }

execute_built-route_to_config :
    (codec : Codec) (c : Option ChainCacheConfig) (chain : String) (body : RequestBody)
    (transport : Transport) (read : CacheRead) (r : Outgoing)
    → let n = sends codec c body read (transport 0 r) in
      execute_built codec c chain body transport read r ≡ (
        route_to_config codec c chain body read (transport 0 r) (transport n.0 r),
        copies (n.0 + n.1) r,
      )
unfolding execute_built ask_directly send sends route_to_config use_cache get_method copies
execute_built-route_to_config codec none chain body transport read r = refl
execute_built-route_to_config codec (some c) chain (RequestBody.batch rs) transport read r = refl
execute_built-route_to_config codec (some c) chain (RequestBody.single single) transport read r =
    elim (Bool-cases (should_cache_method single.method c)) [
      | inl e ↦
          rw (execute_built, sends, route_to_config, use_cache, e)
            (execute_cached-Comes codec c chain single transport r read)
      | inr e ↦ rw (execute_built, sends, route_to_config, use_cache, e) refl
    ]

-- Where the body can be encoded and the URL is one of a request, routeToConfig answers as the model
-- of it does for the replies of the upstream to the requests that are sent, and each of them is the
-- whole request, with its body. For a single request of a cached method none is sent on a hit with a
-- value that is not nil and one on a hit with the nil slice; where the cache has nothing or fails,
-- one is sent past the cache, and a second exactly where the reply to the first has a status below
-- 400 and a body that is empty or decodes as a batch alone. Without the cache, for a batch and for a
-- method that is not cached, one is sent. The upstream may answer each request as it likes.
pub execute-route_to_config :
    (codec : Codec) (c : Option ChainCacheConfig) (chain : String) (body : RequestBody)
    (new_request : String → Option String) (text : String) (transport : Transport)
    (read : CacheRead) (u : UpstreamConfig)
    → new_request u.http_url ≡ none
    → let whole = whole_request u text in
      let n = sends codec c body read (transport 0 whole) in
      execute codec c chain body new_request (ok text) transport read u ≡ (
        route_to_config codec c chain body read (transport 0 whole) (transport n.0 whole),
        copies (n.0 + n.1) whole,
      )
unfolding execute
execute-route_to_config codec c chain body new_request text transport read u valid =
    rw (execute, built)
      (execute_built-route_to_config codec c chain body transport read (whole_request u text))
  where
    built : build_request new_request (ok text) u ≡ ok (whole_request u text)
    built = rw (build_request, valid) refl
