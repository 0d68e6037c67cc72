-- ===== src/Server/Statuses.antt =====
-- The statuses that internal/server/rpc_handler.go answers with.
use node_gateway.Base.{
  pos, ◌≤ℤ◌, String, ◌≡◌, refl, ◌⊎◌, inl, inr, Option, none, some, arith, ◌==◌, int_eq, int_beq_iff,
  if_elim, any, Option-cases, string_eq,
}
use node_gateway.Errors.{RouteError, decode, origin, no_healthy_upstreams, other}
use node_gateway.Jsonrpc.{RequestBody, ResponseBody}
use node_gateway.Jsonrpc.Codec.{Codec, Result, ok, err, decode_request_body}
use node_gateway.Cache.{CacheWrite}
use node_gateway.Route.Executor.{Answer, build_and_route}
use node_gateway.Route.Executor.Codes.{IsOriginCode}
use node_gateway.Config.{UpstreamConfig}
use node_gateway.Checks.Breaker.{CircuitBreaker}
use node_gateway.Checks.Manager
use node_gateway.Checks.Manager.{HealthCheckManager}
use node_gateway.Metadata.Parser.{parse}
use node_gateway.Route.World.{World, M, return}
use node_gateway.Route.Filtering.{RoutingStrategy}
use node_gateway.Route.Router.Serving.{Every}
use node_gateway.Route.Executor.{build_and_route}
use node_gateway.Route.Executor.Codes.{IsAnswerCode, build_and_route-codes}
use node_gateway.Route.Router.{
  Routed, Router, Exchange, find_config, request_data, ask_upstream, route,
}
use node_gateway.Server.{
  HttpResponse, respond_json, respond_raw, respond_json_rpc, status_of_error, respond_routed,
  serve_decoded, serve_body, serve_http, HttpRequest, content_types,
}

status_of_error-failure : (e : RouteError) → IsOriginCode (some e) → pos 400 ≤ℤ status_of_error e
unfolding IsOriginCode status_of_error
status_of_error-failure (origin m r code) (inl zero) = ground (arith, int_beq_iff code (pos 0))
status_of_error-failure (origin m r code) (inr h) = ground (arith, int_beq_iff code (pos 0))
status_of_error-failure (decode m c) h = omega arith
status_of_error-failure no_healthy_upstreams h = omega arith
status_of_error-failure (other m) h = omega arith

-- The status is 200, or 400 or above with no upstream named.
abbrev pub IsAnswered : HttpResponse → Type 0
IsAnswered r = (r.status ≡ pos 200) ⊎ ((pos 400 ≤ℤ r.status) × (r.upstream_id ≡ none))

respond_json_rpc-IsAnswered :
    (codec : Codec) (id : Option String) (body : Option ResponseBody)
    → IsAnswered (respond_json_rpc codec id body (pos 200))
unfolding respond_json_rpc
respond_json_rpc-IsAnswered codec id none = inl refl
respond_json_rpc-IsAnswered codec id (some body) =
    elim (Option-cases (codec.encode_response body)) [
      | inl e ↦ rw (respond_json_rpc, e) (inl refl)
      | inr (text, e) ↦ rw (respond_json_rpc, e) (inl refl)
    ]

refusal-IsAnswered :
    (codec : Codec) (body : ResponseBody)
    → IsAnswered (respond_json_rpc codec none (some body) (pos 400))
unfolding respond_json_rpc
refusal-IsAnswered codec body = elim (Option-cases (codec.encode_response body)) [
  | inl e ↦ rw (respond_json_rpc, e) (inl refl)
  | inr (text, e) ↦ rw (respond_json_rpc, e) (inr (omega arith, refl))
]

respond_routed-IsAnswered :
    (codec : Codec) (id : String) (body : Option ResponseBody) (e : Option RouteError)
    (write : Option CacheWrite)
    → IsOriginCode e
    → IsAnswered (
        respond_routed codec
          (record { upstream_id = id; response_body = body; error = e; write = write }))
unfolding respond_routed respond_json respond_raw
respond_routed-IsAnswered codec id body none write h =
    respond_json_rpc-IsAnswered codec (some id) body
respond_routed-IsAnswered codec id body (some (decode m c)) write h = inl refl
respond_routed-IsAnswered codec id body (some no_healthy_upstreams) write h =
    inr (omega arith, refl)
respond_routed-IsAnswered codec id body (some (origin m r code)) write h =
    inr (status_of_error-failure (origin m r code) h, refl)
respond_routed-IsAnswered codec id body (some (other m)) write h = inr (omega arith, refl)

module _ {S : Type 0} ⦃b : CircuitBreaker S⦄ (r : Router) (strategy : RoutingStrategy S)
    (exchange : Option UpstreamConfig → Exchange) where
  abbrev HasCodes : Option (Routed × World S) → Type 0
  HasCodes = Every (λ (x : Routed × World S). IsOriginCode x.0.error)

  recorded-codes :
      (id : String) (a : Answer) (write : Option CacheWrite) (w : World S)
      (o : Option (HealthCheckManager S))
      → IsOriginCode a.error
      → HasCodes (elim o as (λ _. Option (Routed × World S)) [
        | none ↦ none
        | some m ↦ some (
          record {
            upstream_id = id;
            response_body = a.response_body;
            error = a.error;
            write = write;
          },
          record w { manager = m },
        )
      ])
  recorded-codes id a write w none h = tt
  recorded-codes id a write w (some m) h = h

  ask_upstream-codes :
      (body : RequestBody) (id : String) (w : World S)
      → HasCodes (ask_upstream r body exchange id w)
  unfolding ask_upstream IsOriginCode IsAnswerCode
  ask_upstream-codes body id w =
      let x = exchange (find_config id r.upstream_configs) in
      asked (build_and_route x.unbuilt r.codec r.cache r.chain_name body x.read x.first x.second)
        (build_and_route-codes x.unbuilt r.codec r.cache r.chain_name body x.read x.first x.second)
    where
      asked :
          (o : Option (Answer × Option CacheWrite))
          → IsAnswerCode o
          → HasCodes (elim o as (λ _. Option (Routed × World S)) [
            | none ↦ none
            | some (a, write) ↦
                elim (Manager.record_request
                  (exchange (find_config id r.upstream_configs)).finished
                  id
                  (request_data body a (exchange (find_config id r.upstream_configs)).latency)
                  w.manager) [
                    | none ↦ none
                    | some m ↦ some (
                      record {
                        upstream_id = id;
                        response_body = a.response_body;
                        error = a.error;
                        write = write;
                      },
                      record w { manager = m },
                    )
                  ]
          ])
      asked none h = tt
      asked (some (a, write)) h =
          recorded-codes id a write w
            (Manager.record_request (exchange (find_config id r.upstream_configs)).finished id
              (request_data body a (exchange (find_config id r.upstream_configs)).latency)
              w.manager)
            h

  route-codes : (body : RequestBody) (w : World S) → HasCodes (route r strategy body exchange w)
  unfolding route IsOriginCode
  route-codes body w = chosen (strategy r.priority_to_upstreams (parse body) w)
    where
      chosen :
          (o : Option (Option String × World S))
          → HasCodes (elim o as (λ _. Option (Routed × World S)) [
            | none ↦ none
            | some (id, v) ↦
                (elim id as (λ _. M S Routed) [
                  | none ↦ return (record {
                    upstream_id = "";
                    response_body = none;
                    error = some no_healthy_upstreams;
                    write = none;
                  })
                  | some id ↦ ask_upstream r body exchange id
                ])
                  v
          ])
      chosen none = tt
      chosen (some (none, v)) = tt
      chosen (some (some id, v)) = ask_upstream-codes body id v

  abbrev EveryAnswered : Option (HttpResponse × World S) → Type 0
  EveryAnswered = Every (λ (x : HttpResponse × World S). IsAnswered x.0)

  routed-IsAnswered :
      (codec : Codec) (o : Option (Routed × World S))
      → HasCodes o
      → EveryAnswered (elim o as (λ _. Option (HttpResponse × World S)) [
        | none ↦ none
        | some (x, v) ↦ return (respond_routed codec x) v
      ])
  routed-IsAnswered codec none h = tt
  routed-IsAnswered codec (some (x, v)) h =
      respond_routed-IsAnswered codec x.upstream_id x.response_body x.error x.write h

  decoded-IsAnswered :
      (codec : Codec) (w : World S) (o : Result RequestBody RouteError)
      → EveryAnswered (serve_decoded codec (λ body. route r strategy body exchange) o w)
  unfolding serve_decoded
  decoded-IsAnswered codec w (ok body) =
      routed-IsAnswered codec (route r strategy body exchange w) (route-codes body w)
  decoded-IsAnswered codec w (err e) = refusal-IsAnswered codec _

  body-IsAnswered :
      (codec : Codec) (w : World S) (o : Result String String)
      → EveryAnswered (serve_body codec (λ body. route r strategy body exchange) o w)
  unfolding serve_body respond_json
  body-IsAnswered codec w (err e) = inr (omega arith, refl)
  body-IsAnswered codec w (ok text) = decoded-IsAnswered codec w (decode_request_body codec text)

  -- Every response of a chain's handler over the router has the status 200, or a status of 400 or
  -- above and names no upstream, whatever the request, the strategy, the upstream, the cache and
  -- the checks do. (A request to another path, or a panic in routing, has no response.)
  pub serve_http-IsAnswered :
      (codec : Codec) (path : String) (req : HttpRequest) (w : World S)
      → EveryAnswered (serve_http codec path (λ body. route r strategy body exchange) req w)
  unfolding serve_http respond_json
  serve_http-IsAnswered codec path req w =
      if_elim EveryAnswered (req.path == path)
        (if_elim EveryAnswered (req.method == "POST")
          (if_elim EveryAnswered (any (λ t. t == req.content_type) content_types)
            (body-IsAnswered codec w req.body) (inr (omega arith, refl)))
          (inr (omega arith, refl)))
        tt
