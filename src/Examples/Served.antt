-- ===== src/Examples/Served.antt =====
-- Tests of the cache, of internal/route/request_executor.go and of internal/server.
use node_gateway.Base.{ℕ, ℤ, pos, ◌≡◌, refl, true, [], ◌∷◌, Option, none, some, ◌>>=◌, lookup}
use node_gateway.Config.{UpstreamConfig}
use node_gateway.Config.Ttl.{get_ttl_for_method}
use node_gateway.Jsonrpc.{text, number, RequestBody, ResponseBody}
use node_gateway.Jsonrpc.Codec.{ok}
use node_gateway.Cache.{hit, miss, should_cache_method}
use node_gateway.Cache.Key.{create_request_key}
use node_gateway.Route.World.{World}
use node_gateway.Route.RoundRobin
use node_gateway.Route.Executor.{
  HttpReply, received, unreachable, get_response_body, route_to_config,
}
use node_gateway.Route.Executor.Caching.{stored, route_to_config-hit, route_to_config-miss}
use node_gateway.Route.Router.{Router, Exchange, new_router, route}
use node_gateway.Route.Router.Serving.{Every}
use node_gateway.Server.{HttpRequest, HttpResponse, serve_http}
use node_gateway.Server.Statuses.{IsAnswered, serve_http-IsAnswered}
use node_gateway.Examples.Data.{
  breaker, upstreams, groups, world, call_request, codec, cache_config,
}

-- The number 1 and the text "1" have the same key.
one_key :
    create_request_key "mainnet" (record call_request { params = number "1" ∷ [] })
    ≡ create_request_key "mainnet" (record call_request { params = text "1" ∷ [] })
unfolding create_request_key
one_key = refl

-- A test of internal/cache/rpc_cache_test.go: the parts of a key.
key_parts :
    create_request_key "mainnet" (record call_request { params = number "1" ∷ text "latest" ∷ [] })
    ≡ "mainnet:eth_call:[1,latest]"
unfolding create_request_key
key_parts = refl

abbrev success : HttpReply
success = received (pos 200) "17"

cached_method : should_cache_method call_request.method cache_config ≡ true
unfolding should_cache_method get_ttl_for_method lookup
cached_method = refl

route_to_config-hit_example :
    route_to_config codec
      (some cache_config)
      "mainnet"
      (RequestBody.single call_request)
      (hit (some "17"))
      (unreachable "refused")
      success
    ≡ (call_request.id >>= λ (id : ℤ). some (
      record {
        response_body = some (
            ResponseBody.single (record {
              error = none;
              jsonrpc = call_request.jsonrpc_version;
              result = some "17";
              id = id;
            }));
        status = some (pos 200);
        is_cached = true;
        error = none;
      },
      none,
    ))
route_to_config-hit_example =
    route_to_config-hit codec cache_config "mainnet" call_request "17" (unreachable "refused")
      success cached_method

route_to_config-miss_example :
    route_to_config codec
      (some cache_config)
      "mainnet"
      (RequestBody.single call_request)
      miss
      success
      success
    ≡ some (
      get_response_body codec success,
      stored cache_config "mainnet" call_request (get_response_body codec success),
    )
route_to_config-miss_example =
    route_to_config-miss codec cache_config "mainnet" call_request miss success cached_method refl

abbrev router : Router
router = new_router "mainnet" (some cache_config) codec upstreams groups

abbrev exchange : Option UpstreamConfig → Exchange
exchange config = record {
  unbuilt = none;
  read = miss;
  first = success;
  second = success;
  latency = pos 20;
  finished = 30;
}

abbrev http_request : HttpRequest
http_request = record {
  path = "/mainnet";
  method = "POST";
  content_type = "application/json";
  client = "";
  body = ok "17";
}

serve_http-IsAnswered_example :
    Every
      (λ (x : HttpResponse × World ℕ). IsAnswered x.0)
      (serve_http codec "/mainnet"
        (λ body. route router RoundRobin.route_next_request body exchange)
        http_request
        world)
serve_http-IsAnswered_example =
    serve_http-IsAnswered router RoundRobin.route_next_request exchange codec "/mainnet"
      http_request world
