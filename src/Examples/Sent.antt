-- ===== src/Examples/Sent.antt =====
-- Tests of the requests to upstreams and of internal/client/ethereum_client.go.
use node_gateway.Base.{
  zero, suc, ◌+◌, String, ℕ, pos, ◌≡◌, refl, not, ◌&&◌, List, [], ◌∷◌, none, some, ◌==◌, string_eq,
  if◌then◌else◌, ◌>>=◌, bytes, base64, symbol, Option, lookup,
}
use node_gateway.Config.{UpstreamConfig}
use node_gateway.Jsonrpc.{RequestBody}
use node_gateway.Jsonrpc.Codec.{ok}
use node_gateway.Cache.{miss, should_cache_method}
use node_gateway.Route.Executor.{received, no_answer, route_to_config}
use node_gateway.Route.Upstream.{canonical_header_key, build_request, basic_auth, request_headers}
use node_gateway.Route.Upstream.Credentials.{
  HasNoColon, read_basic_auth, read_basic_auth-request_headers,
}
use node_gateway.Route.Upstream.Sending.{Transport, execute}
use node_gateway.Route.Upstream.Sending.Attempts.{
  sends, cached_sends, is_asked_again, copies, whole_request, execute-route_to_config,
}
use node_gateway.Errors.{other}
use node_gateway.Config.Ttl.{get_ttl_for_method}
use node_gateway.Client.{Network, EthClient, new_eth_client}
use node_gateway.Client.Agreement.{HasNoHeader, new_eth_client-authorization}
use node_gateway.Examples.Data.{upstream, codec, cache_config, call_request}

-- The header of a test of the repository.
base64_test : base64 (bytes "user:pass") ≡ bytes "dXNlcjpwYXNz"
unfolding base64 symbol bytes
base64_test = refl

canonical_test : canonical_header_key (bytes "x-API-key") ≡ bytes "X-Api-Key"
unfolding canonical_header_key bytes
canonical_test = refl

abbrev guarded : UpstreamConfig
guarded = record (upstream "geth" "fallback") {
  basic_auth_config = record { username = "user"; password = "pass" };
  request_headers_config = record { key = "x-api-key"; value = "k" } ∷ [];
}

abbrev half_guarded : UpstreamConfig
half_guarded = record guarded { basic_auth_config = record { username = "user"; password = "" } }

plain_name : HasNoColon (bytes guarded.basic_auth_config.username)
unfolding bytes
plain_name = (refl, (refl, (refl, (refl, tt))))

no_authorization : HasNoHeader (bytes "Authorization") half_guarded.request_headers_config
unfolding bytes canonical_header_key
no_authorization = (refl, tt)

read_basic_auth-request_headers_example :
    (request_headers guarded (bytes "Authorization") >>= λ (v : List ℕ). read_basic_auth v)
    ≡ some (bytes "user", bytes "pass")
read_basic_auth-request_headers_example =
    read_basic_auth-request_headers guarded (λ e. cc) (λ e. cc) plain_name

abbrev network : Network
network = record {
  scheme = λ url. some "http";
  with_user = λ url username password. url;
  dial = λ url. none;
}

new_eth_client-authorization_example :
    (c : EthClient) × (new_eth_client network half_guarded.http_url
        (some half_guarded.basic_auth_config)
        half_guarded.request_headers_config
      ≡ ok c)
    × (c.headers (bytes "Authorization") ≡ (
        if half_guarded.basic_auth_config.username == ""
          && half_guarded.basic_auth_config.password == ""
        then none
        else some (basic_auth half_guarded.basic_auth_config)))
    × (request_headers half_guarded (bytes "Authorization") ≡ (
        if not (half_guarded.basic_auth_config.username == "")
          && not (half_guarded.basic_auth_config.password == "")
        then some (basic_auth half_guarded.basic_auth_config)
        else none))
new_eth_client-authorization_example =
    new_eth_client-authorization network half_guarded "http" refl refl refl no_authorization

-- The first request is answered by an empty body, the second one by a result, if its body is whole.
abbrev transport : Transport
transport zero r = received (pos 200) ""
transport (suc n) r = if r.body == "{}" then received (pos 200) "17" else received (pos 400) ""

abbrev any_url : String → Option String
any_url _ = none

sent_twice_test :
    sends codec (some cache_config) (RequestBody.single call_request) miss (received (pos 200) "")
    ≡ (1, 1)
unfolding sends cached_sends is_asked_again should_cache_method get_ttl_for_method lookup
sent_twice_test = refl

unbuilt_test :
    execute codec none "mainnet"
      (RequestBody.single call_request)
      (λ _. some "bad URL")
      (ok "{}")
      transport
      miss
      guarded
    ≡ (some (record no_answer { error = some (other "bad URL") }, none), [])
unfolding execute build_request
unbuilt_test = refl

execute-route_to_config_example :
    let whole = whole_request guarded "{}" in
    let n =
      sends codec (some cache_config) (RequestBody.single call_request) miss (transport 0 whole) in
    execute codec
      (some cache_config)
      "mainnet"
      (RequestBody.single call_request)
      any_url
      (ok "{}")
      transport
      miss
      guarded
    ≡ (
      route_to_config codec
          (some cache_config)
          "mainnet"
          (RequestBody.single call_request)
          miss
          (transport 0 whole)
          (transport n.0 whole),
      copies (n.0 + n.1) whole,
    )
execute-route_to_config_example =
    execute-route_to_config codec (some cache_config) "mainnet" (RequestBody.single call_request)
      any_url "{}" transport miss guarded refl
