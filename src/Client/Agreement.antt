-- ===== src/Client/Agreement.antt =====
-- The credentials that the checks send, beside those of the requests.
use node_gateway.Base.{
  ℕ, String, ◌≡◌, refl, ap, ◌∙◌, Bool, true, false, not, ◌&&◌, List, [], ◌∷◌, Option, none, some,
  ◌==◌, string_eq, if◌then◌else◌, if_true, if_false, Bool-cases, inl, inr, bytes, All,
}
use node_gateway.Config.{UpstreamConfig, BasicAuthConfig, RequestHeaderConfig}
use node_gateway.Jsonrpc.Codec.{ok}
use node_gateway.Route.Upstream.{
  bytes_eq, Headers, canonical_header_key, set_header, set_headers, basic_auth, request_headers,
}
use node_gateway.Client.{
  Network, EthClient, is_http_scheme, dial_context, set_client_header, dial_with_credentials,
  get_rpc_client, set_additional_headers, new_eth_client,
}

abbrev pub HasNoHeader : List ℕ → List RequestHeaderConfig → Type 0
HasNoHeader key hs =
    All (λ (h : RequestHeaderConfig). (canonical_header_key (bytes h.key) == key) ≡ false) hs

set_headers-other :
    (key : List ℕ) (hs : List RequestHeaderConfig) (base : Headers)
    → HasNoHeader key hs
    → set_headers hs base key ≡ base key
unfolding set_headers set_header
set_headers-other key [] base h = refl
set_headers-other key (x ∷ hs) base (h, rest) =
    set_headers-other key hs (set_header (bytes x.key) (bytes x.value) base) rest ∙ if_false _ _ h

-- Of an HTTP client the headers are set like those of a request.
set_additional_headers-http :
    (hs : List RequestHeaderConfig) (c : EthClient)
    → c.is_http ≡ true
    → (set_additional_headers hs c).headers ≡ set_headers hs c.headers
unfolding set_additional_headers set_headers set_client_header
set_additional_headers-http [] c h = refl
set_additional_headers-http (x ∷ hs) c h =
    ap (λ (d : EthClient). (set_additional_headers hs d).headers) (if_true _ _ h)
    ∙ set_additional_headers-http hs
        (record c { headers = set_header (bytes x.key) (bytes x.value) c.headers }) h

abbrev authorization : List ℕ
authorization = bytes "Authorization"

-- The headers that the client of an HTTP URL starts with.
abbrev first_headers : BasicAuthConfig → Headers
first_headers c =
    if c.username == "" && c.password == ""
    then (λ _. none)
    else set_header authorization (basic_auth c) (λ _. none)

get_rpc_client-http :
    (net : Network) (url scheme : String) (c : BasicAuthConfig)
    → net.scheme url ≡ some scheme
    → is_http_scheme scheme ≡ true
    → net.dial url ≡ none
    → get_rpc_client net url (some c)
      ≡ ok (record { url = url; is_http = true; headers = first_headers c })
unfolding get_rpc_client dial_with_credentials dial_context
get_rpc_client-http net url scheme c parsed http reached =
    elim (Bool-cases (c.username == "" && c.password == "")) [
      | inl empty ↦ rw (get_rpc_client, empty, dialled) refl
      | inr set ↦ rw (get_rpc_client, set, dial_with_credentials, parsed, http, dialled) refl
    ]
  where
    dialled : dial_context net url ≡ ok (record { url = url; is_http = true; headers = λ _. none })
    dialled =
        rw (dial_context, reached)
          (ap (λ (b : Bool). ok (record { url = url; is_http = b; headers = λ _. none }))
            (ap (λ (o : Option String). elim o [ none ↦ false | some s ↦ is_http_scheme s ]) parsed
              ∙ http))

at_if : (b : Bool) (f g : Headers) (k : List ℕ) → (if b then f else g) k ≡ (if b then f k else g k)
at_if true f g k = refl
at_if false f g k = refl

first_headers-authorization :
    (c : BasicAuthConfig)
    → first_headers c authorization
      ≡ (if c.username == "" && c.password == "" then none else some (basic_auth c))
unfolding set_header canonical_header_key
first_headers-authorization c =
    at_if (c.username == "" && c.password == "") (λ _. none)
      (set_header authorization (basic_auth c) (λ _. none)) authorization

request_headers-authorization :
    (u : UpstreamConfig)
    → HasNoHeader authorization u.request_headers_config
    → request_headers u authorization ≡ (
        if not (u.basic_auth_config.username == "") && not (u.basic_auth_config.password == "")
        then some (basic_auth u.basic_auth_config)
        else none)
unfolding request_headers set_header canonical_header_key
request_headers-authorization u other =
    let first : Headers =
      set_header (bytes "content-type") (bytes "application/json") (λ _. none) in
    let configured = set_headers u.request_headers_config first in
    at_if (not (u.basic_auth_config.username == "") && not (u.basic_auth_config.password == ""))
      (set_header authorization (basic_auth u.basic_auth_config) configured) configured
      authorization
    ∙ ap
        (λ (o : Option (List ℕ)).
          if not (u.basic_auth_config.username == "") && not (u.basic_auth_config.password == "")
          then some (basic_auth u.basic_auth_config)
          else o)
        (set_headers-other authorization u.request_headers_config first other)

-- Of an upstream with an HTTP URL that can be reached and no configured header `Authorization`, the
-- client of the checks authenticates unless the user name and the password are both empty, and a
-- request only if both are set.
pub new_eth_client-authorization :
    (net : Network) (u : UpstreamConfig) (scheme : String)
    → net.scheme u.http_url ≡ some scheme
    → is_http_scheme scheme ≡ true
    → net.dial u.http_url ≡ none
    → HasNoHeader (bytes "Authorization") u.request_headers_config
    → (c : EthClient) × (new_eth_client net u.http_url
          (some u.basic_auth_config)
          u.request_headers_config
        ≡ ok c)
      × (c.headers (bytes "Authorization") ≡ (
          if u.basic_auth_config.username == "" && u.basic_auth_config.password == ""
          then none
          else some (basic_auth u.basic_auth_config)))
      × (request_headers u (bytes "Authorization") ≡ (
          if not (u.basic_auth_config.username == "") && not (u.basic_auth_config.password == "")
          then some (basic_auth u.basic_auth_config)
          else none))
unfolding new_eth_client
new_eth_client-authorization net u scheme parsed http reached other =
    let dialled : EthClient = record {
      url = u.http_url;
      is_http = true;
      headers = first_headers u.basic_auth_config;
    } in
    (
      set_additional_headers u.request_headers_config dialled,
      rw
          (
            new_eth_client,
            get_rpc_client-http net u.http_url scheme u.basic_auth_config parsed http reached,
          )
          refl,
      ap (λ (h : Headers). h authorization)
            (set_additional_headers-http u.request_headers_config dialled refl)
          ∙ set_headers-other authorization u.request_headers_config dialled.headers other
          ∙ first_headers-authorization u.basic_auth_config,
      request_headers-authorization u other,
    )
