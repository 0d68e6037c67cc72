-- ===== src/Client.antt =====
-- internal/client/ethereum_client.go: how the clients of the checks are dialled, and what they send
-- with each call. Dialling itself is go-ethereum's and parsing an URL net/url's.
pub mod Agreement
use node_gateway.Base.{
  ℕ, String, Bool, true, false, ◌&&◌, ◌||◌, List, [], ◌∷◌, Option, none, some, ◌==◌, string_eq,
  if◌then◌else◌, bytes,
}
use node_gateway.Config.{BasicAuthConfig, RequestHeaderConfig}
use node_gateway.Jsonrpc.Codec.{Result, ok, err}
use node_gateway.Route.Upstream.{Headers, set_header, set_headers, basic_auth}

-- `scheme` gives none where the URL cannot be parsed, `dial` the error, if any.
pub record Network : Type 0 where
  pub scheme : String → Option String
  pub with_user : (url username password : String) → String
  pub dial : String → Option String

pub data DialError : Type 0 where
  unparsable : DialError
  unreachable : String → DialError
  unsupported_scheme : String → DialError

-- The headers of an HTTP client; one with another transport sends none.
pub record EthClient : Type 0 where
  pub url : String
  pub is_http : Bool
  pub headers : Headers

abbrev pub is_http_scheme : String → Bool
is_http_scheme s = s == "http" || s == "https"

abbrev pub is_http_url : Network → String → Bool
is_http_url net url = elim (net.scheme url) [ none ↦ false | some s ↦ is_http_scheme s ]

-- rpc.DialContext. The headers are those that are set after it; the ones that go-ethereum itself
-- gives a client are left out.
unfoldable pub dial_context : Network → String → Result EthClient DialError
dial_context net url = elim (net.dial url) [
  | some e ↦ err (DialError.unreachable e)
  | none ↦ ok (record { url = url; is_http = is_http_url net url; headers = λ _. none })
]

-- SetHeader of the client: nothing happens where the transport is not HTTP.
unfoldable pub set_client_header : List ℕ → List ℕ → EthClient → EthClient
unfolding set_header
set_client_header key value c =
    if c.is_http then record c { headers = set_header key value c.headers } else c

unfoldable pub with_authorization :
    BasicAuthConfig → Result EthClient DialError → Result EthClient DialError
unfolding set_client_header basic_auth bytes
with_authorization credentials (err e) = err e
with_authorization credentials (ok c) =
    ok (set_client_header (bytes "Authorization") (basic_auth credentials) c)

unfoldable pub dial_with_credentials :
    Network → String → BasicAuthConfig → Result EthClient DialError
unfolding dial_context with_authorization
dial_with_credentials net url c = elim (net.scheme url) [
  | none ↦ err DialError.unparsable
  | some s ↦
      if is_http_scheme s
      then with_authorization c (dial_context net url)
      else if s == "ws" || s == "wss"
      then dial_context net (net.with_user url c.username c.password)
      else err (DialError.unsupported_scheme s)
]

-- getRPCClientWithAuthHeader
unfoldable pub get_rpc_client :
    Network → String → Option BasicAuthConfig → Result EthClient DialError
unfolding dial_with_credentials dial_context
get_rpc_client net url none = dial_context net url
get_rpc_client net url (some c) =
    if c.username == "" && c.password == ""
    then dial_context net url
    else dial_with_credentials net url c

-- setAdditionalRequestHeaders
unfoldable pub set_additional_headers : List RequestHeaderConfig → EthClient → EthClient
unfolding set_client_header bytes
set_additional_headers [] c = c
set_additional_headers (h ∷ hs) c =
    set_additional_headers hs (set_client_header (bytes h.key) (bytes h.value) c)

unfoldable pub new_eth_client :
    Network
    → String
    → Option BasicAuthConfig
    → List RequestHeaderConfig
    → Result EthClient DialError
unfolding get_rpc_client set_additional_headers
new_eth_client net url credentials headers = elim (get_rpc_client net url credentials) [
  | err e ↦ err e
  | ok c ↦ ok (set_additional_headers headers c)
]
