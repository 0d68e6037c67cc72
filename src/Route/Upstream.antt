-- ===== src/Route/Upstream.antt =====
-- How a request to an upstream is put together: the first part of routeToConfig of
-- internal/route/request_executor.go, and the clients of the checks of
-- internal/client/ethereum_client.go. Texts are their bytes.
pub mod Credentials
pub mod Sending
use node_gateway.Base.{
  ℕ, ◌+◌, ◌-◌, leb, String, Bool, true, false, not, ◌&&◌, ◌||◌, List, [], ◌∷◌, ◌++◌, Option, none,
  some, ◌==◌, Comparable, nat_eq, string_eq, if◌then◌else◌, ◌>>=◌, bytes, base64, ◌↔◌, ◌≡◌, refl,
  any, all, arith,
}
use node_gateway.Jsonrpc.Codec.{Result, ok, err}
use node_gateway.Config.{UpstreamConfig, BasicAuthConfig, RequestHeaderConfig}

abbrev bytes_beq : List ℕ → List ℕ → Bool
bytes_beq [] [] = true
bytes_beq [] (y ∷ ys) = false
bytes_beq (x ∷ xs) [] = false
bytes_beq (x ∷ xs) (y ∷ ys) = x == y && bytes_beq xs ys

pub bytes_beq_iff : (xs ys : List ℕ) → (bytes_beq xs ys ≡ true) ↔ (xs ≡ ys)
bytes_beq_iff [] [] = (λ _. refl, λ _. refl)
bytes_beq_iff [] (y ∷ ys) = (λ e. cc, λ e. cc)
bytes_beq_iff (x ∷ xs) [] = (λ e. cc, λ e. cc)
bytes_beq_iff (x ∷ xs) (y ∷ ys) = ground (arith, bytes_beq_iff xs ys)

instance abbrev pub bytes_eq : Comparable (List ℕ)
bytes_eq = record { is_equal = bytes_beq; is_equal_iff = bytes_beq_iff }

-- textproto.CanonicalMIMEHeaderKey: a name of token characters has capitals at its start and after
-- each dash and small letters elsewhere; any other name stays as it is.
abbrev is_upper : ℕ → Bool
is_upper c = leb b'A' c && leb c b'Z'

abbrev is_lower : ℕ → Bool
is_lower c = leb b'a' c && leb c b'z'

abbrev marks : List ℕ
marks = bytes "!#$%&'*+-.^_`|~"

unfoldable pub is_token : ℕ → Bool
unfolding bytes
is_token c =
    is_upper c || (is_lower c || (leb b'0' c && leb c b'9' || any (λ (mark : ℕ). mark == c) marks))

unfoldable pub capitalize : Bool → List ℕ → List ℕ
capitalize start [] = []
capitalize start (c ∷ cs) =
    (if start && is_lower c then c - 32 else if not start && is_upper c then c + 32 else c)
    ∷ capitalize (c == b'-') cs

unfoldable pub canonical_header_key : List ℕ → List ℕ
unfolding is_token capitalize
canonical_header_key key = if all is_token key then capitalize true key else key

-- http.Header with one value for each key, by canonical key.
abbrev pub Headers : Type 0
Headers = List ℕ → Option (List ℕ)

unfoldable pub set_header : List ℕ → List ℕ → Headers → Headers
unfolding canonical_header_key
set_header key value headers k = if canonical_header_key key == k then some value else headers k

unfoldable pub set_headers : List RequestHeaderConfig → Headers → Headers
unfolding set_header bytes
set_headers [] headers = headers
set_headers (h ∷ hs) headers = set_headers hs (set_header (bytes h.key) (bytes h.value) headers)

-- `"Basic " + base64(username + ":" + password)`
unfoldable pub basic_auth : BasicAuthConfig → List ℕ
unfolding bytes base64
basic_auth c = bytes "Basic " ++ base64 (bytes c.username ++ b':' ∷ bytes c.password)

-- The body is a reader: what is left of it.
pub record Outgoing : Type 0 where
  pub url : String
  pub headers : Headers
  pub body : String

unfoldable pub request_headers : UpstreamConfig → Headers
unfolding set_headers set_header basic_auth bytes
request_headers u =
    let configured =
      set_headers u.request_headers_config
        (set_header (bytes "content-type") (bytes "application/json") (λ _. none)) in
    if not (u.basic_auth_config.username == "") && not (u.basic_auth_config.password == "")
    then set_header (bytes "Authorization") (basic_auth u.basic_auth_config) configured
    else configured

-- The request, or the error of Encode for the body or of NewRequestWithContext for the URL, which
-- `new_request` has if there is one.
unfoldable pub build_request :
    (String → Option String) → Result String String → UpstreamConfig → Result Outgoing String
unfolding request_headers
build_request new_request (err message) u = err message
build_request new_request (ok body) u = elim (new_request u.http_url) [
  | some message ↦ err message
  | none ↦ ok (record { url = u.http_url; headers = request_headers u; body = body })
]

-- The request itself and its clone: both have a body of their own to be read.
unfoldable pub clone_request : Outgoing → Outgoing × Outgoing
clone_request r =
    let text = r.body in
    let drained = record r { body = "" } in
    (record drained { body = text }, record r { body = text })

-- Sending reads the body to its end.
unfoldable pub send : {A : Type 0} → (Outgoing → A) → Outgoing → A × Outgoing
send transport r = (transport r, record r { body = "" })
