-- ===== src/Server.antt =====
-- internal/server: the handlers of HTTP requests, the routers of all chains, and the paths.
pub mod Statuses
pub mod CleanPath
pub mod Wiring
use node_gateway.Base.{
  ℤ, pos, ltb_ℤ, String, Bool, true, false, ◌&&◌, List, [], ◌∷◌, Option, none, some, ◌==◌,
  string_eq, int_eq, if◌then◌else◌, any, concat,
}
use node_gateway.Config.{CacheConfig}
use node_gateway.Errors.{RouteError, decode, origin, no_healthy_upstreams, other, error_text}
use node_gateway.Jsonrpc.{RequestBody, ResponseBody}
use node_gateway.Jsonrpc.Codec.{
  Codec, Result, ok, err, decode_request_body, create_error_response_body,
  internal_server_error_code,
}
use node_gateway.Checks.Manager.{HealthCheckManager}
use node_gateway.Route.World.{M, ◌>>=◌, return}
use node_gateway.Route.Router.{Routed}

-- What the handlers read of a request. The body is its text, or the error of reading it.
pub record HttpRequest : Type 0 where
  pub path : String
  pub method : String
  pub content_type : String
  pub client : String
  pub body : Result String String

-- The bodies that are written: a JSON object with a message, a JSON-RPC response, or a plain text.
pub data Content : Type 0 where
  message : String → Content
  rpc : String → Content
  raw : String → Content
  empty : Content

pub record HttpResponse : Type 0 where
  pub status : ℤ
  pub upstream_id : Option String
  pub content : Content

unfoldable pub respond_json : String → ℤ → HttpResponse
respond_json text status = record { status = status; upstream_id = none; content = message text }

unfoldable pub respond_raw : String → ℤ → HttpResponse
respond_raw text status = record { status = status; upstream_id = none; content = raw text }

-- Where the response cannot be encoded nothing is written, and net/http answers 200.
unfoldable pub respond_json_rpc : Codec → Option String → Option ResponseBody → ℤ → HttpResponse
respond_json_rpc codec upstream_id none status = record {
  status = status;
  upstream_id = upstream_id;
  content = empty;
}
respond_json_rpc codec upstream_id (some body) status = elim (codec.encode_response body) [
  | none ↦ record { status = pos 200; upstream_id = upstream_id; content = empty }
  | some text ↦ record { status = status; upstream_id = upstream_id; content = rpc text }
]

abbrev pub content_types : List String
content_types = "application/json" ∷ "application/json-rpc" ∷ "application/jsonrequest" ∷ []

unfoldable pub get_client_id : HttpRequest → String
get_client_id req = if req.client == "" then "unknown" else req.client

-- `statusCode` of an error that is neither of the two that ServeHTTP answers itself.
unfoldable pub status_of_error : RouteError → ℤ
status_of_error (origin _ _ code) = if code == pos 0 then pos 500 else code
status_of_error _ = pos 500

unfoldable pub respond_routed : Codec → Routed → HttpResponse
unfolding respond_json respond_raw respond_json_rpc status_of_error concat error_text
respond_routed codec r = elim r.error [
  | none ↦ respond_json_rpc codec (some r.upstream_id) r.response_body (pos 200)
  | some (decode _ content) ↦ respond_raw content (pos 200)
  | some no_healthy_upstreams ↦ respond_json "No healthy upstreams." (pos 503)
  | some e ↦
      respond_json (concat ("Request could not be routed, err: " ∷ error_text e ∷ []))
        (status_of_error e)
]

-- The rest of ServeHTTP once the body is decoded, once it is read, and before.
unfoldable pub serve_decoded :
    {S : Type 0}
    → Codec
    → (RequestBody → M S Routed)
    → Result RequestBody RouteError
    → M S HttpResponse
unfolding respond_json_rpc respond_routed create_error_response_body concat error_text
serve_decoded codec route (err e) = return (
    respond_json_rpc codec none
      (some (
        ResponseBody.single (
          create_error_response_body
            (concat ("Request body could not be parsed, err: " ∷ error_text e ∷ []))
            internal_server_error_code)))
      (pos 400))
serve_decoded codec route (ok body) = route body >>= λ (r : Routed). return (respond_routed codec r)

unfoldable pub serve_body :
    {S : Type 0} → Codec → (RequestBody → M S Routed) → Result String String → M S HttpResponse
unfolding respond_json serve_decoded decode_request_body concat
serve_body codec route (err e) =
    return (respond_json (concat ("Request body could not be read, err: " ∷ e ∷ [])) (pos 500))
serve_body codec route (ok text) = serve_decoded codec route (decode_request_body codec text)

-- ServeHTTP of the RPC handler; `none` is a panic.
unfoldable pub serve_http :
    {S : Type 0} → Codec → String → (RequestBody → M S Routed) → HttpRequest → M S HttpResponse
unfolding respond_json serve_body
serve_http codec path route req w =
    if req.path == path
    then (if req.method == "POST"
        then (if any (λ t. t == req.content_type) content_types
            then serve_body codec route req.body w
            else some (respond_json "Content-Type not supported." (pos 415), w))
        else some (respond_json "Method not allowed." (pos 405), w))
    else none

-- RouterCollection of internal/route/router_collection.go.
unfoldable pub is_initialized : {S : Type 0} → List (HealthCheckManager S) → Bool
is_initialized [] = true
is_initialized (m ∷ ms) = let rest = is_initialized ms in if m.is_initialized then rest else false

unfoldable pub serve_health : {S : Type 0} → List (HealthCheckManager S) → HttpResponse
unfolding is_initialized respond_raw
serve_health ms =
    if is_initialized ms then respond_raw "OK" (pos 200) else respond_raw "Starting up" (pos 503)

abbrev pub default_server_port : ℤ
default_server_port = pos 8080

unfoldable pub server_port : ℤ → ℤ
server_port configured = if ltb_ℤ (pos 0) configured then configured else default_server_port
