-- ===== src/Jsonrpc/Codec.antt =====
-- internal/jsonrpc/jsonrpc.go: decoding bodies, and the bodies of errors.
use node_gateway.Base.{
  ℤ, pos, negsuc, String, List, [], ◌∷◌, Option, none, some, value_or, ◌==◌, string_eq,
  if◌then◌else◌, ◌>>=◌,
}
use node_gateway.Errors.{RouteError, decode}
use node_gateway.Jsonrpc.{SingleRequestBody, RequestBody, SingleResponseBody, ResponseBody}

-- encoding/json, with unknown fields refused: `none` is an error.
pub record Codec : Type 0 where
  pub decode_request : String → Option SingleRequestBody
  pub decode_requests : String → Option (List SingleRequestBody)
  pub decode_response : String → Option SingleResponseBody
  pub decode_responses : String → Option (List SingleResponseBody)
  pub encode_response : ResponseBody → Option String

pub data Result (A E : Type 0) : Type 0 where
  ok : A → Result A E
  err : E → Result A E

abbrev pub json_rpc_version : String
json_rpc_version = "2.0"

abbrev pub internal_server_error_code : ℤ
internal_server_error_code = negsuc 31_999

unfoldable pub decode_request_body : Codec → String → Result RequestBody RouteError
decode_request_body codec raw = elim (codec.decode_request raw) [
  | some body ↦ ok (RequestBody.single body)
  | none ↦ elim (codec.decode_requests raw) [
    | some bodies ↦ ok (RequestBody.batch bodies)
    | none ↦ err (decode "unexpected decoding request error" raw)
  ]
]

-- An empty body is the nil response.
unfoldable pub decode_response_body : Codec → String → Result (Option ResponseBody) RouteError
decode_response_body codec raw = if raw == "" then ok none else elim (codec.decode_response raw) [
  | some body ↦ ok (some (ResponseBody.single body))
  | none ↦ elim (codec.decode_responses raw) [
    | some bodies ↦ ok (some (ResponseBody.batch bodies))
    | none ↦ err (decode "unexpected decoding response error" raw)
  ]
]

unfoldable pub create_error_response_body : String → ℤ → SingleResponseBody
create_error_response_body message code = record {
  error = some (record { details = none; message = message; code = code });
  jsonrpc = json_rpc_version;
  result = none;
  id = pos 0;
}

-- The loop over the requests of a batch, which panics at a request without an ID.
unfoldable pub create_error_responses :
    String → ℤ → List SingleRequestBody → Option (List SingleResponseBody)
create_error_responses message code [] = some []
create_error_responses message code (r ∷ rs) = do
  id ← r.id
  rest ← create_error_responses message code rs
  some (
      record {
        error = some (record { details = none; message = message; code = code });
        jsonrpc = r.jsonrpc_version;
        result = none;
        id = id;
      }
      ∷ rest)

unfoldable pub create_error_response_body_with_request :
    String → ℤ → RequestBody → Option ResponseBody
unfolding create_error_response_body create_error_responses
create_error_response_body_with_request message code (RequestBody.single r) = some (
    ResponseBody.single
      (record (create_error_response_body message code) { id = value_or (pos 0) r.id }))
create_error_response_body_with_request message code (RequestBody.batch rs) = do
  responses ← create_error_responses message code rs
  some (ResponseBody.batch responses)
