-- ===== src/Metadata/Parser.antt =====
-- internal/metadata/request_metadata_parser.go and request_metadata.go
use node_gateway.Base.{String, List, [], ◌∷◌, map}
use node_gateway.Jsonrpc.{RequestBody, SingleRequestBody, get_method, get_sub_requests}

pub record RequestMetadata : Type 0 where
  pub methods : List String

unfoldable pub parse : RequestBody → RequestMetadata
parse (RequestBody.single b) = record { methods = get_method (RequestBody.single b) ∷ [] }
parse (RequestBody.batch bs) = record {
  methods = map (λ (b : SingleRequestBody). b.method) (get_sub_requests (RequestBody.batch bs));
}
