-- ===== src/Cache/Key.antt =====
-- CreateRequestKey of internal/cache/rpc_cache.go.
use node_gateway.Base.{String, true, false, [], ◌∷◌, map, concat, join}
use node_gateway.Jsonrpc.{
  Value, Values, Members, null, boolean, number, text, array, object, nil, cons, end, member,
  SingleRequestBody,
}

-- The verb %v of fmt. Of an object, which is a Go map, the members stand in the order of their keys.
unfoldable mutual
  unfolding concat

  pub format_value : Value → String
  format_value null = "<nil>"
  format_value (boolean true) = "true"
  format_value (boolean false) = "false"
  format_value (number n) = n
  format_value (text s) = s
  format_value (array vs) = concat ("[" ∷ format_values vs ∷ "]" ∷ [])
  format_value (object ms) = concat ("map[" ∷ format_members ms ∷ "]" ∷ [])

  pub format_values : Values → String
  format_values nil = ""
  format_values (cons v nil) = format_value v
  format_values (cons v (cons w vs)) =
      concat (format_value v ∷ " " ∷ format_values (cons w vs) ∷ [])

  pub format_members : Members → String
  format_members end = ""
  format_members (member k v end) = concat (k ∷ ":" ∷ format_value v ∷ [])
  format_members (member k v (member j w ms)) =
      concat (k ∷ ":" ∷ format_value v ∷ " " ∷ format_members (member j w ms) ∷ [])

unfoldable pub create_request_key : String → SingleRequestBody → String
unfolding format_value join concat
create_request_key chain_name r =
    concat (chain_name ∷ ":" ∷ r.method ∷ ":[" ∷ join "," (map format_value r.params) ∷ "]" ∷ [])
