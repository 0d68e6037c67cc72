-- ===== src/Errors.antt =====
-- The values of Go's `error` interface, by the dynamic types that the program tells apart.
use node_gateway.Base.{ℤ, String, [], ◌∷◌, Option, concat, decimal, value_or}

-- What the Ethereum clients of the health checks return: go-ethereum's rpc.Error with its code and
-- message, or an error that only carries a message.
pub data Error : Type 0 where
  plain : String → Error
  rpc : ℤ → String → Error

-- What comes of a request that is routed. (*route.HandledError stays inside the executor.)
pub data RouteError : Type 0 where
  -- *jsonrpc.DecodeError: the message of `Err`, and the content that could not be decoded
  decode : (message content : String) → RouteError
  -- *route.OriginError: whether `err` is set, with its message, the response and its code
  origin : (message : Option String) (response : String) (response_code : ℤ) → RouteError
  -- *route.NoHealthyUpstreamsError
  no_healthy_upstreams : RouteError
  -- any other error, by its message
  other : String → RouteError

-- The texts that Error() gives. `%v` prints a nil error as <nil>.
unfoldable pub error_text : RouteError → String
unfolding concat decimal
error_text (decode message content) =
    concat ("decode error: " ∷ message ∷ ", content: " ∷ content ∷ [])
error_text (origin message response response_code) = concat (
    "error making request to origin. err: "
    ∷ value_or "<nil>" message
    ∷ ", resp: "
    ∷ response
    ∷ ", respCode: "
    ∷ decimal response_code
    ∷ [])
error_text no_healthy_upstreams = "no healthy upstreams found"
error_text (other message) = message
