-- ===== src/Jsonrpc.antt =====
-- internal/jsonrpc/jsonrpc.go: the bodies of requests and responses.
pub mod Codec
use node_gateway.Base.{ℤ, String, Bool, List, [], ◌∷◌, Option}

-- A parameter of type `any`, as encoding/json decodes it. A float64 is given by the text that
-- `%v` prints for it.
mutual
  pub data Value : Type 0 where
    null : Value
    boolean : Bool → Value
    number : String → Value
    text : String → Value
    array : Values → Value
    object : Members → Value

  pub data Values : Type 0 where
    nil : Values
    cons : Value → Values → Values

  pub data Members : Type 0 where
    end : Members
    member : String → Value → Members → Members

-- A nil pointer is `none`.
pub record SingleRequestBody : Type 0 where
  pub id : Option ℤ
  pub jsonrpc_version : String
  pub method : String
  pub params : List Value

pub data RequestBody : Type 0 where
  single : SingleRequestBody → RequestBody
  batch : List SingleRequestBody → RequestBody

-- `details` is the field Data.
pub record ErrorObject : Type 0 where
  pub details : Option Value
  pub message : String
  pub code : ℤ

-- `result` is the raw JSON text, `none` the nil slice.
pub record SingleResponseBody : Type 0 where
  pub error : Option ErrorObject
  pub jsonrpc : String
  pub result : Option String
  pub id : ℤ

pub data ResponseBody : Type 0 where
  single : SingleResponseBody → ResponseBody
  batch : List SingleResponseBody → ResponseBody

unfoldable pub get_method : RequestBody → String
get_method (RequestBody.single b) = b.method
get_method (RequestBody.batch bs) = "batch"

unfoldable pub get_sub_requests : RequestBody → List SingleRequestBody
get_sub_requests (RequestBody.single b) = b ∷ []
get_sub_requests (RequestBody.batch bs) = bs

unfoldable pub get_sub_responses : ResponseBody → List SingleResponseBody
get_sub_responses (ResponseBody.single b) = b ∷ []
get_sub_responses (ResponseBody.batch bs) = bs
