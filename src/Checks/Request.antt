-- ===== src/Checks/Request.antt =====
-- internal/types/types.go: what a request to an upstream came to.
use node_gateway.Base.{ℤ, String, Option}
use node_gateway.Config.{Duration}
use node_gateway.Jsonrpc.{ResponseBody}

-- Of the error only its text is read.
pub record RequestData : Type 0 where
  pub response_body : Option ResponseBody
  pub error : Option String
  pub method : String
  pub http_response_code : ℤ
  pub latency : Duration
