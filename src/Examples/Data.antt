-- ===== src/Examples/Data.antt =====
-- The values of the tests: a simple breaker, two upstreams in two groups, and a state.
use node_gateway.Base.{ℕ, pos, ◌+◌, ◌-◌, ◌^◌, String, true, false, List, [], ◌∷◌, none, some, arith}
use node_gateway.Checks.Manager.{Replies}
use node_gateway.Checks.Client.{answered, failed}
use node_gateway.Errors.{plain}
use node_gateway.Config.{
  UpstreamConfig, GroupConfig, ErrorsConfig, LatencyConfig, RoutingConfig, ChainCacheConfig, finite,
  archive,
}
use node_gateway.Jsonrpc.{SingleRequestBody, SingleResponseBody, ResponseBody}
use node_gateway.Jsonrpc.Codec.{Codec}
use node_gateway.Metadata.Store.{ChainMetadataStore}
use node_gateway.Metadata.Parser.{RequestMetadata}
use node_gateway.Checks.Breaker.{CircuitBreaker, ClosesForGood}
use node_gateway.Checks.Request.{RequestData}
use node_gateway.Checks.ErrorCheck.{ErrorCheck}
use node_gateway.Checks.LatencyCheck.{LatencyCheck}
use node_gateway.Checks.Manager.{UpstreamStatus, HealthCheckManager}
use node_gateway.Route.World.{World}

-- The time until which the breaker is open: a failure opens it for 100 nanoseconds.
instance abbrev pub breaker : CircuitBreaker ℕ
breaker = record {
  new = λ percent min_requests window delay. 0;
  record_failure = λ now s. now + 100;
  record_success = λ now s. s;
  remaining_delay = λ now s. pos (s - now);
  close = λ now s. 0;
  unspecified_percent = λ rate. 0;
}

pub breaker-ClosesForGood : ClosesForGood breaker
breaker-ClosesForGood now s h = omega arith

abbrev pub errors : ErrorsConfig
errors = record {
  http_codes = "5xx" ∷ "420" ∷ [];
  json_rpc_codes = "32xxx" ∷ [];
  error_strings = "internal server error" ∷ [];
  rate = finite (pos (2 ^ 1072));
}

abbrev pub latency : LatencyConfig
latency = record {
  method_latency_thresholds = ("eth_call", pos 2000) ∷ [];
  methods = [];
  threshold = pos 1000;
}

abbrev pub routing : RoutingConfig ErrorsConfig LatencyConfig
routing = record {
  always_route = some true;
  errors = some errors;
  latency = some latency;
  detection_window = none;
  ban_window = none;
  max_blocks_behind = pos 0;
  is_initialized = true;
  is_enabled = true;
}

abbrev pub upstream : String → String → UpstreamConfig
upstream id group = record {
  methods = record { enabled = []; disabled = [] };
  health_check_config = record { use_ws_for_block_height = none; skip_peer_count_check = none };
  basic_auth_config = record { username = ""; password = "" };
  id = id;
  http_url = "http://rpc.example";
  ws_url = "";
  group_id = group;
  node_type = archive;
  request_headers_config = [];
}

abbrev pub upstreams : List UpstreamConfig
upstreams = upstream "geth" "fallback" ∷ upstream "erigon" "primary" ∷ []

abbrev pub groups : List GroupConfig
groups =
    record { id = "primary"; priority = pos 0 } ∷ record { id = "fallback"; priority = pos 1 } ∷ []

abbrev pub error_check : ErrorCheck ℕ
error_check = record {
  routing_config = routing;
  error_circuit_breaker = 0;
  is_check_enabled = true;
}

-- The breaker of eth_call is open until the time 500.
abbrev pub latency_check : LatencyCheck ℕ
latency_check = record {
  routing_config = routing;
  method_latency_breaker =
      ("eth_call", record { circuit_breaker = 500; threshold = pos 2000 }) ∷ [];
  is_check_enabled = true;
}

abbrev pub status : String → String → UpstreamStatus ℕ
status id group = record {
  block_height_check = record {
    upstream_config = upstream id group;
    has_http_client = true;
    web_socket_error = none;
    block_height_error = none;
    block_height = 7;
    use_ws_for_block_height = false;
  };
  peer_check = record { has_client = true; err = none; peer_count = 5; should_run = true };
  error_check = error_check;
  latency_check = latency_check;
  id = id;
  group_id = group;
}

abbrev pub manager : HealthCheckManager ℕ
manager = record {
  upstream_id_to_status =
      ("geth", status "geth" "fallback") ∷ ("erigon", status "erigon" "primary") ∷ [];
  configs = upstreams;
  routing_config = routing;
  is_initialized = true;
}

-- The primary group lags behind the other one.
abbrev pub store : ChainMetadataStore
store = record {
  max_height_by_group_id = ("primary", 50) ∷ ("fallback", 100) ∷ [];
  height_by_upstream_id = ("erigon", 50) ∷ ("geth", 100) ∷ [];
  error_by_upstream_id = ("erigon", none) ∷ ("geth", none) ∷ [];
  global_max_height = 100;
}

abbrev pub world : World ℕ
world = record { manager = manager; store = store; counter = 4 }

abbrev pub eth_call : RequestMetadata
eth_call = record { methods = "eth_call" ∷ [] }

abbrev pub call_request : SingleRequestBody
call_request = record {
  id = some (pos 1);
  jsonrpc_version = "2.0";
  method = "eth_call";
  params = [];
}

abbrev pub call_response : SingleResponseBody
call_response = record { error = none; jsonrpc = "2.0"; result = some "17"; id = pos 1 }

-- It decodes two texts.
abbrev pub codec : Codec
codec = record {
  decode_request = λ text. some call_request;
  decode_requests = λ text. none;
  decode_response = λ text. some call_response;
  decode_responses = λ text. none;
  encode_response = λ body. some "17";
}

abbrev pub cache_config : ChainCacheConfig
cache_config = record { method_ttls = ("eth_call", pos 5) ∷ []; ttl = pos 9 }

abbrev pub slow_call : RequestData
slow_call = record {
  response_body = some (ResponseBody.single call_response);
  error = none;
  method = "eth_call";
  http_response_code = pos 200;
  latency = pos 3000;
}

abbrev pub replies : Replies
replies = record {
  ws_dial = answered tt;
  subscribed = answered tt;
  http_dial = answered tt;
  header = answered 12;
  peer_dial = answered tt;
  peer_count = answered 5;
  next_peer_count = failed (plain "timeout");
}
