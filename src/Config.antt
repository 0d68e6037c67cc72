-- ===== src/Config.antt =====
-- internal/config/config.go: the types of the configuration. A time.Duration is its int64 number
-- of nanoseconds; a nil pointer is `none`.
pub mod Validation
pub mod Ttl
pub mod Pointers
pub mod Defaults
pub mod Yaml
use node_gateway.Base.{ℕ, ℤ, pos, ◌^◌, ◌*◌, String, Bool, List, Option, Map, leb_ℤ, false}

abbrev pub Duration : Type 0
Duration = ℤ

-- A float64. `finite n` is n / 2 ^ 1074: every finite float64 has this form.
pub data Float64 : Type 0 where
  nan infinity negative_infinity : Float64
  finite : ℤ → Float64

abbrev pub second : ℕ
second = 1_000_000_000

abbrev pub default_ban_window : Duration
default_ban_window = pos (300 * second)

abbrev pub default_detection_window : Duration
default_detection_window = pos (60 * second)

abbrev pub default_max_latency : Duration
default_max_latency = pos (10 * second)

-- 0.25
abbrev pub default_error_rate : Float64
default_error_rate = finite (pos (2 ^ 1072))

-- 0.5
abbrev pub default_latency_too_high_rate : Float64
default_latency_too_high_rate = finite (pos (2 ^ 1073))

abbrev pub archive : String
archive = "archive"

abbrev pub full : String
full = "full"

pub record HealthCheckConfig : Type 0 where
  pub use_ws_for_block_height : Option Bool
  pub skip_peer_count_check : Option Bool

pub record BasicAuthConfig : Type 0 where
  pub username : String
  pub password : String

pub record RequestHeaderConfig : Type 0 where
  pub key : String
  pub value : String

pub record MethodsConfig : Type 0 where
  pub enabled : Map Bool
  pub disabled : Map Bool

pub record UpstreamConfig : Type 0 where
  pub methods : MethodsConfig
  pub health_check_config : HealthCheckConfig
  pub basic_auth_config : BasicAuthConfig
  pub id : String
  pub http_url : String
  pub ws_url : String
  pub group_id : String
  pub node_type : String
  pub request_headers_config : List RequestHeaderConfig

pub record GroupConfig : Type 0 where
  pub id : String
  pub priority : ℤ

pub record CacheConfig : Type 0 where
  pub redis : String
  pub redis_reader : String
  pub redis_writer : String

pub record ErrorsConfig : Type 0 where
  pub http_codes : List String
  pub json_rpc_codes : List String
  pub error_strings : List String
  pub rate : Float64

pub record MethodConfig : Type 0 where
  pub name : String
  pub threshold : Duration

pub record LatencyConfig : Type 0 where
  pub method_latency_thresholds : Map Duration
  pub methods : List MethodConfig
  pub threshold : Duration

-- `E` and `L` are what the fields `Errors` and `Latency` point at: the structs themselves, or
-- places in a heap where the sharing of the pointers matters.
pub record RoutingConfig (E L : Type 0) : Type 0 where
  pub always_route : Option Bool
  pub errors : Option E
  pub latency : Option L
  pub detection_window : Option Duration
  pub ban_window : Option Duration
  pub max_blocks_behind : ℤ
  pub is_initialized : Bool
  pub is_enabled : Bool

pub record ChainCacheConfig : Type 0 where
  pub method_ttls : Map Duration
  pub ttl : Duration

pub record SingleChainConfig (E L : Type 0) : Type 0 where
  pub cache : ChainCacheConfig
  pub chain_name : String
  pub routing : RoutingConfig E L
  pub upstreams : List UpstreamConfig
  pub groups : List GroupConfig

pub record GlobalConfig (E L : Type 0) : Type 0 where
  pub cache : CacheConfig
  pub routing : RoutingConfig E L
  pub port : ℤ

pub record Config (E L : Type 0) : Type 0 where
  pub chains : List (SingleChainConfig E L)
  pub global : GlobalConfig E L
