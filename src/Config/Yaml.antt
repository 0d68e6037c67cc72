-- ===== src/Config/Yaml.antt =====
-- internal/config/config.go: what becomes of the values that the YAML library reads. The library
-- fills the fields; the hooks of MethodsConfig and ChainCacheConfig fill their maps from others.
pub mod Names
pub mod Loading
use Prim.Native.Char.{Char, code}
use node_gateway.Base.{
  ℕ, String, Bool, true, false, ◌&&◌, not, List, [], ◌∷◌, map, Option, none, some, Map, insert,
  ◌==◌, nat_eq, string_eq, if◌then◌else◌, ◌>>=◌,
}
use node_gateway.Config.{
  Duration, MethodsConfig, ErrorsConfig, LatencyConfig, CacheConfig, ChainCacheConfig,
  SingleChainConfig, GlobalConfig, Config,
}
use node_gateway.Config.Pointers.{Heap, Routing}
use node_gateway.Config.Defaults.{set_config_defaults, dereference}
use node_gateway.Config.Validation.{validate}

-- strings.Split(s, ","): the parts between the commas, of which there is at least one.
abbrev pub is_comma : Char → Bool
is_comma c = code c == b','

unfoldable pub put_first : Char → List String → List String
put_first c [] = String.◌∷◌ c "" ∷ []
put_first c (w ∷ ws) = String.◌∷◌ c w ∷ ws

unfoldable pub split : String → List String
unfolding put_first
split String.[] = "" ∷ []
split (String.◌∷◌ c s) = let rest = split s in if is_comma c then "" ∷ rest else put_first c rest

-- A map that emulates a set.
unfoldable pub add_all : List String → Map Bool → Map Bool
add_all [] set = set
add_all (name ∷ names) set = add_all names (insert name true set)

-- UnmarshalYAML of MethodsConfig, for the texts of the fields Enabled and Disabled, or the error of
-- the library.
unfoldable pub unmarshal_methods : Option (String × String) → Option MethodsConfig
unfolding add_all split
unmarshal_methods none = none
unmarshal_methods (some (enabled, disabled)) =
    some (record { enabled = add_all (split enabled) []; disabled = add_all (split disabled) [] })

pub record MethodTtlConfig : Type 0 where
  pub method : String
  pub ttl : Duration

unfoldable pub add_ttls : List MethodTtlConfig → Map Duration → Map Duration
add_ttls [] ttls = ttls
add_ttls (m ∷ ms) ttls = add_ttls ms (insert m.method m.ttl ttls)

-- UnmarshalYAML of ChainCacheConfig.
unfoldable pub unmarshal_cache : Option (List MethodTtlConfig × Duration) → Option ChainCacheConfig
unfolding add_ttls
unmarshal_cache none = none
unmarshal_cache (some (methods, ttl)) =
    some (record { method_ttls = add_ttls methods []; ttl = ttl })

-- The addresses of the reader and of the writer.
unfoldable pub get_redis_addresses : CacheConfig → String × String
get_redis_addresses c =
    if not (c.redis_reader == "") && not (c.redis_writer == "")
    then (c.redis_reader, c.redis_writer)
    else (c.redis, c.redis)

pub data LoadError : Type 0 where
  unreadable not_yaml invalid : LoadError

-- The chains with the routing configurations that setDefaults left them, read through the pointers.
unfoldable pub with_routings :
    Heap
    → List (SingleChainConfig ℕ ℕ)
    → List Routing
    → List (SingleChainConfig ErrorsConfig LatencyConfig)
unfolding dereference
with_routings h [] rs = []
with_routings h (c ∷ cs) [] = []
with_routings h (c ∷ cs) (r ∷ rs) =
    record {
      cache = c.cache;
      chain_name = c.chain_name;
      routing = dereference r h;
      upstreams = c.upstreams;
      groups = c.groups;
    }
    ∷ with_routings h cs rs

unfoldable pub assemble :
    Config ℕ ℕ → List Routing → Routing → Heap → Config ErrorsConfig LatencyConfig
unfolding with_routings
assemble c rs g h = record {
  chains = with_routings h c.chains rs;
  global = record { cache = c.global.cache; routing = dereference g h; port = c.global.port };
}

-- parseConfig, for what the YAML library makes of the bytes, and LoadConfig, for what reading the
-- file gives. The configuration comes with the error of Validate, if any; `none` is a panic.
unfoldable pub parse_config :
    Option (Config ℕ ℕ × Heap)
    → Option (Option (Config ErrorsConfig LatencyConfig) × Option LoadError)
unfolding set_config_defaults assemble validate
parse_config none = some (none, some LoadError.not_yaml)
parse_config (some (c, h)) =
    set_config_defaults c.global.routing (map (λ (x : SingleChainConfig ℕ ℕ). x.routing) c.chains) h
    >>= λ (x : List Routing × Routing × Heap).
        let loaded = assemble c x.0 x.1 x.2 in
        some (some loaded, if validate loaded then none else some LoadError.invalid)

unfoldable pub load_config :
    Option (Option (Config ℕ ℕ × Heap))
    → Option (Option (Config ErrorsConfig LatencyConfig) × Option LoadError)
unfolding parse_config
load_config none = some (none, some LoadError.unreadable)
load_config (some contents) = parse_config contents
