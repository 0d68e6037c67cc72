-- ===== src/Config/Defaults.antt =====
-- internal/config/config.go: setDefaults of the routing configuration, of a chain and of all chains.
pub mod Unset
pub mod Merging
pub mod Safety
pub mod Errors
pub mod Filling
pub mod Total
pub mod Patterns
pub mod Blank
pub mod Inherited
use node_gateway.Base.{
  ℕ, ℤ, zero, suc, pos, leb_ℤ, String, Bool, true, false, not, ◌&&◌, ◌||◌, List, [], ◌∷◌, ◌++◌,
  Option, none, some, length, get_elem?, Map, lookup, insert, value_or, is_some, ◌==◌, string_eq,
  int_eq, if◌then◌else◌, ◌>>=◌,
}
use node_gateway.Config.{
  Duration, Float64, finite, ErrorsConfig, MethodConfig, LatencyConfig, RoutingConfig,
  default_ban_window, default_detection_window, default_max_latency, default_error_rate,
}
use node_gateway.Config.Pointers.{
  Heap, Routing, initialize_latency, initialize_errors, merge_latency, merge_errors,
}

abbrev pub is_enhanced_routing_control_defined : Routing → Bool
is_enhanced_routing_control_defined r =
    is_some r.errors
    || (is_some r.latency
        || (is_some r.detection_window || (is_some r.ban_window || is_some r.always_route)))

-- A field that is not set takes the value of the global configuration, or a new one.
abbrev pub or_global : {A : Type 0} → Option A → Option (Option A) → A → Option A
or_global (some a) global fresh = some a
or_global none (some a) fresh = a
or_global none none fresh = some fresh

abbrev pub global_field : {A : Type 0} → (Routing → A) → Option Routing → Option A
global_field field none = none
global_field field (some g) = some (field g)

abbrev pub flatten : {A : Type 0} → Option (Option A) → Option A
flatten none = none
flatten (some a) = a

abbrev pub blank_latency : LatencyConfig
blank_latency = record { method_latency_thresholds = []; methods = []; threshold = pos 0 }

abbrev pub blank_errors : ErrorsConfig
blank_errors = record {
  http_codes = [];
  json_rpc_codes = [];
  error_strings = [];
  rate = finite (pos 0);
}

-- The pointers, with new structs where there is no global configuration. A nil one panics.
unfoldable pub place_latency : Option Routing → Routing → Heap → Option (ℕ × Heap)
place_latency global r h = elim r.latency [
  | some p ↦ some (p, h)
  | none ↦ elim global [
    | none ↦ some (length h.latencies, record h { latencies = h.latencies ++ blank_latency ∷ [] })
    | some g ↦ g.latency >>= λ (p : ℕ). some (p, h)
  ]
]

unfoldable pub place_errors : Option Routing → Routing → Heap → Option (ℕ × Heap)
place_errors global r h = elim r.errors [
  | some p ↦ some (p, h)
  | none ↦ elim global [
    | none ↦ some (length h.errors, record h { errors = h.errors ++ blank_errors ∷ [] })
    | some g ↦ g.errors >>= λ (p : ℕ). some (p, h)
  ]
]

-- The rest of setDefaults, after its guards and with the global configuration initialized.
unfoldable pub fill : Option Routing → Routing → Heap → Option (Routing × Heap)
unfolding place_latency place_errors initialize_latency initialize_errors merge_latency merge_errors
fill global r h = do
  let latencies = flatten (global_field (λ g. g.latency) global)
  let errors = flatten (global_field (λ g. g.errors) global)
  (p, h1) ← place_latency global r h
  h2 ← initialize_latency p latencies h1
  (q, h3) ← place_errors global r h2
  h4 ← initialize_errors q errors h3
  h5 ← merge_latency p latencies h4
  h6 ← merge_errors q errors h5
  some (
    record {
      always_route = or_global r.always_route (global_field (λ g. g.always_route) global) false;
      errors = some q;
      latency = some p;
      detection_window =
          or_global r.detection_window (global_field (λ g. g.detection_window) global)
            default_detection_window;
      ban_window =
          or_global r.ban_window (global_field (λ g. g.ban_window) global) default_ban_window;
      max_blocks_behind = r.max_blocks_behind;
      is_initialized = true;
      is_enabled = true;
    },
    h6,
  )

-- setDefaults without a global configuration, and with one, which it may initialize.
unfoldable pub set_defaults_alone : Bool → Routing → Heap → Option (Bool × Routing × Heap)
unfolding fill
set_defaults_alone force r h =
    if r.is_initialized
    then some (true, r, h)
    else if not force && not (is_enhanced_routing_control_defined r)
    then some (false, r, h)
    else (fill none r h >>= λ (x : Routing × Heap). some (true, x.0, x.1))

unfoldable pub set_defaults :
    Routing → Bool → Routing → Heap → Option (Bool × Routing × Routing × Heap)
unfolding set_defaults_alone fill
set_defaults g force r h =
    if r.is_initialized
    then some (true, r, g, h)
    else if not force
        && (not (is_enhanced_routing_control_defined r)
            && not (is_enhanced_routing_control_defined g))
    then some (false, r, g, h)
    else (set_defaults_alone true g h >>= λ (x : Bool × Routing × Heap).
        fill (some x.1) r x.2 >>= λ (y : Routing × Heap). some (true, y.0, x.1, y.1))

-- setDefaults of a chain, and of all chains: the chains are initialized one after the other, over
-- the same global configuration and heap.
unfoldable pub set_chain_defaults :
    Bool → Routing → Routing → Heap → Option (Routing × Routing × Heap)
unfolding set_defaults
set_chain_defaults is_global_specified g r h =
    if not is_global_specified && not (is_enhanced_routing_control_defined r)
    then some (r, g, h)
    else (set_defaults g false r h >>= λ (x : Bool × Routing × Routing × Heap).
        some (x.1, x.2, x.3))

unfoldable pub set_all_defaults :
    Bool → Routing → List Routing → Heap → Option (List Routing × Routing × Heap)
unfolding set_chain_defaults
set_all_defaults specified g [] h = some ([], g, h)
set_all_defaults specified g (r ∷ rs) h = do
  (r', g', h') ← set_chain_defaults specified g r h
  (rs', g'', h'') ← set_all_defaults specified g' rs h'
  some (r' ∷ rs', g'', h'')

unfoldable pub set_config_defaults :
    Routing → List Routing → Heap → Option (List Routing × Routing × Heap)
unfolding set_defaults_alone set_all_defaults
set_config_defaults g rs h =
    set_defaults_alone false g h >>= λ (x : Bool × Routing × Heap). set_all_defaults x.0 x.1 rs x.2

-- What the rest of the program reads through the pointers.
unfoldable pub dereference : Routing → Heap → RoutingConfig ErrorsConfig LatencyConfig
dereference r h = record {
  always_route = r.always_route;
  errors = r.errors >>= λ (p : ℕ). get_elem? h.errors p;
  latency = r.latency >>= λ (p : ℕ). get_elem? h.latencies p;
  detection_window = r.detection_window;
  ban_window = r.ban_window;
  max_blocks_behind = r.max_blocks_behind;
  is_initialized = r.is_initialized;
  is_enabled = r.is_enabled;
}
