-- ===== src/Route/Filter.antt =====
-- internal/route/node_filter.go: the filters, and `Apply` of each.
pub mod View
pub mod Asking
pub mod Refinement
use node_gateway.Base.{
  ℕ, ◌+◌, ◌%◌, ◌^◌, leb, String, Bool, true, false, not, ◌&&◌, ◌||◌, List, [], ◌∷◌, Option, none,
  some, is_some, lookup, value_or, ◌==◌, nat_eq, string_eq, if◌then◌else◌, any,
}
use node_gateway.Config.{UpstreamConfig, full}
use node_gateway.Metadata.Parser.{RequestMetadata}
use node_gateway.Metadata.Store.{BlockHeightStatus, get_block_height_status}
use node_gateway.Checks.Breaker.{CircuitBreaker}
use node_gateway.Checks.ErrorCheck
use node_gateway.Checks.LatencyCheck
use node_gateway.Checks.PeerCheck.{PeerCheck}
use node_gateway.Checks.Manager.{UpstreamStatus, get_upstream_status, set_upstream_status}
use node_gateway.Route.World.{World, M, ◌>>=◌, return}

mutual
  pub data NodeFilter : Type 0 where
    and_filter : Filters → NodeFilter
    has_enough_peers : (minimum_peer_count : ℕ) → NodeFilter
    is_error_rate_acceptable : NodeFilter
    is_latency_acceptable : NodeFilter
    is_close_to_global_max_height : (max_blocks_behind : ℕ) → NodeFilter
    is_at_max_height_for_group : NodeFilter
    are_methods_allowed : NodeFilter

  pub data Filters : Type 0 where
    nil : Filters
    cons : NodeFilter → Filters → Filters

-- The value of a uint64.
abbrev pub uint64 : ℕ → ℕ
uint64 n = n % 2 ^ 64

unfoldable pub peers_suffice : ℕ → PeerCheck → Bool
peers_suffice minimum c =
    if c.should_run then if is_some c.err then false else leb minimum c.peer_count else true

unfoldable pub is_close : ℕ → BlockHeightStatus → Bool
is_close max_blocks_behind s =
    if is_some s.error
    then false
    else leb s.global_max_block_height (uint64 (s.block_height + max_blocks_behind))

unfoldable pub is_at_max_height : ℕ → BlockHeightStatus → Bool
is_at_max_height num_upstreams s =
    if is_some s.error
    then false
    else if num_upstreams == 1
    then true
    else leb s.group_max_block_height s.block_height

abbrev pub state_methods : List String
state_methods =
    "eth_getBalance" ∷ "eth_getStorageAt" ∷ "eth_getTransactionCount" ∷ "eth_getCode" ∷ "eth_call"
    ∷ "eth_estimateGas" ∷ []

abbrev pub trace_methods : List String
trace_methods =
    "trace_filter" ∷ "trace_block" ∷ "trace_get" ∷ "trace_transaction" ∷ "trace_call"
    ∷ "trace_callMany" ∷ "trace_rawTransaction" ∷ "trace_replayBlockTransactions"
    ∷ "trace_replayTransaction" ∷ []

unfoldable pub is_archive_node_method : String → Bool
is_archive_node_method method =
    any (λ s. method == s) state_methods || any (λ s. method == s) trace_methods

-- One round of the loop over the methods of a request: whether it goes on.
unfoldable pub is_method_allowed : UpstreamConfig → String → Bool
unfolding is_archive_node_method lookup
is_method_allowed u method =
    if value_or false (lookup method u.methods.disabled)
    then false
    else if is_archive_node_method method && u.node_type == full
    then value_or false (lookup method u.methods.enabled)
    else true

unfoldable pub are_methods_allowed_on : UpstreamConfig → List String → Bool
unfolding is_method_allowed
are_methods_allowed_on u [] = true
are_methods_allowed_on u (method ∷ methods) =
    let rest = are_methods_allowed_on u methods in
    if is_method_allowed u method then rest else false

module _ {S : Type 0} where
  -- GetUpstreamStatus, which panics on an unknown upstream.
  unfoldable pub status_of : String → M S (UpstreamStatus S)
  unfolding get_upstream_status
  status_of id w = elim (get_upstream_status id w.manager) [ none ↦ none | some s ↦ some (s, w) ]

  -- The checks are shared by pointer: a check that changes has changed in the manager.
  unfoldable pub put_status : String → UpstreamStatus S → M S (Unit {0})
  unfolding set_upstream_status
  put_status id s w = some (tt, record w { manager = set_upstream_status id s w.manager })

  unfoldable pub height_status_of : UpstreamConfig → M S BlockHeightStatus
  unfolding get_block_height_status
  height_status_of u w = some (get_block_height_status u.group_id u.id w.store, w)

module _ {S : Type 0} ⦃b : CircuitBreaker S⦄ (now : ℕ) (request : RequestMetadata)
    (u : UpstreamConfig) (num_upstreams : ℕ) where
  unfoldable pub apply_has_enough_peers : ℕ → M S Bool
  unfolding status_of peers_suffice
  apply_has_enough_peers minimum = do
    s ← status_of u.id
    return (peers_suffice minimum s.peer_check)

  unfoldable pub apply_error_rate : M S Bool
  unfolding status_of put_status ErrorCheck.is_passing
  apply_error_rate = do
    s ← status_of u.id
    let (passing, check) = ErrorCheck.is_passing now s.error_check
    _ ← put_status u.id (record s { error_check = check })
    return passing

  unfoldable pub apply_latency : M S Bool
  unfolding status_of put_status LatencyCheck.is_passing
  apply_latency = do
    s ← status_of u.id
    let (passing, check) = LatencyCheck.is_passing now request.methods s.latency_check
    _ ← put_status u.id (record s { latency_check = check })
    return passing

  unfoldable pub apply_close_to_global : ℕ → M S Bool
  unfolding height_status_of is_close
  apply_close_to_global max_blocks_behind = do
    s ← height_status_of u
    return (is_close max_blocks_behind s)

  unfoldable pub apply_at_max_height : M S Bool
  unfolding height_status_of is_at_max_height
  apply_at_max_height = do s ← height_status_of u; return (is_at_max_height num_upstreams s)

  unfoldable mutual
    unfolding apply_has_enough_peers apply_error_rate apply_latency apply_close_to_global
        apply_at_max_height are_methods_allowed_on

    pub apply : NodeFilter → M S Bool
    apply (and_filter fs) = apply_all fs
    apply (has_enough_peers minimum) = apply_has_enough_peers minimum
    apply is_error_rate_acceptable = apply_error_rate
    apply is_latency_acceptable = apply_latency
    apply (is_close_to_global_max_height behind) = apply_close_to_global behind
    apply is_at_max_height_for_group = apply_at_max_height
    apply are_methods_allowed = return (are_methods_allowed_on u request.methods)

    -- The loop of AndFilter, which leaves at the first filter that refuses.
    pub apply_all : Filters → M S Bool
    apply_all nil = return true
    apply_all (cons f fs) = do ok ← apply f; elim ok [ true ↦ apply_all fs | false ↦ return false ]
