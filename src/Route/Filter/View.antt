-- ===== src/Route/Filter/View.antt =====
-- What the filters of internal/route/node_filter.go read of the state, and their verdicts as
-- functions of it. The filters themselves also write: asking a breaker may close it.
use node_gateway.Base.{
  ℕ, pos, ltb_ℤ, String, Bool, true, false, not, Option, none, some, if◌then◌else◌, all, ◌>>=◌,
}
use node_gateway.Config.{UpstreamConfig}
use node_gateway.Metadata.Parser.{RequestMetadata}
use node_gateway.Metadata.Store.{ChainMetadataStore, get_block_height_status}
use node_gateway.Checks.Breaker.{CircuitBreaker}
use node_gateway.Checks.ErrorCheck.{ErrorCheck}
use node_gateway.Checks.LatencyCheck.{LatencyCheck}
use node_gateway.Checks.LatencyCheck.Breakers.{open_in}
use node_gateway.Checks.PeerCheck.{PeerCheck}
use node_gateway.Checks.Manager.{UpstreamStatus, get_upstream_status}
use node_gateway.Route.World.{World}
use node_gateway.Route.Filter.{
  NodeFilter, Filters, nil, cons, and_filter, has_enough_peers, is_error_rate_acceptable,
  is_latency_acceptable, is_close_to_global_max_height, is_at_max_height_for_group,
  are_methods_allowed, peers_suffice, is_close, is_at_max_height, are_methods_allowed_on,
}

-- An upstream as the filters see it at one time.
pub record StatusView : Type 0 where
  pub peer_check : PeerCheck
  pub is_banned_for_errors : Bool
  pub is_banned_for_latency : String → Bool

pub record View : Type 0 where
  pub status : String → Option StatusView
  pub store : ChainMetadataStore
  pub counter : ℕ

module _ {S : Type 0} ⦃b : CircuitBreaker S⦄ (now : ℕ) where
  abbrev pub banned_for_errors : ErrorCheck S → Bool
  banned_for_errors c =
      if c.is_check_enabled
      then ltb_ℤ (pos 0) (b.remaining_delay now c.error_circuit_breaker)
      else false

  abbrev pub banned_for_latency : LatencyCheck S → String → Bool
  banned_for_latency c method =
      if c.is_check_enabled then open_in now c.method_latency_breaker method else false

  abbrev pub status_view : UpstreamStatus S → StatusView
  status_view s = record {
    peer_check = s.peer_check;
    is_banned_for_errors = banned_for_errors s.error_check;
    is_banned_for_latency = banned_for_latency s.latency_check;
  }

  abbrev pub known_view : Option (UpstreamStatus S) → Option StatusView
  known_view none = none
  known_view (some s) = some (status_view s)

  abbrev pub view : World S → View
  view w = record {
    status = λ id. known_view (get_upstream_status id w.manager);
    store = w.store;
    counter = w.counter;
  }

-- The verdicts. `none` stands for the panic on an upstream that the manager does not know.
module _ (v : View) (request : RequestMetadata) (u : UpstreamConfig) (num_upstreams : ℕ) where
  unfoldable mutual
    pub verdict : NodeFilter → Option Bool
    verdict (and_filter fs) = verdict_all fs
    verdict (has_enough_peers minimum) = do
      s ← v.status u.id
      some (peers_suffice minimum s.peer_check)
    verdict is_error_rate_acceptable = do s ← v.status u.id; some (not s.is_banned_for_errors)
    verdict is_latency_acceptable = do
      s ← v.status u.id
      some (all (λ method. not (s.is_banned_for_latency method)) request.methods)
    verdict (is_close_to_global_max_height behind) =
        some (is_close behind (get_block_height_status u.group_id u.id v.store))
    verdict is_at_max_height_for_group =
        some (is_at_max_height num_upstreams (get_block_height_status u.group_id u.id v.store))
    verdict are_methods_allowed = some (are_methods_allowed_on u request.methods)

    pub verdict_all : Filters → Option Bool
    verdict_all nil = some true
    verdict_all (cons f fs) = do
      ok ← verdict f
      elim ok [ true ↦ verdict_all fs | false ↦ some false ]
