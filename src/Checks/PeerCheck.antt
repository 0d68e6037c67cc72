-- ===== src/Checks/PeerCheck.antt =====
-- internal/checks/peers.go. Each function takes what the client answers: `dial` for the client
-- getter, a reply for each call of PeerCount.
use node_gateway.Base.{
  ℕ, ltb, Bool, true, false, not, ◌&&◌, ◌||◌, Option, none, some, is_some, if◌then◌else◌,
}
use node_gateway.Config.{UpstreamConfig}
use node_gateway.Errors.{Error}
use node_gateway.Checks.Client.{Reply, answered, failed, is_method_not_supported_err}

abbrev pub minimum_peer_count : ℕ
minimum_peer_count = 3

-- `has_client`: the client is not nil.
pub record PeerCheck : Type 0 where
  pub has_client : Bool
  pub err : Option Error
  pub peer_count : ℕ
  pub should_run : Bool

-- `runCheck`
unfoldable pub ask_peer_count : Reply ℕ → PeerCheck → PeerCheck
ask_peer_count (answered n) c = if c.has_client then record c { err = none; peer_count = n } else c
ask_peer_count (failed e) c = if c.has_client then record c { err = some e } else c

unfoldable pub initialize : Reply (Unit {0}) → Reply ℕ → PeerCheck → PeerCheck
unfolding ask_peer_count is_method_not_supported_err
initialize (failed e) reply c = record c { err = some e }
initialize (answered _) reply c =
    let c' = ask_peer_count reply (record c { has_client = true }) in
    if is_method_not_supported_err c'.err then record c' { should_run = false } else c'

unfoldable pub new_peer_checker : UpstreamConfig → Reply (Unit {0}) → Reply ℕ → PeerCheck
unfolding initialize
new_peer_checker config dial reply = initialize dial reply (record {
  has_client = false;
  err = none;
  peer_count = 0;
  should_run = elim config.health_check_config.skip_peer_count_check [
    | none ↦ true
    | some skip ↦ not skip
  ];
})

-- A check without a client asks twice: once as it is initialized, once after it.
unfoldable pub run_check : Reply (Unit {0}) → Reply ℕ → Reply ℕ → PeerCheck → PeerCheck
unfolding initialize ask_peer_count
run_check dial first second c =
    let c' = if c.has_client then c else initialize dial first c in
    if c'.should_run then ask_peer_count second c' else c'

unfoldable pub is_passing : PeerCheck → Bool
is_passing c = not (c.should_run && (is_some c.err || ltb c.peer_count minimum_peer_count))
