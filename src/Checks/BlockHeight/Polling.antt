-- ===== src/Checks/BlockHeight/Polling.antt =====
-- What a check of internal/checks/blockheight.go that only polls lets the store know of its failures.
use node_gateway.Base.{
  ℕ, String, ◌≡◌, refl, ap, subst, sym, true, false, List, [], ◌∷◌, map, Option, none, some, lookup,
  lookup-insert_self, value_or, if_false,
}
use node_gateway.Config.{UpstreamConfig}
use node_gateway.Errors.{Error}
use node_gateway.Metadata.Store.{
  ChainMetadataStore, Op, height_update, new_chain_metadata_store, get_block_height_status, run_op,
  run_ops,
}
use node_gateway.Checks.Client.{Reply, answered, failed}
use node_gateway.Checks.BlockHeight.{
  BlockHeightCheck, set_block_height, initialize_http, initialize_websockets,
  new_block_height_checker, run_check_http, is_polling, run_check, wants_websockets,
}
use node_gateway.Checks.BlockHeight.Observer.{Event, poll, on_event, on_events, start}

-- A poll: what the client getter would answer, and what HeaderByNumber answers.
abbrev pub Poll : Type 0
Poll = Reply (Unit {0}) × Reply ℕ

abbrev pub events : List Poll → List Event
events polls = map (λ (p : Poll). poll p.0 p.1) polls

-- The failure of the last poll, if it failed; where there is none, `before`.
abbrev pub last_failure : Option Error → List Poll → Option Error
last_failure before [] = before
last_failure before ((dial, failed e) ∷ polls) = last_failure (some e) polls
last_failure before ((dial, answered h) ∷ polls) = last_failure none polls

-- A check that has a client and no subscription.
abbrev quiet : UpstreamConfig → Option Error → Option Error → ℕ → BlockHeightCheck
quiet u ws_error error height = record {
  upstream_config = u;
  has_http_client = true;
  web_socket_error = ws_error;
  block_height_error = error;
  block_height = height;
  use_ws_for_block_height = false;
}

abbrev known_error : String → ChainMetadataStore → Option Error
known_error u s = value_or none (lookup u s.error_by_upstream_id)

quiet-on_events :
    (polls : List Poll) (u : UpstreamConfig) (ws_error error : Option Error) (height : ℕ)
    (s : ChainMetadataStore)
    → known_error u.id s ≡ none
    → let (c', s') = on_events (events polls) (quiet u ws_error error height) s in
      (known_error u.id s' ≡ none) × (c'.block_height_error ≡ last_failure error polls)
unfolding on_events on_event run_check is_polling run_check_http set_block_height run_ops run_op
quiet-on_events [] u ws_error error height s unknown = (unknown, refl)
quiet-on_events ((dial, failed e) ∷ polls) u ws_error error height s unknown =
    quiet-on_events polls u ws_error (some e) height s unknown
quiet-on_events ((dial, answered h) ∷ polls) u ws_error error height s unknown =
    quiet-on_events polls u ws_error none h (run_op (height_update u.group_id u.id h) s)
      (ap (value_or none) (lookup-insert_self {V = Option Error} u.id none s.error_by_upstream_id))

made-quiet :
    (u : UpstreamConfig) (ws_dial subscribed : Reply (Unit {0})) (x : Unit {0})
    → wants_websockets u ≡ false
    → new_block_height_checker u ws_dial subscribed (answered x) ≡ (quiet u none none 0, [])
unfolding new_block_height_checker initialize_http initialize_websockets
made-quiet u ws_dial subscribed x polls_only =
    ap (λ (c : BlockHeightCheck). (record c { has_http_client = true }, []))
      (if_false _ _ polls_only)

-- A check that does not want websockets and got its client when it was made never lets the store know
-- of a failure: through any sequence of polls, in whichever of them HeaderByNumber fails, the store
-- answers no error for its upstream, while the check itself has the error of the last poll, if that
-- failed.
pub failed_polls_unreported :
    (g : String) (u : UpstreamConfig) (ws_dial subscribed : Reply (Unit {0})) (polls : List Poll)
    → wants_websockets u ≡ false
    → let (c, s) = start u ws_dial subscribed (answered tt) in
      let (c', s') = on_events (events polls) c s in
      ((get_block_height_status g u.id s').error ≡ none)
      × (c'.block_height_error ≡ last_failure none polls)
unfolding get_block_height_status run_ops new_chain_metadata_store lookup
failed_polls_unreported g u ws_dial subscribed polls polls_only =
    subst
      (λ (made : BlockHeightCheck × List Op).
        let (c', s') = on_events (events polls) made.0 (run_ops made.1 new_chain_metadata_store) in
        ((get_block_height_status g u.id s').error ≡ none)
        × (c'.block_height_error ≡ last_failure none polls))
      (sym (made-quiet u ws_dial subscribed tt polls_only))
      (quiet-on_events polls u none none 0 new_chain_metadata_store refl)
