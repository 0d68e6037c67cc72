-- ===== src/Checks/BlockHeight/Observer.antt =====
-- What the store of internal/metadata/store.go knows of the check of internal/checks/blockheight.go.
use node_gateway.Base.{
  ℕ, String, ◌≡◌, refl, Bool, true, false, List, [], ◌∷◌, ◌++◌, Option, none, lookup,
  lookup-insert_self, value_or, if◌then◌else◌, if_elim,
}
use node_gateway.Config.{UpstreamConfig}
use node_gateway.Errors.{Error}
use node_gateway.Metadata.Store.{
  ChainMetadataStore, Op, new_chain_metadata_store, get_block_height_status, run_op, run_ops,
}
use node_gateway.Checks.Client.{Reply, answered, failed}
use node_gateway.Checks.BlockHeight.{
  BlockHeightCheck, set_block_height, set_error, on_new_head, on_error, initialize_http,
  initialize_websockets, new_block_height_checker, run_check_http, blank, is_polling, run_check,
  subscribe_new_head, wants_websockets,
}

-- What happens to a check once it is made: the manager polls, or the subscription reports.
pub data Event : Type 0 where
  poll : Reply (Unit {0}) → Reply ℕ → Event
  new_head : ℕ → Event
  subscription_error : String → Event

unfoldable pub on_event : Event → BlockHeightCheck → BlockHeightCheck × List Op
unfolding run_check on_new_head on_error
on_event (poll dial header) c = run_check dial header c
on_event (new_head h) c = on_new_head h c
on_event (subscription_error failure) c = on_error failure c

-- The store receives the operations of each event before those of the next.
unfoldable pub on_events :
    List Event → BlockHeightCheck → ChainMetadataStore → BlockHeightCheck × ChainMetadataStore
unfolding on_event
on_events [] c s = (c, s)
on_events (e ∷ es) c s = let (c', sent) = on_event e c in on_events es c' (run_ops sent s)

-- The store has the check's height for its upstream.
abbrev pub Agrees : BlockHeightCheck → ChainMetadataStore → Type 0
Agrees c s = value_or 0 (lookup c.upstream_config.id s.height_by_upstream_id) ≡ c.block_height

set_block_height-Agrees :
    (h : ℕ) (c : BlockHeightCheck) (s : ChainMetadataStore)
    → Agrees (set_block_height h c).0 (run_ops (set_block_height h c).1 s)
unfolding set_block_height run_ops
set_block_height-Agrees h c s =
    rw (lookup-insert_self c.upstream_config.id h s.height_by_upstream_id)

set_error-Agrees :
    (e : Option Error) (c : BlockHeightCheck) (s : ChainMetadataStore)
    → Agrees c s
    → Agrees (set_error e c).0 (run_ops (set_error e c).1 s)
unfolding set_error run_ops
set_error-Agrees e c s h = h

initialize_http-Agrees :
    (dial : Reply (Unit {0})) (c : BlockHeightCheck) (s : ChainMetadataStore)
    → Agrees c s
    → Agrees (initialize_http dial c).0 (run_ops (initialize_http dial c).1 s)
unfolding initialize_http run_ops
initialize_http-Agrees (failed e) c s h = h
initialize_http-Agrees (answered _) c s h = h

run_check_http-Agrees :
    (header : Reply ℕ) (c : BlockHeightCheck) (s : ChainMetadataStore)
    → Agrees c s
    → Agrees (run_check_http header c).0 (run_ops (run_check_http header c).1 s)
unfolding run_check_http run_ops
run_check_http-Agrees (failed e) c s h =
    if_elim (λ (r : BlockHeightCheck × List Op). Agrees r.0 (run_ops r.1 s)) c.has_http_client h h
run_check_http-Agrees (answered n) c s h =
    if_elim (λ (r : BlockHeightCheck × List Op). Agrees r.0 (run_ops r.1 s)) c.has_http_client
      (set_block_height-Agrees n (record c { block_height_error = none }) s) h

run_ops-append :
    (xs ys : List Op) (s : ChainMetadataStore) → run_ops (xs ++ ys) s ≡ run_ops ys (run_ops xs s)
unfolding run_ops
run_ops-append [] ys s = refl
run_ops-append (x ∷ xs) ys s = run_ops-append xs ys (run_op x s)

client_then_check-Agrees :
    (b : Bool) (dial : Reply (Unit {0})) (header : Reply ℕ) (c : BlockHeightCheck)
    (s : ChainMetadataStore)
    → Agrees c s
    → let first = if b then (c, []) else initialize_http dial c in
      let second = run_check_http header first.0 in
      Agrees second.0 (run_ops (first.1 ++ second.1) s)
client_then_check-Agrees true dial header c s h = run_check_http-Agrees header c s h
client_then_check-Agrees false dial header c s h =
    let first = initialize_http dial c in
    rw (run_ops-append first.1 (run_check_http header first.0).1 s)
      (run_check_http-Agrees header first.0 (run_ops first.1 s) (initialize_http-Agrees dial c s h))

on_event-Agrees :
    (e : Event) (c : BlockHeightCheck) (s : ChainMetadataStore)
    → Agrees c s
    → Agrees (on_event e c).0 (run_ops (on_event e c).1 s)
unfolding on_event run_ops set_error
on_event-Agrees (poll dial header) c s h =
    if_elim (λ (r : BlockHeightCheck × List Op). Agrees r.0 (run_ops r.1 s)) (is_polling c)
      (client_then_check-Agrees c.has_http_client dial header c s h) h
on_event-Agrees (new_head n) c s h = set_block_height-Agrees n c s
on_event-Agrees (subscription_error failure) c s h = h

on_events-Agrees :
    (es : List Event) (c : BlockHeightCheck) (s : ChainMetadataStore)
    → Agrees c s
    → Agrees (on_events es c s).0 (on_events es c s).1
unfolding on_events
on_events-Agrees [] c s h = h
on_events-Agrees (e ∷ es) c s h =
    let (c', sent) = on_event e c in
    on_events-Agrees es c' (run_ops sent s) (on_event-Agrees e c s h)

-- The check as its constructor leaves it, with the store that has run what it sent.
abbrev pub start :
    UpstreamConfig
    → (ws_dial subscribed http_dial : Reply (Unit {0})) → BlockHeightCheck × ChainMetadataStore
start config ws_dial subscribed http_dial =
    let (c, sent) = new_block_height_checker config ws_dial subscribed http_dial in
    (c, run_ops sent new_chain_metadata_store)

-- Setting up the subscription reports no height.
initialize_websockets-Agrees :
    (dial subscribed : Reply (Unit {0})) (c : BlockHeightCheck) (s : ChainMetadataStore)
    → Agrees c s
    → Agrees (initialize_websockets dial subscribed c) s
unfolding initialize_websockets
initialize_websockets-Agrees dial subscribed c s h =
    if_elim (λ r. Agrees r s) (wants_websockets c.upstream_config) (go dial subscribed) h
  where
    go :
        (dial subscribed : Reply (Unit {0}))
        → Agrees
            (subscribe_new_head dial subscribed (record c { use_ws_for_block_height = true }))
            s
    go (failed e) subscribed = h
    go (answered _) (failed e) = h
    go (answered _) (answered _) = h

start-Agrees :
    (config : UpstreamConfig) (ws_dial subscribed http_dial : Reply (Unit {0}))
    → let (c, s) = start config ws_dial subscribed http_dial in Agrees c s
unfolding new_block_height_checker new_chain_metadata_store lookup
start-Agrees config ws_dial subscribed http_dial =
    initialize_http-Agrees http_dial (initialize_websockets ws_dial subscribed (blank config))
      new_chain_metadata_store
      (initialize_websockets-Agrees ws_dial subscribed (blank config) new_chain_metadata_store refl)

-- From the construction of a check on, through every poll, every new head and every failure, the
-- height that the store answers for the upstream of the check is the height that the check has.
pub block_height-on_events :
    (g : String) (config : UpstreamConfig) (ws_dial subscribed http_dial : Reply (Unit {0}))
    (es : List Event)
    → let (c, s) = start config ws_dial subscribed http_dial in
      let (c', s') = on_events es c s in
      (get_block_height_status g c'.upstream_config.id s').block_height ≡ c'.block_height
unfolding get_block_height_status
block_height-on_events g config ws_dial subscribed http_dial es =
    let (c, s) = start config ws_dial subscribed http_dial in
    on_events-Agrees es c s (start-Agrees config ws_dial subscribed http_dial)
