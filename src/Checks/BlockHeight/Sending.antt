-- ===== src/Checks/BlockHeight/Sending.antt =====
-- What a check of internal/checks/blockheight.go sends to the store.
use node_gateway.Checks.Client.{Reply, answered, failed}
use node_gateway.Base.{
  ℕ, Bool, ◌≡◌, refl, true, false, Option, none, some, if_elim, ◌∙◌, All, string_eq,
}
use node_gateway.Config.{UpstreamConfig}
use node_gateway.Metadata.Interleaving.{upstream}
use node_gateway.Errors.{Error}
use node_gateway.Checks.BlockHeight.{
  BlockHeightCheck, run_check, run_check_http, initialize_http, set_block_height, set_error,
  is_polling, initialize_websockets, subscribe_new_head, wants_websockets, new_block_height_checker,
  blank,
}

fields-upstream :
    (dial : Reply (Unit {0})) (header : Reply ℕ) (u : UpstreamConfig) (client : Bool)
    (e1 e2 : Option Error) (height : ℕ) (ws : Bool)
    → All
        (λ a. upstream a ≡ u.id)
        (run_check dial header (record {
          upstream_config = u;
          has_http_client = client;
          web_socket_error = e1;
          block_height_error = e2;
          block_height = height;
          use_ws_for_block_height = ws;
        })).1
unfolding run_check is_polling run_check_http initialize_http set_block_height set_error
fields-upstream dial (failed e) u true e1 e2 height false = tt
fields-upstream dial (answered h) u true e1 e2 height false = (refl, tt)
fields-upstream (failed e) (failed f) u false e1 e2 height false = (refl, tt)
fields-upstream (failed e) (answered h) u false e1 e2 height false = (refl, tt)
fields-upstream (answered x) (failed f) u false e1 e2 height false = tt
fields-upstream (answered x) (answered h) u false e1 e2 height false = (refl, tt)
fields-upstream dial (failed e) u true (some e1) e2 height true = tt
fields-upstream dial (answered h) u true (some e1) e2 height true = (refl, tt)
fields-upstream (failed e) (failed f) u false (some e1) e2 height true = (refl, tt)
fields-upstream (failed e) (answered h) u false (some e1) e2 height true = (refl, tt)
fields-upstream (answered x) (failed f) u false (some e1) e2 height true = tt
fields-upstream (answered x) (answered h) u false (some e1) e2 height true = (refl, tt)
fields-upstream dial header u client none e2 height true = tt

-- It names the upstream of the check.
pub run_check-upstream :
    (dial : Reply (Unit {0})) (header : Reply ℕ) (c : BlockHeightCheck)
    → All (λ a. upstream a ≡ c.upstream_config.id) (run_check dial header c).1
run_check-upstream dial header c =
    fields-upstream dial header c.upstream_config c.has_http_client c.web_socket_error
      c.block_height_error c.block_height c.use_ws_for_block_height

fields-kept :
    (dial : Reply (Unit {0})) (header : Reply ℕ) (u : UpstreamConfig) (client : Bool)
    (e1 e2 : Option Error) (height : ℕ) (ws : Bool)
    → (run_check dial header (record {
      upstream_config = u;
      has_http_client = client;
      web_socket_error = e1;
      block_height_error = e2;
      block_height = height;
      use_ws_for_block_height = ws;
    })).0.upstream_config
      ≡ u
unfolding run_check is_polling run_check_http initialize_http set_block_height set_error
fields-kept dial (failed e) u true e1 e2 height false = refl
fields-kept dial (answered h) u true e1 e2 height false = refl
fields-kept (failed e) (failed f) u false e1 e2 height false = refl
fields-kept (failed e) (answered h) u false e1 e2 height false = refl
fields-kept (answered x) (failed f) u false e1 e2 height false = refl
fields-kept (answered x) (answered h) u false e1 e2 height false = refl
fields-kept dial (failed e) u true (some e1) e2 height true = refl
fields-kept dial (answered h) u true (some e1) e2 height true = refl
fields-kept (failed e) (failed f) u false (some e1) e2 height true = refl
fields-kept (failed e) (answered h) u false (some e1) e2 height true = refl
fields-kept (answered x) (failed f) u false (some e1) e2 height true = refl
fields-kept (answered x) (answered h) u false (some e1) e2 height true = refl
fields-kept dial header u client none e2 height true = refl

-- The check stays that of its upstream.
pub run_check-upstream_config :
    (dial : Reply (Unit {0})) (header : Reply ℕ) (c : BlockHeightCheck)
    → (run_check dial header c).0.upstream_config ≡ c.upstream_config
run_check-upstream_config dial header c =
    fields-kept dial header c.upstream_config c.has_http_client c.web_socket_error
      c.block_height_error c.block_height c.use_ws_for_block_height

websockets-kept :
    (dial subscribed : Reply (Unit {0})) (c : BlockHeightCheck)
    → (initialize_websockets dial subscribed c).upstream_config ≡ c.upstream_config
unfolding initialize_websockets subscribe_new_head
websockets-kept dial subscribed c =
    if_elim (λ (r : BlockHeightCheck). r.upstream_config ≡ c.upstream_config)
      (wants_websockets c.upstream_config) (go dial subscribed) refl
  where
    go :
        (dial subscribed : Reply (Unit {0}))
        → (subscribe_new_head dial subscribed
            (record c { use_ws_for_block_height = true })).upstream_config
          ≡ c.upstream_config
    go (failed e) subscribed = refl
    go (answered x) (failed e) = refl
    go (answered x) (answered y) = refl

http-kept :
    (dial : Reply (Unit {0})) (c : BlockHeightCheck)
    → (initialize_http dial c).0.upstream_config ≡ c.upstream_config
unfolding initialize_http set_error
http-kept (failed e) c = refl
http-kept (answered x) c = refl

pub new_block_height_checker-upstream_config :
    (u : UpstreamConfig) (ws_dial subscribed http_dial : Reply (Unit {0}))
    → (new_block_height_checker u ws_dial subscribed http_dial).0.upstream_config ≡ u
unfolding new_block_height_checker
new_block_height_checker-upstream_config u ws_dial subscribed http_dial =
    http-kept http_dial (initialize_websockets ws_dial subscribed (blank u))
    ∙ websockets-kept ws_dial subscribed (blank u)
