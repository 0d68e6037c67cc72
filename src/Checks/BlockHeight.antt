-- ===== src/Checks/BlockHeight.antt =====
-- internal/checks/blockheight.go. A call returns the check and the operations that it sends to its
-- observer, the store of internal/metadata/store.go, in order.
pub mod Observer
pub mod Sending
pub mod Polling
use node_gateway.Base.{
  ℕ, ltb, String, Bool, true, false, not, ◌&&◌, ◌||◌, List, [], ◌∷◌, ◌++◌, Option, none, some,
  is_some, ◌==◌, string_eq, if◌then◌else◌,
}
use node_gateway.Config.{UpstreamConfig}
use node_gateway.Errors.{Error, plain}
use node_gateway.Checks.Client.{Reply, answered, failed}
use node_gateway.Metadata.Store.{Op, height_update, error_update}

pub record BlockHeightCheck : Type 0 where
  pub upstream_config : UpstreamConfig
  pub has_http_client : Bool
  pub web_socket_error : Option Error
  pub block_height_error : Option Error
  pub block_height : ℕ
  pub use_ws_for_block_height : Bool

unfoldable pub set_block_height : ℕ → BlockHeightCheck → BlockHeightCheck × List Op
set_block_height h c = (
  record c { block_height = h },
  height_update c.upstream_config.group_id c.upstream_config.id h ∷ [],
)

unfoldable pub set_error : Option Error → BlockHeightCheck → BlockHeightCheck × List Op
set_error err c = (
  record c { block_height_error = err },
  error_update c.upstream_config.group_id c.upstream_config.id err ∷ [],
)

-- `onNewHead`
unfoldable pub on_new_head : ℕ → BlockHeightCheck → BlockHeightCheck × List Op
unfolding set_block_height set_error
on_new_head h c =
    let (c1, sent) = set_block_height h c in
    let (c2, sent') = set_error none (record c1 { web_socket_error = none }) in (c2, sent ++ sent')

-- `onError`
unfoldable pub on_error : String → BlockHeightCheck → BlockHeightCheck × List Op
unfolding set_error
on_error failure c =
    set_error (some (plain failure)) (record c { web_socket_error = some (plain failure) })

-- The answers of the client getter and of SubscribeNewHead.
unfoldable pub subscribe_new_head :
    Reply (Unit {0}) → Reply (Unit {0}) → BlockHeightCheck → BlockHeightCheck
subscribe_new_head (failed e) subscribed c = record c { web_socket_error = some e }
subscribe_new_head (answered _) (failed e) c = record c { web_socket_error = some e }
subscribe_new_head (answered _) (answered _) c = c

unfoldable pub wants_websockets : UpstreamConfig → Bool
wants_websockets u =
    not (u.ws_url == "")
    && (elim u.health_check_config.use_ws_for_block_height [ none ↦ true | some use_ws ↦ use_ws ])

unfoldable pub initialize_websockets :
    Reply (Unit {0}) → Reply (Unit {0}) → BlockHeightCheck → BlockHeightCheck
unfolding wants_websockets subscribe_new_head
initialize_websockets dial subscribed c =
    if wants_websockets c.upstream_config
    then subscribe_new_head dial subscribed (record c { use_ws_for_block_height = true })
    else c

unfoldable pub initialize_http : Reply (Unit {0}) → BlockHeightCheck → BlockHeightCheck × List Op
unfolding set_error
initialize_http (failed e) c = set_error (some e) c
initialize_http (answered _) c = (record c { has_http_client = true }, [])

-- The struct before `Initialize`: all fields but the configuration have their zero value.
abbrev pub blank : UpstreamConfig → BlockHeightCheck
blank config = record {
  upstream_config = config;
  has_http_client = false;
  web_socket_error = none;
  block_height_error = none;
  block_height = 0;
  use_ws_for_block_height = false;
}

unfoldable pub new_block_height_checker :
    UpstreamConfig → (ws_dial subscribed http_dial : Reply (Unit {0})) → BlockHeightCheck × List Op
unfolding initialize_websockets initialize_http
new_block_height_checker config ws_dial subscribed http_dial =
    initialize_http http_dial (initialize_websockets ws_dial subscribed (blank config))

-- `runCheckHTTP`: the answer of HeaderByNumber, with the number of the header.
unfoldable pub run_check_http : Reply ℕ → BlockHeightCheck → BlockHeightCheck × List Op
unfolding set_block_height
run_check_http (failed e) c =
    if c.has_http_client then (record c { block_height_error = some e }, []) else (c, [])
run_check_http (answered h) c =
    if c.has_http_client
    then set_block_height h (record c { block_height_error = none })
    else (c, [])

-- Whether the check polls: it has no subscription, or a broken one.
unfoldable pub is_polling : BlockHeightCheck → Bool
is_polling c =
    not c.use_ws_for_block_height || (c.use_ws_for_block_height && is_some c.web_socket_error)

unfoldable pub run_check :
    Reply (Unit {0}) → Reply ℕ → BlockHeightCheck → BlockHeightCheck × List Op
unfolding is_polling initialize_http run_check_http
run_check http_dial header c =
    if is_polling c
    then (let (c1, sent) = if c.has_http_client then (c, []) else initialize_http http_dial c in
        let (c2, sent') = run_check_http header c1 in (c2, sent ++ sent'))
    else (c, [])

unfoldable pub is_passing : ℕ → BlockHeightCheck → Bool
is_passing max_block_height c =
    not (is_some c.block_height_error || ltb c.block_height max_block_height)
