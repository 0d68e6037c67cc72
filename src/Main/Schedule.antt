-- ===== src/Main/Schedule.antt =====
-- Schedules of the process of cmd/gateway/main.go: what they have to contain, and what one event does to
-- what is yet to come.
use node_gateway.Base.{◌≡◌, refl, ◌⊎◌, Bool, true, false, List, [], ◌∷◌}
use node_gateway.Main.{
  running, exited, ServerState, absent, Phase, starting, watching, stopping_rpc, stopping_metrics,
  Process, Event, signalled, rpc_lost, metrics_lost, rpc_listens, metrics_listens, rpc_shut,
  metrics_shut,
}

-- Whether events that pass the tests occur in the order of the tests, with others between.
unfoldable pub in_order : List (Event → Bool) → List Event → Bool
in_order [] es = true
in_order (t ∷ ts) [] = false
in_order (t ∷ ts) (e ∷ es) = elim (t e) [ true ↦ in_order ts es | false ↦ in_order (t ∷ ts) es ]

abbrev pub is_signal : Event → Bool
is_signal signalled = true
is_signal _ = false

abbrev pub is_rpc_shut : Event → Bool
is_rpc_shut (rpc_shut ok) = true
is_rpc_shut _ = false

abbrev pub is_metrics_shut : Event → Bool
is_metrics_shut (metrics_shut ok) = true
is_metrics_shut _ = false

-- No server fails: its port is bound, its socket stays, its shutdown returns no error.
abbrev pub is_calm : Event → Bool
is_calm rpc_lost = false
is_calm metrics_lost = false
is_calm (rpc_listens ok) = ok
is_calm (metrics_listens ok) = ok
is_calm (rpc_shut ok) = ok
is_calm (metrics_shut ok) = ok
is_calm _ = true

abbrev pub is_made : ServerState → Bool
is_made absent = false
is_made _ = true

-- What has yet to occur in a phase.
abbrev pub goals : Phase → List (Event → Bool)
goals starting = []
goals watching = is_signal ∷ is_rpc_shut ∷ is_metrics_shut ∷ []
goals stopping_rpc = is_rpc_shut ∷ is_metrics_shut ∷ []
goals stopping_metrics = is_metrics_shut ∷ []

abbrev pub is_past_start : Phase → Bool
is_past_start starting = false
is_past_start _ = true

pub record IsReady (p : Process) : Type 0 where
  pub still_running : p.outcome ≡ running
  pub past_start : is_past_start p.phase ≡ true
  pub rpc_is_made : is_made p.rpc_server ≡ true
  pub metrics_is_made : is_made p.metrics_server ≡ true

-- What one event in a phase makes of a process that is ready: it is ready again, or main has returned.
abbrev pub Follows : Event → Phase → Process → Type 0
Follows e ph q =
    (IsReady q × ((es : List Event) → in_order (goals ph) (e ∷ es) ≡ in_order (goals q.phase) es))
    ⊎ ((q.outcome ≡ exited 0) × ((es : List Event) → in_order (goals ph) (e ∷ es) ≡ true))

-- An event that is no goal leaves the goals of each phase.
pub in_order-neutral :
    (e : Event) (ph : Phase) (es : List Event)
    → is_signal e ≡ false
    → is_rpc_shut e ≡ false
    → is_metrics_shut e ≡ false
    → in_order (goals ph) (e ∷ es) ≡ in_order (goals ph) es
unfolding in_order
in_order-neutral e starting es a b c = refl
in_order-neutral e watching es a b c = rw (in_order, a) refl
in_order-neutral e stopping_rpc es a b c = rw (in_order, b) refl
in_order-neutral e stopping_metrics es a b c = rw (in_order, c) refl
