-- ===== src/Main/Shutdown.antt =====
-- The end of the process of cmd/gateway/main.go, under any order of what its goroutines do.
use node_gateway.Base.{
  ℕ, false, subst, ◌≡◌, refl, inl, inr, ◌∙◌, ap, sym, Bool, true, List, [], ◌∷◌, Option, All,
  if◌then◌else◌,
}
use node_gateway.Server.Wiring.{Gateway}
use node_gateway.Main.{
  Outcome, running, exited, Phase, starting, watching, stopping_rpc, stopping_metrics,
  while_running, Process, Event, advance, run,
}
use node_gateway.Main.Schedule.{
  in_order, is_signal, is_rpc_shut, is_metrics_shut, is_calm, is_past_start, is_made, goals,
  IsReady, Follows,
}
use node_gateway.Main.Steps.{advance-Follows}

-- A process that ended stays as it is.
run-ended :
    (wiring : Option Gateway) (es : List Event) (p : Process) (code : ℕ)
    → p.outcome ≡ exited code
    → run wiring es p ≡ p
unfolding run
run-ended wiring [] p code ended = refl
run-ended wiring (e ∷ es) p code ended =
    ap (λ o. while_running o (run wiring es (advance wiring e p)) p) ended

run-step :
    (wiring : Option Gateway) (e : Event) (es : List Event) (p : Process)
    → p.outcome ≡ running
    → run wiring (e ∷ es) p ≡ run wiring es (advance wiring e p)
unfolding run
run-step wiring e es p now = ap (λ o. while_running o (run wiring es (advance wiring e p)) p) now

Follows-advance :
    (wiring : Option Gateway) (e : Event) (p : Process)
    → is_calm e ≡ true
    → IsReady p
    → Follows e p.phase (advance wiring e p)
Follows-advance wiring e p calm ready =
    subst (λ o. Follows e p.phase (advance wiring e (record p { outcome = o })))
      (sym ready.still_running)
      (advance-Follows wiring p.gateway p.emitter e p.rpc_server p.metrics_server p.phase calm
        ready.past_start ready.rpc_is_made ready.metrics_is_made)

in_order-[] : (ph : Phase) → is_past_start ph ≡ true → in_order (goals ph) [] ≡ false
unfolding in_order
in_order-[] starting past = cc
in_order-[] watching past = refl
in_order-[] stopping_rpc past = refl
in_order-[] stopping_metrics past = refl

abbrev verdict : List Event → List (Event → Bool) → Outcome
verdict es ts = if in_order ts es then exited 0 else running

run-ready :
    (wiring : Option Gateway) (es : List Event) (p : Process)
    → All (λ e. is_calm e ≡ true) es
    → IsReady p
    → (run wiring es p).outcome ≡ verdict es (goals p.phase)
unfolding run in_order
run-ready wiring [] p calm ready =
    ready.still_running
    ∙ ap (λ (b : Bool). if b then exited 0 else running)
        (sym (in_order-[] p.phase ready.past_start))
run-ready wiring (e ∷ es) p (calm, calms) ready = elim (Follows-advance wiring e p calm ready) [
  | inl (again, same) ↦
      ap (λ q. q.outcome) (run-step wiring e es p ready.still_running)
      ∙ run-ready wiring es (advance wiring e p) calms again
      ∙ ap (λ (b : Bool). if b then exited 0 else running) (sym (same es))
  | inr (over, reached) ↦
      ap (λ q. q.outcome)
        (run-step wiring e es p ready.still_running
          ∙ run-ended wiring es (advance wiring e p) 0 over)
      ∙ over
      ∙ ap (λ (b : Bool). if b then exited 0 else running) (sym (reached es))
]

-- Once main waits for a signal with both servers constructed, and where no server fails from then on, the
-- process ends with the code 0 exactly when a signal came, then the RPC server was shut down and then the
-- metrics server, whatever the other goroutines do between; until then it runs on.
pub run-shut_down :
    (wiring : Option Gateway) (es : List Event) (p : Process)
    → p.outcome ≡ running
    → p.phase ≡ watching
    → is_made p.rpc_server ≡ true
    → is_made p.metrics_server ≡ true
    → All (λ e. is_calm e ≡ true) es
    → (run wiring es p).outcome
      ≡ (if in_order (is_signal ∷ is_rpc_shut ∷ is_metrics_shut ∷ []) es then exited 0 else running)
run-shut_down wiring es p now waits rpc metrics calm =
    run-ready wiring es p calm (record {
      still_running = now;
      past_start = ap is_past_start waits;
      rpc_is_made = rpc;
      metrics_is_made = metrics;
    })
    ∙ ap (λ ph. verdict es (goals ph)) waits
