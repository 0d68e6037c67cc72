-- ===== src/Main/Steps.antt =====
-- What one event makes of a process of cmd/gateway/main.go that has both servers.
use node_gateway.Base.{◌≡◌, ◌≢◌, refl, inl, inr, true, false, Option}
use node_gateway.Server.Wiring.{Gateway}
use node_gateway.Main.{
  running, ServerState, absent, made, listening, closed, Emitter, Phase, starting, watching,
  stopping_rpc, stopping_metrics, Process, Event, wired, metrics_made, notified, signalled,
  rpc_lost, metrics_lost, ticked, emitted, rpc_listens, metrics_listens, rpc_shut, metrics_shut,
  advance, listen, shut, receive_signal, assign_rpc_server, assign_metrics_server, shut_down_rpc,
  shut_down_metrics, start_emitting, emit,
}
use node_gateway.Main.Schedule.{
  in_order, is_signal, is_rpc_shut, is_metrics_shut, is_calm, is_made, is_past_start, IsReady,
  Follows, in_order-neutral,
}

abbrev at : Option Gateway → ServerState → ServerState → Emitter → Phase → Process
at g r m em ph = record {
  gateway = g;
  rpc_server = r;
  metrics_server = m;
  emitter = em;
  phase = ph;
  outcome = running;
}

module _ (wiring g : Option Gateway) (em : Emitter) (ph : Phase)
    (past : is_past_start ph ≡ true) where
  ready :
      (r m : ServerState) (em' : Emitter)
      → is_made r ≡ true
      → is_made m ≡ true
      → IsReady (at g r m em' ph)
  ready r m em' hr hm = record {
    still_running = refl;
    past_start = past;
    rpc_is_made = hr;
    metrics_is_made = hm;
  }

  stays :
      (e : Event) (r m : ServerState) (em' : Emitter)
      → is_signal e ≡ false
      → is_rpc_shut e ≡ false
      → is_metrics_shut e ≡ false
      → is_made r ≡ true
      → is_made m ≡ true
      → Follows e ph (at g r m em' ph)
  stays e r m em' a b c hr hm = inl (ready r m em' hr hm, λ es. in_order-neutral e ph es a b c)

  -- The events of the goroutines.
  advance-neutral :
      (e : Event) (r m : ServerState)
      → is_signal e ≡ false
      → is_rpc_shut e ≡ false
      → is_metrics_shut e ≡ false
      → is_calm e ≡ true
      → e ≢ notified
      → is_made r ≡ true
      → is_made m ≡ true
      → Follows e ph (advance wiring e (at g r m em ph))
  unfolding advance assign_rpc_server assign_metrics_server listen
  advance-neutral wired absent m a b c d n hr hm = cc
  advance-neutral wired made m a b c d n hr hm = stays wired made m em a b c hr hm
  advance-neutral wired listening m a b c d n hr hm = stays wired listening m em a b c hr hm
  advance-neutral wired closed m a b c d n hr hm = stays wired closed m em a b c hr hm
  advance-neutral metrics_made r absent a b c d n hr hm = cc
  advance-neutral metrics_made r made a b c d n hr hm = stays metrics_made r made em a b c hr hm
  advance-neutral metrics_made r listening a b c d n hr hm =
      stays metrics_made r listening em a b c hr hm
  advance-neutral metrics_made r closed a b c d n hr hm = stays metrics_made r closed em a b c hr hm
  advance-neutral notified r m a b c d n hr hm = absurd (n refl)
  advance-neutral signalled r m a b c d n hr hm = cc
  advance-neutral rpc_lost r m a b c d n hr hm = cc
  advance-neutral metrics_lost r m a b c d n hr hm = cc
  advance-neutral ticked r m a b c d n hr hm = stays ticked r m (emit ticked em) a b c hr hm
  advance-neutral emitted r m a b c d n hr hm = stays emitted r m (emit emitted em) a b c hr hm
  advance-neutral (rpc_listens false) r m a b c d n hr hm = cc
  advance-neutral (metrics_listens false) r m a b c d n hr hm = cc
  advance-neutral (rpc_listens true) absent m a b c d n hr hm = cc
  advance-neutral (rpc_listens true) made m a b c d n hr hm =
      stays (rpc_listens true) listening m em a b c refl hm
  advance-neutral (rpc_listens true) listening m a b c d n hr hm =
      stays (rpc_listens true) listening m em a b c hr hm
  advance-neutral (rpc_listens true) closed m a b c d n hr hm =
      stays (rpc_listens true) closed m em a b c hr hm
  advance-neutral (metrics_listens true) r absent a b c d n hr hm = cc
  advance-neutral (metrics_listens true) r made a b c d n hr hm =
      stays (metrics_listens true) r listening (start_emitting made em) a b c hr refl
  advance-neutral (metrics_listens true) r listening a b c d n hr hm =
      stays (metrics_listens true) r listening (start_emitting listening em) a b c hr hm
  advance-neutral (metrics_listens true) r closed a b c d n hr hm =
      stays (metrics_listens true) r closed (start_emitting closed em) a b c hr hm
  advance-neutral (rpc_shut ok) r m a b c d n hr hm = cc
  advance-neutral (metrics_shut ok) r m a b c d n hr hm = cc

-- The events that main waits for.
module _ (wiring g : Option Gateway) (em : Emitter) where
  advance-notified :
      (r m : ServerState) (ph : Phase)
      → is_past_start ph ≡ true
      → is_made r ≡ true
      → is_made m ≡ true
      → Follows notified ph (advance wiring notified (at g r m em ph))
  unfolding advance
  advance-notified r m starting past hr hm = cc
  advance-notified r m watching past hr hm =
      stays wiring g em watching refl notified r m em refl refl refl hr hm
  advance-notified r m stopping_rpc past hr hm =
      stays wiring g em stopping_rpc refl notified r m em refl refl refl hr hm
  advance-notified r m stopping_metrics past hr hm =
      stays wiring g em stopping_metrics refl notified r m em refl refl refl hr hm

  advance-signalled :
      (r m : ServerState) (ph : Phase)
      → is_past_start ph ≡ true
      → is_made r ≡ true
      → is_made m ≡ true
      → Follows signalled ph (advance wiring signalled (at g r m em ph))
  unfolding advance receive_signal in_order
  advance-signalled r m starting past hr hm = cc
  advance-signalled r m watching past hr hm =
      inl (ready wiring g em stopping_rpc refl r m em hr hm, λ es. refl)
  advance-signalled r m stopping_rpc past hr hm =
      inl (ready wiring g em stopping_rpc refl r m em hr hm, λ es. refl)
  advance-signalled r m stopping_metrics past hr hm =
      inl (ready wiring g em stopping_metrics refl r m em hr hm, λ es. refl)

  shut-made : (s : ServerState) → is_made s ≡ true → shut true s ≡ inr closed
  unfolding shut
  shut-made absent h = cc
  shut-made made h = refl
  shut-made listening h = refl
  shut-made closed h = refl

  advance-rpc_shut :
      (r m : ServerState) (ph : Phase)
      → is_past_start ph ≡ true
      → is_made r ≡ true
      → is_made m ≡ true
      → Follows (rpc_shut true) ph (advance wiring (rpc_shut true) (at g r m em ph))
  unfolding advance shut_down_rpc in_order
  advance-rpc_shut r m starting past hr hm = cc
  advance-rpc_shut r m watching past hr hm =
      inl (ready wiring g em watching refl r m em hr hm, λ es. refl)
  advance-rpc_shut r m stopping_rpc past hr hm =
      rw (shut-made r hr)
        (inl (ready wiring g em stopping_metrics refl closed m em refl hm, λ es. refl))
  advance-rpc_shut r m stopping_metrics past hr hm =
      inl (ready wiring g em stopping_metrics refl r m em hr hm, λ es. refl)

  advance-metrics_shut :
      (r m : ServerState) (ph : Phase)
      → is_past_start ph ≡ true
      → is_made r ≡ true
      → is_made m ≡ true
      → Follows (metrics_shut true) ph (advance wiring (metrics_shut true) (at g r m em ph))
  unfolding advance shut_down_metrics in_order
  advance-metrics_shut r m starting past hr hm = cc
  advance-metrics_shut r m watching past hr hm =
      inl (ready wiring g em watching refl r m em hr hm, λ es. refl)
  advance-metrics_shut r m stopping_rpc past hr hm =
      inl (ready wiring g em stopping_rpc refl r m em hr hm, λ es. refl)
  advance-metrics_shut r m stopping_metrics past hr hm =
      rw (shut-made m hm) (inr (refl, λ es. refl))

  -- A calm event in a phase past the start.
  pub advance-Follows :
      (e : Event) (r m : ServerState) (ph : Phase)
      → is_calm e ≡ true
      → is_past_start ph ≡ true
      → is_made r ≡ true
      → is_made m ≡ true
      → Follows e ph (advance wiring e (at g r m em ph))
  advance-Follows notified r m ph calm past hr hm = advance-notified r m ph past hr hm
  advance-Follows signalled r m ph calm past hr hm = advance-signalled r m ph past hr hm
  advance-Follows (rpc_shut true) r m ph calm past hr hm = advance-rpc_shut r m ph past hr hm
  advance-Follows (metrics_shut true) r m ph calm past hr hm =
      advance-metrics_shut r m ph past hr hm
  advance-Follows (rpc_shut false) r m ph calm past hr hm = cc
  advance-Follows (metrics_shut false) r m ph calm past hr hm = cc
  advance-Follows wired r m ph calm past hr hm =
      advance-neutral wiring g em ph past wired r m refl refl refl refl (λ e. cc) hr hm
  advance-Follows metrics_made r m ph calm past hr hm =
      advance-neutral wiring g em ph past metrics_made r m refl refl refl refl (λ e. cc) hr hm
  advance-Follows rpc_lost r m ph calm past hr hm = cc
  advance-Follows metrics_lost r m ph calm past hr hm = cc
  advance-Follows ticked r m ph calm past hr hm =
      advance-neutral wiring g em ph past ticked r m refl refl refl refl (λ e. cc) hr hm
  advance-Follows emitted r m ph calm past hr hm =
      advance-neutral wiring g em ph past emitted r m refl refl refl refl (λ e. cc) hr hm
  advance-Follows (rpc_listens ok) r m ph calm past hr hm =
      advance-neutral wiring g em ph past (rpc_listens ok) r m refl refl refl calm (λ e. cc) hr hm
  advance-Follows (metrics_listens ok) r m ph calm past hr hm =
      advance-neutral wiring g em ph past (metrics_listens ok) r m refl refl refl calm (λ e. cc) hr
        hm
