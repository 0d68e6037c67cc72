-- ===== src/Route/Filter/Refinement.antt =====
-- The filters of internal/route/node_filter.go answer by the view of the state before they run, and
-- leave that view as it is.
use node_gateway.Base.{ℕ, ◌≡◌, refl, ◌∙◌, ap, fun_ext, Bool, true, false, Option, some, string_eq}
use node_gateway.Config.{UpstreamConfig}
use node_gateway.Metadata.Parser.{RequestMetadata}
use node_gateway.Metadata.Store.{BlockHeightStatus, get_block_height_status}
use node_gateway.Checks.Breaker.{CircuitBreaker, ClosesForGood}
use node_gateway.Checks.ErrorCheck
use node_gateway.Checks.ErrorCheck.{ErrorCheck}
use node_gateway.Checks.LatencyCheck
use node_gateway.Checks.LatencyCheck.{LatencyCheck}
use node_gateway.Checks.Manager.{set_upstream_status}
use node_gateway.Route.World.{World, M}
use node_gateway.Route.Filter.{
  NodeFilter, Filters, nil, cons, and_filter, has_enough_peers, is_error_rate_acceptable,
  is_latency_acceptable, is_close_to_global_max_height, is_at_max_height_for_group,
  are_methods_allowed, is_close, is_at_max_height, put_status, apply, apply_all,
}
use node_gateway.Route.Filter.View.{View, status_view, view, verdict, verdict_all}
use node_gateway.Route.Filter.Asking.{
  Yields, Yields-bind, put_status_view, status_of-Yields, passing-error, passing-latency,
  banned-error, banned-latency,
}

module _ {S : Type 0} ⦃b : CircuitBreaker S⦄ (now : ℕ) (closes : ClosesForGood b)
    (request : RequestMetadata) (u : UpstreamConfig) (num_upstreams : ℕ) (v : View) where
  -- The filter's verdict on the view of a state is what the filter answers in that state.
  abbrev pub AnswersAs : M S Bool → Option Bool → Type 0
  AnswersAs m o = (w : World S) → view now w ≡ v → Yields now v (m w) o

  peers_yield :
      (minimum : ℕ)
      → AnswersAs
          (apply now request u num_upstreams (has_enough_peers minimum))
          (verdict v request u num_upstreams (has_enough_peers minimum))
  unfolding apply verdict
  peers_yield minimum w same = status_of-Yields now v u.id _ _ w same (λ s e. (w, refl, same))

  error_yields :
      AnswersAs
        (apply now request u num_upstreams is_error_rate_acceptable)
        (verdict v request u num_upstreams is_error_rate_acceptable)
  unfolding apply verdict put_status
  error_yields w same = status_of-Yields now v u.id _ _ w same λ s e.
      let asked = ErrorCheck.is_passing now s.error_check in
      let s' = record s { error_check = asked.1 } in
      (
        record w { manager = set_upstream_status u.id s' w.manager },
        ap (λ (p : Bool). some (p, record w { manager = set_upstream_status u.id s' w.manager }))
            (passing-error now s.error_check),
        put_status_view now u.id s s' w e (λ i. record (status_view now s) {
          is_banned_for_errors = banned-error now closes s.error_check i;
        })
            ∙ same,
      )

  latency_yields :
      AnswersAs
        (apply now request u num_upstreams is_latency_acceptable)
        (verdict v request u num_upstreams is_latency_acceptable)
  unfolding apply verdict put_status
  latency_yields w same = status_of-Yields now v u.id _ _ w same λ s e.
      let asked = LatencyCheck.is_passing now request.methods s.latency_check in
      let s' = record s { latency_check = asked.1 } in
      (
        record w { manager = set_upstream_status u.id s' w.manager },
        ap (λ (p : Bool). some (p, record w { manager = set_upstream_status u.id s' w.manager }))
            (passing-latency now closes request.methods s.latency_check),
        put_status_view now u.id s s' w e (λ i. record (status_view now s) {
          is_banned_for_latency =
              fun_ext (banned-latency now closes request.methods s.latency_check) i;
        })
            ∙ same,
      )

  -- The filters on heights read only the store.
  heights_yield :
      (test : BlockHeightStatus → Bool) (w : World S)
      → view now w ≡ v
      → Yields now v
          (some (test (get_block_height_status u.group_id u.id w.store), w))
          (some (test (get_block_height_status u.group_id u.id v.store)))
  heights_yield test w same = (
    w,
    ap (λ (x : View). some (test (get_block_height_status u.group_id u.id x.store), w)) same,
    same,
  )

  mutual
    unfolding apply verdict

    pub answers :
        (f : NodeFilter)
        → AnswersAs (apply now request u num_upstreams f) (verdict v request u num_upstreams f)
    answers (and_filter fs) w same = answers_all fs w same
    answers (has_enough_peers minimum) w same = peers_yield minimum w same
    answers is_error_rate_acceptable w same = error_yields w same
    answers is_latency_acceptable w same = latency_yields w same
    answers (is_close_to_global_max_height behind) w same = heights_yield (is_close behind) w same
    answers is_at_max_height_for_group w same =
        heights_yield (is_at_max_height num_upstreams) w same
    answers are_methods_allowed w same = (w, refl, same)

    pub answers_all :
        (fs : Filters)
        → AnswersAs
            (apply_all now request u num_upstreams fs)
            (verdict_all v request u num_upstreams fs)
    answers_all nil w same = (w, refl, same)
    answers_all (cons f fs) w same =
        Yields-bind now v (apply now request u num_upstreams f)
          (verdict v request u num_upstreams f) _ _ w (answers f w same)
          (elim [
            | true ↦ λ w' same'. answers_all fs w' same'
            | false ↦ λ w' same'. (w', refl, same')
          ])

-- Where a breaker that is closed stays closed, a filter panics exactly when its verdict on the view of
-- the state does, and otherwise answers that verdict and leaves the view as it is: closing breakers
-- on the way changes no later answer.
pub apply-verdict :
    {S : Type 0} ⦃b : CircuitBreaker S⦄ (now : ℕ) (closes : ClosesForGood b)
    (request : RequestMetadata) (u : UpstreamConfig) (num_upstreams : ℕ) (f : NodeFilter)
    (w : World S)
    → Yields now
        (view now w)
        (apply now request u num_upstreams f w)
        (verdict (view now w) request u num_upstreams f)
apply-verdict now closes request u num_upstreams f w =
    answers now closes request u num_upstreams (view now w) f w refl
