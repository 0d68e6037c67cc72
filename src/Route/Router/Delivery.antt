-- ===== src/Route/Router/Delivery.antt =====
-- With always-route, internal/route/router.go finds an upstream for every request.
use node_gateway.Base.{
  ℕ, ◌+◌, ◌^◌, ◌<◌, ◌≡◌, ◌≢◌, refl, sym, ◌∙◌, ap, subst, inl, inr, List, [], ◌∷◌, some, arith,
  int_eq, int_beq_iff, if_true, In, In-All, String, reverse,
}
use node_gateway.Config.{UpstreamConfig, GroupConfig}
use node_gateway.Metadata.Parser.{RequestMetadata}
use node_gateway.Checks.Breaker.{CircuitBreaker, ClosesForGood}
use node_gateway.Route.World.{World, PriorityToUpstreamsMap}
use node_gateway.Route.Filter.{Filters}
use node_gateway.Route.Filter.View.{View, view}
use node_gateway.Route.AlwaysRoute
use node_gateway.Route.AlwaysRoute.Known.{IsKnown}
use node_gateway.Route.AlwaysRoute.Relaxing.{IsRelaxed, after, route_next_request-IsRelaxed}
use node_gateway.Route.RoundRobin
use node_gateway.Route.RoundRobin.{at_priority}
use node_gateway.Route.RoundRobin.Choice.{priorities, route_next_request-lowest}
use node_gateway.Route.Router.{priority_of, group_upstreams_by_priority}
use node_gateway.Route.Router.Grouping.{
  with_priority, at_priority-group_upstreams_by_priority, used_priority,
}
use node_gateway.Route.Router.Serving.{
  Serves, In-get_elem?, Serves-at_priority, Every, passing_by_priority-IsPart, IsPart, IsUsed,
  IsPart-IsUsed, Serves-group_from,
}

grouped-IsUsed :
    (upstreams : List UpstreamConfig) (groups : List GroupConfig)
    → upstreams ≢ []
    → IsUsed (group_upstreams_by_priority upstreams groups)
unfolding IsUsed with_priority
grouped-IsUsed [] groups n = absurd (n refl)
grouped-IsUsed (u ∷ us) groups n =
    let p = priority_of groups u.group_id in
    let at = at_priority-group_upstreams_by_priority p (u ∷ us) groups in
    (
      p,
      λ e.
          not_empty u (with_priority p groups us)
            (sym (if_true _ _ ((int_beq_iff p p).1 refl)) ∙ sym at ∙ e),
    )
  where
    not_empty : (x : UpstreamConfig) (xs : List UpstreamConfig) → (x ∷ xs) ≢ []
    not_empty x xs e = ground arith

relaxed-IsUsed :
    (v : View) (request : RequestMetadata) (m : PriorityToUpstreamsMap) (removable : List String)
    (fs : Filters) (chosen : PriorityToUpstreamsMap)
    → IsRelaxed v request m removable fs chosen
    → IsUsed m
    → IsUsed chosen × ((u : UpstreamConfig) → Serves u chosen → Serves u m)
relaxed-IsUsed v request m removable fs chosen relaxed used = elim relaxed.is_end [
  | inl (_, e, n) ↦
      let part : IsPart m chosen =
        subst (Every (IsPart m)) e
          (passing_by_priority-IsPart v (after relaxed.removals removable fs) request m) in
      (IsPart-IsUsed m chosen part n, part.is_within)
  | inr (same, _) ↦ (subst IsUsed (sym same) used, λ u h. subst (Serves u) same h)
]

round_robin-Serves :
    {S : Type 0} (m : PriorityToUpstreamsMap) (request : RequestMetadata) (w : World S)
    → w.counter + 1 < 2 ^ 63
    → IsUsed m
    → (u : UpstreamConfig) × Serves u m
      × (RoundRobin.route_next_request m request w
          ≡ some (some u.id, record w { counter = w.counter + 1 }))
unfolding IsUsed
round_robin-Serves m request w h (p, used) = elim (route_next_request-lowest m request w h) [
  | inl (bare, _) ↦
      absurd
        (used (In-All (λ q. at_priority q m ≡ []) p (priorities m) bare (used_priority p m used)))
  | inr (u, c, e) ↦ (
    u,
    Serves-at_priority c.priority u m (In-get_elem? (at_priority c.priority m) _ u c.is_at),
    e,
  )
]

-- With always-route over the round robin, where a breaker that is closed stays closed, a request
-- to a chain that has upstreams, all known to the manager, never fails for lack of a healthy
-- upstream and never panics in routing, whatever the filters are: it goes to one of the configured
-- upstreams, and is counted once, as long as the count stays below 2 ^ 63.
pub route_next_request-delivers :
    {S : Type 0} ⦃b : CircuitBreaker S⦄ (now : ℕ) (closes : ClosesForGood b) (fs : Filters)
    (removable : List String) (upstreams : List UpstreamConfig) (groups : List GroupConfig)
    (request : RequestMetadata) (w : World S)
    → IsKnown (view now w) (group_upstreams_by_priority upstreams groups)
    → upstreams ≢ []
    → w.counter + 1 < 2 ^ 63
    → (u : UpstreamConfig) × In u upstreams
      × (w' : World S) × (AlwaysRoute.route_next_request now fs removable
            RoundRobin.route_next_request
            (group_upstreams_by_priority upstreams groups)
            request
            w
          ≡ some (some u.id, w'))
      × (w'.counter ≡ w.counter + 1)
unfolding group_upstreams_by_priority
route_next_request-delivers now closes fs removable upstreams groups request w known n h =
    let m = group_upstreams_by_priority upstreams groups in
    let (chosen, v, e, same, relaxed) =
      route_next_request-IsRelaxed now closes fs removable RoundRobin.route_next_request m request w
        known in
    let (used, within) =
      relaxed-IsUsed (view now w) request m (reverse removable) fs chosen relaxed
        (grouped-IsUsed upstreams groups n) in
    let counted : v.counter ≡ w.counter = ap (λ (x : View). x.counter) same in
    let (u, serves, r) = round_robin-Serves chosen request v (omega (arith, counted, h)) used in
    (
      u,
      elim (Serves-group_from groups u [] upstreams (within u serves)) [
        | inl i ↦ absurd i
        | inr i ↦ i
      ],
      record v { counter = v.counter + 1 },
      e ∙ r,
      ap (λ (c : ℕ). c + 1) counted,
    )
