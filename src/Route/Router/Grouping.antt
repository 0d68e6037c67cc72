-- ===== src/Route/Router/Grouping.antt =====
-- groupUpstreamsByPriority of internal/route/router.go.
use mathlib.Core.List.{append-nil, append_assoc}
use node_gateway.Base.{
  ℤ, ◌≡◌, ◌≢◌, refl, sym, ◌∙◌, ap, Bool, true, false, List, [], ◌∷◌, ◌++◌, arith, ◌==◌, int_eq,
  int_beq_iff, if◌then◌else◌, In,
}
use node_gateway.Config.{UpstreamConfig, GroupConfig}
use node_gateway.Route.World.{PriorityToUpstreamsMap}
use node_gateway.Route.RoundRobin.{at_priority}
use node_gateway.Route.RoundRobin.Choice.{priorities}
use node_gateway.Route.Router.{priority_of, append_at, group_from, group_upstreams_by_priority}

-- The upstreams whose group has the priority, in their order.
unfoldable pub with_priority : ℤ → List GroupConfig → List UpstreamConfig → List UpstreamConfig
with_priority p groups [] = []
with_priority p groups (u ∷ us) =
    if priority_of groups u.group_id == p
    then u ∷ with_priority p groups us
    else with_priority p groups us

at_priority-append_at :
    (p q : ℤ) (u : UpstreamConfig) (m : PriorityToUpstreamsMap)
    → at_priority p (append_at q u m)
      ≡ (if q == p then at_priority p m ++ u ∷ [] else at_priority p m)
unfolding at_priority append_at
at_priority-append_at p q u [] = refl
at_priority-append_at p q u ((r, us) ∷ m) =
    ground (arith, int_beq_iff q p, int_beq_iff r p, int_beq_iff r q, at_priority-append_at p q u m)

at_priority-group_from :
    (p : ℤ) (groups : List GroupConfig) (m : PriorityToUpstreamsMap) (us : List UpstreamConfig)
    → at_priority p (group_from groups m us) ≡ at_priority p m ++ with_priority p groups us
unfolding group_from with_priority
at_priority-group_from p groups m [] = sym (append-nil (at_priority p m))
at_priority-group_from p groups m (u ∷ us) =
    at_priority-group_from p groups (append_at (priority_of groups u.group_id) u m) us
    ∙ ap (λ (l : List UpstreamConfig). l ++ with_priority p groups us)
        (at_priority-append_at p (priority_of groups u.group_id) u m)
    ∙ joined (priority_of groups u.group_id == p)
  where
    joined :
        (b : Bool)
        → (if b then at_priority p m ++ u ∷ [] else at_priority p m) ++ with_priority p groups us
          ≡ at_priority p m
            ++ (if b then u ∷ with_priority p groups us else with_priority p groups us)
    joined true = append_assoc (at_priority p m) (u ∷ []) (with_priority p groups us)
    joined false = refl

-- At every priority the grouped map has exactly the upstreams whose first group of that ID has that
-- priority, or that have no such group where the priority is 0, in the order of the configuration.
pub at_priority-group_upstreams_by_priority :
    (p : ℤ) (upstreams : List UpstreamConfig) (groups : List GroupConfig)
    → at_priority p (group_upstreams_by_priority upstreams groups)
      ≡ with_priority p groups upstreams
unfolding group_upstreams_by_priority at_priority
at_priority-group_upstreams_by_priority p upstreams groups =
    at_priority-group_from p groups [] upstreams

-- A priority that has upstreams is a key of the map.
pub used_priority :
    (p : ℤ) (m : PriorityToUpstreamsMap) → at_priority p m ≢ [] → In p (priorities m)
unfolding at_priority
used_priority p [] n = absurd (n refl)
used_priority p ((q, us) ∷ m) n = ground (arith, int_beq_iff q p, used_priority p m)
