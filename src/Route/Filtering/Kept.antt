-- ===== src/Route/Filtering/Kept.antt =====
-- Which upstreams internal/route/filtering_strategy.go keeps: those that pass by the view of the
-- state, in their order, whatever the filters write while they run.
use node_gateway.Base.{
  ℕ, ◌≡◌, refl, List, [], ◌∷◌, Option, some, is_empty, if◌then◌else◌, length, ◌>>=◌ as bind,
}
use node_gateway.Config.{UpstreamConfig}
use node_gateway.Metadata.Parser.{RequestMetadata}
use node_gateway.Checks.Breaker.{CircuitBreaker, ClosesForGood}
use node_gateway.Route.World.{World, PriorityToUpstreamsMap}
use node_gateway.Route.Filter.{Filters, and_filter, apply}
use node_gateway.Route.Filter.View.{View, view, verdict, verdict_all}
use node_gateway.Route.Filter.Asking.{Yields, Yields-bind}
use node_gateway.Route.Filter.Refinement.{answers}
use node_gateway.Route.Filtering.{keep_passing, filter_upstreams}

-- The specification: pure functions of a view.
module _ (v : View) (filters : Filters) (request : RequestMetadata) where
  unfoldable pub passing : ℕ → List UpstreamConfig → Option (List UpstreamConfig)
  passing num_upstreams [] = some []
  passing num_upstreams (u ∷ us) =
      bind (verdict_all v request u num_upstreams filters)
        λ ok. bind (passing num_upstreams us) λ rest. some (if ok then u ∷ rest else rest)

  unfoldable pub passing_by_priority : PriorityToUpstreamsMap → Option PriorityToUpstreamsMap
  passing_by_priority [] = some []
  passing_by_priority ((priority, us) ∷ entries) = bind (passing (length us) us) λ kept.
      bind (passing_by_priority entries)
        λ rest. some (if is_empty kept then rest else (priority, kept) ∷ rest)

module _ {S : Type 0} ⦃b : CircuitBreaker S⦄ (now : ℕ) (closes : ClosesForGood b) (v : View)
    (filters : Filters) (request : RequestMetadata) where
  keep_passing-Yields :
      (num_upstreams : ℕ) (us : List UpstreamConfig) (w : World S)
      → view now w ≡ v
      → Yields now v
          (keep_passing now filters request num_upstreams us w)
          (passing v filters request num_upstreams us)
  unfolding keep_passing passing
  keep_passing-Yields n [] w same = (w, refl, same)
  keep_passing-Yields n (u ∷ us) w same =
      Yields-bind now v (apply now request u n (and_filter filters))
        (verdict_all v request u n filters) _ _ w
        (unfold verdict in (answers now closes request u n v (and_filter filters) w same))
        λ ok w' same'.
          Yields-bind now v (keep_passing now filters request n us) (passing v filters request n us)
            _ _ w' (keep_passing-Yields n us w' same') (λ rest w'' same''. (w'', refl, same''))

  -- Where a breaker that is closed stays closed, filtering panics exactly when the verdict on some
  -- upstream that it reaches does. Otherwise the result has, for each priority in turn, the
  -- upstreams that pass by the view of the state, in their order, and no entry for a priority
  -- where none does; the view stays as it is.
  pub filter_upstreams-passing :
      (m : PriorityToUpstreamsMap) (w : World S)
      → view now w ≡ v
      → Yields now v
          (filter_upstreams now filters request m w)
          (passing_by_priority v filters request m)
  unfolding filter_upstreams passing_by_priority
  filter_upstreams-passing [] w same = (w, refl, same)
  filter_upstreams-passing ((priority, us) ∷ entries) w same =
      Yields-bind now v (keep_passing now filters request (length us) us)
        (passing v filters request (length us) us) _ _ w (keep_passing-Yields (length us) us w same)
        λ kept w' same'.
          Yields-bind now v (filter_upstreams now filters request entries)
            (passing_by_priority v filters request entries) _ _ w'
            (filter_upstreams-passing entries w' same') (λ rest w'' same''. (w'', refl, same''))
