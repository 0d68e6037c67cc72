-- ===== src/Route/AlwaysRoute/Relaxing.antt =====
-- What the loop of internal/route/always_route_filtering_strategy.go asks the backing strategy.
use node_gateway.Base.{
  ℕ, ℤ, zero, suc, ◌≤◌, ◌<◌, String, ◌≡◌, ◌≢◌, ◌⊎◌, inl, inr, refl, ◌∙◌, ap, subst, List, [], ◌∷◌,
  some, arith, length, reverse,
}
use node_gateway.Config.{UpstreamConfig}
use node_gateway.Metadata.Parser.{RequestMetadata}
use node_gateway.Checks.Breaker.{CircuitBreaker, ClosesForGood}
use node_gateway.Route.World.{World, ◌>>=◌, PriorityToUpstreamsMap}
use node_gateway.Route.Filter.{NodeFilter, Filters, nil, cons}
use node_gateway.Route.Filter.View.{View, view}
use node_gateway.Route.Filter.Asking.{Yields}
use node_gateway.Route.Filtering.{RoutingStrategy, filter_upstreams}
use node_gateway.Route.Filtering.Kept.{passing_by_priority, filter_upstreams-passing}
use node_gateway.Route.AlwaysRoute.{remove_filters, attempt, route_next_request}
use node_gateway.Route.AlwaysRoute.Known.{IsKnown, passing_by_priority-known}

-- The filters that are left when the first `k` of the removable ones are removed.
abbrev pub after : ℕ → List String → Filters → Filters
after zero removable fs = fs
after (suc k) [] fs = fs
after (suc k) (removed ∷ removable) fs = after k removable (remove_filters fs removed)

module _ (v : View) (request : RequestMetadata) (m : PriorityToUpstreamsMap)
    (removable : List String) (fs : Filters) where
  -- After `k` removals some upstream passes, or the filters or the removals have run out.
  abbrev pub Ending : ℕ → PriorityToUpstreamsMap → Type 0
  Ending k chosen =
      ((after k removable fs ≢ nil)
        × (passing_by_priority v (after k removable fs) request m ≡ some chosen)
        × (chosen ≢ []))
      ⊎ ((chosen ≡ m)
          × ((after k removable fs ≡ nil)
              ⊎ ((k ≡ length removable)
                  × (passing_by_priority v (after k removable fs) request m ≡ some []))))

  -- The map `chosen` for the least number of removals after which some upstream passes, and the
  -- whole map where the filters run out or the removals do.
  pub record IsRelaxed (chosen : PriorityToUpstreamsMap) : Type 0 where
    pub removals : ℕ
    pub is_bounded : removals ≤ length removable
    pub is_empty_before :
        (j : ℕ) → j < removals → passing_by_priority v (after j removable fs) request m ≡ some []
    pub is_end : Ending removals chosen

IsCons : Filters → Type 0
IsCons nil = ⊥
IsCons (cons f fs) = Unit

cons≢nil : (f : NodeFilter) (fs : Filters) → cons f fs ≢ nil
unfolding IsCons
cons≢nil f fs e = subst IsCons e tt

∷≢[] : {A : Type 0} (x : A) (xs : List A) → (x ∷ xs) ≢ []
∷≢[] x xs e = ground arith

module _ {S : Type 0} ⦃b : CircuitBreaker S⦄ (now : ℕ) (backing : RoutingStrategy S)
    (m : PriorityToUpstreamsMap) (request : RequestMetadata) (f : NodeFilter) (fs : Filters)
    (w w' : World S) where
  attempt-kept :
      (removable : List String) (e : ℤ × List UpstreamConfig) (kept : PriorityToUpstreamsMap)
      → filter_upstreams now (cons f fs) request m w ≡ some (e ∷ kept, w')
      → attempt now backing m request removable (cons f fs) w ≡ backing (e ∷ kept) request w'
  unfolding attempt
  attempt-kept [] e kept r = rw (attempt, ◌>>=◌, r) refl
  attempt-kept (removed ∷ removable) e kept r = rw (attempt, ◌>>=◌, r) refl

  attempt-given_up :
      filter_upstreams now (cons f fs) request m w ≡ some ([], w')
      → attempt now backing m request [] (cons f fs) w ≡ backing m request w'
  unfolding attempt
  attempt-given_up r = rw (attempt, ◌>>=◌, r) refl

  attempt-next :
      (removed : String) (removable : List String)
      → filter_upstreams now (cons f fs) request m w ≡ some ([], w')
      → attempt now backing m request (removed ∷ removable) (cons f fs) w
        ≡ attempt now backing m request removable (remove_filters (cons f fs) removed) w'
  unfolding attempt
  attempt-next removed removable r = rw (attempt, ◌>>=◌, r) refl

module _ {S : Type 0} ⦃b : CircuitBreaker S⦄ (now : ℕ) (closes : ClosesForGood b)
    (backing : RoutingStrategy S) (m : PriorityToUpstreamsMap) (request : RequestMetadata)
    (v : View) (known : IsKnown v m) where
  -- The backing strategy is asked once, in a state with the same view, for such a map.
  abbrev Asked : List String → Filters → World S → Type 0
  Asked removable fs w =
      (chosen : PriorityToUpstreamsMap) × (w' : World S) × (attempt now backing m request removable
          fs w
        ≡ backing chosen request w')
      × (view now w' ≡ v)
      × IsRelaxed v request m removable fs chosen

  one_removed :
      (removed : String) (removable : List String) (f : NodeFilter) (fs : Filters) (w w' : World S)
      → passing_by_priority v (cons f fs) request m ≡ some []
      → filter_upstreams now (cons f fs) request m w ≡ some ([], w')
      → Asked removable (remove_filters (cons f fs) removed) w'
      → Asked (removed ∷ removable) (cons f fs) w
  one_removed removed removable f fs w w' none_passes r (chosen, u, e, same, relaxed) = (
    chosen,
    u,
    attempt-next now backing m request f fs w w' removed removable r ∙ e,
    same,
    record {
      removals = suc relaxed.removals;
      is_bounded = omega (arith, relaxed.is_bounded);
      is_empty_before = before;
      is_end = shift relaxed.is_end;
    },
  )
    where
      before :
          (j : ℕ)
          → j < suc relaxed.removals
          → passing_by_priority v (after j (removed ∷ removable) (cons f fs)) request m ≡ some []
      before zero h = none_passes
      before (suc j) h = relaxed.is_empty_before j (omega (arith, h))

      shift :
          Ending v request m removable (remove_filters (cons f fs) removed) relaxed.removals chosen
          → Ending v request m (removed ∷ removable) (cons f fs) (suc relaxed.removals) chosen
      shift (inl kept) = inl kept
      shift (inr (whole, inl ran_out)) = inr (whole, inl ran_out)
      shift (inr (whole, inr (last, e))) = inr (whole, inr (ap suc last, e))

  -- What is asked next where nothing passes.
  abbrev Later : List String → Filters → World S → Type 0
  Later [] fs w = Unit
  Later (removed ∷ removable) fs w = Asked removable (remove_filters fs removed) w

  decide :
      (f : NodeFilter) (fs : Filters) (w : World S) (removable : List String)
      (kept : PriorityToUpstreamsMap) (w' : World S)
      → passing_by_priority v (cons f fs) request m ≡ some kept
      → filter_upstreams now (cons f fs) request m w ≡ some (kept, w')
      → view now w' ≡ v
      → Later removable (cons f fs) w'
      → Asked removable (cons f fs) w
  decide f fs w removable (x ∷ kept) w' e r same' later = (
    x ∷ kept,
    w',
    attempt-kept now backing m request f fs w w' removable x kept r,
    same',
    record {
      removals = 0;
      is_bounded = omega arith;
      is_empty_before = λ j h. absurd (omega (arith, h));
      is_end = inl (cons≢nil f fs, e, ∷≢[] x kept);
    },
  )
  decide f fs w [] [] w' e r same' later = (
    m,
    w',
    attempt-given_up now backing m request f fs w w' r,
    same',
    record {
      removals = 0;
      is_bounded = omega arith;
      is_empty_before = λ j h. absurd (omega (arith, h));
      is_end = inr (refl, inr (refl, e));
    },
  )
  decide f fs w (removed ∷ removable) [] w' e r same' later =
      one_removed removed removable f fs w w' e r later

  filtered :
      (f : NodeFilter) (fs : Filters) (w : World S)
      → view now w ≡ v
      → (kept : PriorityToUpstreamsMap) × (w' : World S) × (passing_by_priority v
            (cons f fs)
            request
            m
          ≡ some kept)
        × (filter_upstreams now (cons f fs) request m w ≡ some (kept, w'))
        × (view now w' ≡ v)
  filtered f fs w same =
      let (kept, e) = passing_by_priority-known v request (cons f fs) m known in
      let (w', r, same') =
        subst (Yields now v (filter_upstreams now (cons f fs) request m w)) e
          (filter_upstreams-passing now closes v (cons f fs) request m w same) in
      (kept, w', e, r, same')

  attempt-Asked :
      (removable : List String) (fs : Filters) (w : World S) → view now w ≡ v → Asked removable fs w
  unfolding attempt
  attempt-Asked removable nil w same = (
    m,
    w,
    refl,
    same,
    record {
      removals = 0;
      is_bounded = omega arith;
      is_empty_before = λ j h. absurd (omega (arith, h));
      is_end = inr (refl, inl refl);
    },
  )
  attempt-Asked [] (cons f fs) w same =
      let (kept, w', e, r, same') = filtered f fs w same in decide f fs w [] kept w' e r same' tt
  attempt-Asked (removed ∷ removable) (cons f fs) w same =
      let (kept, w', e, r, same') = filtered f fs w same in
      decide f fs w (removed ∷ removable) kept w' e r same'
        (attempt-Asked removable (remove_filters (cons f fs) removed) w' same')

-- Where a breaker that is closed stays closed and the manager knows every upstream, routing never
-- panics before the backing strategy is asked, and asks it exactly once. The map that it is asked
-- for has the upstreams that pass after the least number of removals, last removable filter first,
-- after which some upstream passes; it is the whole map where no filter is left, or where none
-- passes after every removal. The view of the state is unchanged when the backing strategy is
-- asked.
pub route_next_request-IsRelaxed :
    {S : Type 0} ⦃b : CircuitBreaker S⦄ (now : ℕ) (closes : ClosesForGood b) (fs : Filters)
    (removable : List String) (backing : RoutingStrategy S) (m : PriorityToUpstreamsMap)
    (request : RequestMetadata) (w : World S)
    → IsKnown (view now w) m
    → (chosen : PriorityToUpstreamsMap) × (w' : World S) × (route_next_request now fs removable
          backing m request w
        ≡ backing chosen request w')
      × (view now w' ≡ view now w)
      × IsRelaxed (view now w) request m (reverse removable) fs chosen
unfolding route_next_request
route_next_request-IsRelaxed now closes fs removable backing m request w known =
    attempt-Asked now closes backing m request (view now w) known (reverse removable) fs w refl
