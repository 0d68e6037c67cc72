-- ===== src/Route/RoundRobin.antt =====
-- internal/route/routing_strategy.go: the first priority with an upstream, round robin inside it.
pub mod Sorting
pub mod Choice
pub mod Fairness
pub mod Race
use node_gateway.Base.{
  ℕ, ℤ, ◌+◌, ◌-◌, ◌%◌, ◌^◌, ltb, leb_ℤ, String, Bool, true, false, List, [], ◌∷◌, map, Option, none,
  some, ◌==◌, nat_eq, int_eq, if◌then◌else◌, length, get_elem?,
}
use node_gateway.Config.{UpstreamConfig}
use node_gateway.Metadata.Parser.{RequestMetadata}
use node_gateway.Route.World.{World, M, PriorityToUpstreamsMap}
use node_gateway.Route.Filter.{uint64}
use node_gateway.Route.Filtering.{RoutingStrategy}

-- `upstreamsByPriority[priority]`
unfoldable pub at_priority : ℤ → PriorityToUpstreamsMap → List UpstreamConfig
at_priority p [] = []
at_priority p ((q, us) ∷ m) = if q == p then us else at_priority p m

-- sort.Ints
unfoldable pub insert_sorted : ℤ → List ℤ → List ℤ
insert_sorted x [] = x ∷ []
insert_sorted x (y ∷ ys) = if leb_ℤ x y then x ∷ y ∷ ys else y ∷ insert_sorted x ys

unfoldable pub sort : List ℤ → List ℤ
unfolding insert_sorted
sort [] = []
sort (x ∷ xs) = insert_sorted x (sort xs)

-- `int(counter) % n` for a uint64 counter, as an index: `none` where it is negative. The conversion
-- takes 2 ^ 63 and above to negative numbers, and `%` keeps the sign of its left side.
unfoldable pub index_of : ℕ → ℕ → Option ℕ
index_of counter n =
    if ltb counter (2 ^ 63)
    then some (counter % n)
    else if (2 ^ 64 - counter) % n == 0
    then some 0
    else none

module _ {S : Type 0} where
  -- The choice among the upstreams of one priority, which are not empty.
  unfoldable pub choose : List UpstreamConfig → World S → Option (Option String × World S)
  unfolding index_of
  choose us w =
      let counter = uint64 (w.counter + 1) in
      elim (index_of counter (length us)) [
        | none ↦ none
        | some i ↦ elim (get_elem? us i) [
          | none ↦ none
          | some u ↦ some (some u.id, record w { counter = counter })
        ]
      ]

  -- The loop over the sorted priorities.
  unfoldable pub scan : List ℤ → PriorityToUpstreamsMap → World S → Option (Option String × World S)
  unfolding choose at_priority
  scan [] m w = some (none, w)
  scan (p ∷ ps) m w = elim (at_priority p m) [ [] ↦ scan ps m w | u ∷ us ↦ choose (u ∷ us) w ]

  unfoldable pub route_next_request : RoutingStrategy S
  unfolding scan sort
  route_next_request m _ w = scan (sort (map (λ (e : ℤ × List UpstreamConfig). e.0) m)) m w
