-- ===== src/Route/AlwaysRoute/Known.antt =====
-- The filters of internal/route/node_filter.go have a verdict, and so do not panic, on the upstreams
-- that the manager knows.
use node_gateway.Base.{
  ℕ, ℤ, ◌≡◌, refl, true, false, List, [], ◌∷◌, Option, none, some, length, arith, All, ◌>>=◌,
}
use node_gateway.Config.{UpstreamConfig}
use node_gateway.Metadata.Parser.{RequestMetadata}
use node_gateway.Route.World.{PriorityToUpstreamsMap}
use node_gateway.Route.Filter.{
  NodeFilter, Filters, nil, cons, and_filter, has_enough_peers, is_error_rate_acceptable,
  is_latency_acceptable, is_close_to_global_max_height, is_at_max_height_for_group,
  are_methods_allowed,
}
use node_gateway.Route.Filter.View.{View, verdict, verdict_all}
use node_gateway.Route.Filtering.Kept.{passing, passing_by_priority}

abbrev pub Holds : {A : Type 0} → Option A → Type 0
Holds {A} o = (a : A) × (o ≡ some a)

Holds-bind :
    {A B : Type 0} (o : Option A) (f : A → Option B)
    → Holds o
    → ((a : A) → Holds (f a))
    → Holds (o >>= f)
Holds-bind none f (a, e) h = ground arith
Holds-bind (some a) f k h = h a

-- Every upstream of the map has a status.
abbrev pub IsKnown : View → PriorityToUpstreamsMap → Type 0
IsKnown v m =
    All (λ (e : ℤ × List UpstreamConfig). All (λ (u : UpstreamConfig). Holds (v.status u.id)) e.1) m

module _ (v : View) (request : RequestMetadata) where
  mutual
    unfolding verdict verdict_all

    verdict-known :
        (u : UpstreamConfig) (n : ℕ)
        → Holds (v.status u.id)
        → (f : NodeFilter) → Holds (verdict v request u n f)
    verdict-known u n k (and_filter fs) = verdict_all-known u n k fs
    verdict-known u n k (has_enough_peers minimum) = Holds-bind (v.status u.id) _ k (λ s. (_, refl))
    verdict-known u n k is_error_rate_acceptable = Holds-bind (v.status u.id) _ k (λ s. (_, refl))
    verdict-known u n k is_latency_acceptable = Holds-bind (v.status u.id) _ k (λ s. (_, refl))
    verdict-known u n k (is_close_to_global_max_height behind) = (_, refl)
    verdict-known u n k is_at_max_height_for_group = (_, refl)
    verdict-known u n k are_methods_allowed = (_, refl)

    verdict_all-known :
        (u : UpstreamConfig) (n : ℕ)
        → Holds (v.status u.id)
        → (fs : Filters) → Holds (verdict_all v request u n fs)
    verdict_all-known u n k nil = (true, refl)
    verdict_all-known u n k (cons f fs) =
        Holds-bind (verdict v request u n f) _ (verdict-known u n k f)
          (elim [ true ↦ verdict_all-known u n k fs | false ↦ (false, refl) ])

  passing-known :
      (fs : Filters) (n : ℕ) (us : List UpstreamConfig)
      → All (λ (u : UpstreamConfig). Holds (v.status u.id)) us
      → Holds (passing v fs request n us)
  unfolding passing
  passing-known fs n [] k = ([], refl)
  passing-known fs n (u ∷ us) k =
      Holds-bind (verdict_all v request u n fs) _ (verdict_all-known u n k.0 fs) λ ok.
        Holds-bind (passing v fs request n us) _ (passing-known fs n us k.1) (λ rest. (_, refl))

  pub passing_by_priority-known :
      (fs : Filters) (m : PriorityToUpstreamsMap)
      → IsKnown v m
      → Holds (passing_by_priority v fs request m)
  unfolding passing_by_priority
  passing_by_priority-known fs [] k = ([], refl)
  passing_by_priority-known fs ((p, us) ∷ m) k =
      Holds-bind (passing v fs request (length us) us) _ (passing-known fs (length us) us k.0)
        λ kept.
          Holds-bind (passing_by_priority v fs request m) _ (passing_by_priority-known fs m k.1)
            (λ rest. (_, refl))
