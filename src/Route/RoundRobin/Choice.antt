-- ===== src/Route/RoundRobin/Choice.antt =====
-- Which upstream RouteNextRequest of internal/route/routing_strategy.go returns.
use native.Mathlib.Nat.{mod-lt}
use node_gateway.Base.{
  ℕ, ℤ, ◌≤ℤ◌, ◌+◌, ◌%◌, ◌^◌, ◌<◌, ltb, String, ◌≡◌, ◌≢◌, refl, ◌∙◌, ap, true, List, [], ◌∷◌, map,
  Option, none, some, ◌⊎◌, inl, inr, arith, length, get_elem?, get_elem?_total, In, All, All-map,
  All-of-In, In-All, if_true, List-cases,
}
use node_gateway.Config.{UpstreamConfig}
use node_gateway.Metadata.Parser.{RequestMetadata}
use node_gateway.Route.World.{World, PriorityToUpstreamsMap}
use node_gateway.Route.Filter.{uint64}
use node_gateway.Route.RoundRobin.{at_priority, sort, index_of, choose, scan, route_next_request}
use node_gateway.Route.RoundRobin.Sorting.{IsSorted, In-sort, sort-IsSorted}

abbrev pub priorities : PriorityToUpstreamsMap → List ℤ
priorities m = map (λ (e : ℤ × List UpstreamConfig). e.0) m

-- Every upstream list is empty, at these priorities.
abbrev pub IsBare : PriorityToUpstreamsMap → List ℤ → Type 0
IsBare m ps = All (λ p. at_priority p m ≡ []) ps

-- The one at the position that the counter gives in the list of the first priority that has any.
pub record IsChoice (m : PriorityToUpstreamsMap) (counter : ℕ) (ps : List ℤ) (u : UpstreamConfig)
    : Type 0 where
  pub priority : ℤ
  pub is_listed : In priority ps
  pub is_first : All (λ q. at_priority q m ≢ [] → priority ≤ℤ q) ps
  pub is_at :
      get_elem? (at_priority priority m) (counter % length (at_priority priority m)) ≡ some u

pub index_of-small : (counter n : ℕ) → counter < 2 ^ 63 → index_of counter n ≡ some (counter % n)
unfolding index_of
index_of-small counter n h = if_true _ _ below
  where
    below : ltb counter (2 ^ 63) ≡ true
    below = ground arith

module _ {S : Type 0} (m : PriorityToUpstreamsMap) (w : World S) where
  choose-at :
      (x : UpstreamConfig) (us : List UpstreamConfig) (u : UpstreamConfig)
      → w.counter + 1 < 2 ^ 63
      → get_elem? (x ∷ us) ((w.counter + 1) % length (x ∷ us)) ≡ some u
      → choose (x ∷ us) w ≡ some (some u.id, record w { counter = w.counter + 1 })
  unfolding choose
  choose-at x us u h e =
      let plain : uint64 (w.counter + 1) ≡ w.counter + 1 = omega (arith, h) in
      rw (choose, plain, index_of-small (w.counter + 1) (length (x ∷ us)) h, e)
        (ap (λ (c : ℕ). some (some u.id, record w { counter = c })) plain)

  scan-skip : (p : ℤ) (ps : List ℤ) → at_priority p m ≡ [] → scan (p ∷ ps) m w ≡ scan ps m w
  unfolding scan
  scan-skip p ps e = rw (scan, e) refl

  scan-take :
      (p : ℤ) (ps : List ℤ) (x : UpstreamConfig) (us : List UpstreamConfig)
      → at_priority p m ≡ x ∷ us
      → scan (p ∷ ps) m w ≡ choose (x ∷ us) w
  unfolding scan
  scan-take p ps x us e = rw (scan, e) refl

  -- What the loop does on the priorities `ps`.
  abbrev Outcome : List ℤ → Option (Option String × World S) → Type 0
  Outcome ps o =
      (IsBare m ps × (o ≡ some (none, w)))
      ⊎ ((u : UpstreamConfig) × IsChoice m (w.counter + 1) ps u
          × (o ≡ some (some u.id, record w { counter = w.counter + 1 })))

  later :
      (p : ℤ) (ps : List ℤ)
      → at_priority p m ≡ []
      → Outcome ps (scan ps m w)
      → Outcome (p ∷ ps) (scan (p ∷ ps) m w)
  later p ps e (inl (bare, o)) = inl ((e, bare), scan-skip p ps e ∙ o)
  later p ps e (inr (u, c, o)) = inr (
    u,
    record {
      priority = c.priority;
      is_listed = inr c.is_listed;
      is_first = (λ n. absurd (n e), c.is_first);
      is_at = c.is_at;
    },
    scan-skip p ps e ∙ o,
  )

  scan-Outcome : (ps : List ℤ) → w.counter + 1 < 2 ^ 63 → IsSorted ps → Outcome ps (scan ps m w)
  unfolding scan
  scan-Outcome [] h s = inl (tt, refl)
  scan-Outcome (p ∷ ps) h s = elim (List-cases (at_priority p m)) [
    | inl e ↦ later p ps e (scan-Outcome ps h s.1)
    | inr (x, us, e) ↦
        let (u, at) =
          get_elem?_total (x ∷ us) ((w.counter + 1) % length (x ∷ us))
            (mod-lt (w.counter + 1) (omega arith)) in
        inr (
          u,
          record {
            priority = p;
            is_listed = inl refl;
            is_first = (λ _. omega arith, All-map (λ q le _. le) ps s.0);
            is_at = rw e at;
          },
          scan-take p ps x us e ∙ choose-at x us u h at,
        )
  ]

-- Where the new count is below 2 ^ 63 the choice never panics. It reports that there is no healthy
-- upstream, and counts nothing, where every priority's list is empty. Otherwise it counts one
-- request and returns, of the lowest priority whose list is not empty, the upstream at the
-- position of the new count modulo the length of that list.
pub route_next_request-lowest :
    {S : Type 0} (m : PriorityToUpstreamsMap) (request : RequestMetadata) (w : World S)
    → w.counter + 1 < 2 ^ 63
    → (IsBare m (priorities m) × (route_next_request m request w ≡ some (none, w)))
      ⊎ ((u : UpstreamConfig) × IsChoice m (w.counter + 1) (priorities m) u
          × (route_next_request m request w
              ≡ some (some u.id, record w { counter = w.counter + 1 })))
unfolding route_next_request
route_next_request-lowest m request w h =
    elim (scan-Outcome m w (sort (priorities m)) h (sort-IsSorted (priorities m))) [
      | inl (bare, e) ↦ inl (everywhere (λ p. at_priority p m ≡ []) bare, e)
      | inr (u, c, e) ↦ inr (
        u,
        record {
          priority = c.priority;
          is_listed = (In-sort c.priority (priorities m)).0 c.is_listed;
          is_first = everywhere (λ q. at_priority q m ≢ [] → c.priority ≤ℤ q) c.is_first;
          is_at = c.is_at;
        },
        e,
      )
    ]
  where
    everywhere : (P : ℤ → Type 0) → All P (sort (priorities m)) → All P (priorities m)
    everywhere P all =
        All-of-In P (priorities m)
          (λ q i. In-All P q (sort (priorities m)) all ((In-sort q (priorities m)).1 i))
