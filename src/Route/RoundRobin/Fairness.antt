-- ===== src/Route/RoundRobin/Fairness.antt =====
-- A round of RouteNextRequest of internal/route/routing_strategy.go serves every upstream once.
use mathlib.Core.Option.{some-injective}
use native.Mathlib.Nat.{mod-lt, mod-eq_of_lt, add-mod, mod_self}
use mathlib.Core.List.{map-append, append-nil, append_assoc}
use node_gateway.Base.{
  ℕ, ℤ, pos, negsuc, ◌≤ℤ◌, zero, suc, ◌+◌, ◌%◌, ◌^◌, ◌<◌, ◌≤◌, String, ◌≡◌, ◌≢◌, refl, sym, ◌∙◌, ap,
  subst, List, [], ◌∷◌, ◌++◌, map, Option, none, some, inl, inr, arith, length, length-append,
  get_elem?, In, All, In-All,
}
use node_gateway.Config.{UpstreamConfig}
use node_gateway.Metadata.Parser.{RequestMetadata}
use node_gateway.Route.World.{World, M, ◌>>=◌, return, PriorityToUpstreamsMap}
use node_gateway.Route.RoundRobin.{at_priority, route_next_request}
use node_gateway.Route.RoundRobin.Choice.{priorities, IsChoice, route_next_request-lowest}

-- `p` is the lowest priority with an upstream.
pub record IsLowest (m : PriorityToUpstreamsMap) (p : ℤ) : Type 0 where
  pub is_listed : In p (priorities m)
  pub is_used : at_priority p m ≢ []
  pub is_first : All (λ q. at_priority q m ≢ [] → p ≤ℤ q) (priorities m)

abbrev pub answer : UpstreamConfig → Option String
answer u = some u.id

abbrev pub counted : {S : Type 0} → ℕ → World S → World S
counted n w = record w { counter = w.counter + n }

-- So many requests, one after the other, and their answers.
unfoldable pub route_requests :
    {S : Type 0} → ℕ → PriorityToUpstreamsMap → RequestMetadata → M S (List (Option String))
route_requests zero m request = return []
route_requests (suc n) m request = do
  id ← route_next_request m request
  ids ← route_requests n m request
  return (id ∷ ids)

antisymmetry : (a b : ℤ) → a ≤ℤ b → b ≤ℤ a → a ≡ b
antisymmetry (pos a) (pos b) h k = ap pos (omega arith)
antisymmetry (pos a) (negsuc b) h k = absurd (omega arith)
antisymmetry (negsuc a) (pos b) h k = absurd (omega arith)
antisymmetry (negsuc a) (negsuc b) h k = ap negsuc (omega arith)

module _ {A : Type 0} where
  used : (xs : List A) → xs ≢ [] → 0 < length xs
  used [] n = absurd (n refl)
  used (x ∷ xs) n = omega arith

  none_is : (x : A) → ¬ (none ≡ some x)
  none_is x e = ground arith

  split_at :
      (xs : List A) (r : ℕ)
      → r ≤ length xs
      → (ys : List A) × (zs : List A) × (xs ≡ ys ++ zs) × (length ys ≡ r)
  split_at xs zero h = ([], xs, refl, refl)
  split_at [] (suc r) h = absurd (omega arith)
  split_at (x ∷ xs) (suc r) h =
      let (ys, zs, e, l) = split_at xs r (omega arith) in
      (x ∷ ys, zs, ap (λ (t : List A). x ∷ t) e, ap suc l)

  next :
      (xs : List A) (y : A) (ys : List A) (c : ℕ)
      → c % length (xs ++ y ∷ ys) ≡ length xs % length (xs ++ y ∷ ys)
      → (c + 1) % length ((xs ++ y ∷ []) ++ ys)
        ≡ length (xs ++ y ∷ []) % length ((xs ++ y ∷ []) ++ ys)
  next xs y ys c e =
      rw
        (
          append_assoc xs (y ∷ []) ys,
          length-append xs (y ∷ []),
          add-mod c 1 (length (xs ++ y ∷ ys)),
          e,
        )
        (sym (add-mod (length xs) 1 (length (xs ++ y ∷ ys))))

  get_elem?-middle :
      (xs : List A) (y : A) (ys : List A) → get_elem? (xs ++ y ∷ ys) (length xs) ≡ some y
  get_elem?-middle [] y ys = refl
  get_elem?-middle (x ∷ xs) y ys = get_elem?-middle xs y ys

module _ (m : PriorityToUpstreamsMap) (p : ℤ) (lowest : IsLowest m p) where
  the_same :
      (us : List UpstreamConfig) (u : UpstreamConfig) (vs : List UpstreamConfig)
      (v : UpstreamConfig) (count : ℕ)
      → at_priority p m ≡ us ++ u ∷ vs
      → count % length (us ++ u ∷ vs) ≡ length us
      → IsChoice m count (priorities m) v
      → v ≡ u
  the_same us u vs v count e at c = some-injective _ _ (sym c.is_at ∙ here)
    where
      used : at_priority c.priority m ≢ []
      used bare = none_is v (subst (λ l. get_elem? l (count % length l) ≡ some v) bare c.is_at)

      same : c.priority ≡ p
      same =
          antisymmetry c.priority p
            (In-All (λ q. at_priority q m ≢ [] → c.priority ≤ℤ q) p (priorities m) c.is_first
              lowest.is_listed lowest.is_used)
            (In-All (λ q. at_priority q m ≢ [] → p ≤ℤ q) c.priority (priorities m) lowest.is_first
              c.is_listed used)

      here :
          get_elem? (at_priority c.priority m) (count % length (at_priority c.priority m)) ≡ some u
      here = rw (same, e, at) (get_elem?-middle us u vs)

module _ {S : Type 0} (m : PriorityToUpstreamsMap) (request : RequestMetadata) (p : ℤ)
    (lowest : IsLowest m p) where
  -- One request, where the new count falls on the upstream between `us` and `vs`.
  route-position :
      (us : List UpstreamConfig) (u : UpstreamConfig) (vs : List UpstreamConfig) (w : World S)
      → at_priority p m ≡ us ++ u ∷ vs
      → w.counter + 1 < 2 ^ 63
      → (w.counter + 1) % length (us ++ u ∷ vs) ≡ length us
      → route_next_request m request w ≡ some (some u.id, record w { counter = w.counter + 1 })
  route-position us u vs w e h at = elim (route_next_request-lowest m request w h) [
    | inl (bare, _) ↦
        absurd (
          lowest.is_used
            (In-All (λ q. at_priority q m ≡ []) p (priorities m) bare lowest.is_listed))
    | inr (v, c, r) ↦
        r
        ∙ ap (λ (x : UpstreamConfig). some (some x.id, record w { counter = w.counter + 1 }))
            (the_same m p lowest us u vs v (w.counter + 1) e at c)
  ]

  one_more :
      (n : ℕ) (id : Option String) (ids : List (Option String)) (w v v' : World S)
      → route_next_request m request w ≡ some (id, v)
      → route_requests n m request v ≡ some (ids, v')
      → route_requests (suc n) m request w ≡ some (id ∷ ids, v')
  unfolding route_requests
  one_more n id ids w v v' e f = rw (route_requests, ◌>>=◌, e, f) refl

  -- Requests one after the other, from the upstream after `us` on.
  route-positions :
      (us vs ws : List UpstreamConfig) (k : ℕ) (ids : List (Option String)) (w v : World S)
      → at_priority p m ≡ us ++ (vs ++ ws)
      → w.counter + length vs < 2 ^ 63
      → (w.counter + 1) % length (us ++ (vs ++ ws)) ≡ length us % length (us ++ (vs ++ ws))
      → route_requests k m request (counted (length vs) w) ≡ some (ids, v)
      → route_requests (length vs + k) m request w ≡ some (map answer vs ++ ids, v)
  route-positions us [] ws k ids w v e h at r =
      let same : w.counter + 0 ≡ w.counter = omega arith in
      let plain : 0 + k ≡ k = omega arith in
      subst (λ n. route_requests n m request w ≡ some (ids, v)) (sym plain)
        (subst (λ c. route_requests k m request (record w { counter = c }) ≡ some (ids, v)) same r)
  route-positions us (x ∷ vs) ws k ids w v e h at r =
      let longer : suc (length vs) + k ≡ suc (length vs + k) = omega arith in
      let inside : length us < length (us ++ x ∷ (vs ++ ws)) =
        omega (arith, length-append us (x ∷ (vs ++ ws))) in
      let more : w.counter + suc (length vs) ≡ w.counter + 1 + length vs = omega arith in
      let w' = counted 1 w in
      let here = route-position us x (vs ++ ws) w e (omega arith) (at ∙ mod-eq_of_lt inside) in
      let there =
        route-positions (us ++ x ∷ []) vs ws k ids w' v
          (e ∙ sym (append_assoc us (x ∷ []) (vs ++ ws))) (omega arith)
          (next us x (vs ++ ws) (w.counter + 1) at)
          (subst (λ c. route_requests k m request (record w { counter = c }) ≡ some (ids, v)) more
            r) in
      subst (λ n. route_requests n m request w ≡ some (answer x ∷ (map answer vs ++ ids), v))
        (sym longer) (one_more (length vs + k) (answer x) (map answer vs ++ ids) w w' v here there)

  -- A whole round, from the upstream after `us`.
  route-round :
      (us vs : List UpstreamConfig) (w : World S)
      → at_priority p m ≡ us ++ vs
      → w.counter + length (us ++ vs) < 2 ^ 63
      → length us < length (us ++ vs)
      → length us ≡ (w.counter + 1) % length (us ++ vs)
      → route_requests (length (us ++ vs)) m request w
        ≡ some (map answer (vs ++ us), counted (length (us ++ vs)) w)
  unfolding route_requests
  route-round us vs w e h inside l =
      subst (λ n. route_requests n m request w ≡ some (map answer (vs ++ us), counted n w)) total
        (subst
          (λ ids.
            route_requests (length vs + (length us + 0)) m request w
            ≡ some (ids, counted (length vs + (length us + 0)) w))
          answers
          (route-positions us vs [] (length us + 0) (map answer us ++ []) w
            (counted (length vs + (length us + 0)) w) (e ∙ ap (λ t. us ++ t) (sym (append-nil vs)))
            (omega (arith, length-append us vs)) start second))
    where
      total : length vs + (length us + 0) ≡ length (us ++ vs)
      total = omega (arith, length-append us vs)

      answers : map answer vs ++ (map answer us ++ []) ≡ map answer (vs ++ us)
      answers =
          ap (λ t. map answer vs ++ t) (append-nil (map answer us)) ∙ sym (map-append answer vs us)

      start : (w.counter + 1) % length (us ++ (vs ++ [])) ≡ length us % length (us ++ (vs ++ []))
      start = rw (append-nil vs) (sym l ∙ sym (mod-eq_of_lt inside))

      wrapped : (w.counter + length vs + 1) % length (us ++ vs) ≡ 0 % length (us ++ vs)
      wrapped =
          let N = length (us ++ vs) in
          let order : w.counter + length vs + 1 ≡ w.counter + 1 + length vs = omega arith in
          let whole : length us + length vs ≡ N = sym (length-append us vs) in
          rw order (
            add-mod (w.counter + 1) (length vs) N
            ∙ ap (λ (r : ℕ). (r + length vs % N) % N) (sym l ∙ sym (mod-eq_of_lt inside))
            ∙ sym (add-mod (length us) (length vs) N)
            ∙ ap (λ (r : ℕ). r % N) whole
            ∙ mod_self N
            ∙ sym (mod-eq_of_lt (omega arith)))

      second :
          route_requests (length us + 0) m request (counted (length vs) w)
          ≡ some (map answer us ++ [], counted (length vs + (length us + 0)) w)
      second =
          route-positions [] us vs 0 [] (counted (length vs) w)
            (counted (length vs + (length us + 0)) w) e (omega (arith, length-append us vs)) wrapped
            (ap (λ (c : ℕ). some ([], record w { counter = c })) (omega arith))

-- As many requests as the lowest used priority has upstreams, one after the other from any state
-- whose count stays below 2 ^ 63, are answered by each of those upstreams exactly once, in a
-- rotation of the list's order that starts at the position of the first count, and raise the
-- counter by as many.
pub route_requests-rotation :
    {S : Type 0} (m : PriorityToUpstreamsMap) (request : RequestMetadata) (p : ℤ)
    (lowest : IsLowest m p) (w : World S)
    → w.counter + length (at_priority p m) < 2 ^ 63
    → (us : List UpstreamConfig) × (vs : List UpstreamConfig) × (at_priority p m ≡ us ++ vs)
      × (length us ≡ (w.counter + 1) % length (at_priority p m))
      × (route_requests (length (at_priority p m)) m request w
          ≡ some (map answer (vs ++ us), counted (length (at_priority p m)) w))
route_requests-rotation m request p lowest w h =
    let L = at_priority p m in
    let count = w.counter + 1 in
    let bound = mod-lt count (used L lowest.is_used) in
    let (us, vs, e, l) = split_at L (count % length L) (omega arith) in
    let same = ap (length {A = UpstreamConfig}) e in
    let inside : length us < length (us ++ vs) = omega arith in
    let at : length us ≡ count % length (us ++ vs) = l ∙ ap (λ (n : ℕ). count % n) same in
    let run = route-round m request p lowest us vs w e (omega arith) inside at in
    (
      us,
      vs,
      e,
      l,
      subst (λ (n : ℕ). route_requests n m request w ≡ some (map answer (vs ++ us), counted n w))
          (sym same) run,
    )
