-- ===== src/Route/RoundRobin/Race.antt =====
-- Requests that RouteNextRequest of internal/route/routing_strategy.go serves at once: the counter is
-- added to in one atomic step and read in a later one.
use native.Mathlib.Nat.{mod-lt}
use node_gateway.Base.{
  ℕ, zero, suc, ◌+◌, ◌%◌, ◌^◌, ◌≤◌, ◌<◌, ◌≡◌, ◌≢◌, refl, ap, subst, List, [], ◌∷◌, map, Option,
  none, some, ◌>>=◌, String, inl, inr, Option-cases, arith, length, get_elem?, get_elem?_total,
  put_at, All, All-map,
}
use node_gateway.Config.{UpstreamConfig}
use node_gateway.Route.World.{World}
use node_gateway.Route.Filter.{uint64}
use node_gateway.Route.RoundRobin.{index_of, choose}
use node_gateway.Route.RoundRobin.Choice.{index_of-small}

-- A request that found the upstreams of its priority: before it adds to the counter, before it reads
-- it, and after its choice.
pub data Request : Type 0 where
  ready counted : List UpstreamConfig → Request
  chose : List UpstreamConfig → UpstreamConfig → Request

-- The next step of a request, for the counter as it is: `none` is the panic on a negative index.
unfoldable pub turn : Request → ℕ → Option (Request × ℕ)
unfolding index_of
turn (ready us) counter = some (counted us, uint64 (counter + 1))
turn (counted us) counter = index_of counter (length us) >>= λ (i : ℕ).
    get_elem? us i >>= λ (u : UpstreamConfig). some (chose us u, counter)
turn (chose us u) counter = some (chose us u, counter)

-- The requests take their steps in the order of the schedule.
unfoldable pub race : List ℕ → List Request → ℕ → Option (List Request × ℕ)
unfolding turn
race [] rs counter = some (rs, counter)
race (i ∷ is) rs counter = elim (get_elem? rs i) [
  | none ↦ race is rs counter
  | some r ↦ turn r counter >>= λ (x : Request × ℕ). race is (put_at i x.0 rs) x.1
]

abbrev finish : {S : Type 0} → World S → Request × ℕ → Option (Option String × World S)
finish w (chose us u, counter) = some (some u.id, record w { counter = counter })
finish w (_, counter) = none

-- Two steps of one request with none between are the choice of the sequential code.
turn-choose :
    {S : Type 0} (us : List UpstreamConfig) (w : World S)
    → choose us w ≡ (
        turn (ready us) w.counter >>= λ (x : Request × ℕ).
        turn x.0 x.1 >>= λ (y : Request × ℕ). finish w y)
unfolding turn choose
turn-choose us w = elim (Option-cases (index_of (uint64 (w.counter + 1)) (length us))) [
  | inl e ↦ rw (choose, e) refl
  | inr (i, e) ↦ elim (Option-cases (get_elem? us i)) [
    | inl none_there ↦ rw (choose, e, none_there) refl
    | inr (u, there) ↦ rw (choose, e, there) refl
  ]
]

-- How many requests have not added yet.
abbrev weight : Request → ℕ
weight (ready us) = 1
weight _ = 0

abbrev waiting : List Request → ℕ
waiting [] = 0
waiting (r ∷ rs) = weight r + waiting rs

-- A request that counted did so after the start, and one that chose read a count since then.
abbrev pub IsFair : ℕ → ℕ → Request → Type 0
IsFair first counter (ready us) = us ≢ []
IsFair first counter (counted us) = (us ≢ []) × (first < counter)
IsFair first counter (chose us u) =
    (k : ℕ) × (first < k) × (k ≤ counter) × (get_elem? us (k % length us) ≡ some u)

IsFair-le : (first c d : ℕ) → c ≤ d → (r : Request) → IsFair first c r → IsFair first d r
IsFair-le first c d h (ready us) fair = fair
IsFair-le first c d h (counted us) (some_us, after) = (some_us, omega (arith, h, after))
IsFair-le first c d h (chose us u) (k, after, before, at) = (k, after, omega (arith, h, before), at)

some_inj : {A : Type 0} {x y : A} → some x ≡ some y → x ≡ y
some_inj e = cc

waiting-put_at :
    (i : ℕ) (r r' : Request) (rs : List Request)
    → get_elem? rs i ≡ some r
    → waiting (put_at i r' rs) + weight r ≡ waiting rs + weight r'
unfolding put_at
waiting-put_at i r r' [] e = cc
waiting-put_at zero r r' (x ∷ rs) e =
    let same : weight x ≡ weight r = ap weight (some_inj e) in omega (arith, same)
waiting-put_at (suc i) r r' (x ∷ rs) e = omega (arith, waiting-put_at i r r' rs e)

weight-waiting :
    (i : ℕ) (r : Request) (rs : List Request) → get_elem? rs i ≡ some r → weight r ≤ waiting rs
weight-waiting i r [] e = cc
weight-waiting zero r (x ∷ rs) e =
    let same : weight x ≡ weight r = ap weight (some_inj e) in omega (arith, same)
weight-waiting (suc i) r (x ∷ rs) e = omega (arith, weight-waiting i r rs e)

module _ {A : Type 0} (P : A → Type 0) where
  All-put_at : (i : ℕ) (a : A) (xs : List A) → P a → All P xs → All P (put_at i a xs)
  unfolding put_at
  All-put_at i a [] h hs = tt
  All-put_at zero a (x ∷ xs) h hs = (h, hs.1)
  All-put_at (suc i) a (x ∷ xs) h hs = (hs.0, All-put_at i a xs h hs.1)

  All-get_elem? : (i : ℕ) (a : A) (xs : List A) → All P xs → get_elem? xs i ≡ some a → P a
  All-get_elem? i a [] hs e = cc
  All-get_elem? zero a (x ∷ xs) hs e = subst P (some_inj e) hs.0
  All-get_elem? (suc i) a (x ∷ xs) hs e = All-get_elem? i a xs hs.1 e

-- One step of a request that is fair.
turn_total :
    (first c : ℕ) (r : Request)
    → first ≤ c
    → c + weight r < 2 ^ 63
    → IsFair first c r
    → (r' : Request) × (d : ℕ) × (turn r c ≡ some (r', d))
      × (d + weight r' ≡ c + weight r)
      × (c ≤ d)
      × IsFair first d r'
unfolding turn
turn_total first c (ready us) h small fair =
    let plain : uint64 (c + 1) ≡ c + 1 = omega (arith, small) in
    (
      counted us,
      c + 1,
      ap (λ (d : ℕ). some (counted us, d)) plain,
      omega arith,
      omega arith,
      (fair, omega (arith, h)),
    )
turn_total first c (counted us) h small (some_us, after) =
    let (u, at) = get_elem?_total us (c % length us) (mod-lt c (positive us some_us)) in
    (
      chose us u,
      c,
      rw (index_of-small c (length us) (omega (arith, small)), at) refl,
      refl,
      omega arith,
      (c, after, omega arith, at),
    )
  where
    positive : (us : List UpstreamConfig) → us ≢ [] → 0 < length us
    positive [] ne = absurd (ne refl)
    positive (x ∷ xs) ne = omega arith
turn_total first c (chose us u) h small fair = (chose us u, c, refl, refl, omega arith, fair)

race_total :
    (first : ℕ) (schedule : List ℕ) (rs : List Request) (c : ℕ)
    → first ≤ c
    → c + waiting rs < 2 ^ 63
    → All (IsFair first c) rs
    → (rs' : List Request) × (d : ℕ) × (race schedule rs c ≡ some (rs', d))
      × (d + waiting rs' ≡ c + waiting rs)
      × All (IsFair first d) rs'
unfolding race
race_total first [] rs c h small fair = (rs, c, refl, refl, fair)
race_total first (i ∷ is) rs c h small fair = elim (Option-cases (get_elem? rs i)) [
  | inl absent ↦
      let (rs', d, ran, sum, fair') = race_total first is rs c h small fair in
      (rs', d, rw (race, absent) ran, sum, fair')
  | inr (r, here) ↦
      let (r1, c1, took, sum1, up, fair1) =
        turn_total first c r h (omega (arith, weight-waiting i r rs here, small))
          (All-get_elem? (IsFair first c) i r rs fair here) in
      let moved = waiting-put_at i r r1 rs here in
      let (rs', d, ran, sum, fair') =
        race_total first is (put_at i r1 rs) c1 (omega (arith, h, up))
          (omega (arith, moved, sum1, small))
          (All-put_at (IsFair first c1) i r1 rs fair1
            (All-map (IsFair-le first c c1 up) rs fair)) in
      (rs', d, rw (race, here, took) ran, omega (arith, sum, moved, sum1), fair')
]

waiting-ready : (lists : List (List UpstreamConfig)) → waiting (map ready lists) ≡ length lists
waiting-ready [] = refl
waiting-ready (us ∷ lists) = omega (arith, waiting-ready lists)

ready-IsFair :
    (c : ℕ) (lists : List (List UpstreamConfig))
    → All (λ us. us ≢ []) lists
    → All (IsFair c c) (map ready lists)
ready-IsFair c [] h = tt
ready-IsFair c (us ∷ lists) (h, hs) = (h, ready-IsFair c lists hs)

-- Requests that choose at once, each among upstreams of its own, never panic while the count stays
-- below 2 ^ 63, in whatever order they add to the counter and read it: the counter is raised by at most
-- one for each, and each that chose has the upstream at the position of a count that was reached since
-- they began. (It need not be its own count.)
pub race-IsFair :
    (schedule : List ℕ) (lists : List (List UpstreamConfig)) (c : ℕ)
    → c + length lists < 2 ^ 63
    → All (λ us. us ≢ []) lists
    → (rs : List Request) × (d : ℕ) × (race schedule (map ready lists) c ≡ some (rs, d))
      × (d ≤ c + length lists)
      × All (IsFair c d) rs
race-IsFair schedule lists c small some_us =
    let all_wait = waiting-ready lists in
    let (rs, d, ran, sum, fair) =
      race_total c schedule (map ready lists) c (omega arith) (omega (arith, all_wait, small))
        (ready-IsFair c lists some_us) in
    (rs, d, ran, omega (arith, all_wait, sum), fair)
