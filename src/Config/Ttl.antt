-- ===== src/Config/Ttl.antt =====
-- internal/config/config.go: the time to live of what is cached of a chain.
use node_gateway.Base.{
  pos, ◌≤ℤ◌, ◌<ℤ◌, ltb_ℤ, String, ◌≡◌, ◌≢◌, ◌⊎◌, inl, inr, ◌&&◌, ◌||◌, false, [], ◌∷◌, none, some,
  arith, Map, lookup, ◌==◌, string_eq, int_eq, int_beq_iff, if◌then◌else◌, Bool-cases, Option-cases,
}
use node_gateway.Config.{ChainCacheConfig, Duration}

unfoldable pub get_ttl_for_method : String → ChainCacheConfig → Duration
unfolding lookup
get_ttl_for_method method c = elim (lookup method c.method_ttls) [
  | some ttl ↦ if ltb_ℤ (pos 0) ttl then ttl else c.ttl
  | none ↦ c.ttl
]

-- The first loop of GetMinimumTTL, which is entered with a minimum of zero.
unfoldable pub first_positive : Map Duration → Duration
first_positive [] = pos 0
first_positive ((_, ttl) ∷ ttls) = if ltb_ℤ (pos 0) ttl then ttl else first_positive ttls

-- One round of the second loop, and the loop.
unfoldable pub min_round : Duration → Duration → Duration
min_round min_ttl ttl =
    if ltb_ℤ (pos 0) ttl && (min_ttl == pos 0 || ltb_ℤ ttl min_ttl) then ttl else min_ttl

unfoldable pub min_over : Duration → Map Duration → Duration
unfolding min_round
min_over min_ttl [] = min_ttl
min_over min_ttl ((_, ttl) ∷ ttls) = min_over (min_round min_ttl ttl) ttls

unfoldable pub start_minimum : ChainCacheConfig → Duration
unfolding first_positive
start_minimum c = if c.ttl == pos 0 then first_positive c.method_ttls else c.ttl

unfoldable pub get_minimum_ttl : ChainCacheConfig → Duration
unfolding start_minimum min_over
get_minimum_ttl c = min_over (start_minimum c) c.method_ttls

-- A round never raises a minimum that is set, never unsets it, and takes in the TTL that it reads.
min_round_le : (m t : Duration) → m ≢ pos 0 → (min_round m t ≤ℤ m) × (min_round m t ≢ pos 0)
unfolding min_round
min_round_le m t h = ground (arith, int_beq_iff m (pos 0))

min_round_ttl : (m t : Duration) → pos 0 <ℤ t → (min_round m t ≤ℤ t) × (min_round m t ≢ pos 0)
unfolding min_round
min_round_ttl m t h = ground (arith, int_beq_iff m (pos 0))

min_over_le : (m : Duration) (ttls : Map Duration) → m ≢ pos 0 → min_over m ttls ≤ℤ m
unfolding min_over
min_over_le m [] h = omega arith
min_over_le m ((k, t) ∷ ttls) h =
    let round = min_round_le m t h in
    omega (arith, min_over_le (min_round m t) ttls round.1, round.0)

min_over_ttl :
    (method : String) (m t : Duration) (ttls : Map Duration)
    → lookup method ttls ≡ some t
    → pos 0 <ℤ t
    → min_over m ttls ≤ℤ t
unfolding min_over lookup
min_over_ttl method m t [] h p = cc
min_over_ttl method m t ((k, t') ∷ ttls) h p = elim (Bool-cases (k == method)) [
  | inl here ↦
      let same : t' ≡ t = ground arith in
      let round = min_round_ttl m t' (rw same p) in
      let kept = min_over_le (min_round m t') ttls round.1 in
      rw (← same) (omega (arith, round.0, kept))
  | inr there ↦ min_over_ttl method (min_round m t') t ttls (ground arith) p
]

listed_ttl :
    (c : ChainCacheConfig) (method : String) (t : Duration)
    → lookup method c.method_ttls ≡ some t
    → pos 0 <ℤ t
    → get_minimum_ttl c ≤ℤ t
unfolding get_minimum_ttl
listed_ttl c method t e p = min_over_ttl method (start_minimum c) t c.method_ttls e p

own_ttl : (c : ChainCacheConfig) → pos 0 <ℤ c.ttl → get_minimum_ttl c ≤ℤ c.ttl
unfolding get_minimum_ttl
own_ttl c h = elim (Bool-cases (c.ttl == pos 0)) [
  | inl z ↦ absurd (let e = (int_beq_iff c.ttl (pos 0)).0 z in ground arith)
  | inr nz ↦ rw (nz, start_minimum) (min_over_le c.ttl c.method_ttls (λ e. ground arith))
]

-- Where the TTL of a method comes from.
ttl_source :
    (c : ChainCacheConfig) (method : String)
    → (get_ttl_for_method method c ≡ c.ttl)
      ⊎ ((t : Duration) × (lookup method c.method_ttls ≡ some t)
          × (pos 0 <ℤ t)
          × (get_ttl_for_method method c ≡ t))
unfolding get_ttl_for_method
ttl_source c method = elim (Option-cases (lookup method c.method_ttls)) [
  | inl e ↦ inl (rw (e, get_ttl_for_method))
  | inr (t, e) ↦ elim (Bool-cases (ltb_ℤ (pos 0) t)) [
    | inl p ↦ inr (t, e, ground arith, rw (e, get_ttl_for_method) (rw p))
    | inr n ↦ inl (rw (e, get_ttl_for_method) (rw n))
  ]
]

-- For every method whose TTL is positive, the minimum TTL is at most the TTL of the method.
pub get_minimum_ttl-le :
    (c : ChainCacheConfig) (method : String)
    → pos 0 <ℤ get_ttl_for_method method c
    → get_minimum_ttl c ≤ℤ get_ttl_for_method method c
get_minimum_ttl-le c method h = elim (ttl_source c method) [
  | inl own ↦ rw own (own_ttl c (rw own at h))
  | inr (t, listed, positive, e) ↦ rw e (listed_ttl c method t listed positive)
]

-- A minimum that is set stays set, and a positive TTL sets it.
min_over_set : (m : Duration) (ttls : Map Duration) → m ≢ pos 0 → min_over m ttls ≢ pos 0
unfolding min_over
min_over_set m [] h = h
min_over_set m ((k, t) ∷ ttls) h = min_over_set (min_round m t) ttls (min_round_le m t h).1

min_over_listed :
    (method : String) (m t : Duration) (ttls : Map Duration)
    → lookup method ttls ≡ some t
    → pos 0 <ℤ t
    → min_over m ttls ≢ pos 0
unfolding min_over lookup
min_over_listed method m t [] h p = cc
min_over_listed method m t ((k, t') ∷ ttls) h p = elim (Bool-cases (k == method)) [
  | inl here ↦
      let same : t' ≡ t = ground arith in
      min_over_set (min_round m t') ttls (min_round_ttl m t' (rw same p)).1
  | inr there ↦ min_over_listed method (min_round m t') t ttls (ground arith) p
]

pub get_minimum_ttl_set :
    (c : ChainCacheConfig) (method : String)
    → pos 0 <ℤ get_ttl_for_method method c
    → get_minimum_ttl c ≢ pos 0
unfolding get_minimum_ttl
get_minimum_ttl_set c method h = elim (ttl_source c method) [
  | inl own ↦
      let positive : pos 0 <ℤ c.ttl = rw own at h in
      let unset : (c.ttl == pos 0) ≡ false = ground (arith, int_beq_iff c.ttl (pos 0)) in
      rw (start_minimum, unset) (min_over_set c.ttl c.method_ttls (λ e. ground arith))
  | inr (t, listed, positive, e) ↦
      min_over_listed method (start_minimum c) t c.method_ttls listed positive
]
