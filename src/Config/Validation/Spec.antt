-- ===== src/Config/Validation/Spec.antt =====
-- What a configuration has to be for `Validate` of internal/config/config.go to accept it.
use node_gateway.Base.{
  ℤ, pos, ◌^◌, ◌≤ℤ◌, String, ◌≡◌, refl, sym, ◌≢◌, ◌↔◌, ◌⊎◌, inl, inr, Bool, true, false, not, ◌&&◌,
  List, [], ◌∷◌, map, Option, none, some, arith, Map, Comparable, ◌==◌, string_eq, int_eq,
  Bool-cases, all, any, In, All, eq_iff,
}
use node_gateway.Config.{
  UpstreamConfig, GroupConfig, ErrorsConfig, LatencyConfig, SingleChainConfig, Float64, nan,
  infinity, negative_infinity, finite, second, Duration,
}
use node_gateway.Config.Validation.{
  is_unique_from, is_ws_url_missing, is_group_valid, is_upstream_valid, is_below_second,
  is_method_ttls_valid, is_rate_in_range, is_error_rate_valid,
}

abbrev pub IsDistinct : {A : Type 0} → List A → Type 0
IsDistinct [] = Unit
IsDistinct (x ∷ xs) = (¬ In x xs) × IsDistinct xs

-- No element of `xs` stands in `seen`.
abbrev IsApart : {A : Type 0} → List A → List A → Type 0
IsApart seen [] = Unit
IsApart seen (x ∷ xs) = (¬ In x seen) × IsApart seen xs

Bool-absurd : {b : Bool} → b ≡ false → b ≡ true → ⊥
Bool-absurd p q = cc

module _ {A : Type 0} ⦃e : Comparable A⦄ where
  any-In : (x : A) (ys : List A) → (any (λ y. y == x) ys ≡ true) ↔ In x ys
  any-In x [] = (λ h. cc, λ h. absurd h)
  any-In x (y ∷ ys) = ground (arith, e.is_equal_iff y x, any-In x ys)

  IsApart-cons :
      (x : A) (seen xs : List A) → IsApart (x ∷ seen) xs ↔ ((¬ In x xs) × IsApart seen xs)
  IsApart-cons x seen [] = (λ h. (λ m. m, tt), λ h. tt)
  IsApart-cons x seen (y ∷ ys) =
      let ih = IsApart-cons x seen ys in
      (
        λ h.
            let (fresh, rest) = ih.0 h.1 in
            (elim [ inl p ↦ h.0 (inl (sym p)) | inr m ↦ fresh m ], (λ m. h.0 (inr m), rest)),
        λ h. (elim [ inl p ↦ h.0 (inl (sym p)) | inr m ↦ h.1.0 m ], ih.1 (λ m. h.0 (inr m), h.1.1)),
      )

  is_unique_from_iff :
      (seen xs : List A) → (is_unique_from seen xs ≡ true) ↔ (IsApart seen xs × IsDistinct xs)
  unfolding is_unique_from
  is_unique_from_iff seen [] = (λ h. (tt, tt), λ h. refl)
  is_unique_from_iff seen (x ∷ xs) = elim (Bool-cases (any (λ y. y == x) seen)) [
    | inl old ↦ rw old (λ h. cc, λ h. absurd (h.0.0 ((any-In x seen).0 old)))
    | inr new ↦
        let rest = is_unique_from_iff (x ∷ seen) xs in
        let split = IsApart-cons x seen xs in
        rw new (
          λ h.
              let (apart, distinct) = rest.0 h in
              let (fresh, apart') = split.0 apart in
              ((λ m. Bool-absurd new ((any-In x seen).1 m), apart'), (fresh, distinct)),
          λ h. rest.1 (split.1 (h.1.0, h.0.1), h.1.1),
        )
  ]

IsApart-nil : {A : Type 0} (xs : List A) → IsApart [] xs
IsApart-nil [] = tt
IsApart-nil (x ∷ xs) = (λ m. m, IsApart-nil xs)

pub is_unique_iff :
    {A : Type 0} ⦃e : Comparable A⦄ (xs : List A) → (is_unique_from [] xs ≡ true) ↔ IsDistinct xs
is_unique_iff xs =
    let found = is_unique_from_iff [] xs in (λ h. (found.0 h).1, λ d. found.1 (IsApart-nil xs, d))

pub all-All :
    {A : Type 0} (p : A → Bool) (P : A → Type 0)
    → ((a : A) → (p a ≡ true) ↔ P a)
    → (xs : List A) → (all p xs ≡ true) ↔ All P xs
all-All p P h [] = (λ _. tt, λ _. refl)
all-All p P h (x ∷ xs) = ground (arith, h x, all-All p P h xs)

-- An upstream has a URL and a node type, a websocket URL if it asks for websockets, and, where the
-- chain has groups, one of them for its group.
pub record IsValidUpstream (groups : List GroupConfig) (c : UpstreamConfig) : Type 0 where
  pub has_url : c.http_url ≢ ""
  pub has_node_type : c.node_type ≢ ""
  pub has_ws_url : c.health_check_config.use_ws_for_block_height ≡ some true → c.ws_url ≢ ""
  pub has_group :
      groups ≢ [] → (c.group_id ≢ "") × In c.group_id (map (λ (g : GroupConfig). g.id) groups)

-- A time to live is not positive (it is off), or at least a second.
abbrev pub IsValidTtl : Duration → Type 0
IsValidTtl ttl = (ttl ≤ℤ pos 0) ⊎ (pos second ≤ℤ ttl)

-- The number lies in [0, 1].
abbrev pub IsInUnitRange : Float64 → Type 0
IsInUnitRange (finite n) = (pos 0 ≤ℤ n) × (n ≤ℤ pos (2 ^ 1074))
IsInUnitRange _ = ⊥

-- The error rate, where one is given.
abbrev pub IsValidRate : Option ErrorsConfig → Type 0
IsValidRate none = Unit
IsValidRate (some e) = IsInUnitRange e.rate

pub record IsValidChain (c : SingleChainConfig ErrorsConfig LatencyConfig) : Type 0 where
  pub distinct_group_ids : IsDistinct (map (λ (g : GroupConfig). g.id) c.groups)
  pub distinct_priorities : IsDistinct (map (λ (g : GroupConfig). g.priority) c.groups)
  pub distinct_upstream_ids : IsDistinct (map (λ (u : UpstreamConfig). u.id) c.upstreams)
  pub valid_ttl : IsValidTtl c.cache.ttl
  pub valid_method_ttls : All (λ e. (e.0 ≢ "") × IsValidTtl e.1) c.cache.method_ttls
  pub valid_rate : IsValidRate c.routing.errors
  pub valid_upstreams : All (IsValidUpstream c.groups) c.upstreams
  pub has_name : c.chain_name ≢ ""

any-id :
    (s : String) (gs : List GroupConfig)
    → (any (λ (h : GroupConfig). h.id == s) gs ≡ true) ↔ In s (map (λ (g : GroupConfig). g.id) gs)
any-id s [] = (λ h. cc, λ h. absurd h)
any-id s (g ∷ gs) = ground (arith, eq_iff g.id s, any-id s gs)

pub neq_iff : (s : String) → (not (s == "") ≡ true) ↔ (s ≢ "")
neq_iff s = ground (arith, eq_iff s "")

ws_url_iff :
    (c : UpstreamConfig)
    → (not (is_ws_url_missing c) ≡ true)
      ↔ (c.health_check_config.use_ws_for_block_height ≡ some true → c.ws_url ≢ "")
unfolding is_ws_url_missing
ws_url_iff c = ground (arith, eq_iff c.ws_url "")

group_iff :
    (c : UpstreamConfig) (groups : List GroupConfig)
    → (is_group_valid c groups ≡ true)
      ↔ (groups ≢ [] → (c.group_id ≢ "") × In c.group_id (map (λ (g : GroupConfig). g.id) groups))
unfolding is_group_valid
group_iff c [] = (λ _ h. absurd (h refl), λ _. refl)
group_iff c (g ∷ gs) =
    let found = any-id c.group_id (g ∷ gs) in
    (
      λ h n. ground (arith, found, eq_iff c.group_id ""),
      λ h. ground (arith, h (λ e. cc), found, eq_iff c.group_id ""),
    )

pub and_iff : (a b : Bool) → (a && b ≡ true) ↔ ((a ≡ true) × (b ≡ true))
and_iff a b = ground arith

-- `a && b` holds exactly when both sides do, each in the words of the specification.
pub and_both :
    {a b : Bool} {P Q : Type 0} → (a ≡ true) ↔ P → (b ≡ true) ↔ Q → (a && b ≡ true) ↔ (P × Q)
and_both {a} {b} p q =
    (λ h. let (x, y) = (and_iff a b).0 h in (p.0 x, q.0 y), λ h. (and_iff a b).1 (p.1 h.0, q.1 h.1))

pub is_upstream_valid_iff :
    (groups : List GroupConfig) (c : UpstreamConfig)
    → (is_upstream_valid groups c ≡ true) ↔ IsValidUpstream groups c
unfolding is_upstream_valid
is_upstream_valid_iff groups c =
    let tests =
      and_both (neq_iff c.http_url)
        (and_both (neq_iff c.node_type) (and_both (ws_url_iff c) (group_iff c groups))) in
    (
      λ h.
          let (url, rest) = tests.0 h in
          let (node_type, rest') = rest in
          let (ws, group) = rest' in
          record { has_url = url; has_node_type = node_type; has_ws_url = ws; has_group = group },
      λ v. tests.1 (v.has_url, (v.has_node_type, (v.has_ws_url, v.has_group))),
    )

pub ttl_iff : (ttl : Duration) → (not (is_below_second ttl) ≡ true) ↔ IsValidTtl ttl
unfolding is_below_second
ttl_iff (ℤ.pos n) = ground arith
ttl_iff (ℤ.negsuc n) = ground arith

pub method_ttls_iff :
    (ttls : Map Duration)
    → (is_method_ttls_valid ttls ≡ true) ↔ All (λ e. (e.0 ≢ "") × IsValidTtl e.1) ttls
unfolding is_method_ttls_valid
method_ttls_iff [] = (λ _. tt, λ _. refl)
method_ttls_iff ((method, ttl) ∷ ttls) =
    ground (arith, ttl_iff ttl, eq_iff method "", method_ttls_iff ttls)

pub rate_iff :
    (errors : Option ErrorsConfig) → (is_error_rate_valid errors ≡ true) ↔ IsValidRate errors
unfolding is_error_rate_valid
rate_iff none = (λ _. tt, λ _. refl)
rate_iff (some e) = go e.rate
  where
    go : (r : Float64) → (is_rate_in_range r ≡ true) ↔ IsInUnitRange r
    go nan = (λ h. cc, λ h. absurd h)
    go infinity = (λ h. cc, λ h. absurd h)
    go negative_infinity = (λ h. cc, λ h. absurd h)
    go (finite n) = ground arith
