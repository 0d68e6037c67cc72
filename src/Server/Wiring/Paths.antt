-- ===== src/Server/Wiring/Paths.antt =====
-- Which configurations internal/server/object_graph.go can wire, and which handler a path has.
use text.Mathlib.TextLemmas.{append_cancel_left, append_cancel_right}
use node_gateway.Base.{
  ◌||◌, ℕ, suc, String, ◌≡◌, ◌↔◌, inl, inr, refl, sym, ap, ◌∙◌, true, List, [], ◌∷◌, map, Option,
  none, some, ◌==◌, string_eq, Bool-cases, ◌>>=◌, any, concat, is_some, In,
}
use node_gateway.Config.{ErrorsConfig, LatencyConfig, SingleChainConfig, Config}
use node_gateway.Config.Yaml.{get_redis_addresses}
use node_gateway.Config.Validation.{is_unique_from}
use node_gateway.Config.Validation.Spec.{IsDistinct, is_unique_iff}
use node_gateway.Jsonrpc.Codec.{Codec}
use node_gateway.Server.Wiring.{
  ChainGraph, path_of, wire_single_chain, Handler, health, chain, Mux, handle, handle_chains,
  new_serve_mux, Gateway, wire_dependencies_for_all_chains, create_redis_client,
}

abbrev paths : List ChainGraph → List String
paths gs = map (λ (g : ChainGraph). g.path) gs

abbrev keys : Mux → List String
keys mux = map (λ (e : String × Handler). e.0) mux

any-keys :
    (p : String) (mux : Mux)
    → any (λ (e : String × Handler). e.0 == p) mux ≡ any (λ (y : String). y == p) (keys mux)
any-keys p [] = refl
any-keys p (e ∷ mux) = ap (λ b. (e.0 == p) || b) (any-keys p mux)

-- Registering the paths of chains fails exactly where one is there already.
is_some-handle_chains :
    (i : ℕ) (gs : List ChainGraph) (mux : Mux)
    → is_some (handle_chains i gs mux) ≡ is_unique_from (keys mux) (paths gs)
unfolding handle_chains is_unique_from
is_some-handle_chains i [] mux = refl
is_some-handle_chains i (g ∷ gs) mux =
    elim (Bool-cases (any (λ (e : String × Handler). e.0 == g.path) mux)) [
      | inl old ↦ rw (handle_chains, old, sym (any-keys g.path mux) ∙ old) refl
      | inr new ↦
          rw (handle_chains, new, sym (any-keys g.path mux) ∙ new)
            (is_some-handle_chains (suc i) gs ((g.path, chain i) ∷ mux))
    ]

-- What is distinct stays so under a function that is one to one, and the other way round.
module _ {A B : Type 0} (f : A → B) (one_to_one : (x y : A) → f x ≡ f y → x ≡ y) where
  In-map_iff : (x : A) (xs : List A) → In (f x) (map f xs) ↔ In x xs
  In-map_iff x [] = (λ m. m, λ m. m)
  In-map_iff x (y ∷ ys) = (
    elim [ inl e ↦ inl (one_to_one x y e) | inr m ↦ inr ((In-map_iff x ys).0 m) ],
    elim [ inl e ↦ inl (ap f e) | inr m ↦ inr ((In-map_iff x ys).1 m) ],
  )

  IsDistinct-map_iff : (xs : List A) → IsDistinct (map f xs) ↔ IsDistinct xs
  IsDistinct-map_iff [] = (λ d. d, λ d. d)
  IsDistinct-map_iff (x ∷ xs) = (
    λ d. (λ m. d.0 ((In-map_iff x xs).1 m), (IsDistinct-map_iff xs).0 d.1),
    λ d. (λ m. d.0 ((In-map_iff x xs).0 m), (IsDistinct-map_iff xs).1 d.1),
  )

path_of-one_to_one : (a b : String) → path_of a ≡ path_of b → a ≡ b
unfolding concat
path_of-one_to_one a b e = append_cancel_right a b "" (append_cancel_left "/" _ _ e)

paths-wired :
    (codec : Codec) (reader writer : Option String)
    (cs : List (SingleChainConfig ErrorsConfig LatencyConfig))
    → paths (map (wire_single_chain codec reader writer) cs)
      ≡ map path_of (map (λ (c : SingleChainConfig ErrorsConfig LatencyConfig). c.chain_name) cs)
unfolding wire_single_chain
paths-wired codec reader writer [] = refl
paths-wired codec reader writer (c ∷ cs) =
    ap (λ ps. path_of c.chain_name ∷ ps) (paths-wired codec reader writer cs)

abbrev pub names : Config ErrorsConfig LatencyConfig → List String
names c = map (λ (x : SingleChainConfig ErrorsConfig LatencyConfig). x.chain_name) c.chains

is_some-bind :
    {A B : Type 0} (f : A → B) (o : Option A) → is_some (o >>= λ (a : A). some (f a)) ≡ is_some o
is_some-bind f none = refl
is_some-bind f (some a) = refl

is_some-wire :
    (codec : Codec) (c : Config ErrorsConfig LatencyConfig)
    → is_some (wire_dependencies_for_all_chains codec c)
      ≡ is_unique_from [] (map path_of ("health" ∷ names c))
unfolding wire_dependencies_for_all_chains new_serve_mux is_unique_from handle concat
is_some-wire codec c =
    let addresses = get_redis_addresses c.global.cache in
    let reader = create_redis_client addresses.0 in
    let writer = create_redis_client addresses.1 in
    is_some-bind _ (new_serve_mux (map (wire_single_chain codec reader writer) c.chains))
    ∙ is_some-handle_chains 0 (map (wire_single_chain codec reader writer) c.chains)
        (("/health", health) ∷ [])
    ∙ ap (is_unique_from ("/health" ∷ [])) (paths-wired codec reader writer c.chains)

some_iff : {A : Type 0} (o : Option A) → ((a : A) × (o ≡ some a)) ↔ (is_some o ≡ true)
some_iff none = (λ h. cc h.1, λ h. cc)
some_iff (some a) = (λ h. refl, λ h. (a, refl))

-- For names of chains that are plain patterns, the gateway is wired exactly where the names are
-- distinct and none is `health`; else the process panics at its start.
pub wire_dependencies_iff :
    (codec : Codec) (c : Config ErrorsConfig LatencyConfig)
    → ((g : Gateway) × (wire_dependencies_for_all_chains codec c ≡ some g))
      ↔ IsDistinct ("health" ∷ names c)
wire_dependencies_iff codec c =
    let wired = some_iff (wire_dependencies_for_all_chains codec c) in
    let unique = is_unique_iff (map path_of ("health" ∷ names c)) in
    let distinct = IsDistinct-map_iff path_of path_of-one_to_one ("health" ∷ names c) in
    (
      λ h. distinct.0 (unique.0 (sym (is_some-wire codec c) ∙ wired.0 h)),
      λ d. wired.1 (is_some-wire codec c ∙ unique.1 (distinct.1 d)),
    )
