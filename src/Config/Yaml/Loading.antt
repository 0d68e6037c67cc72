-- ===== src/Config/Yaml/Loading.antt =====
-- LoadConfig of internal/config/config.go from the bytes to the error of Validate.
use node_gateway.Base.{
  ℕ, ◌≡◌, ◌≢◌, ◌↔◌, refl, ap, Bool, false, List, [], ◌∷◌, map, Option, none, some, All, length,
  if◌then◌else◌, if_true, Bool-cases, inl, inr, arith,
}
use node_gateway.Config.{ErrorsConfig, LatencyConfig, SingleChainConfig, Config}
use node_gateway.Config.Pointers.{Heap, Routing}
use node_gateway.Config.Defaults.{dereference, set_config_defaults}
use node_gateway.Config.Defaults.Total.{IsWellFormed, set_config_defaults_total}
use node_gateway.Config.Validation.{validate}
use node_gateway.Config.Validation.Spec.{IsValidChain, IsValidRate}
use node_gateway.Config.Validation.Accepts.{validate_iff}
use node_gateway.Config.Yaml.{LoadError, with_routings, assemble, parse_config, load_config}

abbrev pub routings : Config ℕ ℕ → List Routing
routings c = map (λ (x : SingleChainConfig ℕ ℕ). x.routing) c.chains

abbrev Parsed : Type 0
Parsed = SingleChainConfig ℕ ℕ

abbrev Loaded : Type 0
Loaded = SingleChainConfig ErrorsConfig LatencyConfig

-- Two lists of chains that differ at most in their routing, and the routing of the second.
pub record IsLoadedFrom (h : Heap) (cs : List Parsed) (rs : List Routing) (ls : List Loaded)
    : Type 0 where
  pub names : map (λ (x : Loaded). x.chain_name) ls ≡ map (λ (x : Parsed). x.chain_name) cs
  pub caches : map (λ (x : Loaded). x.cache) ls ≡ map (λ (x : Parsed). x.cache) cs
  pub upstreams : map (λ (x : Loaded). x.upstreams) ls ≡ map (λ (x : Parsed). x.upstreams) cs
  pub groups : map (λ (x : Loaded). x.groups) ls ≡ map (λ (x : Parsed). x.groups) cs
  pub routings : map (λ (x : Loaded). x.routing) ls ≡ map (λ (r : Routing). dereference r h) rs

with_routings-IsLoadedFrom :
    (h : Heap) (cs : List Parsed) (rs : List Routing)
    → length rs ≡ length (map (λ (x : Parsed). x.routing) cs)
    → IsLoadedFrom h cs rs (with_routings h cs rs)
unfolding with_routings
with_routings-IsLoadedFrom h [] [] e = record {
  names = refl;
  caches = refl;
  upstreams = refl;
  groups = refl;
  routings = refl;
}
with_routings-IsLoadedFrom h [] (r ∷ rs) e = absurd (ground arith)
with_routings-IsLoadedFrom h (c ∷ cs) [] e = absurd (ground arith)
with_routings-IsLoadedFrom h (c ∷ cs) (r ∷ rs) e =
    let rest = with_routings-IsLoadedFrom h cs rs (ground arith) in
    record {
      names = ap (λ xs. c.chain_name ∷ xs) rest.names;
      caches = ap (λ xs. c.cache ∷ xs) rest.caches;
      upstreams = ap (λ xs. c.upstreams ∷ xs) rest.upstreams;
      groups = ap (λ xs. c.groups ∷ xs) rest.groups;
      routings = ap (λ xs. dereference r h ∷ xs) rest.routings;
    }

-- Loading what the YAML library read never panics: where the pointers lead into the heap and every
-- initialized routing configuration has both of them, it gives a configuration whose chains have, in
-- the same order, the names, caches, upstreams and groups that were read, whose global cache and port
-- are those that were read, and whose routing configurations, of the chains and the global one, are
-- those that setDefaults gives, read through their pointers. There is no error exactly where this
-- configuration has a chain, all its chains are valid and its global error rate, if any, lies in
-- [0, 1].
pub load_config_iff :
    (c : Config ℕ ℕ) (h : Heap)
    → IsWellFormed c.global.routing h
    → All (λ r. IsWellFormed r h) (routings c)
    → (loaded : Config ErrorsConfig LatencyConfig) × (error : Option LoadError) × (rs : List
        Routing)
      × (g : Routing) × (h' : Heap) × (load_config (some (some (c, h))) ≡ some (some loaded, error))
      × (set_config_defaults c.global.routing (routings c) h ≡ some (rs, g, h'))
      × IsLoadedFrom h' c.chains rs loaded.chains
      × (loaded.global.routing ≡ dereference g h')
      × (loaded.global.cache ≡ c.global.cache)
      × (loaded.global.port ≡ c.global.port)
      × ((error ≡ none) ↔ (
          (loaded.chains ≢ [])
          × All IsValidChain loaded.chains
          × IsValidRate loaded.global.routing.errors))
unfolding load_config parse_config
load_config_iff c h wg ws =
    let (rs', g', h', e, ws', wg', same) =
      set_config_defaults_total c.global.routing (routings c) h wg ws in
    let loaded = assemble c rs' g' h' in
    let spec = validate_iff loaded in
    (
      loaded,
      (if validate loaded then none else some LoadError.invalid),
      rs',
      g',
      h',
      rw e refl,
      e,
      with_routings-IsLoadedFrom h' c.chains rs' same,
      refl,
      refl,
      refl,
      elim (Bool-cases (validate loaded)) [
        | inl valid ↦ (λ _. spec.0 valid, λ _. if_true _ _ valid)
        | inr invalid ↦
            (λ absent. absurd (invalid_some invalid absent), λ v. absurd (cc (spec.1 v)))
      ],
    )
  where
    invalid_some : {b : Bool} → b ≡ false → (if b then none else some LoadError.invalid) ≡ none → ⊥
    invalid_some e n = ground (arith, e, n)
