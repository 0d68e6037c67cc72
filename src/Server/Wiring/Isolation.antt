-- ===== src/Server/Wiring/Isolation.antt =====
-- Which handler of internal/server/object_graph.go answers a request, and the state that it changes.
use node_gateway.Base.{
  not, ◌&&◌, ◌≢◌, ℕ, zero, suc, pos, ◌+◌, String, ◌≡◌, inl, inr, refl, sym, ap, ◌∙◌, true, false,
  List, [], ◌∷◌, map, Option, none, some, arith, ◌==◌, string_eq, if_true, if_false, Bool-not,
  Bool-cases, ◌>>=◌, any, get_elem?, put_at, In, eq_iff, Option-cases,
}
use node_gateway.Config.{ErrorsConfig, LatencyConfig, SingleChainConfig, Config, UpstreamConfig}
use node_gateway.Config.Yaml.{get_redis_addresses}
use node_gateway.Jsonrpc.Codec.{Codec}
use node_gateway.Checks.Breaker.{CircuitBreaker}
use node_gateway.Route.World.{World}
use node_gateway.Route.Router.{Exchange}
use node_gateway.Server.{HttpRequest, HttpResponse, serve_health, respond_raw}
use node_gateway.Server.CleanPath.{clean_path}
use node_gateway.Server.Wiring.{
  ChainGraph, path_of, wire_single_chain, create_redis_client, Handler, health, chain, Mux, handle,
  find_handler, handle_chains, new_serve_mux, Gateway, wire_dependencies_for_all_chains,
  serve_chain, serve, answered, moved,
}

some_injective : {A : Type 0} {a b : A} → some a ≡ some b → a ≡ b
some_injective e = cc

-- The first chain of a successful loop.
handle_chains-first :
    (i : ℕ) (g : ChainGraph) (gs : List ChainGraph) (mux mux' : Mux)
    → handle_chains i (g ∷ gs) mux ≡ some mux'
    → (any (λ (e : String × Handler). e.0 == g.path) mux ≡ false)
      × (handle_chains (suc i) gs ((g.path, chain i) ∷ mux) ≡ some mux')
unfolding handle_chains
handle_chains-first i g gs mux mux' ran =
    elim (Bool-cases (any (λ (e : String × Handler). e.0 == g.path) mux)) [
      | inl old ↦ absurd (
          cc
            (sym (ap (λ (o : Option Mux). o >>= handle_chains (suc i) gs) (if_true _ _ old)) ∙ ran))
      | inr new ↦ (
        new,
        sym (ap (λ (o : Option Mux). o >>= handle_chains (suc i) gs) (if_false _ _ new)) ∙ ran,
      )
    ]

find_handler-any :
    (path : String) (mux : Mux) (h : Handler)
    → find_handler path mux ≡ some h
    → any (λ (e : String × Handler). e.0 == path) mux ≡ true
unfolding find_handler
find_handler-any path [] h e = cc
find_handler-any path ((p, k) ∷ mux) h e = ground (arith, find_handler-any path mux h)

-- A handler that is registered stays, and every chain of the loop has its own.
find_handler-kept :
    (i : ℕ) (gs : List ChainGraph) (mux mux' : Mux) (path : String) (h : Handler)
    → handle_chains i gs mux ≡ some mux'
    → find_handler path mux ≡ some h
    → find_handler path mux' ≡ some h
unfolding handle_chains find_handler
find_handler-kept i [] mux mux' path h ran found =
    ap (λ (o : Option Mux). o >>= find_handler path) (sym ran) ∙ found
find_handler-kept i (g ∷ gs) mux mux' path h ran found =
    let (new, rest) = handle_chains-first i g gs mux mux' ran in
    find_handler-kept (suc i) gs ((g.path, chain i) ∷ mux) mux' path h rest
      (ground (arith, found, new, eq_iff g.path path, find_handler-any path mux h))

find_handler-chain :
    (i j : ℕ) (g : ChainGraph) (gs : List ChainGraph) (mux mux' : Mux)
    → handle_chains i gs mux ≡ some mux'
    → get_elem? gs j ≡ some g
    → find_handler g.path mux' ≡ some (chain (i + j))
unfolding find_handler
find_handler-chain i j g [] mux mux' ran found = cc
find_handler-chain i zero g (g' ∷ gs) mux mux' ran found =
    let (new, rest) = handle_chains-first i g' gs mux mux' ran in
    find_handler-kept (suc i) gs ((g'.path, chain i) ∷ mux) mux' g.path (chain (i + 0)) rest (
      if_true _ _
        ((eq_iff g'.path g.path).1 (ap (λ (x : ChainGraph). x.path) (some_injective found)))
      ∙ ap (λ k. some (chain k)) (omega arith))
find_handler-chain i (suc j) g (g' ∷ gs) mux mux' ran found =
    let (new, rest) = handle_chains-first i g' gs mux mux' ran in
    find_handler-chain (suc i) j g gs ((g'.path, chain i) ∷ mux) mux' rest found
    ∙ ap (λ k. some (chain k)) (omega arith)

find_handler-none :
    (i : ℕ) (gs : List ChainGraph) (mux mux' : Mux) (path : String)
    → handle_chains i gs mux ≡ some mux'
    → find_handler path mux ≡ none
    → ¬ In path (map (λ (g : ChainGraph). g.path) gs)
    → find_handler path mux' ≡ none
unfolding find_handler handle_chains
find_handler-none i [] mux mux' path ran missing other =
    ap (λ (o : Option Mux). o >>= find_handler path) (sym ran) ∙ missing
find_handler-none i (g ∷ gs) mux mux' path ran missing other =
    let (new, rest) = handle_chains-first i g gs mux mux' ran in
    find_handler-none (suc i) gs ((g.path, chain i) ∷ mux) mux' path rest
      (elim (Bool-cases (g.path == path)) [
        | inl same ↦ absurd (other (inl (sym ((eq_iff g.path path).0 same))))
        | inr differs ↦ if_false _ _ differs ∙ missing
      ])
      (λ m. other (inr m))

abbrev graphs_of : Codec → Config ErrorsConfig LatencyConfig → List ChainGraph
graphs_of codec c =
    let addresses = get_redis_addresses c.global.cache in
    map
      (wire_single_chain codec (create_redis_client addresses.0) (create_redis_client addresses.1))
      c.chains

wired :
    (codec : Codec) (c : Config ErrorsConfig LatencyConfig) (g : Gateway)
    → wire_dependencies_for_all_chains codec c ≡ some g
    → (g.graphs ≡ graphs_of codec c)
      × (handle_chains 0 (graphs_of codec c) (("/health", health) ∷ []) ≡ some g.mux)
unfolding wire_dependencies_for_all_chains new_serve_mux handle
wired codec c g ran =
    elim (Option-cases (handle_chains 0 (graphs_of codec c) (("/health", health) ∷ []))) [
      | inl failed ↦ absurd (cc (sym (ap made failed) ∙ ran))
      | inr (mux, e) ↦
          let same = some_injective (sym (ap made e) ∙ ran) in
          (ap (λ (x : Gateway). x.graphs) (sym same), e ∙ ap (λ (x : Gateway). some x.mux) same)
    ]
  where
    made : Option Mux → Option Gateway
    made o = o >>= λ (mux : Mux). some (record { mux = mux; graphs = graphs_of codec c })

get_elem?-map :
    {A B : Type 0} (f : A → B) (xs : List A) (i : ℕ) (x : A)
    → get_elem? xs i ≡ some x
    → get_elem? (map f xs) i ≡ some (f x)
get_elem?-map f [] i x e = cc
get_elem?-map f (y ∷ ys) zero x e = ap (λ a. some (f a)) (some_injective e)
get_elem?-map f (y ∷ ys) (suc i) x e = get_elem?-map f ys i x e

-- The graph of a chain.
abbrev pub graph_of :
    Codec
    → Config ErrorsConfig LatencyConfig
    → SingleChainConfig ErrorsConfig LatencyConfig
    → ChainGraph
graph_of codec c =
    let addresses = get_redis_addresses c.global.cache in
    wire_single_chain codec (create_redis_client addresses.0) (create_redis_client addresses.1)

abbrev star_path : String
star_path = "*"

slashed_star : clean_path star_path ≢ star_path
unfolding clean_path
slashed_star e = cc

-- The mux leaves a clean path as it is, whatever the method.
clean-kept :
    (path method : String)
    → clean_path path ≡ path
    → ((path == "*") ≡ false)
      × ((not (method == "CONNECT") && not (clean_path path == path)) ≡ false)
unfolding clean_path
clean-kept path method clean = (
  Bool-not (λ e. star ((eq_iff path "*").0 e)),
  ground (arith, (eq_iff (clean_path path) path).1 clean),
)
  where
    star : path ≢ "*"
    star e = slashed_star (rw e at clean)

health_clean : clean_path "/health" ≡ "/health"
unfolding clean_path
health_clean = refl

module _ {S : Type 0} ⦃b : CircuitBreaker S⦄ where
  -- A wired gateway answers a request to the path of a chain by the handler of this chain, on the
  -- state of this chain, and changes the state of no other chain, where the mux has this path for
  -- clean; it answers a request to `/health` from the state of all chains, one to any other clean
  -- path by 404, and one to a path that is not clean, other than `*`, by a redirect to the clean path
  -- unless it is a CONNECT, and changes nothing. (The names of the chains are plain segments of a
  -- path, as the model of the mux takes them to be, and a path is its own escaped form.)
  pub serve-paths :
      (codec : Codec) (c : Config ErrorsConfig LatencyConfig) (g : Gateway) (now : ℕ)
      (exchange : Option UpstreamConfig → Exchange) (req : HttpRequest) (ws : List (World S))
      → wire_dependencies_for_all_chains codec c ≡ some g
      → ((i : ℕ) (x : SingleChainConfig ErrorsConfig LatencyConfig) (w : World S)
          → get_elem? c.chains i ≡ some x
          → get_elem? ws i ≡ some w
          → clean_path (path_of x.chain_name) ≡ path_of x.chain_name
          → serve g codec now exchange (record req { path = path_of x.chain_name }) ws ≡ (
              serve_chain codec now exchange
                (graph_of codec c x)
                (record req { path = path_of x.chain_name })
                w
              >>= λ (r : HttpResponse × World S). some (answered r.0, put_at i r.1 ws)))
        × (serve g codec now exchange (record req { path = "/health" }) ws
            ≡ some (answered (serve_health (map (λ (w : World S). w.manager) ws)), ws))
        × (clean_path req.path ≡ req.path
            → ¬ In req.path
                ("/health" ∷ map (λ (x : ChainGraph). x.path) (map (graph_of codec c) c.chains))
            → serve g codec now exchange req ws
              ≡ some (answered (respond_raw "404 page not found\n" (pos 404)), ws))
        × (req.path ≢ "*"
            → req.method ≢ "CONNECT"
            → clean_path req.path ≢ req.path
            → serve g codec now exchange req ws ≡ some (moved (clean_path req.path), ws))
  unfolding serve find_handler wire_single_chain
  serve-paths codec c g now exchange req ws ran =
      let (graphs, registered) = wired codec c g ran in
      (
        λ i x w at_i state_i clean.
            let here = get_elem?-map (graph_of codec c) c.chains i x at_i in
            let found : find_handler (path_of x.chain_name) g.mux ≡ some (chain i) =
              find_handler-chain 0 i (graph_of codec c x) (graphs_of codec c) _ g.mux registered
                here
              ∙ ap (λ k. some (chain k)) (omega arith) in
            let graph : get_elem? g.graphs i ≡ some (graph_of codec c x) =
              ap (λ (l : List ChainGraph). get_elem? l i) graphs ∙ here in
            let (not_star, kept) = clean-kept (path_of x.chain_name) req.method clean in
            rw (serve, not_star, kept, found, graph, state_i) refl,
        let (not_star, kept) = clean-kept "/health" req.method health_clean in
            rw
              (
                serve,
                not_star,
                kept,
                find_handler-kept 0 (graphs_of codec c) _ g.mux "/health" health registered refl,
              )
              refl,
        λ clean other.
            let missing : find_handler req.path g.mux ≡ none =
              find_handler-none 0 (graphs_of codec c) _ g.mux req.path registered
                (if_false _ _ (Bool-not (λ e. other (inl (sym ((eq_iff "/health" req.path).0 e))))))
                (λ m. other (inr m)) in
            let (not_star, kept) = clean-kept req.path req.method clean in
            rw (serve, not_star, kept, missing) refl,
        λ path_other method_other unclean.
            let not_star : (req.path == "*") ≡ false =
              Bool-not (λ e. path_other ((eq_iff req.path "*").0 e)) in
            let not_connect : (req.method == "CONNECT") ≡ false =
              Bool-not (λ e. method_other ((eq_iff req.method "CONNECT").0 e)) in
            let differs : (clean_path req.path == req.path) ≡ false =
              Bool-not (λ e. unclean ((eq_iff (clean_path req.path) req.path).0 e)) in
            rw (serve, not_star, not_connect, differs) refl,
      )
