-- ===== src/Cache/Sharing/Coherence.antt =====
-- What the cache gives back was given by an upstream for the same key.
use node_gateway.Base.{
  ℕ, String, ◌≡◌, ◌≢◌, Bool, true, false, List, Option, none, some, In, All, string_eq,
}
use node_gateway.Jsonrpc.Codec.{Result, ok, err}
use node_gateway.Cache.{CacheWrite, hit}
use node_gateway.Route.Executor.{OriginFailure}
use node_gateway.Cache.Sharing.{Backend, Served, Shared}
use node_gateway.Cache.Sharing.Origin.{FromOrigin}

module _ {C : Type 0} (b : Backend C) where
  -- What was given back, the writes on their way and what the cache holds come from upstreams.
  pub record IsCoherent (s : Shared C) : Type 0 where
    pub served : (e : Served) → In e s.history → FromOrigin s.history e.key e.value
    pub coming : All (λ (w : CacheWrite). FromOrigin s.history w.key (some w.value)) s.pending
    pub held :
        (t : ℕ) (key : String) (v : Option String)
        → b.read t key s.cache ≡ hit v
        → FromOrigin s.history key v

  -- A result and a write that may be noted for a key.
  abbrev Noted :
      List Served
      → String
      → Result (Option String) OriginFailure × Bool × Option CacheWrite
      → Type 0
  Noted history key (err e, cached, none) = Unit
  Noted history key (err e, cached, some w) = ⊥
  Noted history key (ok v, true, none) = FromOrigin history key v
  Noted history key (ok v, true, some w) = ⊥
  Noted history key (ok v, false, none) = v ≢ some "null"
  Noted history key (ok v, false, some w) = (v ≢ some "null") × (w.key ≡ key) × (v ≡ some w.value)
