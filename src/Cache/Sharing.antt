-- ===== src/Cache/Sharing.antt =====
-- The requests of all chains over one cache: internal/cache/rpc_cache.go with the origin of
-- internal/route/request_executor.go. A write happens in a goroutine of its own, at any later time.
pub mod Origin
pub mod Coherence
use node_gateway.Base.{ℕ, String, ◌≡◌, ◌≢◌, ◌⊎◌, Bool, List, [], ◌∷◌, ◌++◌, Option, none, some}
use node_gateway.Config.{ChainCacheConfig}
use node_gateway.Jsonrpc.{SingleRequestBody}
use node_gateway.Jsonrpc.Codec.{Codec, Result, ok, err}
use node_gateway.Cache.{CacheRead, CacheWrite, hit, handle_request_parallel}
use node_gateway.Cache.Key.{create_request_key}
use node_gateway.Route.Executor.{HttpReply, OriginFailure, get_response_body, origin_func}

-- Redis with its local copies, as go-redis/cache gives it: what is read for a key, at some time, was
-- written for this key. Values expire, are evicted and are kept from being overwritten as it likes.
pub record Backend (C : Type 0) : Type 0 where
  pub blank : C
  pub read : ℕ → String → C → CacheRead
  pub write : ℕ → CacheWrite → C → C
  pub read-blank : (t : ℕ) (key : String) (v : Option String) → read t key blank ≢ hit v
  pub read-write :
      (t u : ℕ) (key : String) (v : Option String) (w : CacheWrite) (c : C)
      → read t key (write u w c) ≡ hit v
      → ((w.key ≡ key) × (v ≡ some w.value)) ⊎ ((s : ℕ) × (read s key c ≡ hit v))

-- A result that was given back for a key.
pub record Served : Type 0 where
  pub key : String
  pub value : Option String
  pub is_cached : Bool

-- The writes whose goroutines have not run, and what was given back so far, the latest first.
pub record Shared (C : Type 0) : Type 0 where
  pub cache : C
  pub pending : List CacheWrite
  pub history : List Served

abbrev pub add_write : Option CacheWrite → List CacheWrite → List CacheWrite
add_write none ws = ws
add_write (some w) ws = w ∷ ws

abbrev pub add_served :
    String → Result (Option String) OriginFailure → Bool → List Served → List Served
add_served key (err e) cached history = history
add_served key (ok value) cached history =
    record { key = key; value = value; is_cached = cached } ∷ history

abbrev pub note :
    {C : Type 0}
    → String
    → Result (Option String) OriginFailure × Bool × Option CacheWrite
    → Shared C
    → Shared C
note key (result, cached, write) s = record s {
  pending = add_write write s.pending;
  history = add_served key result cached s.history;
}

module _ {C : Type 0} (b : Backend C) where
  -- HandleRequestParallel at the time `t`, for an upstream that sends `reply` if it is asked.
  unfoldable pub request :
      Codec → ChainCacheConfig → String → SingleRequestBody → HttpReply → ℕ → Shared C → Shared C
  unfolding handle_request_parallel origin_func get_response_body create_request_key
  request codec c chain r reply t s =
      note (create_request_key chain r)
        (handle_request_parallel c chain r (b.read t (create_request_key chain r) s.cache)
          (origin_func (get_response_body codec reply)))
        s

  -- The requests and the goroutines, in any order.
  pub data Step : Shared C → Shared C → Type 0 where
    asked :
        (codec : Codec) (c : ChainCacheConfig) (chain : String) (r : SingleRequestBody)
        (reply : HttpReply) (t : ℕ) (s : Shared C)
        → Step s (request codec c chain r reply t s)
    written :
        (before after : List CacheWrite) (w : CacheWrite) (t : ℕ) (s : Shared C)
        → s.pending ≡ before ++ w ∷ after
        → Step s (record s { cache = b.write t w s.cache; pending = before ++ after })

  abbrev pub start : Shared C
  start = record { cache = b.blank; pending = []; history = [] }

  pub data Reach : Shared C → Type 0 where
    here : Reach start
    later : {s u : Shared C} → Reach s → Step s u → Reach u
