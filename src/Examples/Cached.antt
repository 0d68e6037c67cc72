-- ===== src/Examples/Cached.antt =====
-- Tests of the cache that all chains share, over one that keeps the first value of every key.
use node_gateway.Base.{
  ℕ, pos, String, ◌≡◌, ◌≢◌, ◌⊎◌, inl, inr, ap, ◌∙◌, sym, true, [], Option, none, some, Map, lookup,
  insert, lookup-insert, ◌==◌, string_eq, eq_iff, Option-cases, Bool-cases, if◌then◌else◌, if_true,
  if_false,
}
use node_gateway.Cache.{CacheRead, CacheWrite, hit, miss}
use node_gateway.Route.Executor.{received}
use node_gateway.Cache.Sharing.{Backend, Served, Shared, start, request}
use node_gateway.Examples.Data.{codec, cache_config, call_request}

abbrev read_of : Option String → CacheRead
read_of none = miss
read_of (some v) = hit (some v)

abbrev keep : CacheWrite → Map String → Map String
keep w c = elim (lookup w.key c) [ none ↦ insert w.key w.value c | some v ↦ c ]

hit_injective : {a b : Option String} → hit a ≡ hit b → a ≡ b
hit_injective e = cc

read_keep :
    (t u : ℕ) (key : String) (v : Option String) (w : CacheWrite) (c : Map String)
    → read_of (lookup key (keep w c)) ≡ hit v
    → ((w.key ≡ key) × (v ≡ some w.value)) ⊎ ((s : ℕ) × (read_of (lookup key c) ≡ hit v))
read_keep t u key v w c e = elim (Option-cases (lookup w.key c)) [
  | inl missing ↦ elim (Bool-cases (w.key == key)) [
    | inl same ↦ inl (
      (eq_iff w.key key).0 same,
      sym (
          hit_injective
            (sym (ap read_of (inserted ∙ if_true _ _ same)) ∙ (rw (missing, keep) at e))),
    )
    | inr other ↦
        inr (t, sym (ap read_of (inserted ∙ if_false _ _ other)) ∙ (rw (missing, keep) at e))
  ]
  | inr (x, found) ↦ inr (t, rw (found, keep) at e)
]
  where
    inserted :
        lookup key (insert w.key w.value c) ≡ (if w.key == key then some w.value else lookup key c)
    inserted = lookup-insert w.key key w.value c

read_blank :
    (t : ℕ) (key : String) (v : Option String) → read_of (lookup {V = String} key []) ≢ hit v
unfolding lookup
read_blank t key v e = cc

abbrev memory : Backend (Map String)
memory = record {
  blank = [];
  read = λ t key c. read_of (lookup key c);
  write = λ t w c. keep w c;
  read-blank = read_blank;
  read-write = read_keep;
}

abbrev asked_once : Shared (Map String)
asked_once =
    request memory codec cache_config "mainnet" call_request (received (pos 200) "17") 10
      (start memory)

abbrev the_write : CacheWrite
the_write = record { key = "mainnet:eth_call:[]"; value = "17"; ttl = pos 5 }

abbrev stored : Shared (Map String)
stored = record asked_once { cache = keep the_write asked_once.cache; pending = [] }

abbrev asked_twice : Shared (Map String)
asked_twice =
    request memory codec cache_config "mainnet" call_request (received (pos 500) "") 12 stored

abbrev from_cache : Served
from_cache = record { key = "mainnet:eth_call:[]"; value = some "17"; is_cached = true }
