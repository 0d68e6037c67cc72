-- ===== src/Config/Defaults/Merging.antt =====
-- The latency thresholds that a chain takes from the global configuration (LatencyConfig.merge of
-- internal/config/config.go).
use node_gateway.Base.{
  get_elem?-put_at, get_elem?-put_at_other, ℕ, String, ◌≡◌, ◌≢◌, refl, sym, ap, ◌∙◌, [], ◌∷◌,
  Option, none, some, Map, lookup, insert, lookup-insert, ◌==◌, string_eq, eq_iff, if◌then◌else◌,
  Option-cases, inl, inr, Bool-cases, true, get_elem?,
}
use node_gateway.Config.{Duration, LatencyConfig}
use node_gateway.Config.Pointers.{Heap, put_latency, merge_thresholds, merge_latency}

-- The first of two values that is there.
abbrev pub or_else : {A : Type 0} → Option A → Option A → Option A
or_else none b = b
or_else (some a) b = some a

at :
    (here method : String) (own : Map Duration)
    → (here == method) ≡ true
    → lookup method own ≡ lookup here own
at here method own same = ap (λ k. lookup k own) (sym ((eq_iff here method).0 same))

-- The step of an entry that `own` lacks, and of one that it has.
taken_over :
    (here : String) (t : Duration) (rest own : Map Duration) (method : String)
    → lookup here own ≡ none
    → or_else (if here == method then some t else lookup method own) (lookup method rest)
      ≡ or_else (lookup method own) (if here == method then some t else lookup method rest)
taken_over here t rest own method e = elim (Bool-cases (here == method)) [
  | inl same ↦ rw (same, at here method own same ∙ e) refl
  | inr other ↦ rw other refl
]

kept :
    (here : String) (t t' : Duration) (rest own : Map Duration) (method : String)
    → lookup here own ≡ some t'
    → or_else (lookup method own) (lookup method rest)
      ≡ or_else (lookup method own) (if here == method then some t else lookup method rest)
kept here t t' rest own method e = elim (Bool-cases (here == method)) [
  | inl same ↦ rw (same, at here method own same ∙ e) refl
  | inr other ↦ rw other refl
]

lookup-merge_thresholds :
    (global own : Map Duration) (method : String)
    → lookup method (merge_thresholds global own)
      ≡ or_else (lookup method own) (lookup method global)
unfolding merge_thresholds lookup
lookup-merge_thresholds [] own method = elim (Option-cases (lookup method own)) [
  | inl e ↦ rw e refl
  | inr (t, e) ↦ rw e refl
]
lookup-merge_thresholds ((here, t) ∷ rest) own method = elim (Option-cases (lookup here own)) [
  | inl e ↦ rw e (
      lookup-merge_thresholds rest (insert here t own) method
      ∙ ap (λ o. or_else o (lookup method rest)) (lookup-insert here method t own)
      ∙ taken_over here t rest own method e)
  | inr (t', e) ↦ rw e (lookup-merge_thresholds rest own method ∙ kept here t t' rest own method e)
]

-- Merging two latency configurations gives the one that is merged into, for each method, the
-- threshold that it has, or else the one that the global configuration has, keeps its threshold for
-- all methods, and changes no other configuration. (Both are there; they may be the same.)
pub merge_latency-threshold :
    (p q : ℕ) (h : Heap) (c g : LatencyConfig)
    → get_elem? h.latencies p ≡ some c
    → get_elem? h.latencies q ≡ some g
    → (h' : Heap) × (c' : LatencyConfig) × (merge_latency p (some q) h ≡ some h')
      × (get_elem? h'.latencies p ≡ some c')
      × ((method : String)
          → lookup method c'.method_latency_thresholds
            ≡ or_else
                (lookup method c.method_latency_thresholds)
                (lookup method g.method_latency_thresholds))
      × (c'.threshold ≡ c.threshold)
      × ((i : ℕ) → i ≢ p → get_elem? h'.latencies i ≡ get_elem? h.latencies i)
unfolding merge_latency
merge_latency-threshold p q h c g own global =
    let merged = record c {
      method_latency_thresholds =
          merge_thresholds g.method_latency_thresholds c.method_latency_thresholds;
    } in
    (
      put_latency p merged h,
      merged,
      rw (merge_latency, own, global) refl,
      get_elem?-put_at p c merged h.latencies own,
      lookup-merge_thresholds g.method_latency_thresholds c.method_latency_thresholds,
      refl,
      λ i other. get_elem?-put_at_other p i merged h.latencies other,
    )
