-- ===== src/Config/Pointers.antt =====
-- internal/config/config.go: the error and latency configurations, with the operations that set their
-- fields. A chain may share them with the global configuration, so they are places in a heap.
use Prim.Native.String.{compare as compare_text}
use Prim.Native.Nat.{Ordering}
use node_gateway.Base.{
  put_at, ℕ, pos, leb_ℤ, String, Bool, true, false, List, [], ◌∷◌, ◌++◌, Option, none, some,
  get_elem?, Map, lookup, insert, value_or, ◌==◌, string_eq, int_eq, if◌then◌else◌, ◌>>=◌,
}
use node_gateway.Config.{
  Duration, Float64, finite, ErrorsConfig, MethodConfig, LatencyConfig, RoutingConfig,
  default_max_latency, default_error_rate,
}

pub record Heap : Type 0 where
  pub errors : List ErrorsConfig
  pub latencies : List LatencyConfig

-- A configuration whose pointers are positions in the heap.
abbrev pub Routing : Type 0
Routing = RoutingConfig ℕ ℕ

abbrev pub put_errors : ℕ → ErrorsConfig → Heap → Heap
put_errors p c h = record h { errors = put_at p c h.errors }

abbrev pub put_latency : ℕ → LatencyConfig → Heap → Heap
put_latency p c h = record h { latencies = put_at p c h.latencies }

-- `rate == 0`
abbrev pub is_zero : Float64 → Bool
is_zero (finite n) = n == pos 0
is_zero _ = false

-- sortAndRemoveDuplicates
abbrev pub is_at_most : String → String → Bool
is_at_most s t = elim (compare_text s t) [ Ordering.gt ↦ false | _ ↦ true ]

unfoldable pub insert_text : String → List String → List String
insert_text s [] = s ∷ []
insert_text s (t ∷ ts) = if is_at_most s t then s ∷ t ∷ ts else t ∷ insert_text s ts

unfoldable pub sort_texts : List String → List String
unfolding insert_text
sort_texts [] = []
sort_texts (s ∷ ss) = insert_text s (sort_texts ss)

-- slices.Compact: of neighbours that are equal the first stays.
unfoldable pub compact_after : String → List String → List String
compact_after s [] = []
compact_after s (t ∷ ts) = let rest = compact_after t ts in if s == t then rest else t ∷ rest

unfoldable pub compact : List String → List String
unfolding compact_after
compact [] = []
compact (s ∷ ss) = s ∷ compact_after s ss

unfoldable pub sort_and_remove_duplicates : List String → List String
unfolding sort_texts compact
sort_and_remove_duplicates ss = compact (sort_texts ss)

-- merge of ErrorsConfig, where both may be the same place.
unfoldable pub merge_errors : ℕ → Option ℕ → Heap → Option Heap
unfolding sort_and_remove_duplicates
merge_errors p none h = some h
merge_errors p (some q) h = do
  c ← get_elem? h.errors p
  g ← get_elem? h.errors q
  some (
      put_errors p
        (record c {
          http_codes = sort_and_remove_duplicates (c.http_codes ++ g.http_codes);
          json_rpc_codes = sort_and_remove_duplicates (c.json_rpc_codes ++ g.json_rpc_codes);
          error_strings = sort_and_remove_duplicates (c.error_strings ++ g.error_strings);
        })
        h)

unfoldable pub initialize_errors : ℕ → Option ℕ → Heap → Option Heap
initialize_errors p global h = do
  c ← get_elem? h.errors p
  rate ← elim global [
    | none ↦ some default_error_rate
    | some q ↦ get_elem? h.errors q >>= λ (g : ErrorsConfig). some g.rate
  ]
  some (if is_zero c.rate then put_errors p (record c { rate = rate }) h else h)

-- The loop of merge of LatencyConfig, over the entries of the global map.
unfoldable pub merge_thresholds : Map Duration → Map Duration → Map Duration
merge_thresholds [] own = own
merge_thresholds ((method, threshold) ∷ rest) own =
    merge_thresholds rest
      (elim (lookup method own) [ none ↦ insert method threshold own | some _ ↦ own ])

unfoldable pub merge_latency : ℕ → Option ℕ → Heap → Option Heap
unfolding merge_thresholds
merge_latency p none h = some h
merge_latency p (some q) h = do
  c ← get_elem? h.latencies p
  g ← get_elem? h.latencies q
  some (
      put_latency p
        (record c {
          method_latency_thresholds =
              merge_thresholds g.method_latency_thresholds c.method_latency_thresholds;
        })
        h)

-- getLatencyThreshold of LatencyConfig, without and with a global configuration. Each sets the field.
unfoldable pub own_threshold : ℕ → Heap → Option (Duration × Heap)
own_threshold p h = do
  c ← get_elem? h.latencies p
  some (
      if leb_ℤ c.threshold (pos 0)
      then (default_max_latency, put_latency p (record c { threshold = default_max_latency }) h)
      else (c.threshold, h))

unfoldable pub threshold_or_global : ℕ → Option ℕ → Heap → Option (Duration × Heap)
unfolding own_threshold
threshold_or_global p none h = own_threshold p h
threshold_or_global p (some q) h = do
  c ← get_elem? h.latencies p
  (threshold, h') ← (if leb_ℤ c.threshold (pos 0) then own_threshold q h else some (c.threshold, h))
  c' ← get_elem? h'.latencies p
  some (threshold, put_latency p (record c' { threshold = threshold }) h')

unfoldable pub threshold_for_method : String → LatencyConfig → Duration
threshold_for_method method c =
    value_or default_max_latency (lookup method c.method_latency_thresholds)

-- The threshold of one method in the loop of initialize, and the loop.
unfoldable pub method_threshold : ℕ → Option ℕ → MethodConfig → Heap → Option (Duration × Heap)
unfolding threshold_or_global threshold_for_method
method_threshold p global m h =
    if leb_ℤ m.threshold (pos 0)
    then elim global [
      | none ↦ threshold_or_global p none h
      | some q ↦ get_elem? h.latencies p >>= λ (c : LatencyConfig).
          get_elem? h.latencies q >>= λ (g : LatencyConfig).
          if leb_ℤ c.threshold (pos 0)
          then some (threshold_for_method m.name g, h)
          else threshold_or_global p (some q) h
    ]
    else some (m.threshold, h)

unfoldable pub initialize_methods : ℕ → Option ℕ → List MethodConfig → Heap → Option Heap
unfolding method_threshold
initialize_methods p global [] h = some h
initialize_methods p global (m ∷ ms) h = do
  (threshold, h') ← method_threshold p global m h
  c ← get_elem? h'.latencies p
  initialize_methods p global ms (
      put_latency p
        (record c {
          method_latency_thresholds = insert m.name threshold c.method_latency_thresholds;
        })
        h')

unfoldable pub initialize_latency : ℕ → Option ℕ → Heap → Option Heap
unfolding initialize_methods
initialize_latency p global h = do
  c ← get_elem? h.latencies p
  initialize_methods p global c.methods
      (put_latency p (record c { method_latency_thresholds = [] }) h)
