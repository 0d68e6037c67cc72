-- ===== src/Config/Defaults/Unset.antt =====
-- The latency threshold that the defaults of internal/config/config.go leave unset.
use node_gateway.Base.{
  put_at, ℕ, pos, String, ◌≡◌, refl, ◌∙◌, ap, ◌⊎◌, inl, inr, true, false, List, [], ◌∷◌, ◌++◌, none,
  some, arith, length, get_elem?, if_elim, lookup, if◌then◌else◌,
}
use node_gateway.Config.{
  default_error_rate, default_detection_window, default_ban_window, ErrorsConfig, LatencyConfig,
  RoutingConfig,
}
use node_gateway.Config.Pointers.{
  Heap, Routing, put_errors, is_zero, initialize_errors, initialize_methods, initialize_latency,
}
use node_gateway.Config.Defaults.{
  blank_latency, blank_errors, place_latency, place_errors, fill, dereference, or_global,
}
use node_gateway.Checks.LatencyCheck.{get_latency_threshold, is_high_latency}

module _ {A : Type 0} where
  get_elem?-last : (xs : List A) (a : A) → get_elem? (xs ++ a ∷ []) (length xs) ≡ some a
  get_elem?-last [] a = refl
  get_elem?-last (x ∷ xs) a = get_elem?-last xs a

  put_at-last : (xs : List A) (a b : A) → put_at (length xs) b (xs ++ a ∷ []) ≡ xs ++ b ∷ []
  unfolding put_at
  put_at-last [] a b = refl
  put_at-last (x ∷ xs) a b = ap (λ (l : List A). x ∷ l) (put_at-last xs a b)

-- The heap with a blank latency configuration at its end.
abbrev grown : Heap → Heap
grown h = record h { latencies = h.latencies ++ blank_latency ∷ [] }

initialize-grown :
    (h : Heap) → initialize_latency (length h.latencies) none (grown h) ≡ some (grown h)
unfolding initialize_latency initialize_methods
initialize-grown h = rw (get_elem?-last h.latencies blank_latency) (
    ap (λ (l : List LatencyConfig). some (record h { latencies = l }))
      (put_at-last h.latencies blank_latency blank_latency))

-- `Errors` is not set, or points at a configuration.
abbrev pub HasErrors : Routing → Heap → Type 0
HasErrors r h =
    (r.errors ≡ none)
    ⊎ ((q : ℕ) × (e : ErrorsConfig) × (r.errors ≡ some q) × (get_elem? h.errors q ≡ some e))

-- Setting the defaults of `Errors` leaves the latency configurations alone.
abbrev ErrorsSet : Routing → Heap → Type 0
ErrorsSet r h =
    (q : ℕ) × (h1 : Heap) × (h2 : Heap) × (place_errors none r h ≡ some (q, h1))
    × (initialize_errors q none h1 ≡ some h2)
    × (h2.latencies ≡ h.latencies)

abbrev with_rate : ℕ → ErrorsConfig → Heap → Heap
with_rate q c h =
    if is_zero c.rate then put_errors q (record c { rate = default_error_rate }) h else h

abbrev filled : Routing → ℕ → ℕ → Routing
filled r p q = record {
  always_route = or_global r.always_route none false;
  errors = some q;
  latency = some p;
  detection_window = or_global r.detection_window none default_detection_window;
  ban_window = or_global r.ban_window none default_ban_window;
  max_blocks_behind = r.max_blocks_behind;
  is_initialized = true;
  is_enabled = true;
}

errors_set : (r : Routing) (h : Heap) → HasErrors r h → ErrorsSet r h
unfolding place_errors initialize_errors
errors_set r h (inl e) = (
  length h.errors,
  record h { errors = h.errors ++ blank_errors ∷ [] },
  with_rate (length h.errors) blank_errors (record h { errors = h.errors ++ blank_errors ∷ [] }),
  rw e refl,
  rw (get_elem?-last h.errors blank_errors) refl,
  refl,
)
errors_set r h (inr (q, c, e, found)) = (
  q,
  h,
  with_rate q c h,
  rw e refl,
  rw found refl,
  if_elim (λ (x : Heap). x.latencies ≡ h.latencies) (is_zero c.rate) refl refl,
)

pub fill-unset :
    (r : Routing) (h : Heap)
    → r.latency ≡ none
    → HasErrors r h
    → (r' : Routing) × (h' : Heap) × (fill none r h ≡ some (r', h'))
      × ((dereference r' h').latency ≡ some blank_latency)
      × (r'.is_initialized ≡ true)
unfolding fill place_latency dereference errors_set
fill-unset r h unset errors =
    let (q, h1, h2, placed, started, same) = errors_set r (grown h) errors in
    (
      filled r (length h.latencies) q,
      h2,
      rw (fill, place_latency, unset, initialize-grown h, placed, started) refl,
      ap (λ (l : List LatencyConfig). get_elem? l (length h.latencies)) same
          ∙ get_elem?-last h.latencies blank_latency,
      refl,
    )

pub is_high_latency-blank :
    (r : RoutingConfig ErrorsConfig LatencyConfig) (method : String) (taken : ℕ)
    → r.latency ≡ some blank_latency
    → is_high_latency (get_latency_threshold (some r) method) (pos taken) ≡ true
unfolding get_latency_threshold is_high_latency lookup
is_high_latency-blank r method taken e = rw e (ground arith)
