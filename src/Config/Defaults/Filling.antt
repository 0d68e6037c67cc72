-- ===== src/Config/Defaults/Filling.antt =====
-- The pointers of a routing configuration while setDefaults of internal/config/config.go fills it.
use node_gateway.Base.{
  ℕ, zero, suc, ◌≡◌, refl, true, false, List, [], ◌∷◌, ◌++◌, Option, none, some, arith, length,
  get_elem?, inl, inr, ◌⊎◌,
}
use node_gateway.Config.{default_detection_window, default_ban_window}
use node_gateway.Config.Pointers.{Heap, Routing}
use node_gateway.Config.Defaults.{
  or_global, global_field, flatten, blank_latency, blank_errors, place_latency, place_errors, fill,
}
use node_gateway.Config.Defaults.Safety.{
  IsLatency, IsErrors, IsGlobal, IsGlobal-kept, Keeps, Keeps-refl, Keeps-trans,
  initialize_latency-runs, merge_latency-runs,
}
use node_gateway.Config.Defaults.Errors.{
  IsGlobalErrors, IsGlobalErrors-kept, initialize_errors-runs, merge_errors-runs,
}

-- The pointers that are set lead into the heap.
abbrev pub IsRouting : Routing → Heap → Type 0
IsRouting r h = IsGlobal r.latency h × IsGlobalErrors r.errors h

-- Both pointers are set.
abbrev pub IsWhole : Routing → Heap → Type 0
IsWhole r h =
    ((p : ℕ) × (r.latency ≡ some p) × IsLatency p h)
    × ((q : ℕ) × (r.errors ≡ some q) × IsErrors q h)

-- The global configuration is not there, or has both of its pointers.
abbrev IsBase : Option Routing → Heap → Type 0
IsBase global h = (global ≡ none) ⊎ ((g : Routing) × (global ≡ some g) × IsWhole g h)

pub IsWhole-kept : (r : Routing) (h h' : Heap) → Keeps h h' → IsWhole r h → IsWhole r h'
IsWhole-kept r h h' kept ((p, e, l), (q, e', l')) = ((p, e, kept.0 p l), (q, e', kept.1 q l'))

get_elem?-append :
    {A : Type 0} (xs : List A) (b a : A) (i : ℕ)
    → get_elem? xs i ≡ some a
    → (a' : A) × (get_elem? (xs ++ b ∷ []) i ≡ some a')
get_elem?-append [] b a i e = ground arith
get_elem?-append (x ∷ xs) b a zero e = (x, refl)
get_elem?-append (x ∷ xs) b a (suc i) e = get_elem?-append xs b a i e

get_elem?-end : {A : Type 0} (xs : List A) (b : A) → get_elem? (xs ++ b ∷ []) (length xs) ≡ some b
get_elem?-end [] b = refl
get_elem?-end (x ∷ xs) b = get_elem?-end xs b

place_latency-runs :
    (global : Option Routing) (r : Routing) (h : Heap)
    → IsBase global h
    → IsGlobal r.latency h
    → (p : ℕ) × (h' : Heap) × (place_latency global r h ≡ some (p, h'))
      × IsLatency p h'
      × Keeps h h'
unfolding place_latency
place_latency-runs global r h base (inr (p, e, l)) =
    (p, h, rw (place_latency, e) refl, l, Keeps-refl h)
place_latency-runs global r h (inl absent) (inl e) = (
  length h.latencies,
  record h { latencies = h.latencies ++ blank_latency ∷ [] },
  rw (place_latency, e, absent) refl,
  (blank_latency, get_elem?-end h.latencies blank_latency),
  (λ p l. get_elem?-append h.latencies blank_latency l.0 p l.1, λ p l. l),
)
place_latency-runs global r h (inr (g, base, ((p, e', l), errors))) (inl e) =
    (p, h, rw (place_latency, e, base, e') refl, l, Keeps-refl h)

place_errors-runs :
    (global : Option Routing) (r : Routing) (h : Heap)
    → IsBase global h
    → IsGlobalErrors r.errors h
    → (p : ℕ) × (h' : Heap) × (place_errors global r h ≡ some (p, h')) × IsErrors p h' × Keeps h h'
unfolding place_errors
place_errors-runs global r h base (inr (p, e, l)) =
    (p, h, rw (place_errors, e) refl, l, Keeps-refl h)
place_errors-runs global r h (inl absent) (inl e) = (
  length h.errors,
  record h { errors = h.errors ++ blank_errors ∷ [] },
  rw (place_errors, e, absent) refl,
  (blank_errors, get_elem?-end h.errors blank_errors),
  (λ p l. l, λ p l. get_elem?-append h.errors blank_errors l.0 p l.1),
)
place_errors-runs global r h (inr (g, base, (latency, (p, e', l)))) (inl e) =
    (p, h, rw (place_errors, e, base, e') refl, l, Keeps-refl h)

abbrev latencies_of : Option Routing → Option ℕ
latencies_of global = flatten (global_field (λ g. g.latency) global)

abbrev errors_of : Option Routing → Option ℕ
errors_of global = flatten (global_field (λ g. g.errors) global)

base_latency :
    (global : Option Routing) (h : Heap) → IsBase global h → IsGlobal (latencies_of global) h
base_latency global h (inl absent) = inl (rw absent refl)
base_latency global h (inr (g, e, ((p, e', l), errors))) = inr (p, rw e e', l)

base_errors :
    (global : Option Routing) (h : Heap) → IsBase global h → IsGlobalErrors (errors_of global) h
base_errors global h (inl absent) = inl (rw absent refl)
base_errors global h (inr (g, e, (latency, (p, e', l)))) = inr (p, rw e e', l)

IsBase-kept :
    (global : Option Routing) (h h' : Heap) → Keeps h h' → IsBase global h → IsBase global h'
IsBase-kept global h h' kept (inl absent) = inl absent
IsBase-kept global h h' kept (inr (g, e, whole)) = inr (g, e, IsWhole-kept g h h' kept whole)

abbrev pub filled_over : Option Routing → Routing → ℕ → ℕ → Routing
filled_over global r p q = record {
  always_route = or_global r.always_route (global_field (λ g. g.always_route) global) false;
  errors = some q;
  latency = some p;
  detection_window =
      or_global r.detection_window (global_field (λ g. g.detection_window) global)
        default_detection_window;
  ban_window = or_global r.ban_window (global_field (λ g. g.ban_window) global) default_ban_window;
  max_blocks_behind = r.max_blocks_behind;
  is_initialized = true;
  is_enabled = true;
}

pub fill-runs :
    (global : Option Routing) (r : Routing) (h : Heap)
    → IsBase global h
    → IsRouting r h
    → (r' : Routing) × (h' : Heap) × (fill global r h ≡ some (r', h')) × IsWhole r' h' × Keeps h h'
unfolding fill
fill-runs global r h base (latency, errors) =
    let (p, h1, e1, l1, k1) = place_latency-runs global r h base latency in
    let (h2, e2, k2) =
      initialize_latency-runs p (latencies_of global) h1 l1
        (IsGlobal-kept _ h h1 k1 (base_latency global h base)) in
    let k12 = Keeps-trans h h1 h2 k1 k2 in
    let (q, h3, e3, l3, k3) =
      place_errors-runs global r h2 (IsBase-kept global h h2 k12 base)
        (IsGlobalErrors-kept _ h h2 k12 errors) in
    let k13 = Keeps-trans h h2 h3 k12 k3 in
    let (h4, e4, k4) =
      initialize_errors-runs q (errors_of global) h3 l3
        (IsGlobalErrors-kept _ h h3 k13 (base_errors global h base)) in
    let k14 = Keeps-trans h h3 h4 k13 k4 in
    let p4 = k4.0 p (k3.0 p (k2.0 p l1)) in
    let (h5, e5, k5) =
      merge_latency-runs p (latencies_of global) h4 p4
        (IsGlobal-kept _ h h4 k14 (base_latency global h base)) in
    let k15 = Keeps-trans h h4 h5 k14 k5 in
    let q5 = k5.1 q (k4.1 q l3) in
    let (h6, e6, k6) =
      merge_errors-runs q (errors_of global) h5 q5
        (IsGlobalErrors-kept _ h h5 k15 (base_errors global h base)) in
    (
      filled_over global r p q,
      h6,
      rw (fill, e1, e2, e3, e4, e5, e6) refl,
      ((p, refl, k6.0 p (k5.0 p p4)), (q, refl, k6.1 q q5)),
      Keeps-trans h h5 h6 k15 k6,
    )
