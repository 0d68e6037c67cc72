-- ===== src/Config/Defaults/Safety.antt =====
-- The pointers of the latency configurations while internal/config/config.go initializes them.
use node_gateway.Base.{
  put_at, ℕ, zero, suc, pos, leb_ℤ, ◌≡◌, refl, true, List, [], ◌∷◌, Option, none, some, Bool-cases,
  inl, inr, get_elem?, insert, ◌⊎◌,
}
use node_gateway.Config.{default_max_latency, ErrorsConfig, MethodConfig, LatencyConfig}
use node_gateway.Config.Pointers.{
  Heap, put_latency, own_threshold, threshold_or_global, method_threshold, threshold_for_method,
  initialize_methods, initialize_latency, merge_latency, merge_thresholds,
}

-- There is a latency configuration at the position.
abbrev pub IsLatency : ℕ → Heap → Type 0
IsLatency p h = (c : LatencyConfig) × (get_elem? h.latencies p ≡ some c)

abbrev pub IsErrors : ℕ → Heap → Type 0
IsErrors p h = (c : ErrorsConfig) × (get_elem? h.errors p ≡ some c)

-- A global configuration is not there, or is at a position of the heap.
abbrev pub IsGlobal : Option ℕ → Heap → Type 0
IsGlobal global h = (global ≡ none) ⊎ ((q : ℕ) × (global ≡ some q) × IsLatency q h)

-- Every pointer into the first heap is one into the second.
abbrev pub Keeps : Heap → Heap → Type 0
Keeps h h' = ((p : ℕ) → IsLatency p h → IsLatency p h') × ((p : ℕ) → IsErrors p h → IsErrors p h')

abbrev Runs : {A : Type 0} → Heap → Option (A × Heap) → Type 0
Runs {A = A} h m = (a : A) × (h' : Heap) × (m ≡ some (a, h')) × Keeps h h'

pub Keeps-refl : (h : Heap) → Keeps h h
Keeps-refl h = (λ p l. l, λ p l. l)

pub Keeps-trans : (a b c : Heap) → Keeps a b → Keeps b c → Keeps a c
Keeps-trans a b c f g = (λ p l. g.0 p (f.0 p l), λ p l. g.1 p (f.1 p l))

pub put_at-stays :
    {A : Type 0} (p i : ℕ) (b a : A) (xs : List A)
    → get_elem? xs i ≡ some a
    → (a' : A) × (get_elem? (put_at p b xs) i ≡ some a')
unfolding put_at
put_at-stays p i b a [] e = (a, e)
put_at-stays zero zero b a (x ∷ xs) e = (b, refl)
put_at-stays zero (suc i) b a (x ∷ xs) e = (a, e)
put_at-stays (suc p) zero b a (x ∷ xs) e = (a, e)
put_at-stays (suc p) (suc i) b a (x ∷ xs) e = put_at-stays p i b a xs e

put_latency-Keeps : (p : ℕ) (c : LatencyConfig) (h : Heap) → Keeps h (put_latency p c h)
put_latency-Keeps p c h = (λ i l. put_at-stays p i c l.0 h.latencies l.1, λ i l. l)

pub IsGlobal-kept :
    (global : Option ℕ) (h h' : Heap) → Keeps h h' → IsGlobal global h → IsGlobal global h'
IsGlobal-kept global h h' kept (inl e) = inl e
IsGlobal-kept global h h' kept (inr (q, e, l)) = inr (q, e, kept.0 q l)

own_threshold-Runs : (p : ℕ) (h : Heap) → IsLatency p h → Runs h (own_threshold p h)
unfolding own_threshold
own_threshold-Runs p h (c, e) = elim (Bool-cases (leb_ℤ c.threshold (pos 0))) [
  | inl low ↦ (
    default_max_latency,
    put_latency p (record c { threshold = default_max_latency }) h,
    rw (e, low) refl,
    put_latency-Keeps p _ h,
  )
  | inr high ↦ (c.threshold, h, rw (e, high) refl, Keeps-refl h)
]

threshold_or_global-Runs :
    (p : ℕ) (global : Option ℕ) (h : Heap)
    → IsLatency p h
    → IsGlobal global h
    → Runs h (threshold_or_global p global h)
unfolding threshold_or_global
threshold_or_global-Runs p global h l (inl e) = rw e (own_threshold-Runs p h l)
threshold_or_global-Runs p global h (c, found) (inr (q, e, g)) =
    elim (Bool-cases (leb_ℤ c.threshold (pos 0))) [
      | inl low ↦
          let (t, h', ran, kept) = own_threshold-Runs q h g in
          let (c', found') = kept.0 p (c, found) in
          (
            t,
            put_latency p (record c' { threshold = t }) h',
            rw (e, threshold_or_global, found, low, ran, found') refl,
            Keeps-trans h h' (put_latency p (record c' { threshold = t }) h') kept
                (put_latency-Keeps p _ h'),
          )
      | inr high ↦ (
        c.threshold,
        put_latency p (record c { threshold = c.threshold }) h,
        rw (e, threshold_or_global, found, high, found) refl,
        put_latency-Keeps p _ h,
      )
    ]

-- A method without a threshold of its own.
unset_threshold-Runs :
    (p : ℕ) (global : Option ℕ) (m : MethodConfig) (h : Heap)
    → leb_ℤ m.threshold (pos 0) ≡ true
    → IsLatency p h
    → IsGlobal global h
    → Runs h (method_threshold p global m h)
unfolding method_threshold
unset_threshold-Runs p global m h unset l (inl e) =
    rw (e, method_threshold, unset) (threshold_or_global-Runs p none h l (inl refl))
unset_threshold-Runs p global m h unset (c, found) (inr (q, e, (g, found_g))) =
    elim (Bool-cases (leb_ℤ c.threshold (pos 0))) [
      | inl low ↦ (
        threshold_for_method m.name g,
        h,
        rw (e, method_threshold, unset, found, found_g, low) refl,
        Keeps-refl h,
      )
      | inr high ↦ (
        c.threshold,
        put_latency p (record c { threshold = c.threshold }) h,
        rw (e, method_threshold, unset, found, found_g, high, found) refl,
        put_latency-Keeps p _ h,
      )
    ]

method_threshold-Runs :
    (p : ℕ) (global : Option ℕ) (m : MethodConfig) (h : Heap)
    → IsLatency p h
    → IsGlobal global h
    → Runs h (method_threshold p global m h)
unfolding method_threshold
method_threshold-Runs p global m h l g = elim (Bool-cases (leb_ℤ m.threshold (pos 0))) [
  | inl low ↦ unset_threshold-Runs p global m h low l g
  | inr high ↦ (m.threshold, h, rw (method_threshold, high) refl, Keeps-refl h)
]

initialize_methods-runs :
    (p : ℕ) (global : Option ℕ) (ms : List MethodConfig) (h : Heap)
    → IsLatency p h
    → IsGlobal global h
    → (h' : Heap) × (initialize_methods p global ms h ≡ some h') × Keeps h h'
unfolding initialize_methods
initialize_methods-runs p global [] h l g = (h, refl, Keeps-refl h)
initialize_methods-runs p global (m ∷ ms) h l g =
    let (t, h1, ran, kept) = method_threshold-Runs p global m h l g in
    let (c, found) = kept.0 p l in
    let h2 =
      put_latency p
        (record c { method_latency_thresholds = insert m.name t c.method_latency_thresholds }) h1 in
    let kept' = Keeps-trans h h1 h2 kept (put_latency-Keeps p _ h1) in
    let (h3, ran', kept'') =
      initialize_methods-runs p global ms h2 (kept'.0 p l) (IsGlobal-kept global h h2 kept' g) in
    (h3, rw (ran, initialize_methods, found) ran', Keeps-trans h h2 h3 kept' kept'')

pub initialize_latency-runs :
    (p : ℕ) (global : Option ℕ) (h : Heap)
    → IsLatency p h
    → IsGlobal global h
    → (h' : Heap) × (initialize_latency p global h ≡ some h') × Keeps h h'
unfolding initialize_latency
initialize_latency-runs p global h (c, found) g =
    let h1 = put_latency p (record c { method_latency_thresholds = [] }) h in
    let kept = put_latency-Keeps p (record c { method_latency_thresholds = [] }) h in
    let (h2, ran, kept') =
      initialize_methods-runs p global c.methods h1 (kept.0 p (c, found))
        (IsGlobal-kept global h h1 kept g) in
    (h2, rw (initialize_latency, found) ran, Keeps-trans h h1 h2 kept kept')

pub merge_latency-runs :
    (p : ℕ) (global : Option ℕ) (h : Heap)
    → IsLatency p h
    → IsGlobal global h
    → (h' : Heap) × (merge_latency p global h ≡ some h') × Keeps h h'
unfolding merge_latency
merge_latency-runs p global h l (inl e) = (h, rw e refl, Keeps-refl h)
merge_latency-runs p global h (c, found) (inr (q, e, (g, found_g))) = (
  put_latency p
      (record c {
        method_latency_thresholds =
            merge_thresholds g.method_latency_thresholds c.method_latency_thresholds;
      })
      h,
  rw (e, merge_latency, found, found_g) refl,
  put_latency-Keeps p _ h,
)
