-- ===== src/Config/Defaults/Blank.antt =====
-- What setDefaults of internal/config/config.go makes of a routing configuration without a latency
-- section, and of one that takes it over.
use node_gateway.Base.{
  get_elem?-put_at, ℕ, ◌≡◌, refl, sym, ◌∙◌, ap, subst, inl, inr, true, ◌++◌, Option, none, some,
  get_elem?, if_elim, if◌then◌else◌, ◌>>=◌,
}
use node_gateway.Config.Pointers.{
  Heap, Routing, put_errors, put_latency, is_zero, initialize_errors, initialize_methods,
  initialize_latency, merge_errors, merge_latency, merge_thresholds, sort_and_remove_duplicates,
}
use node_gateway.Config.Defaults.{blank_latency, place_latency, place_errors, fill, dereference}
use node_gateway.Config.Defaults.Safety.{IsErrors, Keeps, put_at-stays}
use node_gateway.Config.Defaults.Errors.{IsGlobalErrors}
use node_gateway.Config.Defaults.Filling.{fill-runs, filled_over}
use node_gateway.Config.Defaults.Unset.{HasErrors, fill-unset}

-- What sets the errors leaves the latencies alone.
initialize_errors-latencies :
    (p q : ℕ) (h : Heap)
    → IsErrors p h
    → IsErrors q h
    → (h' : Heap) × (initialize_errors p (some q) h ≡ some h')
      × (h'.latencies ≡ h.latencies)
      × ((i : ℕ) → IsErrors i h → IsErrors i h')
unfolding initialize_errors
initialize_errors-latencies p q h (c, found) (g, global) =
    let put = put_errors p (record c { rate = g.rate }) h in
    (
      (if is_zero c.rate then put else h),
      rw (initialize_errors, found, global) refl,
      if_elim (λ (x : Heap). x.latencies ≡ h.latencies) (is_zero c.rate) refl refl,
      λ i e.
          if_elim (λ (x : Heap). IsErrors i x) (is_zero c.rate)
            (put_at-stays p i (record c { rate = g.rate }) e.0 h.errors e.1) e,
    )

merge_errors-latencies :
    (p q : ℕ) (h : Heap)
    → IsErrors p h
    → IsErrors q h
    → (h' : Heap) × (merge_errors p (some q) h ≡ some h') × (h'.latencies ≡ h.latencies)
unfolding merge_errors
merge_errors-latencies p q h (c, found) (g, global) = (
  put_errors p
      (record c {
        http_codes = sort_and_remove_duplicates (c.http_codes ++ g.http_codes);
        json_rpc_codes = sort_and_remove_duplicates (c.json_rpc_codes ++ g.json_rpc_codes);
        error_strings = sort_and_remove_duplicates (c.error_strings ++ g.error_strings);
      })
      h,
  rw (merge_errors, found, global) refl,
  refl,
)

place_errors-there :
    (g r : Routing) (h : Heap) (q : ℕ)
    → g.errors ≡ some q
    → IsErrors q h
    → IsGlobalErrors r.errors h
    → (p : ℕ) × (place_errors (some g) r h ≡ some (p, h)) × IsErrors p h
unfolding place_errors
place_errors-there g r h q e there (inl unset) = (q, rw (place_errors, unset, e) refl, there)
place_errors-there g r h q e there (inr (p, own, here)) = (p, rw (place_errors, own) refl, here)

-- Initializing and merging a blank latency configuration that is also the global one keep it blank.
abbrev IsBlank : ℕ → Heap → Type 0
IsBlank p h = get_elem? h.latencies p ≡ some blank_latency

initialize-IsBlank :
    (p : ℕ) (h : Heap)
    → IsBlank p h
    → (h' : Heap) × (initialize_latency p (some p) h ≡ some h')
      × IsBlank p h'
      × (h'.errors ≡ h.errors)
unfolding initialize_latency initialize_methods
initialize-IsBlank p h e = (
  put_latency p blank_latency h,
  rw (initialize_latency, e) refl,
  get_elem?-put_at p blank_latency blank_latency h.latencies e,
  refl,
)

merge-IsBlank :
    (p : ℕ) (h : Heap)
    → IsBlank p h
    → (h' : Heap) × (merge_latency p (some p) h ≡ some h') × IsBlank p h' × (h'.errors ≡ h.errors)
unfolding merge_latency merge_thresholds
merge-IsBlank p h e = (
  put_latency p blank_latency h,
  rw (merge_latency, e) refl,
  get_elem?-put_at p blank_latency blank_latency h.latencies e,
  refl,
)

moved_errors : (i : ℕ) (h h' : Heap) → h'.errors ≡ h.errors → IsErrors i h → IsErrors i h'
moved_errors i h h' same (c, e) = (c, ap (λ l. get_elem? l i) same ∙ e)

moved_global :
    (global : Option ℕ) (h h' : Heap)
    → h'.errors ≡ h.errors
    → IsGlobalErrors global h
    → IsGlobalErrors global h'
moved_global global h h' same (inl e) = inl e
moved_global global h h' same (inr (q, e, there)) = inr (q, e, moved_errors q h h' same there)

moved_latency : (p : ℕ) (h h' : Heap) → h'.latencies ≡ h.latencies → IsBlank p h → IsBlank p h'
moved_latency p h h' same e = ap (λ l. get_elem? l p) same ∙ e

place_latency-inherited :
    (g r : Routing) (h : Heap) (p : ℕ)
    → g.latency ≡ some p
    → r.latency ≡ none
    → place_latency (some g) r h ≡ some (p, h)
unfolding place_latency
place_latency-inherited g r h p latency unset = rw (place_latency, unset, latency) refl

pub fill-inherits :
    (g r : Routing) (h : Heap) (p q : ℕ)
    → g.latency ≡ some p
    → g.errors ≡ some q
    → IsBlank p h
    → IsErrors q h
    → r.latency ≡ none
    → IsGlobalErrors r.errors h
    → (r' : Routing) × (h' : Heap) × (fill (some g) r h ≡ some (r', h'))
      × ((dereference r' h').latency ≡ some blank_latency)
      × (r'.is_enabled ≡ true)
unfolding fill dereference
fill-inherits g r h p q latency errors blank there unset own =
    let placed = place_latency-inherited g r h p latency unset in
    let (h2, e2, b2, s2) = initialize-IsBlank p h blank in
    let (k, e3, here) =
      place_errors-there g r h2 q errors (moved_errors q h h2 s2 there)
        (moved_global r.errors h h2 s2 own) in
    let (h4, e4, s4, kept) =
      initialize_errors-latencies k q h2 here (moved_errors q h h2 s2 there) in
    let (h5, e5, b5, s5) = merge-IsBlank p h4 (moved_latency p h2 h4 s4 b2) in
    let (h6, e6, s6) =
      merge_errors-latencies k q h5 (moved_errors k h4 h5 s5 (kept k here))
        (moved_errors q h4 h5 s5 (kept q (moved_errors q h h2 s2 there))) in
    (
      filled_over (some g) r p k,
      h6,
      rw
          (
            fill,
            placed,
            ap (λ o. initialize_latency p o h) latency ∙ e2,
            e3,
            ap (λ o. initialize_errors k o h2) errors ∙ e4,
            ap (λ o. merge_latency p o h4) latency ∙ e5,
            ap (λ o. merge_errors k o h5) errors ∙ e6,
          )
          refl,
      moved_latency p h5 h6 s6 b5,
      refl,
    )

-- What has no latency section gets a blank one where there is nothing global.
abbrev pub IsFilled : Routing → Heap → Type 0
IsFilled g h =
    (p : ℕ) × (q : ℕ) × (g.latency ≡ some p)
    × (g.errors ≡ some q)
    × IsBlank p h
    × IsErrors q h
    × (g.is_initialized ≡ true)

same_result : {A : Type 0} {o : Option A} {x y : A} → o ≡ some x → o ≡ some y → x ≡ y
same_result e f = cc

with_errors : (r : Routing) (h : Heap) → IsGlobalErrors r.errors h → HasErrors r h
with_errors r h (inl e) = inl e
with_errors r h (inr (q, e, (c, found))) = inr (q, c, e, found)

pub fill-IsFilled :
    (g : Routing) (h : Heap)
    → g.latency ≡ none
    → IsGlobalErrors g.errors h
    → (g' : Routing) × (h' : Heap) × (fill none g h ≡ some (g', h')) × IsFilled g' h' × Keeps h h'
unfolding dereference
fill-IsFilled g h unset own =
    let (g1, h1, e1, blank1, started1) = fill-unset g h unset (with_errors g h own) in
    let (g', h', e, ((p, latency, _), (q, errors, there)), kept) =
      fill-runs none g h (inl refl) (inl unset, own) in
    let same = same_result e1 e in
    let blank =
      subst (λ (x : Routing × Heap). (dereference x.0 x.1).latency ≡ some blank_latency) same
        blank1 in
    let started = subst (λ (x : Routing × Heap). x.0.is_initialized ≡ true) same started1 in
    (
      g',
      h',
      e,
      (
        p,
        q,
        latency,
        errors,
        sym (ap (λ (o : Option ℕ). o >>= λ (i : ℕ). get_elem? h'.latencies i) latency) ∙ blank,
        there,
        started,
      ),
      kept,
    )
