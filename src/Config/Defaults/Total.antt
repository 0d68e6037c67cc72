-- ===== src/Config/Defaults/Total.antt =====
-- setDefaults of internal/config/config.go from the start to the end: no pointer is nil where it is
-- followed.
use node_gateway.Base.{
  suc, length, ◌≡◌, refl, Bool, true, false, not, ◌&&◌, List, [], ◌∷◌, Option, none, some,
  Bool-cases, inl, inr, ◌⊎◌, All, All-map, if_true, if_false, ap, ◌∙◌, ◌>>=◌,
}
use node_gateway.Config.Pointers.{Heap, Routing}
use node_gateway.Config.Defaults.{
  is_enhanced_routing_control_defined, set_defaults_alone, set_defaults, set_chain_defaults,
  set_all_defaults, set_config_defaults,
}
use node_gateway.Config.Defaults.Safety.{IsGlobal-kept, Keeps, Keeps-refl, Keeps-trans}
use node_gateway.Config.Defaults.Errors.{IsGlobalErrors-kept}
use node_gateway.Config.Defaults.Filling.{IsRouting, IsWhole, IsWhole-kept, fill-runs}

-- The pointers that are set lead into the heap, and an initialized configuration has both.
abbrev pub IsWellFormed : Routing → Heap → Type 0
IsWellFormed r h = IsRouting r h × ((r.is_initialized ≡ false) ⊎ IsWhole r h)

IsWellFormed-kept : (r : Routing) (h h' : Heap) → Keeps h h' → IsWellFormed r h → IsWellFormed r h'
IsWellFormed-kept r h h' kept ((latency, errors), whole) = (
  (IsGlobal-kept r.latency h h' kept latency, IsGlobalErrors-kept r.errors h h' kept errors),
  elim whole [ inl fresh ↦ inl fresh | inr w ↦ inr (IsWhole-kept r h h' kept w) ],
)

IsWhole-IsWellFormed : (r : Routing) (h : Heap) → IsWhole r h → IsWellFormed r h
IsWhole-IsWellFormed r h (latency, errors) = ((inr latency, inr errors), inr (latency, errors))

force_fresh :
    (g : Routing) (h : Heap)
    → g.is_initialized ≡ false
    → IsRouting g h
    → (g' : Routing) × (h' : Heap) × (set_defaults_alone true g h ≡ some (true, g', h'))
      × IsWhole g' h'
      × Keeps h h'
unfolding set_defaults_alone
force_fresh g h fresh routing =
    let (g', h', e, whole, kept) = fill-runs none g h (inl refl) routing in
    (
      g',
      h',
      if_false _ _ fresh
          ∙ ap
              (λ (o : Option (Routing × Heap)). o >>= λ (x : Routing × Heap). some (true, x.0, x.1))
              e,
      whole,
      kept,
    )

force_alone :
    (g : Routing) (h : Heap)
    → IsWellFormed g h
    → (g' : Routing) × (h' : Heap) × (set_defaults_alone true g h ≡ some (true, g', h'))
      × IsWhole g' h'
      × Keeps h h'
unfolding set_defaults_alone
force_alone g h (routing, inl fresh) = force_fresh g h fresh routing
force_alone g h (routing, inr whole) = elim (Bool-cases g.is_initialized) [
  | inl done ↦ (g, h, if_true _ _ done, whole, Keeps-refl h)
  | inr fresh ↦ force_fresh g h fresh routing
]

set_defaults_alone-runs :
    (force : Bool) (g : Routing) (h : Heap)
    → IsWellFormed g h
    → (b : Bool) × (g' : Routing) × (h' : Heap) × (set_defaults_alone force g h ≡ some (b, g', h'))
      × IsWellFormed g' h'
      × Keeps h h'
unfolding set_defaults_alone
set_defaults_alone-runs force g h (routing, whole) = elim (Bool-cases g.is_initialized) [
  | inl done ↦ (true, g, h, rw done refl, (routing, whole), Keeps-refl h)
  | inr fresh ↦ elim (Bool-cases (not force && not (is_enhanced_routing_control_defined g))) [
    | inl skipped ↦
        (false, g, h, if_false _ _ fresh ∙ if_true _ _ skipped, (routing, whole), Keeps-refl h)
    | inr taken ↦
        let (g', h', e, whole', kept) = fill-runs none g h (inl refl) routing in
        (
          true,
          g',
          h',
          if_false _ _ fresh
              ∙ if_false _ _ taken
              ∙ ap
                  (λ (o : Option (Routing × Heap)).
                    o >>= λ (x : Routing × Heap). some (true, x.0, x.1))
                  e,
          IsWhole-IsWellFormed g' h' whole',
          kept,
        )
  ]
]

set_defaults-runs :
    (g : Routing) (force : Bool) (r : Routing) (h : Heap)
    → IsWellFormed g h
    → IsWellFormed r h
    → (b : Bool) × (r' : Routing) × (g' : Routing) × (h' : Heap) × (set_defaults g force r h
        ≡ some (b, r', g', h'))
      × IsWellFormed r' h'
      × IsWellFormed g' h'
      × Keeps h h'
unfolding set_defaults
set_defaults-runs g force r h wg wr = elim (Bool-cases r.is_initialized) [
  | inl done ↦ (true, r, g, h, if_true _ _ done, wr, wg, Keeps-refl h)
  | inr fresh ↦
      elim (Bool-cases (
        not force
        && (not (is_enhanced_routing_control_defined r)
            && not (is_enhanced_routing_control_defined g)))) [
              | inl skipped ↦
                  (false, r, g, h, if_false _ _ fresh ∙ if_true _ _ skipped, wr, wg, Keeps-refl h)
              | inr taken ↦
                  let (g', h1, e, whole, k1) = force_alone g h wg in
                  let (r', h2, e', whole', k2) =
                    fill-runs (some g') r h1 (inr (g', refl, whole))
                      (IsWellFormed-kept r h h1 k1 wr).0 in
                  (
                    true,
                    r',
                    g',
                    h2,
                    if_false _ _ fresh ∙ if_false _ _ taken ∙ rw (e, e') refl,
                    IsWhole-IsWellFormed r' h2 whole',
                    IsWhole-IsWellFormed g' h2 (IsWhole-kept g' h1 h2 k2 whole),
                    Keeps-trans h h1 h2 k1 k2,
                  )
            ]
]

set_chain_defaults-runs :
    (specified : Bool) (g r : Routing) (h : Heap)
    → IsWellFormed g h
    → IsWellFormed r h
    → (r' : Routing) × (g' : Routing) × (h' : Heap) × (set_chain_defaults specified g r h
        ≡ some (r', g', h'))
      × IsWellFormed r' h'
      × IsWellFormed g' h'
      × Keeps h h'
unfolding set_chain_defaults
set_chain_defaults-runs specified g r h wg wr =
    elim (Bool-cases (not specified && not (is_enhanced_routing_control_defined r))) [
      | inl skipped ↦ (r, g, h, if_true _ _ skipped, wr, wg, Keeps-refl h)
      | inr taken ↦
          let (b, r', g', h', e, wr', wg', kept) = set_defaults-runs g false r h wg wr in
          (
            r',
            g',
            h',
            if_false _ _ taken
                ∙ ap
                    (λ (o : Option (Bool × Routing × Routing × Heap)).
                      o >>= λ (x : Bool × Routing × Routing × Heap). some (x.1, x.2, x.3))
                    e,
            wr',
            wg',
            kept,
          )
    ]

set_all_defaults-runs :
    (specified : Bool) (g : Routing) (rs : List Routing) (h : Heap)
    → IsWellFormed g h
    → All (λ r. IsWellFormed r h) rs
    → (rs' : List Routing) × (g' : Routing) × (h' : Heap) × (set_all_defaults specified g rs h
        ≡ some (rs', g', h'))
      × All (λ r. IsWellFormed r h') rs'
      × IsWellFormed g' h'
      × Keeps h h'
      × (length rs' ≡ length rs)
unfolding set_all_defaults
set_all_defaults-runs specified g [] h wg ws = ([], g, h, refl, ws, wg, Keeps-refl h, refl)
set_all_defaults-runs specified g (r ∷ rs) h wg (wr, ws) =
    let (r', g', h', e, wr', wg', kept) = set_chain_defaults-runs specified g r h wg wr in
    let (rs'', g'', h'', e', ws'', wg'', kept', same) =
      set_all_defaults-runs specified g' rs h' wg'
        (All-map (λ x w. IsWellFormed-kept x h h' kept w) rs ws) in
    (
      r' ∷ rs'',
      g'',
      h'',
      rw (e, set_all_defaults, e') refl,
      (IsWellFormed-kept r' h' h'' kept' wr', ws''),
      wg'',
      Keeps-trans h h' h'' kept kept',
      ap suc same,
    )

-- Setting the defaults of a configuration never panics: where the pointers that are set lead into
-- the heap and every initialized routing configuration has both of its pointers, setDefaults of the
-- whole configuration returns, and its result is again of this kind and has as many chains.
pub set_config_defaults_total :
    (g : Routing) (rs : List Routing) (h : Heap)
    → IsWellFormed g h
    → All (λ r. IsWellFormed r h) rs
    → (rs' : List Routing) × (g' : Routing) × (h' : Heap) × (set_config_defaults g rs h
        ≡ some (rs', g', h'))
      × All (λ r. IsWellFormed r h') rs'
      × IsWellFormed g' h'
      × (length rs' ≡ length rs)
unfolding set_config_defaults
set_config_defaults_total g rs h wg ws =
    let (b, g', h', e, wg', kept) = set_defaults_alone-runs false g h wg in
    let (rs'', g'', h'', e', ws'', wg'', kept', same) =
      set_all_defaults-runs b g' rs h' wg'
        (All-map (λ x w. IsWellFormed-kept x h h' kept w) rs ws) in
    (
      rs'',
      g'',
      h'',
      ap
            (λ (o : Option (Bool × Routing × Heap)).
              o >>= λ (x : Bool × Routing × Heap). set_all_defaults x.0 x.1 rs x.2)
            e
          ∙ e',
      ws'',
      wg'',
      same,
    )
