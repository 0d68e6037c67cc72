-- ===== src/Route/Filter/Asking.antt =====
-- How the view of the state changes as a filter of internal/route/node_filter.go asks the manager and
-- the checks: it does not.
use node_gateway.Base.{
  ℕ, String, ◌≡◌, refl, sym, ◌∙◌, ap, subst, fun_ext, Bool, true, not, List, [], ◌∷◌, Option, none,
  some, arith, lookup-insert, ◌==◌, string_eq, eq_iff, if_true, if_false, all, ◌>>=◌ as bind,
  Option-cases, Bool-cases, inl, inr,
}
use node_gateway.Checks.Breaker.{CircuitBreaker, ClosesForGood}
use node_gateway.Checks.ErrorCheck
use node_gateway.Checks.ErrorCheck.{ErrorCheck}
use node_gateway.Checks.LatencyCheck
use node_gateway.Checks.LatencyCheck.{LatencyCheck}
use node_gateway.Checks.LatencyCheck.Breakers.{open_in-loop, is_passing-all}
use node_gateway.Checks.Manager.{UpstreamStatus, get_upstream_status, set_upstream_status}
use node_gateway.Route.World.{World, M, ◌>>=◌}
use node_gateway.Route.Filter.{status_of}
use node_gateway.Route.Filter.View.{
  StatusView, View, status_view, known_view, view, banned_for_errors, banned_for_latency,
}

all-true : (methods : List String) → all (λ _. true) methods ≡ true
all-true [] = refl
all-true (m ∷ ms) = all-true ms

module _ {S : Type 0} ⦃b : CircuitBreaker S⦄ (now : ℕ) where
  -- The computation has the outcome, and the state that it leaves has the view.
  abbrev pub Yields : {A : Type 0} → View → Option (A × World S) → Option A → Type 0
  Yields v r none = r ≡ none
  Yields {A} v r (some a) = (w : World S) × (r ≡ some (a, w)) × (view now w ≡ v)

  pub Yields-bind :
      {A B : Type 0} (v : View) (m : M S A) (o : Option A) (f : A → M S B) (g : A → Option B)
      (w : World S)
      → Yields v (m w) o
      → ((a : A) (w' : World S) → view now w' ≡ v → Yields v (f a w') (g a))
      → Yields v ((m >>= f) w) (bind o g)
  Yields-bind v m none f g w e h = rw (e, ◌>>=◌)
  Yields-bind v m (some a) f g w (w', e, same) h = rw (e, ◌>>=◌) (h a w' same)

  pub view-path :
      (w w' : World S)
      → ((id : String)
          → known_view now (get_upstream_status id w'.manager)
            ≡ known_view now (get_upstream_status id w.manager))
      → w'.store ≡ w.store
      → w'.counter ≡ w.counter
      → view now w' ≡ view now w
  view-path w w' h e c = λ i. record { status = fun_ext h i; store = e i; counter = c i }

  -- To put a status that looks like the old one changes no view.
  pub put_status_view :
      (id : String) (s s' : UpstreamStatus S) (w : World S)
      → get_upstream_status id w.manager ≡ some s
      → status_view now s' ≡ status_view now s
      → view now (record w { manager = set_upstream_status id s' w.manager }) ≡ view now w
  unfolding get_upstream_status set_upstream_status
  put_status_view id s s' w found same =
      view-path w (record w { manager = set_upstream_status id s' w.manager }) at refl refl
    where
      at :
          (j : String)
          → known_view now (get_upstream_status j (set_upstream_status id s' w.manager))
            ≡ known_view now (get_upstream_status j w.manager)
      at j = elim (Bool-cases (id == j)) [
        | inl here ↦
            ap (known_view now)
              (lookup-insert id j s' w.manager.upstream_id_to_status ∙ if_true _ _ here)
            ∙ (ap {B = Option StatusView} some same
                ∙ sym (
                    ap (known_view now) (
                      subst (λ k. get_upstream_status k w.manager ≡ some s) ((eq_iff id j).0 here)
                        found)))
        | inr there ↦
            ap (known_view now)
              (lookup-insert id j s' w.manager.upstream_id_to_status ∙ if_false _ _ there)
      ]

  -- Asking the manager for a status answers as the view does.
  pub status_of-Yields :
      {B : Type 0} (v : View) (id : String) (f : UpstreamStatus S → M S B)
      (g : StatusView → Option B) (w : World S)
      → view now w ≡ v
      → ((s : UpstreamStatus S)
          → get_upstream_status id w.manager ≡ some s
          → Yields v (f s w) (g (status_view now s)))
      → Yields v ((status_of id >>= f) w) (bind (v.status id) g)
  unfolding status_of
  status_of-Yields v id f g w same h = elim (Option-cases (get_upstream_status id w.manager)) [
    | inl e ↦
        let unknown : v.status id ≡ none =
          ap (λ (x : View). x.status id) (sym same) ∙ ap (known_view now) e in
        rw unknown (rw (e, ◌>>=◌, status_of))
    | inr (s, e) ↦
        let known : v.status id ≡ some (status_view now s) =
          ap (λ (x : View). x.status id) (sym same) ∙ ap (known_view now) e in
        let stepped : (status_of id >>= f) w ≡ f s w = rw (e, ◌>>=◌, status_of) in
        subst (λ o. Yields v ((status_of id >>= f) w) (bind o g)) (sym known)
          (subst (λ r. Yields v r (g (status_view now s))) (sym stepped) (h s e))
  ]

  pub passing-error :
      (c : ErrorCheck S) → (ErrorCheck.is_passing now c).0 ≡ not (banned_for_errors now c)
  unfolding ErrorCheck.is_passing
  passing-error c = ground arith

  pub passing-latency :
      (closes : ClosesForGood b) (methods : List String) (c : LatencyCheck S)
      → (LatencyCheck.is_passing now methods c).0
        ≡ all (λ method. not (banned_for_latency now c method)) methods
  unfolding LatencyCheck.is_passing
  passing-latency closes methods c = elim (Bool-cases c.is_check_enabled) [
    | inl on ↦
        (is_passing-all closes now methods c on).0
        ∙ ap (λ (p : String → Bool). all p methods) (fun_ext (λ j. ap not (sym (if_true _ _ on))))
    | inr off ↦
        ap (λ (r : Bool × LatencyCheck S). r.0) (if_false _ _ off)
        ∙ (sym (all-true methods)
            ∙ ap (λ (p : String → Bool). all p methods)
                (fun_ext (λ j. ap not (sym (if_false _ _ off)))))
  ]

  module _ (closes : ClosesForGood b) where
    pub banned-error :
        (c : ErrorCheck S)
        → banned_for_errors now (ErrorCheck.is_passing now c).1 ≡ banned_for_errors now c
    unfolding ErrorCheck.is_passing
    banned-error c = ground (arith, closes now c.error_circuit_breaker)

    pub banned-latency :
        (methods : List String) (c : LatencyCheck S) (j : String)
        → banned_for_latency now (LatencyCheck.is_passing now methods c).1 j
          ≡ banned_for_latency now c j
    unfolding LatencyCheck.is_passing
    banned-latency methods c j =
        let banned = λ (r : Bool × LatencyCheck S). banned_for_latency now r.1 j in
        elim (Bool-cases c.is_check_enabled) [
          | inl on ↦
              ap banned (if_true _ _ on)
              ∙ (if_true _ _ on
                  ∙ (open_in-loop closes now j methods c.method_latency_breaker
                      ∙ sym (if_true _ _ on)))
          | inr off ↦ ap banned (if_false _ _ off)
        ]
