-- ===== src/Metadata/Interleaving.antt =====
-- Operations of internal/metadata/store.go that come from the checks of different upstreams reach
-- `opChannel` in any order.
use node_gateway.Base.{
  All, ◌∙◌, ℕ, max, ◌≤◌, String, ◌≡◌, refl, sym, ap, subst, ◌≢◌, inl, inr, List, [], ◌∷◌, ◌++◌,
  arith, eq_iff, ◌==◌, string_eq, if◌then◌else◌, Bool-cases, In,
}
use node_gateway.Metadata.Store.{
  Op, height_update, error_update, new_chain_metadata_store, get_block_height_status, run_ops,
}
use node_gateway.Metadata.Heights.{
  group_highest, highest, last_height, last_outcome, get_block_height_status-run_ops,
}

abbrev pub upstream : Op → String
upstream (height_update g u h) = u
upstream (error_update g u e) = u

-- What the check of one upstream sent, in its order.
abbrev pub sent_by : String → List Op → List Op
sent_by u [] = []
sent_by u (a ∷ ops) = if upstream a == u then a ∷ sent_by u ops else sent_by u ops

pub sent_by-append :
    (v : String) (xs ys : List Op) → sent_by v (xs ++ ys) ≡ sent_by v xs ++ sent_by v ys
sent_by-append v [] ys = refl
sent_by-append v (a ∷ xs) ys = elim (Bool-cases (upstream a == v)) [
  | inl own ↦ rw own (ap (λ l. a ∷ l) (sent_by-append v xs ys))
  | inr other ↦ rw other (sent_by-append v xs ys)
]

pub sent_by-All :
    (u v : String) (ops : List Op)
    → All (λ a. upstream a ≡ u) ops
    → sent_by v ops ≡ (if u == v then ops else [])
sent_by-All u v [] h = ground arith
sent_by-All u v (a ∷ ops) (e, h) = elim (Bool-cases (u == v)) [
  | inl own ↦ rw (e, own) (ap (λ l. a ∷ l) (sent_by-All u v ops h ∙ rw own refl))
  | inr other ↦ rw (e, other) (sent_by-All u v ops h ∙ rw other refl)
]

-- The last height and the last outcome of an upstream depend on what it sent.
last_height-sent_by :
    (u : String) (ops : List Op) → last_height u (sent_by u ops) ≡ last_height u ops
last_height-sent_by u [] = refl
last_height-sent_by u (height_update g v h ∷ ops) = ground (arith, last_height-sent_by u ops)
last_height-sent_by u (error_update g v e ∷ ops) = ground (arith, last_height-sent_by u ops)

last_outcome-sent_by :
    (u : String) (ops : List Op) → last_outcome u (sent_by u ops) ≡ last_outcome u ops
last_outcome-sent_by u [] = refl
last_outcome-sent_by u (height_update g v h ∷ ops) = ground (arith, last_outcome-sent_by u ops)
last_outcome-sent_by u (error_update g v e ∷ ops) = ground (arith, last_outcome-sent_by u ops)

In-sent_by : (a : Op) (ops : List Op) → In a ops → In a (sent_by (upstream a) ops)
In-sent_by a (b ∷ ops) (inl e) = rw (← e, (eq_iff (upstream a) (upstream a)).1 refl) (inl refl)
In-sent_by a (b ∷ ops) (inr m) = elim (Bool-cases (upstream b == upstream a)) [
  | inl own ↦ rw own (inr (In-sent_by a ops m))
  | inr other ↦ rw other (In-sent_by a ops m)
]
In-sent_by a [] m = absurd m

sent_by-In : (u : String) (a : Op) (ops : List Op) → In a (sent_by u ops) → In a ops
sent_by-In u a [] m = absurd m
sent_by-In u a (b ∷ ops) m = elim (Bool-cases (upstream b == u)) [
  | inl own ↦ elim (rw own at m) [ inl e ↦ inl e | inr n ↦ inr (sent_by-In u a ops n) ]
  | inr other ↦ inr (sent_by-In u a ops (rw other at m))
]

-- The maxima are those of a weight of each operation, and depend on which operations there are.
abbrev top : (Op → ℕ) → List Op → ℕ
top weight [] = 0
top weight (a ∷ ops) = max (weight a) (top weight ops)

module _ (weight : Op → ℕ) where
  In-top : (a : Op) (ops : List Op) → In a ops → weight a ≤ top weight ops
  In-top a (b ∷ ops) (inl e) = omega (arith, ap weight e)
  In-top a (b ∷ ops) (inr m) = omega (arith, In-top a ops m)
  In-top a [] m = absurd m

  top-le : (n : ℕ) (ops : List Op) → ((a : Op) → In a ops → weight a ≤ n) → top weight ops ≤ n
  top-le n [] all = omega arith
  top-le n (a ∷ ops) all = omega (arith, all a (inl refl), top-le n ops (λ b m. all b (inr m)))

  top-sent_by :
      (xs ys : List Op)
      → ((v : String) → sent_by v xs ≡ sent_by v ys)
      → top weight xs ≤ top weight ys
  top-sent_by xs ys same = top-le (top weight ys) xs (λ a m.
      In-top a ys
        (sent_by-In (upstream a) a ys (subst (In a) (same (upstream a)) (In-sent_by a xs m))))

abbrev height_of : Op → ℕ
height_of (height_update g u h) = h
height_of (error_update g u e) = 0

abbrev group_height : String → Op → ℕ
group_height g (height_update g' u h) = if g' == g then h else 0
group_height g (error_update g' u e) = 0

highest-top : (ops : List Op) → highest ops ≡ top height_of ops
highest-top [] = refl
highest-top (height_update g u h ∷ ops) = ap (max h) (highest-top ops)
highest-top (error_update g u e ∷ ops) = omega (arith, highest-top ops)

group_highest-top : (g : String) (ops : List Op) → group_highest g ops ≡ top (group_height g) ops
group_highest-top g [] = refl
group_highest-top g (height_update g' u h ∷ ops) = ap (max _) (group_highest-top g ops)
group_highest-top g (error_update g' u e ∷ ops) = omega (arith, group_highest-top g ops)

-- Two histories in which every upstream sent the same operations in the same order, interleaved with
-- those of the others in any way, lead to the same answer to every later question.
pub run_ops_interleaved :
    (g u : String) (xs ys : List Op)
    → ((v : String) → sent_by v xs ≡ sent_by v ys)
    → get_block_height_status g u (run_ops xs new_chain_metadata_store)
      ≡ get_block_height_status g u (run_ops ys new_chain_metadata_store)
run_ops_interleaved g u xs ys same =
    rw
      (
        get_block_height_status-run_ops g u xs,
        get_block_height_status-run_ops g u ys,
        highest-top xs,
        highest-top ys,
        group_highest-top g xs,
        group_highest-top g ys,
        top_same height_of,
        top_same (group_height g),
        ← last_height-sent_by u xs,
        ← last_height-sent_by u ys,
        ← last_outcome-sent_by u xs,
        ← last_outcome-sent_by u ys,
        same u,
      )
      refl
  where
    top_same : (w : Op → ℕ) → top w xs ≡ top w ys
    top_same w = omega (arith, top-sent_by w xs ys same, top-sent_by w ys xs (λ v. sym (same v)))

-- Two operations of different upstreams may arrive in either order.
sent_by_swap :
    (v : String) (a b : Op) (ys xs : List Op)
    → upstream a ≢ upstream b
    → sent_by v (xs ++ a ∷ b ∷ ys) ≡ sent_by v (xs ++ b ∷ a ∷ ys)
sent_by_swap v a b ys [] apart = ground (arith, eq_iff (upstream a) v, eq_iff (upstream b) v)
sent_by_swap v a b ys (x ∷ xs) apart = rw (sent_by_swap v a b ys xs apart) refl

run_ops_swap :
    (g u : String) (xs : List Op) (a b : Op) (ys : List Op)
    → upstream a ≢ upstream b
    → get_block_height_status g u (run_ops (xs ++ a ∷ b ∷ ys) new_chain_metadata_store)
      ≡ get_block_height_status g u (run_ops (xs ++ b ∷ a ∷ ys) new_chain_metadata_store)
run_ops_swap g u xs a b ys apart = run_ops_interleaved g u _ _ (λ v. sent_by_swap v a b ys xs apart)
