-- ===== src/Metadata/Heights.antt =====
-- What the store of internal/metadata/store.go answers after any history of operations.
use node_gateway.Base.{
  ℕ, max, String, ◌≡◌, refl, List, [], ◌∷◌, Option, none, some, arith, lookup, value_or,
  lookup-insert, ◌==◌, string_eq, if◌then◌else◌, eq_iff,
}
use node_gateway.Errors.{Error}
use node_gateway.Metadata.Store.{
  ChainMetadataStore, BlockHeightStatus, Op, height_update, error_update, new_chain_metadata_store,
  get_block_height_status, run_op, run_ops,
}

-- The specification reads the history itself. The highest height reported for a group:
abbrev pub group_highest : String → List Op → ℕ
group_highest g [] = 0
group_highest g (height_update g' u h ∷ ops) = max (if g' == g then h else 0) (group_highest g ops)
group_highest g (error_update _ _ _ ∷ ops) = group_highest g ops

abbrev pub highest : List Op → ℕ
highest [] = 0
highest (height_update g u h ∷ ops) = max h (highest ops)
highest (error_update _ _ _ ∷ ops) = highest ops

abbrev or_else {ℓ} : {A : Type ℓ} → Option A → Option A → Option A
or_else none b = b
or_else (some a) b = some a

-- The last height reported for an upstream.
abbrev pub last_height : String → List Op → Option ℕ
last_height u [] = none
last_height u (height_update g u' h ∷ ops) =
    or_else (last_height u ops) (if u' == u then some h else none)
last_height u (error_update _ _ _ ∷ ops) = last_height u ops

-- The last outcome reported for an upstream: a height clears the error.
abbrev pub last_outcome : String → List Op → Option (Option Error)
last_outcome u [] = none
last_outcome u (height_update g u' h ∷ ops) =
    or_else (last_outcome u ops) (if u' == u then some none else none)
last_outcome u (error_update g u' e ∷ ops) =
    or_else (last_outcome u ops) (if u' == u then some e else none)

global-run_ops :
    (ops : List Op) (c : ChainMetadataStore)
    → (run_ops ops c).global_max_height ≡ max c.global_max_height (highest ops)
unfolding run_ops
global-run_ops [] c = omega arith
global-run_ops (height_update g u h ∷ ops) c =
    omega (arith, global-run_ops ops (run_op (height_update g u h) c))
global-run_ops (error_update g u e ∷ ops) c = global-run_ops ops (run_op (error_update g u e) c)

abbrev group_max : String → ChainMetadataStore → ℕ
group_max g c = value_or 0 (lookup g c.max_height_by_group_id)

group_max-run_op :
    (g g' u : String) (h : ℕ) (c : ChainMetadataStore)
    → group_max g (run_op (height_update g' u h) c) ≡ max (group_max g c) (if g' == g then h else 0)
unfolding run_op
group_max-run_op g g' u h c =
    ground
      (arith, lookup-insert g' g (max (group_max g' c) h) c.max_height_by_group_id, eq_iff g' g)

group-run_ops :
    (g : String) (ops : List Op) (c : ChainMetadataStore)
    → group_max g (run_ops ops c) ≡ max (group_max g c) (group_highest g ops)
unfolding run_ops
group-run_ops g [] c = omega arith
group-run_ops g (height_update g' u h ∷ ops) c =
    omega
      (arith, group-run_ops g ops (run_op (height_update g' u h) c), group_max-run_op g g' u h c)
group-run_ops g (error_update g' u e ∷ ops) c = group-run_ops g ops (run_op (error_update g' u e) c)

module _ (u : String) where
  height-run_ops :
      (ops : List Op) (c : ChainMetadataStore)
      → lookup u (run_ops ops c).height_by_upstream_id
        ≡ or_else (last_height u ops) (lookup u c.height_by_upstream_id)
  unfolding run_ops
  height-run_ops [] c = refl
  height-run_ops (height_update g' u' h ∷ ops) c = ground (
    arith,
    height-run_ops ops (run_op (height_update g' u' h) c),
    lookup-insert u' u h c.height_by_upstream_id,
  )
  height-run_ops (error_update g' u' e ∷ ops) c =
      height-run_ops ops (run_op (error_update g' u' e) c)

  error-run_ops :
      (ops : List Op) (c : ChainMetadataStore)
      → lookup u (run_ops ops c).error_by_upstream_id
        ≡ or_else (last_outcome u ops) (lookup u c.error_by_upstream_id)
  unfolding run_ops
  error-run_ops [] c = refl
  error-run_ops (height_update g' u' h ∷ ops) c = ground (
    arith,
    error-run_ops ops (run_op (height_update g' u' h) c),
    lookup-insert {V = Option Error} u' u none c.error_by_upstream_id,
  )
  error-run_ops (error_update g' u' e ∷ ops) c = ground (
    arith,
    error-run_ops ops (run_op (error_update g' u' e) c),
    lookup-insert u' u e c.error_by_upstream_id,
  )

-- The status that the history calls for.
abbrev pub status_of_history : String → String → List Op → BlockHeightStatus
status_of_history g u ops = record {
  error = value_or none (last_outcome u ops);
  group_id = g;
  upstream_id = u;
  block_height = value_or 0 (last_height u ops);
  group_max_block_height = group_highest g ops;
  global_max_block_height = highest ops;
}

-- After any history the store answers with the last height and the last outcome that were reported
-- for the upstream, the highest height ever reported for the group, and the highest of all.
pub get_block_height_status-run_ops :
    (g u : String) (ops : List Op)
    → get_block_height_status g u (run_ops ops new_chain_metadata_store) ≡ status_of_history g u ops
unfolding get_block_height_status new_chain_metadata_store lookup
get_block_height_status-run_ops g u ops = ground (
  arith,
  global-run_ops ops new_chain_metadata_store,
  group-run_ops g ops new_chain_metadata_store,
  height-run_ops u ops new_chain_metadata_store,
  error-run_ops u ops new_chain_metadata_store,
)
