-- ===== src/Metadata/Bounds.antt =====
-- The order between the heights that internal/metadata/store.go answers.
use node_gateway.Base.{◌≤◌, String, ◌≡◌, List, [], ◌∷◌, arith, value_or, All, eq_iff}
use node_gateway.Metadata.Store.{
  Op, height_update, error_update, new_chain_metadata_store, get_block_height_status, run_ops,
}
use node_gateway.Metadata.Heights.{
  group_highest, highest, last_height, get_block_height_status-run_ops,
}

-- An upstream reports its heights under its own group.
abbrev pub ReportsFor : String → String → Op → Type 0
ReportsFor g u (height_update g' u' h) = u' ≡ u → g' ≡ g
ReportsFor g u (error_update _ _ _) = Unit

group_highest-le : (g : String) (ops : List Op) → group_highest g ops ≤ highest ops
group_highest-le g [] = omega arith
group_highest-le g (height_update g' u h ∷ ops) = ground (arith, group_highest-le g ops)
group_highest-le g (error_update _ _ _ ∷ ops) = group_highest-le g ops

last_height-le :
    (g u : String) (ops : List Op)
    → All (ReportsFor g u) ops
    → value_or 0 (last_height u ops) ≤ group_highest g ops
last_height-le g u [] h = omega arith
last_height-le g u (height_update g' u' n ∷ ops) h =
    ground (arith, last_height-le g u ops h.1, eq_iff u' u, eq_iff g' g, h.0)
last_height-le g u (error_update _ _ _ ∷ ops) h = last_height-le g u ops h.1

-- Where an upstream reports its heights under one group only, its height is at most the maximum of
-- that group, which is at most the global maximum.
pub run_ops_bounds :
    (g u : String) (ops : List Op)
    → All (ReportsFor g u) ops
    → let s = get_block_height_status g u (run_ops ops new_chain_metadata_store) in
      (s.block_height ≤ s.group_max_block_height)
      × (s.group_max_block_height ≤ s.global_max_block_height)
run_ops_bounds g u ops h =
    rw (get_block_height_status-run_ops g u ops) (last_height-le g u ops h, group_highest-le g ops)
