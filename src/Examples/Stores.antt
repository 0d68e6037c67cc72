-- ===== src/Examples/Stores.antt =====
-- Tests of internal/metadata/store.go.
use mathlib.Core.Bool.{true≢false}
use node_gateway.Base.{
  ◌≤◌, ◌≡◌, ◌≢◌, String, arith, refl, sym, eq_iff, lookup, insert, List, [], ◌∷◌, some,
}
use node_gateway.Errors.{plain}
use node_gateway.Metadata.Store.{
  Op, height_update, error_update, new_chain_metadata_store, get_block_height_status, run_ops,
}
use node_gateway.Metadata.Heights.{status_of_history, get_block_height_status-run_ops}
use node_gateway.Metadata.Bounds.{run_ops_bounds}
use node_gateway.Metadata.Interleaving.{sent_by, run_ops_interleaved}

abbrev history : List Op
history =
    height_update "main" "geth" 10
    ∷ height_update "main" "erigon" 12
    ∷ error_update "main" "geth" (some (plain "timeout"))
    ∷ height_update "main" "geth" 9
    ∷ []

-- The height of an upstream may fall, the maxima do not.
geth_status :
    (get_block_height_status "main" "geth" (run_ops history new_chain_metadata_store)).block_height
    ≡ 9
unfolding get_block_height_status run_ops new_chain_metadata_store lookup insert
geth_status = refl

get_block_height_status-run_ops_example :
    get_block_height_status "main" "geth" (run_ops history new_chain_metadata_store)
    ≡ status_of_history "main" "geth" history
get_block_height_status-run_ops_example = get_block_height_status-run_ops "main" "geth" history

run_ops_bounds_example :
    let s = get_block_height_status "main" "geth" (run_ops history new_chain_metadata_store) in
    (s.block_height ≤ s.group_max_block_height)
    × (s.group_max_block_height ≤ s.global_max_block_height)
run_ops_bounds_example =
    run_ops_bounds "main" "geth" history (λ _. refl, (λ _. refl, (tt, (λ _. refl, tt))))

-- The same operations, those of the other client first.
abbrev later_history : List Op
later_history =
    height_update "main" "erigon" 12
    ∷ height_update "main" "geth" 10
    ∷ error_update "main" "geth" (some (plain "timeout"))
    ∷ height_update "main" "geth" 9
    ∷ []

same_senders : (v : String) → sent_by v history ≡ sent_by v later_history
same_senders v = ground (arith, eq_iff "geth" v, eq_iff "erigon" v, geth_is_not_erigon)
  where
    geth_is_not_erigon : ◌≢◌ {A = String} "geth" "erigon"
    geth_is_not_erigon e = true≢false (sym ((eq_iff "geth" "erigon").1 e))

run_ops_interleaved_example :
    get_block_height_status "main" "geth" (run_ops history new_chain_metadata_store)
    ≡ get_block_height_status "main" "geth" (run_ops later_history new_chain_metadata_store)
run_ops_interleaved_example = run_ops_interleaved "main" "geth" history later_history same_senders
