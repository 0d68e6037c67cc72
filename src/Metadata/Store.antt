-- ===== src/Metadata/Store.antt =====
-- internal/metadata/store.go. The goroutine of `Start` runs the operations that arrive on
-- `opChannel` one at a time: a history is the list of operations in their order of arrival.
use node_gateway.Base.{ℕ, max, String, List, [], ◌∷◌, Option, none, Map, lookup, insert, value_or}
use node_gateway.Errors.{Error}

pub record BlockHeightStatus : Type 0 where
  pub error : Option Error
  pub group_id : String
  pub upstream_id : String
  pub block_height : ℕ
  pub group_max_block_height : ℕ
  pub global_max_block_height : ℕ

pub record ChainMetadataStore : Type 0 where
  pub max_height_by_group_id : Map ℕ
  pub height_by_upstream_id : Map ℕ
  pub error_by_upstream_id : Map (Option Error)
  pub global_max_height : ℕ

unfoldable pub new_chain_metadata_store : ChainMetadataStore
new_chain_metadata_store = record {
  max_height_by_group_id = [];
  height_by_upstream_id = [];
  error_by_upstream_id = [];
  global_max_height = 0;
}

unfoldable pub update_height_for_group : String → ℕ → ChainMetadataStore → ChainMetadataStore
update_height_for_group group_id height c =
    let old = value_or 0 (lookup group_id c.max_height_by_group_id) in
    record c { max_height_by_group_id = insert group_id (max old height) c.max_height_by_group_id }

unfoldable pub update_height_for_upstream : String → ℕ → ChainMetadataStore → ChainMetadataStore
update_height_for_upstream upstream_id height c = record c {
  height_by_upstream_id = insert upstream_id height c.height_by_upstream_id;
}

unfoldable pub update_error_for_upstream :
    String → Option Error → ChainMetadataStore → ChainMetadataStore
update_error_for_upstream upstream_id err c = record c {
  error_by_upstream_id = insert upstream_id err c.error_by_upstream_id;
}

unfoldable pub get_block_height_status : String → String → ChainMetadataStore → BlockHeightStatus
get_block_height_status group_id upstream_id c = record {
  error = value_or none (lookup upstream_id c.error_by_upstream_id);
  group_id = group_id;
  upstream_id = upstream_id;
  block_height = value_or 0 (lookup upstream_id c.height_by_upstream_id);
  group_max_block_height = value_or 0 (lookup group_id c.max_height_by_group_id);
  global_max_block_height = c.global_max_height;
}

unfoldable pub process_block_height_update :
    String → String → ℕ → ChainMetadataStore → ChainMetadataStore
unfolding update_height_for_group update_height_for_upstream update_error_for_upstream
process_block_height_update group_id upstream_id height c =
    let c1 : ChainMetadataStore = record c { global_max_height = max c.global_max_height height } in
    let c2 = update_height_for_group group_id height c1 in
    let c3 = update_height_for_upstream upstream_id height c2 in
    update_error_for_upstream upstream_id none c3

unfoldable pub process_error_update :
    String → String → Option Error → ChainMetadataStore → ChainMetadataStore
unfolding update_error_for_upstream
process_error_update _ upstream_id err c = update_error_for_upstream upstream_id err c

-- The operations that change the store.
pub data Op : Type 0 where
  height_update : (group_id upstream_id : String) (height : ℕ) → Op
  error_update : (group_id upstream_id : String) (err : Option Error) → Op

unfoldable pub run_op : Op → ChainMetadataStore → ChainMetadataStore
unfolding process_block_height_update process_error_update
run_op (height_update g u h) c = process_block_height_update g u h c
run_op (error_update g u e) c = process_error_update g u e c

-- `for op := range c.opChannel { op() }`
unfoldable pub run_ops : List Op → ChainMetadataStore → ChainMetadataStore
unfolding run_op
run_ops [] c = c
run_ops (op ∷ ops) c = run_ops ops (run_op op c)
