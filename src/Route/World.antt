-- ===== src/Route/World.antt =====
-- The state that routing reads and changes: the checks of internal/checks/manager.go, the heights of
-- internal/metadata/store.go and the counter of internal/route/routing_strategy.go.
use node_gateway.Base.{ℕ, ℤ, List, Option, none, some}
use node_gateway.Config.{UpstreamConfig}
use node_gateway.Metadata.Store.{ChainMetadataStore}
use node_gateway.Checks.Manager.{HealthCheckManager}

-- internal/types/types.go. Each priority stands once.
abbrev pub PriorityToUpstreamsMap : Type 0
PriorityToUpstreamsMap = List (ℤ × List UpstreamConfig)

pub record World (S : Type 0) : Type 0 where
  pub manager : HealthCheckManager S
  pub store : ChainMetadataStore
  pub counter : ℕ

-- A computation over the state; `none` is a panic.
abbrev pub M : Type 0 → Type 0 → Type 0
M S A = World S → Option (A × World S)

infixl 5 ◌>>=◌
abbrev pub ◌>>=◌ : {S A B : Type 0} → M S A → (A → M S B) → M S B
◌>>=◌ m f w = elim (m w) [ none ↦ none | some (a, w') ↦ f a w' ]

abbrev pub return : {S A : Type 0} → A → M S A
return a w = some (a, w)
