-- ===== src/Route.antt =====
-- internal/route: which upstream a request goes to.
pub mod World
pub mod Filter
pub mod Filtering
pub mod AlwaysRoute
pub mod RoundRobin
pub mod Executor
pub mod Upstream
pub mod Router
