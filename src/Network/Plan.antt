-- ===== src/Network/Plan.antt =====
-- internal/networkpolicy/change_plan.go: the plan of a network change.
pub mod Types
pub mod Build
unfoldable pub use Types.*
unfoldable pub use Build.*
