-- ===== src/Network/Machine.antt =====
-- internal/networkpolicy/change_machine.go: the machine that takes a network change through its
-- phases. A method of `*ChangeMachine` runs under its mutex and returns the new machine.
pub mod Types
pub mod Apply
unfoldable pub use Types.*
unfoldable pub use Apply.*
