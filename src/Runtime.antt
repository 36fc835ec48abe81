-- ===== src/Runtime.antt =====
-- src/runtime: the guest's registers, its memory and the dispatcher.
pub mod State
pub mod Memory
pub mod Dispatch
