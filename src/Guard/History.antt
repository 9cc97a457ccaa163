-- ===== src/Guard/History.antt =====
-- The policies in memory through one evaluation, one action, and sequences of actions.
pub mod Evolves
pub mod Memory
pub mod Actions
