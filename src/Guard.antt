-- ===== src/Guard.antt =====
-- The extension server of packages/fcc-extension/go/internal/extension, in child modules: the state
-- and messages, the two handlers, and the dispatch on an action.
pub mod State
pub mod Decryptor
pub mod Evaluate
pub mod Create
pub mod Dispatch
pub mod Trigger
pub mod Response
pub mod History
pub mod Outcome
pub mod Replay
pub mod Sound
pub mod Created
pub mod Counters
pub mod Ledger
pub mod Guarantees
mod Tests
