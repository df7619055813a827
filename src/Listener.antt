-- ===== src/Listener.antt =====
-- alerter/src/subspace.rs, `Subspace`: the loop that follows the imported blocks, keeps the best
-- block and the header cache, and broadcasts what was enacted and retracted. The RPC node, the
-- header hash and sp_blockchain's `tree_route` are not in src/ and enter as arguments.
pub mod Actions
pub mod Route
pub mod Import
pub mod Sessions
pub mod Growth
pub mod Keeps
pub mod Termination
pub mod Broadcast
pub mod Delivery
pub mod Outcome
pub mod Reconnect
pub mod Tips
pub mod Progress
pub mod Order
pub mod Fixture
mod Tests
