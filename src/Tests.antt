-- ===== src/Tests.antt =====
-- Concrete inputs: a broker in memory (Tests/Memory), and the theorems at runs on it.
pub mod Memory
pub mod Outstanding
mod Actions
mod Plans
mod Pauses
mod Tokens
mod Pages
mod Api
pub mod Batches
mod Watching
mod Entry
pub mod Shelf
mod Passes
mod Display
mod Replicas
mod Brokers
mod Stored
