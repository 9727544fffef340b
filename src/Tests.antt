-- ===== src/Tests.antt =====
-- Runs of the models and uses of the theorems at concrete objects, blocks and maps.
mod Locked
mod LockFree
mod Snapshots
mod Compressed
mod Spinning
mod Sections
mod OpenSections
mod Transactions
mod Isolated
