-- ===== src/Isolation.antt =====
-- The snapshots, the objects and the commits of the program together: what keeps the values that a
-- snapshot reads.
pub mod Placed
pub mod Laws
pub mod Pairs
pub mod Tracking
pub mod Cleaning
pub mod Retire
pub mod Members
pub mod Remove
pub mod Register
pub mod Restart
pub mod Answers
pub mod Outcomes
pub mod Commit
pub mod Finished
pub mod Transactions
pub mod Worlds
pub mod Steps
pub mod Locked
pub mod Start
