-- ===== src/Commands.antt =====
-- The `Commands` class of commands.cpp: who may run which command, and what the commands do.
pub mod Table
pub mod Caller
pub mod Speech
pub mod Rights
pub mod Moves
pub mod Addresses
pub mod Settings
pub mod Exec
pub mod Access
pub mod Fuel
pub mod Kept
pub mod Ranks
pub mod Reach
