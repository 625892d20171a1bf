-- ===== src/Core.antt =====
-- waldur_core/core: states of resources, tasks, executors, penalties of background tasks, ancestors,
-- tokens and logins, summaries of querysets, and utilities.
pub mod Utils
pub mod State
pub mod Tasks
pub mod Executors
pub mod Penalty
pub mod Ancestors
pub mod Tokens
pub mod Summary
pub mod Login
