-- ===== src/Quotas.antt =====
-- waldur_core/quotas: limits and usages of scopes, counters, aggregators, sums, and the quotas of
-- new objects.
pub mod Table
pub mod Counters
pub mod Aggregators
pub mod Sums
pub mod Creation
