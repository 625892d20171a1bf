-- ===== src/Cost.antt =====
-- waldur_core/cost_tracking: what resources have consumed, the estimates of their prices, and price lists.
pub mod Consumption
pub mod Estimates
pub mod Prices
pub mod Resources
