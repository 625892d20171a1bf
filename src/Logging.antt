-- ===== src/Logging.antt =====
-- waldur_core/logging: alerts, and the hooks that receive events.
pub mod Alerts
pub mod Hooks
