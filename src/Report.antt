-- ===== src/Report.antt =====
-- thingsboard_gateway/gateway/report_strategy: which datapoints are passed on.
pub mod Cache
pub mod Service
pub mod Periodic
mod Examples
