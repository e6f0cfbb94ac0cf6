-- ===== src/Agent.antt =====
-- pkg/agent: what runs beside the services.
pub mod Predictor
pub mod Latency
