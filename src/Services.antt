-- ===== src/Services.antt =====
-- The entry points of the services: services/polymarket/polymarket-orderbook-rust-pubsub/src/main.rs (Publisher)
-- and services/polymarket/polymarket-orderbook-rust-from-pubsub/src/main.rs (Writer). Signals, the logger, the
-- command line's parser and the log lines of the statistics are left out.
pub mod Publisher
pub mod Writer
pub mod Startup
pub mod Pipeline
mod Tests
