-- ===== src/Args.antt =====
-- mcp-server/src/args.rs: ranges of channels, their text, and the configuration.
pub mod Ranges
pub mod Config
pub mod Loading
pub mod Iter
pub mod Reading
pub mod Commas
