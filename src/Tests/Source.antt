-- ===== src/Tests/Source.antt =====
-- The test functions of the source, as statements, and that they pass.
mod Channels
mod Messages
mod Args
mod Codecs
