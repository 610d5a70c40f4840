-- ===== src/Tests.antt =====
-- Runs on concrete inputs.
mod Codecs
mod Channels
mod Args
mod Errors
mod Auth
mod FakeDlive
mod Client
mod Handler
mod Notify
mod System
mod Levels
mod Source
mod Confined
mod Server
mod Desks
mod Scraped
mod Duplex
mod Whole
