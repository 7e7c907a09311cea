-- ===== src/Tests.antt =====
-- Runs of the development's theorems at concrete inputs, a module for each part of the program.
mod Fixtures
mod State
mod Needs
mod Protocol
mod Run
mod FinalQc
mod Retry
mod Host
mod Artifacts
mod Pages
mod Stores
mod Scopes
mod Research
mod Quotes
