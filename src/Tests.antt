-- ===== src/Tests.antt =====
-- Runs at fixed inputs, and the theorems at inputs that meet their hypotheses.
mod Local
mod Fixtures
mod Backends
mod Keys
mod Flow
mod Hooks
mod Contracts
mod Configs
mod Servers
mod Clients
