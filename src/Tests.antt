-- ===== src/Tests.antt =====
-- Concrete inputs: the theorems applied to them, and runs of the definitions.
pub mod Fixtures
mod Vectors
mod Scrapes
mod Clients
mod Exporters
pub mod Specs
mod Registries
mod Constructions
mod Selects
mod Dsns
mod Auths
mod Cmds
mod Yamls
