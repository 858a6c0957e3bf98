-- ===== src/Tests.antt =====
-- The theorems at concrete inputs, and runs of the models.
pub mod Gateways
mod Floats
mod Vectors
pub mod Batchers
pub mod Scaling
pub mod Stores
pub mod Frontends
pub mod Assignments
pub mod Alignments
mod Workers
mod Factories
mod Servers
mod Pipelines
mod Registries
mod Runners
