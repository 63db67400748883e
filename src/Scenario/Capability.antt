-- ===== src/Scenario/Capability.antt =====
-- internal/scenario/capability: versions, descriptors, entities and the registry.
pub mod Version
pub mod Descriptor
pub mod Entity
pub mod Arguments
pub mod Registry
mod Tests
