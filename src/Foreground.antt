-- ===== src/Foreground.antt =====
-- services/foreground/: who is in the foreground, and the package behind a uid.
pub mod Cache
pub mod Source
pub mod Manager
pub mod Auto
pub mod Resolver
pub mod CgroupV2
pub mod CgroupV1
pub mod Layouts
mod Examples
