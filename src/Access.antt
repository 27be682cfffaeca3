-- ===== src/Access.antt =====
-- nginx-dmmr-module-c/: the access handler with its phases, and the module's configuration.
pub mod Types
pub mod Router
pub mod Best
pub mod Upstream
pub mod Credential
pub mod Cache
pub mod Auth
pub mod Handler
pub mod Strip
pub mod Stream
pub mod Fallback
pub mod Admission
pub mod Served
pub mod Merge
pub mod Connect
pub mod Directives
pub mod Limits
mod Tests
