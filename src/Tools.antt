-- ===== src/Tools.antt =====
-- crates/folk-computer-use/src/lib.rs: the tools that act on the host. Each child models a group of
-- handlers; `Registry` registers them, and `Gate` proves what the access modes allow.
pub mod Host
pub mod Args
pub mod Shell
pub mod Capture
pub mod Desktop
pub mod Windows
pub mod Schemas
pub mod Registry
pub mod Registered
pub mod Gate
pub mod Advertised
pub mod Required
pub mod Captures
