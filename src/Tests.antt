-- ===== src/Tests.antt =====
-- Runs of the code on concrete inputs, and the theorems at concrete inputs.
pub mod Frames
pub mod Requests
pub mod Connections
pub mod Registers
pub mod Handlers
pub mod Groups
pub mod Managers
pub mod Enhanced
pub mod Texts
pub mod Devices
pub mod Sessions
pub mod Closing
pub mod Servers
pub mod Pipelines
pub mod Pollers
pub mod Loggers
pub mod Collectors
