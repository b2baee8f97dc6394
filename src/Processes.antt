-- ===== src/Processes.antt =====
-- The processes service: qjazz-processes/src/qjazz_processes.
pub mod Cache
pub mod JobRealm
pub mod Registry
pub mod Services
pub mod Jobs
pub mod Handlers
