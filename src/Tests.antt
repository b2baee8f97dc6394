-- ===== src/Tests.antt =====
-- The theorems at concrete inputs, and runs of the definitions.
pub mod World
mod Cache
mod Rpc
mod CacheOps
mod Components
mod Processes
mod JobRealm
mod Jobs
mod JobLists
mod Execution
mod ListRedis
mod Worker
