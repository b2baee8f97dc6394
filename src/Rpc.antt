-- ===== src/Rpc.antt =====
-- The QGIS server worker: qjazz-server/qjazz-rpc/python/qjazz_rpc.
pub mod Session
pub mod Requests
pub mod CacheOps
pub mod CacheViews
pub mod Worker
