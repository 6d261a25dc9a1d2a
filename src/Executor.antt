-- ===== src/Executor.antt =====
-- RbatisCacheInterceptor of src/rbatis_intercept.rs: the hooks before and after a statement.
pub mod Before
pub mod After
pub mod Types
pub mod FailOpen
pub mod Resolve
pub mod Deferred
pub mod Rollback
pub mod Modes
pub mod RoundTrip
pub mod Invalidate
pub mod Session
