-- ===== src/Utils.antt =====
-- Helpers of include/tzzero/utils and src/utils, without the buffer.
pub mod Logger
pub mod MemoryPool
pub mod ThreadPool
