-- ===== src/Sync.antt =====
-- The coroutine synchronisation of acid/common/co_mutex.{h,cpp} and acid/common/channel.h.
pub mod Mutex
pub mod Cond
pub mod Channel
pub mod Counters
