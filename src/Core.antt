-- ===== src/Core.antt =====
-- The event loop and what it stands on: src/core and include/tzzero/core.
pub mod EpollPoller
pub mod EventLoop
pub mod TimerQueue
