-- ===== src/Select.antt =====
-- select/src: a reactor over select(2) and a thread pool.
pub mod Reactor
pub mod ThreadPool
pub mod ReadUntil
pub mod AsyncFileDescriptor
pub mod Session
