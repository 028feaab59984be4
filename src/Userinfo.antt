-- ===== src/Userinfo.antt =====
-- src/userinfo.c: users and groups by name, and the cache of both.
pub mod Threads
pub mod Names
pub mod Rounds
pub mod Cache
pub mod Spec
pub mod Rebuild
pub mod Answers
pub mod Sorted
pub mod Searches
pub mod Complete
pub mod InMemory
