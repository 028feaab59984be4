-- ===== src/Misc.antt =====
-- src/misc.c: helpers on texts and memory.
pub mod Paths
pub mod Texts
pub mod ByteCount
pub mod OptionLists
pub mod Memory
pub mod Argv
