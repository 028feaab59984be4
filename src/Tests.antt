-- ===== src/Tests.antt =====
-- The code run on concrete values, and the theorems applied to them.
mod World
mod Tables
mod Rules
mod Calls
mod Attributes
mod Sequences
mod Mounts
mod Sorting
mod Groups
mod Threads
mod Arenas
mod InMemory
mod OptionLists
mod MapFiles
