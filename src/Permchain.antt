-- ===== src/Permchain.antt =====
-- src/permchain.c: chains of permission rules, as the options --perms, --create-with-perms and
-- --chmod-filter give them. `Rules` has the data, `Parse` reads a specification, `Apply` changes a
-- mode. A chain is the list of its nodes; `next` is the list's order.
pub mod Rules
pub mod Parse
pub mod Apply
pub mod Spec
