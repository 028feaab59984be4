-- ===== src/Options.antt =====
-- The options of src/bindfs.c: their parsing, and what `main` makes of them.
pub mod Mirror
pub mod Maps
