-- ===== src/Startup/Owners.antt =====
-- `main` and `bindfs_chown` of src/bindfs.c together: an owner as shown leads back to the owner
-- below under every --map that `main` accepts.
use bindfs.Fs.Settings.{Settings}
use bindfs.Fs.Os.{Os}
