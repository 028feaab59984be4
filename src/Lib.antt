-- ===== src/Lib.antt =====
-- bindfs mounts a directory a second time with other owners and permissions. This library models
-- the program over the native numbers and proves what makes it correct.
--
-- The parts and their files:
--   * Usermap: src/usermap.c, the tables that --map fills. The code for users and the code for groups
--     are one table here (Usermap/Arrays), with the growth of the arrays. Usermap/Laws has what an
--     addition does, Usermap/Inverse the pair of tables that src/bindfs.c fills with each id pair, and
--     Usermap/Cells the same for any ids.
--   * Permchain: src/permchain.c. Permchain/Rules has `struct permchain`, Permchain/Parse the parser
--     of permission rules, Permchain/Apply `permchain_apply`, and Permchain/Spec what rules mean, with
--     no bit operations. `Parse` loops on fuel, one round for each character and one more.
--   * Misc: src/misc.c. Misc/Paths has the functions on paths, Misc/Texts those that count in texts
--     and cut them, Misc/OptionLists `filter_o_opts` on lists of texts, Misc/Argv `dup_argv` on bytes
--     in memory, Misc/ByteCount `parse_byte_count`, and Misc/Memory the growth of arrays and of
--     `struct memory_block`, which doubles at most 65 times.
--   * Arena: src/arena.c, blocks of memory on a heap whose `malloc` is a parameter. Arena/Apart has
--     what it is for pieces of memory not to overlap.
--   * Userinfo: src/userinfo.c. Userinfo/Names has `user_uid` and `group_gid`, Userinfo/Cache the
--     cache behind `user_belongs_to_group`, and Userinfo/Spec what it promises. Fs/Mirrored puts it
--     under `is_mirrored_user`. Userinfo/InMemory has the cache with the offsets into the block of
--     memory that the code keeps, where Userinfo/Cache has names and ids. Userinfo/Threads has threads
--     that call `user_belongs_to_group` at the same time: a thread's step is one access to what is
--     shared, or one of the two rounds of `getpwent` and `getgrent`, and a list of events is one
--     interleaving of steps, of signals, and of databases that change with time.
--   * RateLimiter: src/rate_limiter.c over numbers that are parameters.
--   * Options: the parsers of src/bindfs.c for the values of --mirror (`parse_mirrored_users`, in
--     Options/Mirror) and of --map, --map-passwd and --map-group (`parse_user_map` and
--     `parse_map_file`, in Options/Maps). Their loops run on fuel, a round for each character at most.
--   * Startup: `main` of src/bindfs.c. Startup/Keys has `process_option`, Startup/Ids and
--     Startup/Modes the steps of `main` in the order of the source, and Startup/Mount `main` itself,
--     with the arguments and the callbacks that `fuse_main` is given, and `bindfs_init`. A step goes
--     on with the process, returns a status, or crashes. Startup/Sound has what all steps keep,
--     Startup/Ready and Startup/Owners what this means for the callbacks.
--   * Fs: the callbacks of src/bindfs.c. Fs/Settings has `struct Settings`; Fs/Common, Fs/Ids, Fs/Attr,
--     Fs/Create and Fs/Delete the functions that the callbacks share, under the names of the source:
--     `process_path`, `bounded_add`, `getattr_common`, `chown_new_file` and `delete_file`, with a
--     helper for each step of the longer ones. Fs/Ops has the callbacks, each under its own name, and
--     Fs/Requests the table of them, `bindfs_oper`, with whole sequences of requests.
--   * Base: lists, bits, texts, results and integers that the parts share. Mode: the mode word.
--     Tests: the code run on concrete values.
--
-- A callback is an action on the state of the operating system (Fs/Os): it ends with a value or with
-- the `errno` that it returns negated, and with the new state. The system calls are the fields of a
-- record `Os` over an unknown type of states; the rate limiters and the user cache are the record
-- `Peers`. Nothing is taken to hold of them but what a theorem says. `fuse_get_context` is the
-- argument `fc`, and the settings, which no callback changes, are an argument too. What `main` gets
-- from outside is the record `System`; libfuse's option parser is the sequence of the calls that it
-- makes of `process_option`, with the values and arguments that it leaves.
--
-- Bounds: ids, modes and flags are numbers; `~` has 32 bits (Base/Bits), `bounded_add` checks the
-- ranges of `int64_t` and of ids, and the comparisons of ids in src/userinfo.c are cut to 32 bits.
-- Sizes are taken not to overflow where no theorem says so, and memory to suffice.
--
-- Left out: the usage text, the umask, the installation of signal handlers and the clean-up at exit;
-- freeing of other memory; debug output; the code for other systems and for FUSE 2;
-- `bindfs_destroy`, `bindfs_fgetattr` and `bindfs_ftruncate`. Callbacks at the same time are not
-- modelled, but for what they share in src/userinfo.c, and nor are the states between two system calls
-- of one callback as others see them. The rounding of `double` is not modelled either.
pub mod Base
pub mod Usermap
pub mod Mode
pub mod Permchain
pub mod Misc
pub mod Arena
pub mod Userinfo
pub mod Options
pub mod Startup
pub mod RateLimiter
pub mod Fs
pub mod Tests
