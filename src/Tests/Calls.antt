-- ===== src/Tests/Calls.antt =====
-- Callbacks that change the source directory, on the file system of Tests/World.
use bindfs.Base.{[], ◌∷◌, suc, ◌==◌, ◌≡◌, refl, some, Option, true, false, arith, if◌then◌else◌}
use bindfs.Base.Bits.{bit}
use bindfs.Base.Int.{neg}
use bindfs.Base.Errors.{ok, err, eperm}
use bindfs.Base.Text.{Bytes, codes}
use bindfs.Misc.Paths.{my_dirname}
use bindfs.Usermap.{usermap_create}
use bindfs.Usermap.Arrays.{no_id, table_get, scan}
use bindfs.Fs.Settings.{Settings, chown_ignore}
use bindfs.Fs.Settings.{chmod_ignore, chmod_deny}
use bindfs.Fs.Os.{Os}
use bindfs.Fs.Ids.{shift_id}
use bindfs.Fs.Keeps.{Keeps}
use bindfs.Fs.Common.{process_path}
use bindfs.Fs.Create.{chown_new_file, call_chown}
use bindfs.Fs.Ops.Owners.{bindfs_chmod, bindfs_chown, exec_changed, mode_diff}
use bindfs.Fs.Ops.Owners.Chmod.{is_x, same_but_exec, chmod_ignore_lem, chmod_deny_lem}
use bindfs.Fs.Ops.Owners.Chown.{chown-Keeps}
use bindfs.Tests.World.{world, peers, plain, caller, stat_of, resolve}

abbrev file : Option Bytes
file = some (codes "/file")

abbrev link : Option Bytes
link = some (codes "/link")

-- Links.

abbrev resolving : Settings
resolving = record plain { resolve_symlinks = true }

found_link : process_path world peers resolving link false 0 ≡ (ok (codes "link"), 0)
unfolding process_path
found_link = refl

found_broken :
    process_path world peers resolving (some (codes "broken")) false 0 ≡ (ok (codes "broken"), 0)
unfolding process_path
found_broken = refl

-- chmod and chown.

found_file : process_path world peers plain file true 0 ≡ (ok (codes "file"), 0)
unfolding process_path
found_file = refl

abbrev exec_only : Settings
exec_only = record plain { chmod_allow_x = true; chmod_policy = chmod_deny }

found_exec : process_path world peers exec_only file true 0 ≡ (ok (codes "file"), 0)
unfolding process_path
found_exec = refl

-- The file has the mode 0640.
chmod_deny_lem_example :
    bindfs_chmod world peers exec_only file 0o751 0
    ≡ (if same_but_exec 0o100640 0o751 then (ok tt, 1) else (err eperm, 0))
chmod_deny_lem_example =
    chmod_deny_lem world peers exec_only file 0o751 0 0 0 {st = stat_of 0o100640} found_exec refl
      refl refl refl

abbrev exec_kept : Settings
exec_kept = record plain { chmod_allow_x = true; chmod_policy = chmod_ignore }

found_kept : process_path world peers exec_kept file true 0 ≡ (ok (codes "file"), 0)
unfolding process_path
found_kept = refl

chmod_ignore_lem_example :
    let m = exec_changed 0o100640 (mode_diff 0o100640 0o777) in
    (bindfs_chmod world peers exec_kept file 0o777 0 ≡ (ok tt, 1))
    × (bit m 0 ≡ (if is_x 0 then bit 0o777 0 else bit 0o100640 0))
chmod_ignore_lem_example =
    chmod_ignore_lem world peers exec_kept file 0o777 0 0 0 {st = stat_of 0o100640} 0 found_kept
      refl refl refl refl

abbrev keep_owner : Settings
keep_owner = record plain { chown_policy = chown_ignore }

-- The state counts the changes of an owner.
abbrev owners_world : Os
owners_world = record world {
  lchown = λ p u g s. if u == no_id then (ok tt, s) else (ok tt, suc s);
}

pub resolve-Keeps : (p : Bytes) → Keeps (λ n. n ≡ 0) (resolve p)
resolve-Keeps [] = record { keeps = λ s i. i }
resolve-Keeps (c ∷ cs) = record { keeps = λ s i. ground arith }

chown-Keeps_example : Keeps (λ n. n ≡ 0) (bindfs_chown owners_world peers keep_owner file 7 8)
chown-Keeps_example =
    chown-Keeps owners_world peers keep_owner (λ n. n ≡ 0) (λ p. cc) resolve-Keeps
      (λ p g. record { keeps = λ s i. i }) file 7 8

-- New files.

abbrev create_for : Settings
create_for = record plain { create_for_uid = 7; create_for_gid = 8 }

done : (chown_new_file world create_for caller (codes "new") call_chown 0).0 ≡ ok tt
unfolding chown_new_file table_get scan usermap_create shift_id neg my_dirname
done = refl
