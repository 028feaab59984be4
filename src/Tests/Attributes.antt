-- ===== src/Tests/Attributes.antt =====
-- Callbacks that read, on the file system of Tests/World.
use bindfs.Base.{
  ℕ, ◌^◌, ◌-◌, [], ◌∷◌, ◌≡◌, ◌≢◌, inl, refl, none, some, true, false, arith, ◌<◌, ◌≤◌, ◌%◌, ◌+◌,
  ◌&&◌,
}
use bindfs.Base.Int.{pos, negsuc}
use bindfs.Base.Errors.{ok}
use bindfs.Base.Text.{codes}
use bindfs.Mode.{Class, Kind, perms, file_type}
use bindfs.Base.{length, take, drop}
use bindfs.Base.Text.{starts_with}
use bindfs.Misc.Paths.{without_slashes, path_starts_with}
use bindfs.Misc.Paths.Prefixes.{at_boundary, path_starts_with_lem}
use bindfs.Fs.Settings.{Settings, Stat}
use bindfs.Fs.Attr.{shown_uid, shown_gid, getattr_common, asks_mirroring}
use bindfs.Fs.Attr.Shown.{shown_type, getattr-type, getattr-mirror_only}
use bindfs.Fs.Ops.Owners.{asked_uid}
use bindfs.Fs.Ops.Owners.Chown.{asked_uid-map_and_offset}
use bindfs.Fs.Ops.Files.{round_up_buffer_size_for_direct_io}
use bindfs.Fs.Ops.Files.Transfer.{round_up_lem}
use bindfs.Fs.Ids.{shift_id}
use bindfs.Permchain.Apply.{permchain_apply}
use bindfs.Usermap.{usermap_create}
use bindfs.Usermap.Arrays.{no_id, empty_table, table_get, scan}
use bindfs.Usermap.Inverse.{IsInverse, empty_table-IsInverse}
use bindfs.Tests.Tables.{one, one_reverse, one-IsInverse}
use bindfs.Tests.World.{world, peers, plain, caller, stat_of}

abbrev devices : Settings
devices = record plain { block_devices_as_files = true }

device_shown :
    getattr_common world peers devices caller (codes "sda") (stat_of 0o060660) 0
    ≡ (ok (record (stat_of 0o100660) { st_size = 4096 }), 0)
unfolding getattr_common shown_uid shown_gid shift_id table_get scan usermap_create permchain_apply
device_shown = refl

getattr-type_example : file_type 0o100660 ≡ shown_type devices 0o060660
getattr-type_example =
    getattr-type world peers devices caller (codes "sda") (stat_of 0o060660) 0 tt (inl refl)
      device_shown

abbrev mirror_only : Settings
mirror_only = record plain { mirrored_users_only = true; mirrored_users = 7 ∷ [] }

shown_user : shown_uid mirror_only 1000 ≡ some 1000
unfolding shown_uid shift_id table_get scan usermap_create
shown_user = refl

shown_group : shown_gid mirror_only 100 ≡ some 100
unfolding shown_gid shift_id table_get scan usermap_create
shown_group = refl

not_mirrored : asks_mirroring world peers mirror_only caller 0 ≡ (ok false, 0)
unfolding asks_mirroring
not_mirrored = refl

getattr-mirror_only_example :
    (st' : Stat) × (getattr_common world peers mirror_only caller
        (codes "file")
        (stat_of 0o100640)
        0
      ≡ (ok st', 0))
    × (file_type st'.st_mode ≡ file_type 0o100640)
    × ((c : Class) (k : Kind) → perms st'.st_mode c k ≡ false)
getattr-mirror_only_example =
    getattr-mirror_only world peers mirror_only caller (codes "file") (stat_of 0o100640) 0 0
      shown_user shown_group refl (omega arith) not_mirrored

abbrev below : Settings
below = record plain { uid_offset = negsuc 1000 }

no_user : shown_uid below 1000 ≡ none
unfolding shown_uid shift_id table_get scan usermap_create
no_user = refl

nobody : (u d : ℕ) → table_get usermap_create.users u d ≡ d
unfolding table_get scan usermap_create empty_table
nobody u d = refl

no_tables : IsInverse usermap_create.users usermap_create.users
unfolding usermap_create
no_tables = empty_table-IsInverse

abbrev above : Settings
above = record plain { uid_offset = pos 500 }

shown_above : shown_uid above 1000 ≡ some 1500
unfolding shown_uid shift_id table_get scan usermap_create
shown_above = refl

round_up_lem_example :
    let r = round_up_buffer_size_for_direct_io 512 1000 in
    (1000 ≤ r) × (r % 512 ≡ 0) × (r < 1000 + 512)
round_up_lem_example = round_up_lem 512 1000 (omega arith) (omega arith)

-- The owner 1000 is shown as 0.
abbrev mapped : Settings
mapped = record plain {
  usermap = record { users = one; groups = empty_table };
  usermap_reverse = record { users = one_reverse; groups = empty_table };
}

shown_mapped : shown_uid mapped 1000 ≡ some 0
unfolding shown_uid shift_id table_get scan
shown_mapped = refl

held : table_get one 1000 no_id ≢ no_id
unfolding table_get scan
held = omega arith

-- With an offset of 500 on top of that.
abbrev both : Settings
both = record mapped { uid_offset = pos 500 }

shown_both : shown_uid both 1000 ≡ some 500
unfolding shown_uid shift_id table_get scan
shown_both = refl

mapped_elsewhere : table_get one 1000 1000 ≢ 1000
unfolding table_get scan
mapped_elsewhere = omega arith

got_one : table_get one 1000 1000 ≤ 2 ^ 31 - 1
unfolding table_get scan
got_one = omega arith

not_back : table_get one_reverse 500 no_id ≡ no_id
unfolding table_get scan
not_back = refl

asked_uid-map_and_offset_example :
    (asked_uid world peers both 500 0 ≡ (ok (table_get one 1000 1000), 0))
    × (asked_uid world peers both 500 0 ≢ (ok 1000, 0))
asked_uid-map_and_offset_example =
    asked_uid-map_and_offset world peers both 1000 0 refl refl one-IsInverse mapped_elsewhere
      got_one shown_both not_back

path_starts_with_lem_example : path_starts_with (codes "/mnt2/x") (codes "/mnt/") 5 ≡ (
    starts_with (codes "/mnt2/x") (without_slashes (take 5 (codes "/mnt/")))
    && at_boundary (drop (length (without_slashes (take 5 (codes "/mnt/")))) (codes "/mnt2/x")))
path_starts_with_lem_example = path_starts_with_lem (codes "/mnt2/x") (codes "/mnt/") 5
