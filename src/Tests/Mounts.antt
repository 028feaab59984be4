-- ===== src/Tests/Mounts.antt =====
-- The options of src/bindfs.c on concrete command lines, and the theorems about `main` applied to
-- them.
use bindfs.Base.{
  ℕ, ◌+◌, ◌*◌, ◌-◌, ◌≡◌, refl, List, [], ◌∷◌, none, some, Bool, true, false, ◌&&◌, leb,
  if◌then◌else◌,
}
use bindfs.Base.Int.{ℤ, pos}
use bindfs.Base.Text.{Bytes, codes, bytes_eq}
use bindfs.Usermap.Arrays.{table_add, table_get, put_cell, scan}
use bindfs.Userinfo.Names.{NameDb, found, missing, user_uid, group_gid}
use bindfs.Misc.Texts.{strdup_until}
use bindfs.Options.Mirror.{next_name, parse_mirrored_users, mirrored, out_of_bounds}
use bindfs.Options.Mirror.Names.{split_names, collect, ends_in_lone_at, overrun}
use bindfs.Options.Mirror.Laws.{parse_mirrored_users_lem}
use bindfs.Options.Maps.{Maps, finished, parse_user_map}
use bindfs.Options.Maps.Entries.{entries_of, add_entries, parse_user_map_lem}
use bindfs.Usermap.{usermap_create}
use bindfs.Misc.ByteCount.{Doubles}
use bindfs.Startup.{System, OptionData, Main, going, initial_process}
use bindfs.Startup.Keys.{OptionKey, optkey_nonoption, optkey_hide_hard_links}
use bindfs.Startup.Mount.{Mounted, main}
use bindfs.Startup.Sound.{HasGoodChains, HasAlignment, IsUnprivileged}
use bindfs.Startup.Ready.{main-HasGoodChains, main-IsUnprivileged}

-- Decimal digits, and what stands behind them.
abbrev pub digits : ℕ → Bytes → ℕ × Bytes
digits n [] = (n, [])
digits n (c ∷ cs) =
    let rest = digits (n * 10 + (c - b'0')) cs in
    if leb b'0' c && leb c b'9' then rest else (n, c ∷ cs)

abbrev pub signed : ℕ × Bytes → ℤ × Bytes
signed (n, rest) = (pos n, rest)

abbrev pub names : NameDb
names = record {
  strtol = λ s. signed (digits 0 s);
  getpwnam_r = λ name size. if bytes_eq name (codes "joe") then found 1001 else missing;
  getgrnam_r = λ name size. missing;
  rounds = 4;
}

abbrev whole_numbers : Doubles
whole_numbers = record {
  Double = ℕ;
  strtod = λ s. digits 0 s;
  times = λ a b. a * b;
  is_positive = λ a. leb 1 a;
}

abbrev host : Bool → System
host is_root = record {
  is_root = is_root;
  realpath = λ path. some path;
  can_open = λ path. true;
  open_lines = λ file. none;
  db = names;
  doubles = whole_numbers;
  strtoll = λ s. signed (digits 0 s);
  strtoul = λ s. digits 0 s;
  fuse_version = 31;
}

abbrev nothing_given : OptionData
nothing_given = record {
  user = none;
  deprecated_user = none;
  group = none;
  deprecated_group = none;
  perms = none;
  mirror = none;
  mirror_only = none;
  map = none;
  map_passwd = none;
  map_group = none;
  map_passwd_rev = none;
  map_group_rev = none;
  read_rate = none;
  write_rate = none;
  create_for_user = none;
  create_for_group = none;
  create_with_perms = none;
  chmod_filter = none;
  resolved_symlink_deletion = none;
  no_allow_other = false;
  multithreaded = false;
  forward_odirect = none;
  uid_offset = none;
  gid_offset = none;
  fsname = none;
}

abbrev arguments : List (OptionKey × Bytes)
arguments =
    (optkey_hide_hard_links, [])
    ∷ (optkey_nonoption, codes "/data")
    ∷ (optkey_nonoption, codes "/mnt")
    ∷ []

abbrev run : Bool → OptionData → Main Mounted
run is_root od =
    main (host is_root) od (codes "bindfs") arguments (codes "bindfs" ∷ codes "/mnt" ∷ [])

abbrev mapped_options : OptionData
mapped_options = record nothing_given {
  map = some (codes "1000/joe");
  perms = some (codes "0750:u+w");
  forward_odirect = some (codes "512");
}

-- The call of `fuse_main` that root reaches with these options.
unfoldable started : (m : Mounted) × (run true mapped_options ≡ going m)
unfolding main initial_process strdup_until next_name table_add table_get put_cell scan
started = (_, refl)

main-HasGoodChains_example :
    HasGoodChains started.0.process.settings × HasAlignment started.0.process.settings
main-HasGoodChains_example =
    main-HasGoodChains (host true) mapped_options (codes "bindfs") arguments
      (codes "bindfs" ∷ codes "/mnt" ∷ []) started.0 started.1

unfoldable plainly_started : (m : Mounted) × (run false nothing_given ≡ going m)
unfolding main initial_process
plainly_started = (_, refl)

main-IsUnprivileged_example : IsUnprivileged plainly_started.0.process.settings
main-IsUnprivileged_example =
    main-IsUnprivileged (host false) nothing_given (codes "bindfs") arguments
      (codes "bindfs" ∷ codes "/mnt" ∷ []) plainly_started.0 refl plainly_started.1

-- --mirror with two users and a group, and with a group without a name at the end.
mirror_read : parse_mirrored_users names (codes "joe,@5:7") ≡ mirrored (1001 ∷ 7 ∷ []) (5 ∷ [])
unfolding parse_mirrored_users strdup_until next_name user_uid group_gid bytes_eq
mirror_read = refl

mirror_overrun : parse_mirrored_users names (codes "joe,@") ≡ out_of_bounds
unfolding parse_mirrored_users strdup_until next_name user_uid group_gid bytes_eq
mirror_overrun = refl

parse_mirrored_users_lem_example : parse_mirrored_users names (codes "joe,@5:7") ≡ (
    if ends_in_lone_at (codes "joe,@5:7")
    then overrun (collect names (split_names (codes "joe,@5:7")) [] [])
    else collect names (split_names (codes "joe,@5:7")) [] [])
parse_mirrored_users_lem_example = parse_mirrored_users_lem names (codes "joe,@5:7")

abbrev pub no_maps : Maps
no_maps = record { map = usermap_create; reverse_map = usermap_create }

parse_user_map_lem_example :
    parse_user_map names (codes "1000/joe,@5/@6") no_maps
    ≡ finished (add_entries names (entries_of (codes "1000/joe,@5/@6")) no_maps)
parse_user_map_lem_example = parse_user_map_lem names (codes "1000/joe,@5/@6") no_maps
