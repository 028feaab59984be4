-- ===== src/Startup/Ids.antt =====
-- The steps of `main` (src/bindfs.c) that set owners, fill the id tables and set the offsets.
use bindfs.Base.{[], ◌∷◌, Option, none, some, Bool, true, false}
use bindfs.Base.Text.{Bytes}
use bindfs.Fs.Settings.{Settings}
use bindfs.Userinfo.Names.{user_uid, group_gid}
use bindfs.Misc.ByteCount.{parse_byte_count}
use bindfs.Options.Maps.{Maps, Ran, finished, out_of_fuel, parse_user_map, parse_map_file}
use bindfs.Startup.{Process, System, OptionData, Main, going, returned, crashed}

abbrev pub Stage : Type 0
Stage = Process → Main Process

abbrev pub with_settings : Process → Settings → Process
with_settings p settings = record p { settings = settings }

-- `if (od.x) ...`
unfoldable pub if_given : Option Bytes → (Bytes → Stage) → Stage
if_given none step p = going p
if_given (some value) step p = step value p

-- `if (getuid() != 0) return 1;`
unfoldable pub if_root : Bool → Stage → Stage
if_root true step p = step p
if_root false step p = returned 1

-- A parsed value is stored, or `main` returns 1.
unfoldable pub or_return {ℓ} : {A : Type ℓ} → Option A → (A → Process) → Main Process
or_return none store = returned 1
or_return (some a) store = going (store a)

-- The deprecated option counts where the new one is missing.
abbrev pub or_deprecated : Option Bytes → Option Bytes → Option Bytes
or_deprecated (some value) deprecated = some value
or_deprecated none deprecated = deprecated

-- `if (*endptr != '\0') return 1;`
abbrev pub whole {ℓ} : {A : Type ℓ} → A × Bytes → Option A
whole (value, []) = some value
whole (value, c ∷ cs) = none

-- The tables as the parsers are given them, and the other way around.
abbrev pub forward_maps : Process → Maps
forward_maps p = record { map = p.settings.usermap; reverse_map = p.settings.usermap_reverse }

abbrev pub backward_maps : Process → Maps
backward_maps p = record { map = p.settings.usermap_reverse; reverse_map = p.settings.usermap }

abbrev pub store_forward : Process → Maps → Process
store_forward p m =
    with_settings p (record p.settings { usermap = m.map; usermap_reverse = m.reverse_map })

abbrev pub store_backward : Process → Maps → Process
store_backward p m =
    with_settings p (record p.settings { usermap = m.reverse_map; usermap_reverse = m.map })

unfoldable pub after_run : Process → Ran → Main Process
unfolding or_return
after_run p (finished maps) = or_return maps (store_forward p)
after_run p out_of_fuel = crashed

module _ (sys : System) where
  unfoldable pub store_owner : Bytes → Stage
  unfolding or_return user_uid
  store_owner name p =
      or_return (user_uid sys.db name) λ uid. with_settings p (record p.settings { new_uid = uid })

  unfoldable pub store_group : Bytes → Stage
  unfolding or_return group_gid
  store_group name p =
      or_return (group_gid sys.db name) λ gid. with_settings p (record p.settings { new_gid = gid })

  -- A rate must be positive.
  unfoldable pub positive_rate : Bytes → Option sys.doubles.Double
  unfolding parse_byte_count
  positive_rate value = elim (parse_byte_count sys.doubles value) [
    | none ↦ none
    | some rate ↦ elim (sys.doubles.is_positive rate) [ true ↦ some rate | false ↦ none ]
  ]

  unfoldable pub store_read_rate : Bytes → Stage
  unfolding or_return positive_rate
  store_read_rate value p =
      or_return (positive_rate value)
        λ rate. with_settings p (record p.settings { read_limiter = true })

  unfoldable pub store_write_rate : Bytes → Stage
  unfolding or_return positive_rate
  store_write_rate value p =
      or_return (positive_rate value)
        λ rate. with_settings p (record p.settings { write_limiter = true })

  unfoldable pub map_from_file : Bool → Bytes → Stage
  unfolding or_return parse_map_file
  map_from_file as_gid file p =
      or_return (parse_map_file sys.db sys.open_lines (forward_maps p) file as_gid)
        (store_forward p)

  -- The reverse options give the parser the two tables the other way around.
  unfoldable pub map_from_file_rev : Bool → Bytes → Stage
  unfolding or_return parse_map_file
  map_from_file_rev as_gid file p =
      or_return (parse_map_file sys.db sys.open_lines (backward_maps p) file as_gid)
        (store_backward p)

  unfoldable pub store_map : Bytes → Stage
  unfolding after_run parse_user_map
  store_map spec p = after_run p (parse_user_map sys.db spec (forward_maps p))

  unfoldable pub store_uid_offset : Bytes → Stage
  unfolding or_return
  store_uid_offset value p =
      or_return (whole (sys.strtoll value))
        λ offset. with_settings p (record p.settings { uid_offset = offset })

  unfoldable pub store_gid_offset : Bytes → Stage
  unfolding or_return
  store_gid_offset value p =
      or_return (whole (sys.strtoll value))
        λ offset. with_settings p (record p.settings { gid_offset = offset })

  unfoldable pub store_create_for_uid : Bytes → Stage
  unfolding or_return user_uid
  store_create_for_uid name p =
      or_return (user_uid sys.db name)
        λ uid. with_settings p (record p.settings { create_for_uid = uid })

  unfoldable pub store_create_for_gid : Bytes → Stage
  unfolding or_return group_gid
  store_create_for_gid name p =
      or_return (group_gid sys.db name)
        λ gid. with_settings p (record p.settings { create_for_gid = gid })

-- An option that only root may give.
unfoldable pub root_option : Bool → Option Bytes → (Bytes → Stage) → Stage
unfolding if_root
root_option is_root none step p = going p
root_option is_root (some value) step p = if_root is_root (step value) p

-- An offset may not be given together with --map.
unfoldable pub unless_map : Option Bytes → (Bytes → Stage) → Bytes → Stage
unless_map none step value p = step value p
unless_map (some spec) step value p = returned 1

module _ (sys : System) (od : OptionData) where
  unfoldable pub set_owner : Stage
  unfolding if_given store_owner
  set_owner = if_given (or_deprecated od.user od.deprecated_user) (store_owner sys)

  unfoldable pub set_group : Stage
  unfolding if_given store_group
  set_group = if_given (or_deprecated od.group od.deprecated_group) (store_group sys)

  unfoldable pub set_read_rate : Stage
  unfolding if_given store_read_rate
  set_read_rate = if_given od.read_rate (store_read_rate sys)

  unfoldable pub set_write_rate : Stage
  unfolding if_given store_write_rate
  set_write_rate = if_given od.write_rate (store_write_rate sys)

  unfoldable pub set_map_passwd : Stage
  unfolding root_option map_from_file
  set_map_passwd = root_option sys.is_root od.map_passwd (map_from_file sys false)

  unfoldable pub set_map_passwd_rev : Stage
  unfolding root_option map_from_file_rev
  set_map_passwd_rev = root_option sys.is_root od.map_passwd_rev (map_from_file_rev sys false)

  unfoldable pub set_map_group : Stage
  unfolding root_option map_from_file
  set_map_group = root_option sys.is_root od.map_group (map_from_file sys true)

  unfoldable pub set_map_group_rev : Stage
  unfolding root_option map_from_file_rev
  set_map_group_rev = root_option sys.is_root od.map_group_rev (map_from_file_rev sys true)

  unfoldable pub set_map : Stage
  unfolding root_option store_map
  set_map = root_option sys.is_root od.map (store_map sys)

  unfoldable pub set_uid_offset : Stage
  unfolding root_option unless_map store_uid_offset
  set_uid_offset = root_option sys.is_root od.uid_offset (unless_map od.map (store_uid_offset sys))

  unfoldable pub set_gid_offset : Stage
  unfolding root_option unless_map store_gid_offset
  set_gid_offset = root_option sys.is_root od.gid_offset (unless_map od.map (store_gid_offset sys))

  unfoldable pub set_create_for_user : Stage
  unfolding root_option store_create_for_uid
  set_create_for_user = root_option sys.is_root od.create_for_user (store_create_for_uid sys)

  unfoldable pub set_create_for_group : Stage
  unfolding root_option store_create_for_gid
  set_create_for_group = root_option sys.is_root od.create_for_group (store_create_for_gid sys)
