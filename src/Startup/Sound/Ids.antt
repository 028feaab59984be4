-- ===== src/Startup/Sound/Ids.antt =====
-- The steps of `main` (src/bindfs.c) on owners, tables and offsets keep the settings sound.
use bindfs.Base.{◌≡◌, ap, inl, Option, some, Bool, true, false}
use bindfs.Base.Text.{Bytes}
use bindfs.Userinfo.Names.{user_uid, group_gid}
use bindfs.Options.Maps.{Maps, Ran, finished, out_of_fuel, parse_map_file, parse_user_map}
use bindfs.Options.Maps.Paired.{
  ArePaired, ArePaired-sym, parse_map_file-ArePaired, parse_user_map-ArePaired,
}
use bindfs.Startup.{Process, System, OptionData}
use bindfs.Startup.Ids.{
  whole, or_deprecated, after_run, forward_maps, backward_maps, store_forward, unless_map,
  positive_rate, store_owner, store_group, store_read_rate, store_write_rate, map_from_file,
  map_from_file_rev, store_map, store_uid_offset, store_gid_offset, store_create_for_uid,
  store_create_for_gid, set_owner, set_group, set_read_rate, set_write_rate, set_map_passwd,
  set_map_passwd_rev, set_map_group, set_map_group_rev, set_map, set_uid_offset, set_gid_offset,
  set_create_for_user, set_create_for_group,
}
use bindfs.Startup.Steps.{
  Carries, GoesOnWith, or_return_lem, if_given-Carries, root_option-Carries, unless_map-Carries,
}
use bindfs.Startup.Sound.{IsSound}

module _ (sys : System) (od : OptionData) where
  abbrev Sound : Process → Type 0
  Sound p = IsSound sys od p.settings

  pub set_owner-Sound : Carries Sound (set_owner sys od)
  unfolding set_owner store_owner
  set_owner-Sound =
      if_given-Carries Sound (or_deprecated od.user od.deprecated_user) (store_owner sys)
        λ name. record { carries = λ p i. or_return_lem Sound (user_uid sys.db name) _ λ uid e. i }

  pub set_group-Sound : Carries Sound (set_group sys od)
  unfolding set_group store_group
  set_group-Sound =
      if_given-Carries Sound (or_deprecated od.group od.deprecated_group) (store_group sys)
        λ name. record { carries = λ p i. or_return_lem Sound (group_gid sys.db name) _ λ gid e. i }

  pub set_read_rate-Sound : Carries Sound (set_read_rate sys od)
  unfolding set_read_rate store_read_rate
  set_read_rate-Sound =
      if_given-Carries Sound od.read_rate (store_read_rate sys) λ name. record {
        carries = λ p i. or_return_lem Sound (positive_rate sys name) _ λ rate e. i;
      }

  pub set_write_rate-Sound : Carries Sound (set_write_rate sys od)
  unfolding set_write_rate store_write_rate
  set_write_rate-Sound =
      if_given-Carries Sound od.write_rate (store_write_rate sys) λ name. record {
        carries = λ p i. or_return_lem Sound (positive_rate sys name) _ λ rate e. i;
      }

  map_from_file-Sound :
      (as_gid : Bool) (file : Bytes)
      → sys.is_root ≡ true
      → Carries Sound (map_from_file sys as_gid file)
  unfolding map_from_file
  map_from_file-Sound as_gid file root = record {
    carries = λ p (chains, alignment, pairs, offsets, ids).
        or_return_lem Sound (parse_map_file sys.db sys.open_lines (forward_maps p) file as_gid) _
          λ m e. (
            chains,
            alignment,
            (parse_map_file-ArePaired sys.db sys.open_lines _ m file as_gid pairs e),
            offsets,
            inl root,
          );
  }

  map_from_file_rev-Sound :
      (as_gid : Bool) (file : Bytes)
      → sys.is_root ≡ true
      → Carries Sound (map_from_file_rev sys as_gid file)
  unfolding map_from_file_rev
  map_from_file_rev-Sound as_gid file root = record {
    carries = λ p (chains, alignment, pairs, offsets, ids).
        or_return_lem Sound (parse_map_file sys.db sys.open_lines (backward_maps p) file as_gid) _
          λ m e. (
            chains,
            alignment,
            (ArePaired-sym m (
                parse_map_file-ArePaired sys.db sys.open_lines _ m file as_gid
                  (ArePaired-sym _ pairs) e)),
            offsets,
            inl root,
          );
  }

  pub set_map_passwd-Sound : Carries Sound (set_map_passwd sys od)
  unfolding set_map_passwd
  set_map_passwd-Sound =
      root_option-Carries Sound sys.is_root od.map_passwd (map_from_file sys false)
        λ file root. map_from_file-Sound false file root

  pub set_map_passwd_rev-Sound : Carries Sound (set_map_passwd_rev sys od)
  unfolding set_map_passwd_rev
  set_map_passwd_rev-Sound =
      root_option-Carries Sound sys.is_root od.map_passwd_rev (map_from_file_rev sys false)
        λ file root. map_from_file_rev-Sound false file root

  pub set_map_group-Sound : Carries Sound (set_map_group sys od)
  unfolding set_map_group
  set_map_group-Sound =
      root_option-Carries Sound sys.is_root od.map_group (map_from_file sys true)
        λ file root. map_from_file-Sound true file root

  pub set_map_group_rev-Sound : Carries Sound (set_map_group_rev sys od)
  unfolding set_map_group_rev
  set_map_group_rev-Sound =
      root_option-Carries Sound sys.is_root od.map_group_rev (map_from_file_rev sys true)
        λ file root. map_from_file_rev-Sound true file root

  after_run-Sound :
      (p : Process) (r : Ran)
      → Sound p
      → sys.is_root ≡ true
      → ((m : Maps) → r ≡ finished (some m) → ArePaired m)
      → GoesOnWith Sound (after_run p r)
  unfolding after_run
  after_run-Sound p (finished maps) (chains, alignment, pairs, offsets, ids) root k =
      or_return_lem Sound maps (store_forward p)
        λ m e. (chains, alignment, k m (ap (λ (o : Option Maps). finished o) e), offsets, inl root)
  after_run-Sound p out_of_fuel i root k = tt

  pub set_map-Sound : Carries Sound (set_map sys od)
  unfolding set_map store_map
  set_map-Sound = root_option-Carries Sound sys.is_root od.map (store_map sys) λ spec root. record {
    carries = λ p i.
        after_run-Sound p (parse_user_map sys.db spec (forward_maps p)) i root
          λ m e. parse_user_map-ArePaired sys.db spec (forward_maps p) m i.2 e;
  }

  pub set_uid_offset-Sound : Carries Sound (set_uid_offset sys od)
  unfolding set_uid_offset store_uid_offset
  set_uid_offset-Sound =
      root_option-Carries Sound sys.is_root od.uid_offset (unless_map od.map (store_uid_offset sys))
        λ value root. unless_map-Carries Sound od.map (store_uid_offset sys) value λ no_map.
          record {
            carries = λ p (chains, alignment, pairs, offsets, ids).
                or_return_lem Sound (whole (sys.strtoll value)) _
                  λ offset e. (chains, alignment, pairs, inl no_map, inl root);
          }

  pub set_gid_offset-Sound : Carries Sound (set_gid_offset sys od)
  unfolding set_gid_offset store_gid_offset
  set_gid_offset-Sound =
      root_option-Carries Sound sys.is_root od.gid_offset (unless_map od.map (store_gid_offset sys))
        λ value root. unless_map-Carries Sound od.map (store_gid_offset sys) value λ no_map.
          record {
            carries = λ p (chains, alignment, pairs, offsets, ids).
                or_return_lem Sound (whole (sys.strtoll value)) _
                  λ offset e. (chains, alignment, pairs, inl no_map, inl root);
          }

  pub set_create_for_user-Sound : Carries Sound (set_create_for_user sys od)
  unfolding set_create_for_user store_create_for_uid
  set_create_for_user-Sound =
      root_option-Carries Sound sys.is_root od.create_for_user (store_create_for_uid sys)
        λ name root. record {
          carries = λ p (chains, alignment, pairs, offsets, ids).
              or_return_lem Sound (user_uid sys.db name) _
                λ id e. (chains, alignment, pairs, offsets, inl root);
        }

  pub set_create_for_group-Sound : Carries Sound (set_create_for_group sys od)
  unfolding set_create_for_group store_create_for_gid
  set_create_for_group-Sound =
      root_option-Carries Sound sys.is_root od.create_for_group (store_create_for_gid sys)
        λ name root. record {
          carries = λ p (chains, alignment, pairs, offsets, ids).
              or_return_lem Sound (group_gid sys.db name) _
                λ id e. (chains, alignment, pairs, offsets, inl root);
        }
