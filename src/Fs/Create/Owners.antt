-- ===== src/Fs/Create/Owners.antt =====
-- `chown_new_file`: which owner a new file gets.
use bindfs.Base.{◌≡◌, ◌≢◌, arith}
use bindfs.Base.Errors.{ok}
use bindfs.Base.Text.{Bytes}
use bindfs.Usermap.{usermap_get_uid_or_default, usermap_get_gid_or_default}
use bindfs.Usermap.Arrays.{no_id, table_get}
use bindfs.Fs.Settings.{Settings, Context, create_as_mounter}
use bindfs.Fs.Os.{Os}
use bindfs.Fs.Create.{ChownCall, run_chown, policy_owner, chown_new_file}

module _ (os : Os) (settings : Settings) (fc : Context) (path : Bytes) (call : ChownCall)
    (s : os.State) where
  -- Files created as the mounter keep the owner that the system gave them, where neither the reverse
  -- tables nor --create-for-user and --create-for-group say otherwise: no call is made.
  pub created_as_mounter :
      settings.create_policy ≡ create_as_mounter
      → table_get settings.usermap_reverse.users fc.uid no_id ≡ no_id
      → table_get settings.usermap_reverse.groups fc.gid no_id ≡ no_id
      → settings.create_for_uid ≡ no_id
      → settings.create_for_gid ≡ no_id
      → chown_new_file os settings fc path call s ≡ (ok tt, s)
  unfolding chown_new_file usermap_get_uid_or_default usermap_get_gid_or_default
  created_as_mounter policy no_user no_group no_uid no_gid = ground arith

  -- --create-for-user and --create-for-group name the owner and the group of every new file for
  -- which the call is made.
  created_for :
      settings.create_for_uid ≢ no_id
      → settings.create_for_gid ≢ no_id
      → (chown_new_file os settings fc path call s).0 ≡ ok tt
      → (s1 : os.State) × ((chown_new_file os settings fc path call s) ≡ (
        ok tt,
        (run_chown os settings fc call path settings.create_for_uid settings.create_for_gid s1).1,
      ))
  unfolding chown_new_file
  created_for hu hg done = ((policy_owner os settings fc path s).1, ground arith)
