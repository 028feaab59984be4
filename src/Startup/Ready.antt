-- ===== src/Startup/Ready.antt =====
-- What `main` of src/bindfs.c hands to the callbacks.
use bindfs.Base.{
  ◌≡◌, inl, inr, List, Option, none, some, Bool, true, false, not, ◌&&◌, if◌then◌else◌,
}
use bindfs.Base.Text.{Bytes}
use bindfs.Startup.{Process, System, OptionData, Main, going, returned, crashed, initial_process}
use bindfs.Startup.Keys.{OptionKey, Parsed, parsed, parse_failed, parse_exited, process_options}
use bindfs.Startup.Mount.{
  Mounted, stages, run_stages, mount, main, with_source, after_parse, after_step,
}
use bindfs.Startup.Steps.{Carries, GoesOnWith, GoesOnWith-going, run_stages-Carries}
use bindfs.Startup.Sound.{
  IsSound, HasGoodChains, HasAlignment, IsUnprivileged, initial_process-IsSound,
}
use bindfs.Startup.Sound.Keys.{process_options-Sound, ParsedSound}
use bindfs.Startup.Sound.Ids.{
  set_owner-Sound, set_group-Sound, set_read_rate-Sound, set_write_rate-Sound, set_map_passwd-Sound,
  set_map_passwd_rev-Sound, set_map_group-Sound, set_map_group_rev-Sound, set_map-Sound,
  set_uid_offset-Sound, set_gid_offset-Sound, set_create_for_user-Sound, set_create_for_group-Sound,
}
use bindfs.Startup.Sound.Modes.{
  set_forward_odirect-Sound, set_mirror-Sound, set_perms-Sound, set_create_with_perms-Sound,
  set_chmod_filter-Sound, set_deletion_policy-Sound,
}

module _ (sys : System) (od : OptionData) where
  abbrev Sound : Process → Type 0
  Sound p = IsSound sys od p.settings

  abbrev MountedSound : Mounted → Type 0
  MountedSound m = Sound m.process

  stages-Sound : Carries Sound (λ p. run_stages (stages sys od) p)
  unfolding stages
  stages-Sound = run_stages-Carries Sound (stages sys od) (
    set_owner-Sound sys od,
    (
      set_group-Sound sys od,
      (
        set_read_rate-Sound sys od,
        (
          set_write_rate-Sound sys od,
          (
            set_map_passwd-Sound sys od,
            (
              set_map_passwd_rev-Sound sys od,
              (
                set_map_group-Sound sys od,
                (
                  set_map_group_rev-Sound sys od,
                  (
                    set_map-Sound sys od,
                    (
                      set_uid_offset-Sound sys od,
                      (
                        set_gid_offset-Sound sys od,
                        (
                          set_forward_odirect-Sound sys od,
                          (
                            set_create_for_user-Sound sys od,
                            (
                              set_create_for_group-Sound sys od,
                              (
                                set_mirror-Sound sys od,
                                (
                                  set_perms-Sound sys od,
                                  (
                                    set_create_with_perms-Sound sys od,
                                    (
                                      set_chmod_filter-Sound sys od,
                                      (set_deletion_policy-Sound sys od, tt),
                                    ),
                                  ),
                                ),
                              ),
                            ),
                          ),
                        ),
                      ),
                    ),
                  ),
                ),
              ),
            ),
          ),
        ),
      ),
    ),
  )

  unless-MountedSound :
      (refused : Bool) (m : Main Mounted)
      → GoesOnWith MountedSound m
      → GoesOnWith MountedSound (if refused then returned 1 else m)
  unless-MountedSound true m i = tt
  unless-MountedSound false m i = i

  mount-Sound :
      (progname : Bytes) (args : List Bytes) (mntsrc : Bytes) (p : Process)
      → Sound p
      → GoesOnWith MountedSound (mount sys od progname args mntsrc p)
  unfolding mount
  mount-Sound progname args mntsrc p i =
      unless-MountedSound (not (sys.can_open mntsrc)) _
        (unless-MountedSound (p.enable_lock_forwarding && not od.multithreaded) _ i)

  after_stages-Sound :
      (progname : Bytes) (args : List Bytes) (mntsrc : Bytes) (r : Main Process)
      → GoesOnWith Sound r
      → GoesOnWith MountedSound (after_step r λ p. mount sys od progname args mntsrc p)
  after_stages-Sound progname args mntsrc (going p) i = mount-Sound progname args mntsrc p i
  after_stages-Sound progname args mntsrc (returned status) i = tt
  after_stages-Sound progname args mntsrc crashed i = tt

  with_source-Sound :
      (progname : Bytes) (args : List Bytes) (mntsrc : Option Bytes) (has_mntdest : Bool)
      (p : Process)
      → Sound p
      → GoesOnWith MountedSound (with_source sys od progname args mntsrc has_mntdest p)
  with_source-Sound progname args none has_mntdest p i = tt
  with_source-Sound progname args (some mntsrc) false p i = tt
  with_source-Sound progname args (some mntsrc) true p i =
      after_stages-Sound progname args mntsrc (run_stages (stages sys od) p)
        (stages-Sound.carries p i)

  after_parse-Sound :
      (progname : Bytes) (args : List Bytes) (r : Parsed)
      → ParsedSound sys od r
      → GoesOnWith MountedSound (after_parse sys od progname args r)
  after_parse-Sound progname args (parsed p) i =
      with_source-Sound progname args p.mntsrc p.has_mntdest p i
  after_parse-Sound progname args parse_failed i = tt
  after_parse-Sound progname args parse_exited i = tt

  pub main-IsSound :
      (progname : Bytes) (calls : List (OptionKey × Bytes)) (args : List Bytes) (m : Mounted)
      → main sys od progname calls args ≡ going m
      → IsSound sys od m.process.settings
  unfolding main
  main-IsSound progname calls args m h =
      GoesOnWith-going MountedSound (main sys od progname calls args) m
        (after_parse-Sound progname args (process_options sys calls (initial_process sys)) (
          process_options-Sound sys od calls (initial_process sys)
            (initial_process-IsSound sys od)))
        h

  -- Every chain of rules that `main` hands to the callbacks is a chain of valid rules, whatever
  -- --perms, --create-with-perms and --chmod-filter say, and with --forward-odirect the alignment is
  -- positive; for a `main` that reaches `fuse_main`.
  pub main-HasGoodChains :
      (progname : Bytes) (calls : List (OptionKey × Bytes)) (args : List Bytes) (m : Mounted)
      → main sys od progname calls args ≡ going m
      → HasGoodChains m.process.settings × HasAlignment m.process.settings
  main-HasGoodChains progname calls args m h =
      let (chains, alignment, pairs, offsets, ids) = main-IsSound progname calls args m h in
      (chains, alignment)

  -- A user other than root mounts without id tables and offsets, and cannot choose the owner of new
  -- files; for a `main` that reaches `fuse_main`.
  pub main-IsUnprivileged :
      (progname : Bytes) (calls : List (OptionKey × Bytes)) (args : List Bytes) (m : Mounted)
      → sys.is_root ≡ false
      → main sys od progname calls args ≡ going m
      → IsUnprivileged m.process.settings
  main-IsUnprivileged progname calls args m user h =
      let (chains, alignment, pairs, offsets, ids) = main-IsSound progname calls args m h in
      elim ids [ inl root ↦ cc | inr unprivileged ↦ unprivileged ]
