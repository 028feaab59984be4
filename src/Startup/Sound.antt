-- ===== src/Startup/Sound.antt =====
-- What holds of the settings all through `main` of src/bindfs.c: the rules are valid, the alignment
-- is set, the tables are filled in pairs, offsets exclude --map, and only root moves ids.
pub mod Ids
pub mod Modes
pub mod Keys
use bindfs.Base.{
  ℕ, ◌<◌, ◌≡◌, refl, ◌⊎◌, inl, inr, List, [], ◌∷◌, Option, none, some, Bool, true, false,
  Bool-cases, All, arith,
}
use bindfs.Base.Int.{ℤ, pos}
use bindfs.Base.Text.{Bytes}
use bindfs.Usermap.{UserMap, usermap_create}
use bindfs.Usermap.Arrays.{no_id}
use bindfs.Usermap.Cells.{empty_table-IsPaired}
use bindfs.Permchain.Rules.{permchain_create}
use bindfs.Permchain.Parse.Nodes.{IsGoodNode}
use bindfs.Permchain.Parse.Chains.{permchain_create-good}
use bindfs.Fs.Settings.{Settings, create_as_mounter}
use bindfs.Options.Maps.{Maps}
use bindfs.Options.Maps.Paired.{
  ArePaired, ArePaired-sym, parse_map_file-ArePaired, parse_user_map-ArePaired,
}
use bindfs.Startup.{Process, System, OptionData, Main, going, returned, crashed, initial_process}
use bindfs.Startup.Ids.{forward_maps}

abbrev pub HasGoodChains : Settings → Type 0
HasGoodChains st =
    All IsGoodNode st.permchain
    × All IsGoodNode st.create_permchain
    × All IsGoodNode st.chmod_permchain

abbrev pub HasAlignment : Settings → Type 0
HasAlignment st = (st.forward_odirect ≡ false) ⊎ (0 < st.odirect_alignment)

abbrev pub HasPairs : Settings → Type 0
HasPairs st = ArePaired (record { map = st.usermap; reverse_map = st.usermap_reverse })

-- No offset is set.
abbrev pub HasNoOffset : Settings → Type 0
HasNoOffset st = (st.uid_offset ≡ pos 0) × (st.gid_offset ≡ pos 0)

-- No id is translated, and new files get no owner.
abbrev pub IsUnprivileged : Settings → Type 0
IsUnprivileged st =
    (st.usermap ≡ usermap_create)
    × (st.usermap_reverse ≡ usermap_create)
    × (st.uid_offset ≡ pos 0)
    × (st.gid_offset ≡ pos 0)
    × (st.create_for_uid ≡ no_id)
    × (st.create_for_gid ≡ no_id)
    × (st.create_policy ≡ create_as_mounter)

module _ (sys : System) (od : OptionData) where
  abbrev pub IsSound : Settings → Type 0
  IsSound st =
      HasGoodChains st
      × HasAlignment st
      × HasPairs st
      × ((od.map ≡ none) ⊎ HasNoOffset st)
      × ((sys.is_root ≡ true) ⊎ IsUnprivileged st)

  initial_process-IsUnprivileged :
      (sys.is_root ≡ true) ⊎ IsUnprivileged (initial_process sys).settings
  unfolding initial_process
  initial_process-IsUnprivileged = elim (Bool-cases sys.is_root) [
    | inl e ↦ inl e
    | inr e ↦ inr (refl, refl, refl, refl, refl, refl, rw e refl)
  ]

  pub initial_process-IsSound : IsSound (initial_process sys).settings
  unfolding initial_process usermap_create
  initial_process-IsSound = (
    (permchain_create-good, permchain_create-good, permchain_create-good),
    inl refl,
    record { users = empty_table-IsPaired; groups = empty_table-IsPaired },
    inr (refl, refl),
    initial_process-IsUnprivileged,
  )
