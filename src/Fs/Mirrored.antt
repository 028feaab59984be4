-- ===== src/Fs/Mirrored.antt =====
-- `is_mirrored_user` of src/bindfs.c over the user cache of src/userinfo.c.
use bindfs.Base.{
  ℕ, ◌^◌, ◌<◌, ◌≡◌, refl, ◌⊎◌, inl, inr, List, [], ◌∷◌, true, Bool-cases, All, Mem, ◌==◌, arith,
}
use bindfs.Base.Errors.{ok}
use bindfs.Userinfo.Cache.{Cache, Databases, init_user_cache, user_belongs_to_group}
use bindfs.Userinfo.Spec.{IsSorting, IsCached, Belongs}
use bindfs.Userinfo.Rebuild.{init_user_cache-IsCached}
use bindfs.Userinfo.Answers.{user_belongs_to_group-Belongs}
use bindfs.Fs.Settings.{Settings}
use bindfs.Fs.Os.{Os, Peers}
use bindfs.Fs.Common.{contains_id, belongs_to_any, is_mirrored_user}

-- The cache lives in the state, where it can be read and replaced.
module _ (sys : Databases) (sorting : IsSorting sys) (os : Os) (peers : Peers os.State)
    (cache_of : os.State → Cache) (with_cache : Cache → os.State → os.State)
    (cache_of-with_cache : (c : Cache) (s : os.State) → cache_of (with_cache c s) ≡ c) where
  -- The calls of `user_belongs_to_group` go to the cache.
  abbrev pub cached_peers : Peers os.State
  cached_peers = record peers {
    user_belongs_to_group = λ uid gid s.
        let (found, c) = user_belongs_to_group sys uid gid (cache_of s) in
        (ok found, with_cache c s);
  }

  abbrev pub IsFresh : os.State → Type 0
  IsFresh s = ((cache_of s).cache_rebuild_requested ≡ true) ⊎ IsCached sys (cache_of s)

  -- After a call the cache is one that the databases filled.
  called-IsFresh :
      (uid gid : ℕ) (s : os.State)
      → IsFresh s
      → IsFresh (with_cache (user_belongs_to_group sys uid gid (cache_of s)).1 s)
  unfolding user_belongs_to_group
  called-IsFresh uid gid s fresh = inr (
      rw (cache_of-with_cache (init_user_cache sys (cache_of s)) s)
        (init_user_cache-IsCached sys sorting (cache_of s) fresh))

  contains_id-Mem : (ids : List ℕ) (uid : ℕ) → contains_id ids uid ≡ true → Mem uid ids
  unfolding contains_id
  contains_id-Mem [] uid h = cc
  contains_id-Mem (u ∷ us) uid h = elim (Bool-cases (u == uid)) [
    | inl e ↦ inl (ground (arith, e))
    | inr e ↦ inr (contains_id-Mem us uid (rw e at h))
  ]

  module _ (settings : Settings) (uid : ℕ) (small_users : All (λ pw. pw.pw_uid < 2 ^ 32) sys.users)
      (small_groups : All (λ gr. gr.gr_gid < 2 ^ 32) sys.groups) (small_uid : uid < 2 ^ 32) where
    belongs_to_any-Belongs :
        (gids : List ℕ) (s : os.State) {s' : os.State}
        → All (λ g. g < 2 ^ 32) gids
        → IsFresh s
        → belongs_to_any os cached_peers settings gids uid s ≡ (ok true, s')
        → (g : ℕ) × Mem g gids × Belongs sys uid g
    unfolding belongs_to_any
    belongs_to_any-Belongs [] s small fresh h = cc
    belongs_to_any-Belongs (g ∷ gids) s (first, rest) fresh h =
        elim (Bool-cases (user_belongs_to_group sys uid g (cache_of s)).0) [
          | inl e ↦ (
            g,
            inl refl,
            user_belongs_to_group-Belongs sys sorting (cache_of s) uid g fresh small_users
                small_groups small_uid first e,
          )
          | inr e ↦
              let (g', m, b) =
                belongs_to_any-Belongs gids _ rest (called-IsFresh uid g s fresh) (rw e at h) in
              (g', inr m, b)
        ]

    -- A user counts as mirrored only where the user is among those that the options name, or in a group that they name and that the databases
    -- put the user in. For a cache that is to be rebuilt or that the databases filled, ids of 32
    -- bits, and a C library whose `qsort`, `bsearch` and `strcmp` do what they document.
    pub is_mirrored_user-Belongs :
        (s : os.State) {s' : os.State}
        → All (λ g. g < 2 ^ 32) settings.mirrored_members
        → IsFresh s
        → is_mirrored_user os cached_peers settings uid s ≡ (ok true, s')
        → Mem uid settings.mirrored_users
          ⊎ ((g : ℕ) × Mem g settings.mirrored_members × Belongs sys uid g)
    unfolding is_mirrored_user
    is_mirrored_user-Belongs s small fresh h =
        elim (Bool-cases (contains_id settings.mirrored_users uid)) [
          | inl e ↦ inl (contains_id-Mem settings.mirrored_users uid e)
          | inr e ↦ inr (belongs_to_any-Belongs settings.mirrored_members s small fresh (rw e at h))
        ]
