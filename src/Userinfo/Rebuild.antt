-- ===== src/Userinfo/Rebuild.antt =====
-- The rebuilt caches of src/userinfo.c hold what the databases say.
use bindfs.Base.{
  ℕ, ◌≡◌, refl, sym, ap, ◌⊎◌, inl, inr, List, [], ◌∷◌, some, Bool, true, false, Option-cases, Mem,
  Mem-All, if◌then◌else◌,
}
use bindfs.Base.Text.{Bytes}
use bindfs.Userinfo.Cache.{
  uid_cache_uid_sortcmp, gid_cache_gid_sortcmp, UidCacheEntry, GidCacheEntry, Cache, Passwd, Group,
  Ending, at_end, incomplete, with_error, Databases, uid_cache_name_searchcmp, uid_entries,
  unless_error, rebuild_uid_cache, member_uids, gid_entries, rebuild_gid_cache, sorted_by_name,
  rebuilt, init_user_cache,
}
use bindfs.Userinfo.Spec.{IsSorting, FromUser, FromGroup, IsCached}

-- The entry that a cached one was made from.
pub uid_entries-Mem :
    (pws : List Passwd) (e : UidCacheEntry)
    → Mem e (uid_entries pws)
    → (pw : Passwd) × Mem pw pws
      × (e ≡ record { uid = pw.pw_uid; main_gid = pw.pw_gid; username = pw.pw_name })
unfolding uid_entries
uid_entries-Mem [] e h = absurd h
uid_entries-Mem (pw ∷ pws) e (inl h) = (pw, inl refl, h)
uid_entries-Mem (pw ∷ pws) e (inr h) = let (pw', m, q) = uid_entries-Mem pws e h in (pw', inr m, q)

pub unless_error-Mem :
    {A : Type 0} (end : Ending) (xs : List A) (a : A) → Mem a (unless_error end xs) → Mem a xs
unless_error-Mem at_end xs a h = h
unless_error-Mem incomplete xs a h = h
unless_error-Mem with_error xs a h = absurd h

module _ (sys : Databases) (sorting : IsSorting sys) where
  -- A member of a cached group stands for a name of the group and an entry of the user cache.
  abbrev IsKnown : List UidCacheEntry → List Bytes → ℕ → Type 0
  IsKnown uid_cache names uid =
      (e : UidCacheEntry) × Mem e uid_cache × Mem e.username names × (e.uid ≡ uid)

  rest-IsKnown :
      (uid_cache : List UidCacheEntry) (name : Bytes) (names : List Bytes) (uid : ℕ)
      → IsKnown uid_cache names uid
      → IsKnown uid_cache (name ∷ names) uid
  rest-IsKnown uid_cache name names uid (e, m, k, q) = (e, m, inr k, q)

  first-Mem :
      (uid_cache : List UidCacheEntry) (name : Bytes) (names : List Bytes) (uid : ℕ)
      (e : UidCacheEntry)
      → sys.bsearch (λ k e. uid_cache_name_searchcmp sys k e) name uid_cache ≡ some e
      → uid ≡ e.uid
      → IsKnown uid_cache (name ∷ names) uid
  first-Mem uid_cache name names uid e n h =
      let (m, z) = sorting.bsearch_finds _ name uid_cache e n in
      (e, m, inl (sym (sorting.strcmp_equal name e.username z)), sym h)

  member_uids-Mem :
      (uid_cache : List UidCacheEntry) (names : List Bytes) (uid : ℕ)
      → Mem uid (member_uids sys uid_cache names)
      → IsKnown uid_cache names uid
  unfolding member_uids
  member_uids-Mem uid_cache [] uid h = absurd h
  member_uids-Mem uid_cache (name ∷ names) uid h =
      elim (Option-cases (sys.bsearch (λ k e. uid_cache_name_searchcmp sys k e) name uid_cache)) [
        | inl n ↦
            rest-IsKnown uid_cache name names uid (member_uids-Mem uid_cache names uid (rw n at h))
        | inr (e, n) ↦
            let seen : (uid ≡ e.uid) ⊎ Mem uid (member_uids sys uid_cache names) = rw n at h in
            elim seen [
              | inl q ↦ first-Mem uid_cache name names uid e n q
              | inr later ↦
                  rest-IsKnown uid_cache name names uid (member_uids-Mem uid_cache names uid later)
            ]
      ]

  pub gid_entries-Mem :
      (uid_cache : List UidCacheEntry) (grs : List Group) (e : GidCacheEntry)
      → Mem e (gid_entries sys uid_cache grs)
      → (gr : Group) × Mem gr grs
        × (e ≡ record { gid = gr.gr_gid; uids = member_uids sys uid_cache gr.gr_mem })
  unfolding gid_entries
  gid_entries-Mem uid_cache [] e h = absurd h
  gid_entries-Mem uid_cache (gr ∷ grs) e (inl h) = (gr, inl refl, h)
  gid_entries-Mem uid_cache (gr ∷ grs) e (inr h) =
      let (gr', m, q) = gid_entries-Mem uid_cache grs e h in (gr', inr m, q)

  pub sorted_by_name-FromUser : (e : UidCacheEntry) → Mem e (sorted_by_name sys) → FromUser sys e
  unfolding sorted_by_name rebuild_uid_cache
  sorted_by_name-FromUser e h =
      uid_entries-Mem sys.users e
        (unless_error-Mem sys.users_end (uid_entries sys.users) e (sorting.qsort_keeps _ _ e h))

  named_user :
      (names : List Bytes) (uid : ℕ)
      → IsKnown (sorted_by_name sys) names uid
      → (pw : Passwd) × Mem pw sys.users × Mem pw.pw_name names × (pw.pw_uid ≡ uid)
  named_user names uid (e, m, k, q) =
      let (pw, n, from) = sorted_by_name-FromUser e m in (pw, n, rw from at k, rw from at q)

  rebuilt-FromGroup :
      (e : GidCacheEntry) → Mem e (rebuild_gid_cache sys (sorted_by_name sys)) → FromGroup sys e
  unfolding rebuild_gid_cache
  rebuilt-FromGroup e h =
      let (gr, m, q) =
        gid_entries-Mem (sorted_by_name sys) sys.groups e
          (unless_error-Mem sys.groups_end (gid_entries sys (sorted_by_name sys) sys.groups) e h) in
      (
        gr,
        m,
        ap (λ (g : GidCacheEntry). g.gid) q,
        Mem-All _ e.uids λ uid k.
            named_user gr.gr_mem uid
              (member_uids-Mem (sorted_by_name sys) gr.gr_mem uid (rw q at k)),
      )

  rebuilt-IsCached : IsCached sys (rebuilt sys)
  unfolding rebuilt
  rebuilt-IsCached = record {
    from_users = Mem-All _ _ λ e h.
        sorted_by_name-FromUser e (sorting.qsort_keeps (λ a b. uid_cache_uid_sortcmp a b) _ e h);
    from_groups =
        Mem-All _ _
          λ e h. rebuilt-FromGroup e (sorting.qsort_keeps (λ a b. gid_cache_gid_sortcmp a b) _ e h);
  }

  either-IsCached :
      (requested : Bool) (c : Cache)
      → (requested ≡ true) ⊎ IsCached sys c
      → IsCached sys (if requested then rebuilt sys else c)
  either-IsCached true c h = rebuilt-IsCached
  either-IsCached false c (inl h) = cc
  either-IsCached false c (inr cached) = cached

  pub init_user_cache-IsCached :
      (c : Cache)
      → (c.cache_rebuild_requested ≡ true) ⊎ IsCached sys c
      → IsCached sys (init_user_cache sys c)
  unfolding init_user_cache
  init_user_cache-IsCached c h = either-IsCached c.cache_rebuild_requested c h
