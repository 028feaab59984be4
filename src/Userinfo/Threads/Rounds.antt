-- ===== src/Userinfo/Threads/Rounds.antt =====
-- A cache of src/userinfo.c that is filled from two rounds through the databases, at two moments.
use bindfs.Base.{◌≡◌, refl, List, [], ◌∷◌}
use bindfs.Base.Text.{Bytes}
use bindfs.Userinfo.Cache.{
  UidCacheEntry, Cache, Databases, Group, member_uids, gid_entries, rebuild_uid_cache,
  rebuild_gid_cache, sorted_by_name, rebuilt,
}
use bindfs.Userinfo.Threads.{Contents, with_contents, refilled}

-- The users of one round and the groups of a later one.
abbrev pub joined : Contents → Contents → Contents
joined d e = record {
  users = d.users;
  users_end = d.users_end;
  groups = e.groups;
  groups_end = e.groups_end;
}

module _ (sys : Databases) (d e : Contents) where
  joined-member_uids :
      (uid_cache : List UidCacheEntry) (names : List Bytes)
      → member_uids (with_contents sys e) uid_cache names
        ≡ member_uids (with_contents sys (joined d e)) uid_cache names
  unfolding member_uids
  joined-member_uids uid_cache [] = refl
  joined-member_uids uid_cache (name ∷ names) = rw (joined-member_uids uid_cache names) refl

  joined-gid_entries :
      (uid_cache : List UidCacheEntry) (groups : List Group)
      → gid_entries (with_contents sys e) uid_cache groups
        ≡ gid_entries (with_contents sys (joined d e)) uid_cache groups
  unfolding gid_entries
  joined-gid_entries uid_cache [] = refl
  joined-gid_entries uid_cache (gr ∷ grs) =
      rw (joined-member_uids uid_cache gr.gr_mem, joined-gid_entries uid_cache grs) refl

  -- A cache that is filled from two rounds is that of the users of the first and the groups of the
  -- second.
  pub refilled-joined :
      (c : Cache)
      → let c' = refilled (with_contents sys e) (sorted_by_name (with_contents sys d)) c in
        let both = rebuilt (with_contents sys (joined d e)) in
        (c'.uid_cache ≡ both.uid_cache) × (c'.gid_cache ≡ both.gid_cache)
  unfolding refilled rebuilt sorted_by_name rebuild_uid_cache rebuild_gid_cache
  refilled-joined c =
      (refl, rw (joined-gid_entries (sorted_by_name (with_contents sys d)) e.groups) refl)
