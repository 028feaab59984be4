-- ===== src/Userinfo/Answers.antt =====
-- What `user_belongs_to_group` of src/userinfo.c answers, against the databases.
use bindfs.Base.{
  ℕ, ◌^◌, ◌<◌, ◌≡◌, refl, sym, ap, ◌∙◌, ◌⊎◌, inl, inr, List, [], ◌∷◌, Option, none, some, true,
  Bool-cases, All, Mem, All-Mem, ◌==◌, if◌then◌else◌, arith,
}
use bindfs.Base.Int.{pos, sub_ℕ}
use bindfs.Userinfo.Cache.{
  UidCacheEntry, GidCacheEntry, Cache, Databases, to_int, uid_cache_uid_searchcmp,
  gid_cache_gid_searchcmp, has_uid, uid_cache_lookup, gid_cache_lookup, init_user_cache,
  is_main_group, is_member, cached_answer, user_belongs_to_group,
}
use bindfs.Userinfo.Spec.{IsSorting, IsMainGroup, IsNamed, Belongs, FromUser, FromGroup, IsCached}
use bindfs.Userinfo.Rebuild.{init_user_cache-IsCached}

-- The truncation to an `int` loses nothing that tells two ids apart.
pub to_int-zero : (a b : ℕ) → a < 2 ^ 32 → b < 2 ^ 32 → to_int (sub_ℕ a b) ≡ pos 0 → a ≡ b
unfolding to_int
to_int-zero a b ha hb h = ground arith

searched_uid :
    (key : ℕ) (e : UidCacheEntry) (id : ℕ)
    → e.uid ≡ id
    → key < 2 ^ 32
    → id < 2 ^ 32
    → uid_cache_uid_searchcmp key e ≡ pos 0
    → id ≡ key
unfolding uid_cache_uid_searchcmp
searched_uid key e id from hk hi z = sym (to_int-zero key id hk hi (rw from at z))

searched_gid :
    (key : ℕ) (e : GidCacheEntry) (id : ℕ)
    → e.gid ≡ id
    → key < 2 ^ 32
    → id < 2 ^ 32
    → gid_cache_gid_searchcmp key e ≡ pos 0
    → id ≡ key
unfolding gid_cache_gid_searchcmp
searched_gid key e id from hk hi z = sym (to_int-zero key id hk hi (rw from at z))

has_uid-Mem : (uids : List ℕ) (uid : ℕ) → has_uid uids uid ≡ true → Mem uid uids
unfolding has_uid
has_uid-Mem [] uid h = cc
has_uid-Mem (u ∷ uids) uid h = elim (Bool-cases (u == uid)) [
  | inl e ↦ inl (ground arith)
  | inr e ↦ inr (has_uid-Mem uids uid (rw e at h))
]

module _ (sys : Databases) (sorting : IsSorting sys) where
  lookup-IsMainGroup :
      (c : Cache) (uid gid : ℕ) (e : UidCacheEntry)
      → IsCached sys c
      → All (λ pw. pw.pw_uid < 2 ^ 32) sys.users
      → uid < 2 ^ 32
      → uid_cache_lookup sys c.uid_cache uid ≡ some e
      → e.main_gid ≡ gid
      → IsMainGroup sys uid gid
  unfolding uid_cache_lookup uid_cache_uid_searchcmp
  lookup-IsMainGroup c uid gid e cached small small_uid h is_main =
      let (m, z) =
        sorting.bsearch_finds (λ k e'. uid_cache_uid_searchcmp k e') uid c.uid_cache e h in
      let (pw, listed, from) = All-Mem (FromUser sys) c.uid_cache e cached.from_users m in
      record {
        entry = pw;
        listed = listed;
        has_uid =
            searched_uid uid e pw.pw_uid (ap (λ (d : UidCacheEntry). d.uid) from) small_uid
              (All-Mem _ sys.users pw small listed) z;
        has_gid = ap (λ (d : UidCacheEntry). d.main_gid) (sym from) ∙ is_main;
      }

  lookup-IsNamed :
      (c : Cache) (uid gid : ℕ) (e : GidCacheEntry)
      → IsCached sys c
      → All (λ gr. gr.gr_gid < 2 ^ 32) sys.groups
      → gid < 2 ^ 32
      → gid_cache_lookup sys c.gid_cache gid ≡ some e
      → has_uid e.uids uid ≡ true
      → IsNamed sys uid gid
  unfolding gid_cache_lookup gid_cache_gid_searchcmp
  lookup-IsNamed c uid gid e cached small small_gid h found =
      let (m, z) =
        sorting.bsearch_finds (λ k e'. gid_cache_gid_searchcmp k e') gid c.gid_cache e h in
      let (gr, listed, from, members) =
        All-Mem (FromGroup sys) c.gid_cache e cached.from_groups m in
      let (pw, user_listed, named, q) =
        All-Mem _ e.uids uid members (has_uid-Mem e.uids uid found) in
      record {
        group = gr;
        user = pw;
        group_listed = listed;
        user_listed = user_listed;
        named = named;
        has_uid = q;
        has_gid =
            searched_gid gid e gr.gr_gid from small_gid (All-Mem _ sys.groups gr small listed) z;
      }

  module _ (c : Cache) (uid gid : ℕ) (cached : IsCached sys c)
      (small_users : All (λ pw. pw.pw_uid < 2 ^ 32) sys.users)
      (small_groups : All (λ gr. gr.gr_gid < 2 ^ 32) sys.groups) (small_uid : uid < 2 ^ 32)
      (small_gid : gid < 2 ^ 32) where
    as_member :
        (g : Option GidCacheEntry)
        → gid_cache_lookup sys c.gid_cache gid ≡ g
        → is_member g uid ≡ true
        → Belongs sys uid gid
    unfolding is_member
    as_member none e h = cc
    as_member (some entry) e h =
        inr (lookup-IsNamed c uid gid entry cached small_groups small_gid e h)

    answered :
        (u : Option UidCacheEntry) (g : Option GidCacheEntry)
        → uid_cache_lookup sys c.uid_cache uid ≡ u
        → gid_cache_lookup sys c.gid_cache gid ≡ g
        → (if is_main_group u gid then true else is_member g uid) ≡ true
        → Belongs sys uid gid
    answered none g e k h = as_member g k h
    answered (some entry) g e k h = elim (Bool-cases (entry.main_gid == gid)) [
      | inl q ↦
          inl
            (lookup-IsMainGroup c uid gid entry cached small_users small_uid e (ground (arith, q)))
      | inr q ↦ as_member g k (rw q at h)
    ]

  -- `user_belongs_to_group` says yes only of a user and a group that the databases put together,
  -- whether it rebuilds the cache first or finds one that the databases filled. For ids of 32 bits,
  -- and a C library whose `qsort`, `bsearch` and `strcmp` do what they document.
  pub user_belongs_to_group-Belongs :
      (c : Cache) (uid gid : ℕ)
      → (c.cache_rebuild_requested ≡ true) ⊎ IsCached sys c
      → All (λ pw. pw.pw_uid < 2 ^ 32) sys.users
      → All (λ gr. gr.gr_gid < 2 ^ 32) sys.groups
      → uid < 2 ^ 32
      → gid < 2 ^ 32
      → (user_belongs_to_group sys uid gid c).0 ≡ true
      → Belongs sys uid gid
  unfolding user_belongs_to_group cached_answer
  user_belongs_to_group-Belongs c uid gid fresh small_users small_groups small_uid small_gid h =
      answered (init_user_cache sys c) uid gid (init_user_cache-IsCached sys sorting c fresh)
        small_users small_groups small_uid small_gid _ _ refl refl h
