-- ===== src/Userinfo/Complete.antt =====
-- `user_belongs_to_group` of src/userinfo.c over databases that it reads to the end.
use bindfs.Base.{
  ℕ, ◌^◌, ◌<◌, ◌≡◌, ◌≢◌, refl, sym, ap, ◌∙◌, ◌↔◌, inl, inr, List, [], ◌∷◌, Option, none, some, Bool,
  true, false, ==_self, if◌then◌else◌, All, Mem, All-Mem, Mem-All, arith,
}
use bindfs.Base.Text.{Bytes}
use bindfs.Userinfo.Cache.{
  UidCacheEntry, GidCacheEntry, Cache, Passwd, Group, Ending, at_end, incomplete, with_error,
  Databases, uid_cache_uid_sortcmp, uid_cache_uid_searchcmp, gid_cache_gid_sortcmp,
  gid_cache_gid_searchcmp, uid_cache_name_sortcmp, has_uid, uid_cache_lookup, gid_cache_lookup,
  uid_entries, unless_error, rebuild_uid_cache, onto_uids, member_uids, gid_entries,
  rebuild_gid_cache, sorted_by_name, rebuilt, init_user_cache, is_main_group, is_member,
  cached_answer, user_belongs_to_group,
}
use bindfs.Userinfo.Spec.{IsSorting, IsMainGroup, IsNamed, Belongs}
use bindfs.Userinfo.Rebuild.{unless_error-Mem, sorted_by_name-FromUser, gid_entries-Mem}
use bindfs.Userinfo.Answers.{user_belongs_to_group-Belongs}
use bindfs.Userinfo.Sorted.{IsFinding}
use bindfs.Userinfo.Searches.{search_id, search_name}

has_uid_lem : (uids : List ℕ) (uid : ℕ) → Mem uid uids → has_uid uids uid ≡ true
unfolding has_uid
has_uid_lem [] uid h = absurd h
has_uid_lem (u ∷ uids) uid (inl e) = ground arith
has_uid_lem (u ∷ uids) uid (inr h) = ground (arith, has_uid_lem uids uid h)

abbrev entry_of : Passwd → UidCacheEntry
entry_of pw = record { uid = pw.pw_uid; main_gid = pw.pw_gid; username = pw.pw_name }

Mem-uid_entries :
    (pws : List Passwd) (pw : Passwd) → Mem pw pws → Mem (entry_of pw) (uid_entries pws)
unfolding uid_entries
Mem-uid_entries [] pw h = absurd h
Mem-uid_entries (pw' ∷ pws) pw (inl e) = inl (ap entry_of e)
Mem-uid_entries (pw' ∷ pws) pw (inr h) = inr (Mem-uid_entries pws pw h)

Mem-unless_error :
    {A : Type 0} (end : Ending) (xs : List A) (a : A)
    → end ≢ with_error
    → Mem a xs
    → Mem a (unless_error end xs)
Mem-unless_error at_end xs a ne h = h
Mem-unless_error incomplete xs a ne h = h
Mem-unless_error with_error xs a ne h = absurd (ne refl)

Mem-onto_uids :
    (o : Option UidCacheEntry) (uid : ℕ) (uids : List ℕ) → Mem uid uids → Mem uid (onto_uids o uids)
Mem-onto_uids none uid uids h = h
Mem-onto_uids (some e) uid uids h = inr h

widen : (n : ℕ) → n < 2 ^ 31 → n < 2 ^ 32
widen n h = omega (arith, h)

either_true : (b : Bool) → (if b then true else true) ≡ true
either_true true = refl
either_true false = refl

-- The databases are read to the end and name nothing twice, and ids are small.
pub record IsProper (sys : Databases) : Type 0 where
  pub users_read : sys.users_end ≢ with_error
  pub groups_read : sys.groups_end ≢ with_error
  pub small_uids : All (λ pw. pw.pw_uid < 2 ^ 31) sys.users
  pub small_gids : All (λ gr. gr.gr_gid < 2 ^ 31) sys.groups
  pub one_user : (a b : Passwd) → Mem a sys.users → Mem b sys.users → a.pw_uid ≡ b.pw_uid → a ≡ b
  pub one_name : (a b : Passwd) → Mem a sys.users → Mem b sys.users → a.pw_name ≡ b.pw_name → a ≡ b
  pub one_group : (a b : Group) → Mem a sys.groups → Mem b sys.groups → a.gr_gid ≡ b.gr_gid → a ≡ b

module _ (sys : Databases) (sorting : IsSorting sys) (finding : IsFinding sys)
    (proper : IsProper sys) where
  Mem-sorted_by_name : (pw : Passwd) → Mem pw sys.users → Mem (entry_of pw) (sorted_by_name sys)
  unfolding sorted_by_name rebuild_uid_cache
  Mem-sorted_by_name pw m =
      finding.qsort_moves (λ a b. uid_cache_name_sortcmp sys a b) _ (entry_of pw)
        (Mem-unless_error sys.users_end (uid_entries sys.users) (entry_of pw) proper.users_read
          (Mem-uid_entries sys.users pw m))

  -- An entry of the user cache with the id or the name of a user is that user's.
  same_uid :
      (pw : Passwd) (e : UidCacheEntry)
      → Mem pw sys.users
      → Mem e (sorted_by_name sys)
      → e.uid ≡ pw.pw_uid
      → e ≡ entry_of pw
  same_uid pw e m n h =
      let (pw', m', from) = sorted_by_name-FromUser sys sorting e n in
      from
      ∙ ap entry_of (proper.one_user pw' pw m' m (ap (λ (d : UidCacheEntry). d.uid) (sym from) ∙ h))

  same_name :
      (pw : Passwd) (e : UidCacheEntry)
      → Mem pw sys.users
      → Mem e (sorted_by_name sys)
      → e.username ≡ pw.pw_name
      → e ≡ entry_of pw
  same_name pw e m n h =
      let (pw', m', from) = sorted_by_name-FromUser sys sorting e n in
      from
      ∙ ap entry_of
          (proper.one_name pw' pw m' m (ap (λ (d : UidCacheEntry). d.username) (sym from) ∙ h))

  Mem-member_uids :
      (names : List Bytes) (pw : Passwd)
      → Mem pw sys.users
      → Mem pw.pw_name names
      → Mem pw.pw_uid (member_uids sys (sorted_by_name sys) names)
  unfolding member_uids
  Mem-member_uids [] pw m h = absurd h
  Mem-member_uids (name ∷ names) pw m (inl e) =
      let (b, found, mb, q) =
        search_name sys sorting finding (entry_of pw) (Mem-sorted_by_name pw m) in
      rw (← e, found) (inl (sym (ap (λ (d : UidCacheEntry). d.uid) (same_name pw b m mb q))))
  Mem-member_uids (name ∷ names) pw m (inr h) =
      Mem-onto_uids _ pw.pw_uid _ (Mem-member_uids names pw m h)

  small_entries : All (λ e. e.uid < 2 ^ 31) (sorted_by_name sys)
  small_entries = Mem-All _ _ λ e m.
      let (pw, n, from) = sorted_by_name-FromUser sys sorting e m in
      rw from (All-Mem _ sys.users pw proper.small_uids n)

  abbrev group_entry : Group → GidCacheEntry
  group_entry gr = record { gid = gr.gr_gid; uids = member_uids sys (sorted_by_name sys) gr.gr_mem }

  Mem-gid_entries :
      (grs : List Group) (gr : Group)
      → Mem gr grs
      → Mem (group_entry gr) (gid_entries sys (sorted_by_name sys) grs)
  unfolding gid_entries
  Mem-gid_entries [] gr h = absurd h
  Mem-gid_entries (gr' ∷ grs) gr (inl e) = inl (ap group_entry e)
  Mem-gid_entries (gr' ∷ grs) gr (inr h) = inr (Mem-gid_entries grs gr h)

  -- What the group cache holds before it is sorted.
  from_group :
      (e : GidCacheEntry)
      → Mem e (rebuild_gid_cache sys (sorted_by_name sys))
      → (gr : Group) × Mem gr sys.groups × (e ≡ group_entry gr)
  unfolding rebuild_gid_cache
  from_group e h =
      gid_entries-Mem sys sorting (sorted_by_name sys) sys.groups e
        (unless_error-Mem sys.groups_end _ e h)

  small_groups : All (λ e. e.gid < 2 ^ 31) (rebuild_gid_cache sys (sorted_by_name sys))
  small_groups = Mem-All _ _ λ e m.
      let (gr, n, from) = from_group e m in rw from (All-Mem _ sys.groups gr proper.small_gids n)

  found_by_main :
      (uid gid : ℕ)
      → IsMainGroup sys uid gid
      → is_main_group (uid_cache_lookup sys (rebuilt sys).uid_cache uid) gid ≡ true
  unfolding uid_cache_lookup rebuilt uid_cache_uid_searchcmp uid_cache_uid_sortcmp
  found_by_main uid gid v =
      let small : uid < 2 ^ 31 =
        rw (← v.has_uid) (All-Mem _ sys.users v.entry proper.small_uids v.listed) in
      let (b, found, mb, q) =
        search_id sys sorting finding (λ e. e.uid) (sorted_by_name sys) uid (entry_of v.entry) small
          small_entries (Mem-sorted_by_name v.entry v.listed) v.has_uid in
      rw (found, same_uid v.entry b v.listed mb (q ∙ sym v.has_uid), v.has_gid) (==_self gid)

  same_group :
      (gr : Group) (e : GidCacheEntry)
      → Mem gr sys.groups
      → Mem e (rebuild_gid_cache sys (sorted_by_name sys))
      → e.gid ≡ gr.gr_gid
      → e ≡ group_entry gr
  same_group gr e m n h =
      let (gr', m', from) = from_group e n in
      from
      ∙ ap group_entry
          (proper.one_group gr' gr m' m (ap (λ (d : GidCacheEntry). d.gid) (sym from) ∙ h))

  Mem-rebuilt :
      (gr : Group)
      → Mem gr sys.groups
      → Mem (group_entry gr) (rebuild_gid_cache sys (sorted_by_name sys))
  unfolding rebuild_gid_cache
  Mem-rebuilt gr m =
      Mem-unless_error sys.groups_end (gid_entries sys (sorted_by_name sys) sys.groups)
        (group_entry gr) proper.groups_read (Mem-gid_entries sys.groups gr m)

  found_by_name :
      (uid gid : ℕ)
      → IsNamed sys uid gid
      → is_member (gid_cache_lookup sys (rebuilt sys).gid_cache gid) uid ≡ true
  unfolding gid_cache_lookup rebuilt gid_cache_gid_searchcmp gid_cache_gid_sortcmp is_member
  found_by_name uid gid v =
      let small : gid < 2 ^ 31 =
        rw (← v.has_gid) (All-Mem _ sys.groups v.group proper.small_gids v.group_listed) in
      let (b, found, mb, q) =
        search_id sys sorting finding (λ e. e.gid) (rebuild_gid_cache sys (sorted_by_name sys)) gid
          (group_entry v.group) small small_groups (Mem-rebuilt v.group v.group_listed) v.has_gid in
      rw (found, same_group v.group b v.group_listed mb (q ∙ sym v.has_gid))
        (has_uid_lem _ uid
          (rw (← v.has_uid) (Mem-member_uids v.group.gr_mem v.user v.user_listed v.named)))

  user_belongs_to_group-answers :
      (c : Cache) (uid gid : ℕ)
      → c.cache_rebuild_requested ≡ true
      → Belongs sys uid gid
      → (user_belongs_to_group sys uid gid c).0 ≡ true
  unfolding user_belongs_to_group init_user_cache cached_answer
  user_belongs_to_group-answers c uid gid requested (inl v) =
      rw (requested, found_by_main uid gid v) refl
  user_belongs_to_group-answers c uid gid requested (inr v) =
      rw (requested, found_by_name uid gid v)
        (either_true (is_main_group (uid_cache_lookup sys (rebuilt sys).uid_cache uid) gid))

  -- `user_belongs_to_group` says yes of exactly the users and groups that the databases put together:
  -- by the user's own entry, or by the user's name among the members of the group. After it has
  -- rebuilt the cache, from databases that it can read to the end, that name no user and no group
  -- twice, and whose ids are below 2 ^ 31; for a C library whose `qsort`, `bsearch` and `strcmp` do
  -- what they document.
  pub user_belongs_to_group_lem :
      (c : Cache) (uid gid : ℕ)
      → c.cache_rebuild_requested ≡ true
      → uid < 2 ^ 31
      → gid < 2 ^ 31
      → ((user_belongs_to_group sys uid gid c).0 ≡ true) ↔ Belongs sys uid gid
  user_belongs_to_group_lem c uid gid requested small_uid small_gid = (
    λ h.
        user_belongs_to_group-Belongs sys sorting c uid gid (inl requested)
          (Mem-All _ sys.users λ pw m. widen pw.pw_uid (All-Mem _ sys.users pw proper.small_uids m))
          (Mem-All _ sys.groups
            λ gr m. widen gr.gr_gid (All-Mem _ sys.groups gr proper.small_gids m))
          (widen uid small_uid) (widen gid small_gid) h,
    user_belongs_to_group-answers c uid gid requested,
  )
