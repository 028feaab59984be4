-- ===== src/Userinfo/Cache.antt =====
-- The cache of users and groups of src/userinfo.c. An entry holds its text or its list of ids, in
-- place of the offset into the memory block that it has in Userinfo/InMemory.
use bindfs.Base.{ℕ, ◌-◌, ◌^◌, List, [], ◌∷◌, Option, none, some, Bool, true, false}
use bindfs.Base.{◌==◌, ltb, if◌then◌else◌}
use bindfs.Base.Int.{ℤ, pos, negsuc, sub_ℕ}
use bindfs.Base.Text.{Bytes}
use bindfs.Userinfo.Names.{to_id}

pub record UidCacheEntry : Type 0 where
  pub uid : ℕ
  pub main_gid : ℕ
  pub username : Bytes

pub record GidCacheEntry : Type 0 where
  pub gid : ℕ
  pub uids : List ℕ

pub record Cache : Type 0 where
  pub uid_cache : List UidCacheEntry
  pub gid_cache : List GidCacheEntry
  pub cache_rebuild_requested : Bool

-- `struct passwd` and `struct group`, in the fields that are read.
pub record Passwd : Type 0 where
  pub pw_name : Bytes
  pub pw_uid : ℕ
  pub pw_gid : ℕ

pub record Group : Type 0 where
  pub gr_gid : ℕ
  pub gr_mem : List Bytes

-- How a round of `getpwent` or `getgrent` ends: with `errno` 0, with ENOENT, or with another error.
pub data Ending : Type 0 where
  at_end incomplete with_error : Ending

-- The databases, and the functions of the C library that sort and search.
pub record Databases : Type 1 where
  pub users : List Passwd
  pub users_end : Ending
  pub groups : List Group
  pub groups_end : Ending
  pub strcmp : Bytes → Bytes → ℤ
  pub qsort : {A : Type 0} → (A → A → ℤ) → List A → List A
  pub bsearch : {K A : Type 0} → (K → A → ℤ) → K → List A → Option A

-- The conversion of a `long` to an `int`.
abbrev pub signed_32 : ℕ → ℤ
signed_32 n = if ltb n (2 ^ 31) then pos n else negsuc (2 ^ 32 - 1 - n)

unfoldable pub to_int : ℤ → ℤ
to_int n = signed_32 (to_id n)

unfoldable pub uid_cache_uid_sortcmp : UidCacheEntry → UidCacheEntry → ℤ
unfolding to_int
uid_cache_uid_sortcmp a b = to_int (sub_ℕ a.uid b.uid)

unfoldable pub uid_cache_uid_searchcmp : ℕ → UidCacheEntry → ℤ
unfolding to_int
uid_cache_uid_searchcmp key entry = to_int (sub_ℕ key entry.uid)

unfoldable pub gid_cache_gid_sortcmp : GidCacheEntry → GidCacheEntry → ℤ
unfolding to_int
gid_cache_gid_sortcmp a b = to_int (sub_ℕ a.gid b.gid)

unfoldable pub gid_cache_gid_searchcmp : ℕ → GidCacheEntry → ℤ
unfolding to_int
gid_cache_gid_searchcmp key entry = to_int (sub_ℕ key entry.gid)

-- The loop over `uids` at the end of `user_belongs_to_group`.
unfoldable pub has_uid : List ℕ → ℕ → Bool
has_uid [] uid = false
has_uid (u ∷ uids) uid = let rest = has_uid uids uid in if u == uid then true else rest

unfoldable pub uid_entries : List Passwd → List UidCacheEntry
uid_entries [] = []
uid_entries (pw ∷ pws) =
    record { uid = pw.pw_uid; main_gid = pw.pw_gid; username = pw.pw_name } ∷ uid_entries pws

-- The entries read are kept, but after an error none is.
abbrev pub unless_error : {A : Type 0} → Ending → List A → List A
unless_error at_end entries = entries
unless_error incomplete entries = entries
unless_error with_error entries = []

abbrev pub onto_uids : Option UidCacheEntry → List ℕ → List ℕ
onto_uids none uids = uids
onto_uids (some entry) uids = entry.uid ∷ uids

abbrev pub is_main_group : Option UidCacheEntry → ℕ → Bool
is_main_group none gid = false
is_main_group (some entry) gid = entry.main_gid == gid

unfoldable pub is_member : Option GidCacheEntry → ℕ → Bool
unfolding has_uid
is_member none uid = false
is_member (some entry) uid = has_uid entry.uids uid

module _ (sys : Databases) where
  abbrev pub uid_cache_name_sortcmp : UidCacheEntry → UidCacheEntry → ℤ
  uid_cache_name_sortcmp a b = sys.strcmp a.username b.username

  abbrev pub uid_cache_name_searchcmp : Bytes → UidCacheEntry → ℤ
  uid_cache_name_searchcmp key entry = sys.strcmp key entry.username

  unfoldable pub uid_cache_lookup : List UidCacheEntry → ℕ → Option UidCacheEntry
  unfolding uid_cache_uid_searchcmp
  uid_cache_lookup uid_cache key = sys.bsearch (λ k e. uid_cache_uid_searchcmp k e) key uid_cache

  unfoldable pub gid_cache_lookup : List GidCacheEntry → ℕ → Option GidCacheEntry
  unfolding gid_cache_gid_searchcmp
  gid_cache_lookup gid_cache key = sys.bsearch (λ k e. gid_cache_gid_searchcmp k e) key gid_cache

  unfoldable pub rebuild_uid_cache : List UidCacheEntry
  unfolding uid_entries
  rebuild_uid_cache = unless_error sys.users_end (uid_entries sys.users)

  -- The members of a group that the user cache knows.
  unfoldable pub member_uids : List UidCacheEntry → List Bytes → List ℕ
  member_uids uid_cache [] = []
  member_uids uid_cache (name ∷ names) =
      onto_uids (sys.bsearch (λ k e. uid_cache_name_searchcmp k e) name uid_cache)
        (member_uids uid_cache names)

  unfoldable pub gid_entries : List UidCacheEntry → List Group → List GidCacheEntry
  unfolding member_uids
  gid_entries uid_cache [] = []
  gid_entries uid_cache (gr ∷ grs) =
      record { gid = gr.gr_gid; uids = member_uids uid_cache gr.gr_mem } ∷ gid_entries uid_cache grs

  unfoldable pub rebuild_gid_cache : List UidCacheEntry → List GidCacheEntry
  unfolding gid_entries
  rebuild_gid_cache uid_cache = unless_error sys.groups_end (gid_entries uid_cache sys.groups)

  -- The user cache is sorted by name while the groups are read, and by id after that.
  unfoldable pub sorted_by_name : List UidCacheEntry
  unfolding rebuild_uid_cache
  sorted_by_name = sys.qsort (λ a b. uid_cache_name_sortcmp a b) rebuild_uid_cache

  unfoldable pub rebuilt : Cache
  unfolding sorted_by_name rebuild_gid_cache uid_cache_uid_sortcmp gid_cache_gid_sortcmp
  rebuilt = record {
    uid_cache = sys.qsort (λ a b. uid_cache_uid_sortcmp a b) sorted_by_name;
    gid_cache = sys.qsort (λ a b. gid_cache_gid_sortcmp a b) (rebuild_gid_cache sorted_by_name);
    cache_rebuild_requested = false;
  }

  unfoldable pub init_user_cache : Cache → Cache
  unfolding rebuilt
  init_user_cache c = if c.cache_rebuild_requested then rebuilt else c

  -- The answer from a cache as it stands.
  unfoldable pub cached_answer : Cache → ℕ → ℕ → Bool
  unfolding uid_cache_lookup gid_cache_lookup is_member
  cached_answer c uid gid =
      if is_main_group (uid_cache_lookup c.uid_cache uid) gid
      then true
      else is_member (gid_cache_lookup c.gid_cache gid) uid

  unfoldable pub user_belongs_to_group : ℕ → ℕ → Cache → Bool × Cache
  unfolding init_user_cache cached_answer
  user_belongs_to_group uid gid c = let c' = init_user_cache c in (cached_answer c' uid gid, c')

unfoldable pub invalidate_user_cache : Cache → Cache
invalidate_user_cache c = record c { cache_rebuild_requested = true }
