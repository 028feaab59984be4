-- ===== src/Userinfo/InMemory/Refines.antt =====
-- The cache of src/userinfo.c in memory against the cache that holds names and ids themselves.
use mathlib.Core.List.{map}
use mathlib.Core.Path.{ap₂}
use mathlib.Core.Option
use bindfs.Base.{
  ℕ, ◌+◌, ◌^◌, ◌<◌, ◌≡◌, refl, ap, ◌∙◌, List, Option, none, some, true, All, All-Mem, Mem-All,
  if◌then◌else◌, arith,
}
use bindfs.Base.Int.{sub_ℕ}
use bindfs.Base.Maybe.{Returns, Returns->>=, Returns-map}
use bindfs.Misc.Memory.{MemoryBlock, init_memory_block}
use bindfs.Userinfo.Cache.{
  Ending, at_end, incomplete, with_error, Databases, to_int, uid_cache_uid_sortcmp,
  uid_cache_uid_searchcmp, gid_cache_gid_sortcmp, gid_cache_gid_searchcmp, uid_cache_name_sortcmp,
  unless_error, rebuild_uid_cache, rebuild_gid_cache, sorted_by_name, rebuilt, uid_entries,
  gid_entries, is_main_group, is_member, uid_cache_lookup, gid_cache_lookup, cached_answer,
}
use bindfs.Userinfo.Spec.{IsSorting}
use bindfs.Userinfo.InMemory.{
  UidRecord, GidRecord, Tables, name_of, uid_records, gid_records, fill_tables, has_main_gid,
  has_member, tables_answer,
}
use bindfs.Userinfo.InMemory.Users.{
  Grows, IsStored, user_of, name_room, IsUser, AreUsers, uid_records-AreUsers,
}
use bindfs.Userinfo.InMemory.Groups.{IsUniform}
use bindfs.Userinfo.InMemory.Members.{
  StandFor, StandFor-Grows, group_of, member_room, gid_records-same,
}

map-unless_error :
    {A B : Type 0} (f : A → B) (end : Ending) (xs : List A)
    → map f (unless_error end xs) ≡ unless_error end (map f xs)
map-unless_error f at_end xs = refl
map-unless_error f incomplete xs = refl
map-unless_error f with_error xs = refl

All-unless_error :
    {A : Type 0} (P : A → Type 0) (end : Ending) (xs : List A)
    → All P xs
    → All P (unless_error end xs)
All-unless_error P at_end xs h = h
All-unless_error P incomplete xs h = h
All-unless_error P with_error xs h = tt

has_main_gid-map :
    (a : MemoryBlock) (o : Option UidRecord) (gid : ℕ)
    → has_main_gid o gid ≡ is_main_group (Option.map (user_of a) o) gid
has_main_gid-map a none gid = refl
has_main_gid-map a (some e) gid = refl

has_member-map :
    (a : MemoryBlock) (o : Option GidRecord) (uid : ℕ)
    → has_member a o uid ≡ is_member (Option.map (group_of a) o) uid
unfolding has_member is_member
has_member-map a none uid = refl
has_member-map a (some e) uid = refl

-- The tables stand for the rebuilt cache.
abbrev pub IsLoaded : Databases → Tables → Type 0
IsLoaded sys t =
    (map (user_of t.cache_memory_block) t.uid_cache ≡ (rebuilt sys).uid_cache)
    × (map (group_of t.cache_memory_block) t.gid_cache ≡ (rebuilt sys).gid_cache)

module _ (sys : Databases) (sorting : IsSorting sys) (uniform : IsUniform sys) where
  abbrev by_name : MemoryBlock → List UidRecord → List UidRecord
  by_name a es =
      sys.qsort (λ d e. sys.strcmp (name_of a d) (name_of a e)) (unless_error sys.users_end es)

  by_name-StandFor :
      (a : MemoryBlock) (es : List UidRecord)
      → All (IsStored a) es
      → map (user_of a) es ≡ uid_entries sys.users
      → StandFor a (by_name a es) (sorted_by_name sys)
  unfolding sorted_by_name rebuild_uid_cache
  by_name-StandFor a es stored same = (
    Mem-All _ (by_name a es) λ e m.
        All-Mem (IsStored a) (unless_error sys.users_end es) e
          (All-unless_error (IsStored a) sys.users_end es stored)
          (sorting.qsort_keeps (λ d e. sys.strcmp (name_of a d) (name_of a e)) _ e m),
    uniform.qsort_map (user_of a) (λ d e. uid_cache_name_sortcmp sys d e)
          (unless_error sys.users_end es)
        ∙ ap (λ ds. sys.qsort (λ d e. uid_cache_name_sortcmp sys d e) ds)
            (map-unless_error (user_of a) sys.users_end es ∙ ap (unless_error sys.users_end) same),
  )

  tables-IsLoaded :
      (b : MemoryBlock) (sorted : List UidRecord) (gs : List GidRecord)
      → map (user_of b) sorted ≡ sorted_by_name sys
      → map (group_of b) gs ≡ gid_entries sys (sorted_by_name sys) sys.groups
      → IsLoaded sys (record {
        uid_cache = sys.qsort (λ d e. to_int (sub_ℕ d.uid e.uid)) sorted;
        gid_cache = sys.qsort (λ d e. to_int (sub_ℕ d.gid e.gid)) (unless_error sys.groups_end gs);
        cache_memory_block = b;
      })
  unfolding rebuilt rebuild_gid_cache uid_cache_uid_sortcmp gid_cache_gid_sortcmp
  tables-IsLoaded b sorted gs users groups = (
    uniform.qsort_map (user_of b) (λ d e. uid_cache_uid_sortcmp d e) sorted
        ∙ ap (λ ds. sys.qsort (λ d e. uid_cache_uid_sortcmp d e) ds) users,
    uniform.qsort_map (group_of b) (λ d e. gid_cache_gid_sortcmp d e)
          (unless_error sys.groups_end gs)
        ∙ ap (λ ds. sys.qsort (λ d e. gid_cache_gid_sortcmp d e) ds)
            (map-unless_error (group_of b) sys.groups_end gs
              ∙ ap (unless_error sys.groups_end) groups),
  )

  fill_tables-IsLoaded :
      All IsUser sys.users
      → name_room sys.users + member_room sys.groups < 2 ^ 31
      → Returns (IsLoaded sys) (fill_tables sys)
  unfolding fill_tables init_memory_block
  fill_tables-IsLoaded users room =
      let start = init_memory_block 1024 in
      Returns->>= (AreUsers start sys.users) _ (uid_records sys.users start) _
        (uid_records-AreUsers sys.users start refl users (omega (arith, room)))
        λ (es, a) (same, stored, filled, grown, size).
          let stand = by_name-StandFor a es stored same in
          Returns->>=
            (λ (gs, c).
              (map (group_of c) gs ≡ gid_entries sys (sorted_by_name sys) sys.groups) × Grows a c)
            _ (gid_records sys (by_name a es) sys.groups a) _
            (gid_records-same sys sorting uniform (by_name a es) (sorted_by_name sys) sys.groups a
              stand filled (omega (arith, room, size)))
            λ (gs, b) (groups, grown').
              tables-IsLoaded b (by_name a es) gs
                (StandFor-Grows a b (by_name a es) (sorted_by_name sys) grown' stand).1 groups

  module _ (t : Tables) (loaded : IsLoaded sys t) where
    uid_lookup :
        (uid : ℕ)
        → Option.map
            (user_of t.cache_memory_block)
            (sys.bsearch (λ k e. to_int (sub_ℕ k e.uid)) uid t.uid_cache)
          ≡ uid_cache_lookup sys (rebuilt sys).uid_cache uid
    unfolding uid_cache_lookup uid_cache_uid_searchcmp
    uid_lookup uid =
        uniform.bsearch_map (user_of t.cache_memory_block) (λ k e. uid_cache_uid_searchcmp k e) uid
          t.uid_cache
        ∙ ap (λ es. sys.bsearch (λ k e. uid_cache_uid_searchcmp k e) uid es) loaded.0

    gid_lookup :
        (gid : ℕ)
        → Option.map
            (group_of t.cache_memory_block)
            (sys.bsearch (λ k g. to_int (sub_ℕ k g.gid)) gid t.gid_cache)
          ≡ gid_cache_lookup sys (rebuilt sys).gid_cache gid
    unfolding gid_cache_lookup gid_cache_gid_searchcmp
    gid_lookup gid =
        uniform.bsearch_map (group_of t.cache_memory_block) (λ k g. gid_cache_gid_searchcmp k g) gid
          t.gid_cache
        ∙ ap (λ gs. sys.bsearch (λ k g. gid_cache_gid_searchcmp k g) gid gs) loaded.1

    tables_answer-cached_answer :
        (uid gid : ℕ) → tables_answer sys t uid gid ≡ cached_answer sys (rebuilt sys) uid gid
    unfolding tables_answer cached_answer
    tables_answer-cached_answer uid gid =
        ap₂ (λ x y. if x then true else y)
          (has_main_gid-map t.cache_memory_block _ gid
            ∙ ap (λ o. is_main_group o gid) (uid_lookup uid))
          (has_member-map t.cache_memory_block _ uid ∙ ap (λ o. is_member o uid) (gid_lookup gid))

  -- The cache as src/userinfo.c keeps it, with names and ids of members behind offsets into one block
  -- of memory that moves when it grows, answers as the cache of names and ids does: it is filled
  -- without an abort, and every lookup then has the same answer. For names without a 0 in them, ids
  -- of 32 bits, less than 2 ^ 31 bytes of names and members, and a `qsort` and a `bsearch` that see
  -- the elements of an array through the comparison alone.
  pub fill_tables-answers :
      All IsUser sys.users
      → name_room sys.users + member_room sys.groups < 2 ^ 31
      → Returns
          (λ t.
            (uid gid : ℕ) → tables_answer sys t uid gid ≡ cached_answer sys (rebuilt sys) uid gid)
          (fill_tables sys)
  fill_tables-answers users room =
      Returns-map (IsLoaded sys) _ (fill_tables sys)
        (λ t loaded. tables_answer-cached_answer t loaded) (fill_tables-IsLoaded users room)
