-- ===== src/Userinfo/Threads.antt =====
-- Threads that call `user_belongs_to_group` of src/userinfo.c at the same time, while signals arrive
-- and the databases change. A step of a thread is one access to what the threads share, or one of the
-- two rounds through the databases.
pub mod Locks
pub mod Rounds
pub mod Recent
pub mod Coming
pub mod Fresh
pub mod Answered
pub mod Alone
use bindfs.Base.{ℕ, zero, suc, ◌+◌, ◌-◌, List, [], ◌∷◌, Option, none, some, Bool, true, false, not}
use bindfs.Base.{◌&&◌, ◌==◌, if◌then◌else◌}
use bindfs.Userinfo.Cache.{
  UidCacheEntry, Cache, Passwd, Group, Ending, Databases, uid_cache_uid_sortcmp,
  gid_cache_gid_sortcmp, sorted_by_name, rebuild_gid_cache, cached_answer, invalidate_user_cache,
}

-- What a round of `getpwent` and a round of `getgrent` find that end at some moment, and how they end.
-- The functions of the C library stay the same.
pub record Contents : Type 0 where
  pub users : List Passwd
  pub users_end : Ending
  pub groups : List Group
  pub groups_end : Ending

abbrev pub with_contents : Databases → Contents → Databases
with_contents sys d = record sys {
  users = d.users;
  users_end = d.users_end;
  groups = d.groups;
  groups_end = d.groups_end;
}

-- Where a thread stands in `user_belongs_to_group`, with the arguments of the call, and the answer
-- once there is one: before the first test of `cache_rebuild_requested`; in `init_user_cache` before
-- the lock, before the second test, before the flag is cleared, in the round of `getpwent`, in that of
-- `getgrent` with the entries of users sorted by name, and before the lock is given back; before the
-- lock for reading, before the lookups, and before that lock is given back.
pub data Place : Type 0 where
  resting : Place
  entered want_write testing clearing reading_users unlocking want_read looking : ℕ → ℕ → Place
  reading_groups : ℕ → ℕ → List UidCacheEntry → Place
  leaving answered : ℕ → ℕ → Bool → Place

-- `cache_lock` is held by one writer or by readers.
pub record Shared : Type 0 where
  pub cache : Cache
  pub writer : Option ℕ
  pub readers : ℕ

abbrev pub is_held : Option ℕ → Bool
is_held none = false
is_held (some thread) = true

abbrev pub is_free : Shared → Bool
is_free s = not (is_held s.writer) && (s.readers == 0)

abbrev pub with_cache : Shared → Cache → Shared
with_cache s c = record s { cache = c }

-- `rebuild_gid_cache` and the sorting behind it. The entries of users, which the code has in the cache
-- by then, are an argument: the lock keeps the other threads from looking at them. A signal may have
-- set the flag again.
unfoldable pub refilled : Databases → List UidCacheEntry → Cache → Cache
unfolding rebuild_gid_cache uid_cache_uid_sortcmp gid_cache_gid_sortcmp
refilled sys users c = record c {
  uid_cache = sys.qsort (λ a b. uid_cache_uid_sortcmp a b) users;
  gid_cache = sys.qsort (λ a b. gid_cache_gid_sortcmp a b) (rebuild_gid_cache sys users);
}

-- The next step of a thread; one that waits for the lock stays where it is.
unfoldable pub advance : Databases → ℕ → Shared → Place → Shared × Place
unfolding sorted_by_name refilled cached_answer
advance sys thread s resting = (s, resting)
advance sys thread s (entered uid gid) =
    (s, if s.cache.cache_rebuild_requested then want_write uid gid else want_read uid gid)
advance sys thread s (want_write uid gid) =
    if is_free s
    then (record s { writer = some thread }, testing uid gid)
    else (s, want_write uid gid)
advance sys thread s (testing uid gid) =
    (s, if s.cache.cache_rebuild_requested then clearing uid gid else unlocking uid gid)
advance sys thread s (clearing uid gid) =
    (with_cache s (record s.cache { cache_rebuild_requested = false }), reading_users uid gid)
advance sys thread s (reading_users uid gid) = (s, reading_groups uid gid (sorted_by_name sys))
advance sys thread s (reading_groups uid gid users) =
    (with_cache s (refilled sys users s.cache), unlocking uid gid)
advance sys thread s (unlocking uid gid) = (record s { writer = none }, want_read uid gid)
advance sys thread s (want_read uid gid) =
    if is_held s.writer
    then (s, want_read uid gid)
    else (record s { readers = s.readers + 1 }, looking uid gid)
advance sys thread s (looking uid gid) = (s, leaving uid gid (cached_answer sys s.cache uid gid))
advance sys thread s (leaving uid gid answer) =
    (record s { readers = s.readers - 1 }, answered uid gid answer)
advance sys thread s (answered uid gid answer) = (s, answered uid gid answer)

-- A signal, a call that a thread begins, or the next step of a thread.
pub data Event : Type 0 where
  signal : Event
  call : ℕ → ℕ → ℕ → Event
  next_step : ℕ → Event

-- `now` counts the events.
pub record System : Type 0 where
  pub shared : Shared
  pub places : ℕ → Place
  pub now : ℕ

abbrev pub set_place : (ℕ → Place) → ℕ → Place → ℕ → Place
set_place places thread p k = if thread == k then p else places k

-- A thread begins a call when it is in none.
abbrev pub begin_call : ℕ → ℕ → Place → Place
begin_call uid gid resting = entered uid gid
begin_call uid gid (answered _ _ _) = entered uid gid
begin_call uid gid p = p

abbrev pub moved : System → ℕ → Shared × Place → System
moved s thread (shared, p) = record {
  shared = shared;
  places = set_place s.places thread p;
  now = s.now + 1;
}

module _ (sys : Databases) (contents : ℕ → Contents) where
  -- `invalidate_user_cache` is all that the signal handler does.
  unfoldable pub deliver : Event → System → System
  unfolding advance invalidate_user_cache
  deliver signal s = record s {
    shared = with_cache s.shared (invalidate_user_cache s.shared.cache);
    now = s.now + 1;
  }
  deliver (call thread uid gid) s = moved s thread (s.shared, begin_call uid gid (s.places thread))
  deliver (next_step thread) s =
      moved s thread
        (advance (with_contents sys (contents s.now)) thread s.shared (s.places thread))

  unfoldable pub run : List Event → System → System
  unfolding deliver
  run [] s = s
  run (e ∷ es) s = run es (deliver e s)

-- Before the first call.
abbrev pub initial : System
initial = record {
  shared = record {
    cache = record { uid_cache = []; gid_cache = []; cache_rebuild_requested = true };
    writer = none;
    readers = 0;
  };
  places = λ k. resting;
  now = 0;
}
