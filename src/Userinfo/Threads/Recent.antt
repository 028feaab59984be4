-- ===== src/Userinfo/Threads/Recent.antt =====
-- The cache of src/userinfo.c is from after some moment, and so is what threads put into it.
use bindfs.Base.{ℕ, ◌+◌, ◌≤◌, ◌<◌, ◌≡◌, refl, inl, inr, List, Bool-cases, arith}
use bindfs.Userinfo.Cache.{
  UidCacheEntry, Cache, Databases, sorted_by_name, rebuilt, invalidate_user_cache,
}
use bindfs.Userinfo.Threads.{
  Contents, with_contents, is_held, is_free, begin_call, Place, resting, entered, want_write,
  testing, clearing, reading_users, reading_groups, unlocking, want_read, looking, leaving,
  answered, Shared, refilled, advance, Event, signal, call, next_step, System, deliver,
}
use bindfs.Userinfo.Threads.Locks.{set_place-cases}
use bindfs.Userinfo.Threads.Rounds.{joined, refilled-joined}

module _ (sys : Databases) (contents : ℕ → Contents) (since : ℕ) where
  abbrev pub at_moment : ℕ → Databases
  at_moment m = with_contents sys (contents m)

  -- The users as a round found them that ended at the one moment, the groups at the other.
  abbrev pub at_moments : ℕ → ℕ → Databases
  at_moments m n = with_contents sys (joined (contents m) (contents n))

  -- The cache is what two rounds found one after the other that ended not before `since`.
  abbrev pub IsFresh : ℕ → Cache → Type 0
  IsFresh now c =
      (m : ℕ) × (n : ℕ) × (since ≤ m)
      × (m < n)
      × (n < now)
      × (c.uid_cache ≡ (rebuilt (at_moments m n)).uid_cache)
      × (c.gid_cache ≡ (rebuilt (at_moments m n)).gid_cache)

  -- The users that a thread has read are not from before `since`.
  abbrev pub IsRecent : ℕ → Place → Type 0
  IsRecent now (reading_groups uid gid users) =
      (m : ℕ) × (since ≤ m) × (m < now) × (users ≡ sorted_by_name (at_moment m))
  IsRecent now p = Unit

  abbrev pub AreRecent : System → Type 0
  AreRecent s = (k : ℕ) → IsRecent s.now (s.places k)

  abbrev pub IsCurrent : System → Type 0
  IsCurrent s = AreRecent s × IsFresh s.now s.shared.cache

  pub IsFresh-later : (now : ℕ) (c : Cache) → IsFresh now c → IsFresh (now + 1) c
  IsFresh-later now c (m, n, after, between, before, users, groups) =
      (m, n, after, between, omega arith, users, groups)

  pub IsRecent-later : (now : ℕ) (p : Place) → IsRecent now p → IsRecent (now + 1) p
  IsRecent-later now (reading_groups uid gid users) (m, after, before, e) =
      (m, after, omega arith, e)
  IsRecent-later now p h = tt

  begun-IsRecent :
      (now uid gid : ℕ) (p : Place) → IsRecent now p → IsRecent (now + 1) (begin_call uid gid p)
  begun-IsRecent now uid gid (reading_groups u g users) h =
      IsRecent-later now (reading_groups u g users) h
  begun-IsRecent now uid gid resting h = tt
  begun-IsRecent now uid gid (entered u g) h = tt
  begun-IsRecent now uid gid (want_write u g) h = tt
  begun-IsRecent now uid gid (testing u g) h = tt
  begun-IsRecent now uid gid (clearing u g) h = tt
  begun-IsRecent now uid gid (reading_users u g) h = tt
  begun-IsRecent now uid gid (unlocking u g) h = tt
  begun-IsRecent now uid gid (want_read u g) h = tt
  begun-IsRecent now uid gid (looking u g) h = tt
  begun-IsRecent now uid gid (leaving u g b) h = tt
  begun-IsRecent now uid gid (answered u g b) h = tt

  -- A thread that reads the groups read the users in the step before.
  advance-IsRecent :
      (now thread : ℕ) (s : Shared) (p : Place)
      → since ≤ now
      → IsRecent (now + 1) (advance (at_moment now) thread s p).1
  unfolding advance
  advance-IsRecent now thread s (reading_users uid gid) late = (now, late, omega arith, refl)
  advance-IsRecent now thread s (entered uid gid) late =
      elim (Bool-cases s.cache.cache_rebuild_requested) [ inl e ↦ rw e tt | inr e ↦ rw e tt ]
  advance-IsRecent now thread s (want_write uid gid) late = elim (Bool-cases (is_free s)) [
    | inl e ↦ rw e tt
    | inr e ↦ rw e tt
  ]
  advance-IsRecent now thread s (testing uid gid) late =
      elim (Bool-cases s.cache.cache_rebuild_requested) [ inl e ↦ rw e tt | inr e ↦ rw e tt ]
  advance-IsRecent now thread s (want_read uid gid) late = elim (Bool-cases (is_held s.writer)) [
    | inl e ↦ rw e tt
    | inr e ↦ rw e tt
  ]
  advance-IsRecent now thread s p late = tt

  pub deliver-AreRecent :
      (e : Event) (s : System) → since ≤ s.now → AreRecent s → AreRecent (deliver sys contents e s)
  unfolding deliver
  deliver-AreRecent signal s late h = λ k. IsRecent-later s.now (s.places k) (h k)
  deliver-AreRecent (call thread uid gid) s late h =
      set_place-cases (λ k p. IsRecent (s.now + 1) p) s.places thread _
        (begun-IsRecent s.now uid gid (s.places thread) (h thread))
        λ k other. IsRecent-later s.now (s.places k) (h k)
  deliver-AreRecent (next_step thread) s late h =
      set_place-cases (λ k p. IsRecent (s.now + 1) p) s.places thread _
        (advance-IsRecent s.now thread s.shared (s.places thread) late)
        λ k other. IsRecent-later s.now (s.places k) (h k)

  pub refilled-IsFresh :
      (now : ℕ) (uid gid : ℕ) (users : List UidCacheEntry) (c : Cache)
      → IsRecent now (reading_groups uid gid users)
      → IsFresh (now + 1) (refilled (at_moment now) users c)
  refilled-IsFresh now uid gid users c (m, after, before, e) =
      let (us, gs) = refilled-joined sys (contents m) (contents now) c in
      (m, now, after, before, omega arith, rw e us, rw e gs)

  -- A thread steps and leaves the cache, or fills it.
  pub advance-IsFresh :
      (now thread : ℕ) (s : Shared) (p : Place)
      → IsRecent now p
      → IsFresh now s.cache
      → IsFresh (now + 1) (advance (at_moment now) thread s p).0.cache
  unfolding advance
  advance-IsFresh now thread s (reading_groups uid gid users) recent h =
      refilled-IsFresh now uid gid users s.cache recent
  advance-IsFresh now thread s (entered uid gid) recent h = IsFresh-later now s.cache h
  advance-IsFresh now thread s (want_write uid gid) recent h = elim (Bool-cases (is_free s)) [
    | inl e ↦ rw e (IsFresh-later now s.cache h)
    | inr e ↦ rw e (IsFresh-later now s.cache h)
  ]
  advance-IsFresh now thread s (want_read uid gid) recent h = elim (Bool-cases (is_held s.writer)) [
    | inl e ↦ rw e (IsFresh-later now s.cache h)
    | inr e ↦ rw e (IsFresh-later now s.cache h)
  ]
  advance-IsFresh now thread s p recent h = IsFresh-later now s.cache h

  pub deliver-IsCurrent :
      (e : Event) (s : System) → since ≤ s.now → IsCurrent s → IsCurrent (deliver sys contents e s)
  unfolding deliver invalidate_user_cache
  deliver-IsCurrent signal s late (recent, h) =
      (deliver-AreRecent signal s late recent, IsFresh-later s.now s.shared.cache h)
  deliver-IsCurrent (call thread uid gid) s late (recent, h) =
      (deliver-AreRecent (call thread uid gid) s late recent, IsFresh-later s.now s.shared.cache h)
  deliver-IsCurrent (next_step thread) s late (recent, h) = (
    deliver-AreRecent (next_step thread) s late recent,
    advance-IsFresh s.now thread s.shared (s.places thread) (recent thread) h,
  )
