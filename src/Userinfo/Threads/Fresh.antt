-- ===== src/Userinfo/Threads/Fresh.antt =====
-- What a call of `user_belongs_to_group` answers when a signal has arrived before it began.
use bindfs.Base.{
  ℕ, ◌+◌, ◌≤◌, ◌<◌, ◌≡◌, ◌⊎◌, refl, ap, inl, inr, List, Bool, true, false, Bool-cases, arith,
}
use bindfs.Userinfo.Cache.{
  UidCacheEntry, Cache, Databases, rebuilt, cached_answer, invalidate_user_cache,
}
use bindfs.Userinfo.Threads.{
  Contents, is_held, is_free, begin_call, Place, resting, entered, want_write, testing,
  reading_users, reading_groups, unlocking, want_read, looking, leaving, answered, Shared, advance,
  Event, signal, call, next_step, System, deliver,
}
use bindfs.Userinfo.Threads.Locks.{IsLocked, set_place-cases}
use bindfs.Userinfo.Threads.Recent.{
  at_moment, at_moments, IsFresh, IsRecent, IsRecent-later, IsCurrent, deliver-IsCurrent,
}
use bindfs.Userinfo.Threads.Coming.{filling-IsComing, IsComing, IsAsked, deliver-IsComing}

unasked : {C : Type 0} (asked : Bool) → asked ≡ false → (asked ≡ true) ⊎ C → C
unasked asked e (inl h) = cc
unasked asked e (inr h) = h

module _ (sys : Databases) (contents : ℕ → Contents) (since : ℕ) where
  -- The answer is that of the databases in two rounds that ended not before `since`.
  abbrev pub IsAnswer : ℕ → ℕ → ℕ → Bool → Type 0
  IsAnswer now uid gid answer =
      (m : ℕ) × (n : ℕ) × (since ≤ m)
      × (m < n)
      × (n < now)
      × (answer ≡ cached_answer sys (rebuilt (at_moments sys contents since m n)) uid gid)

  -- What a call has ahead of it that began after `since`.
  abbrev pub IsServed : Type 0 → Type 0 → ℕ → Place → Type 0
  IsServed Coming Current now (reading_groups uid gid users) =
      IsRecent sys contents since now (reading_groups uid gid users)
  IsServed Coming Current now (unlocking uid gid) = Coming
  IsServed Coming Current now (want_read uid gid) = Coming
  IsServed Coming Current now (looking uid gid) = Current
  IsServed Coming Current now (leaving uid gid answer) = IsAnswer now uid gid answer
  IsServed Coming Current now (answered uid gid answer) = IsAnswer now uid gid answer
  IsServed Coming Current now p = Unit

  IsAnswer-later :
      (now uid gid : ℕ) (answer : Bool)
      → IsAnswer now uid gid answer
      → IsAnswer (now + 1) uid gid answer
  IsAnswer-later now uid gid answer (m, n, after, between, before, e) =
      (m, n, after, between, omega arith, e)

  IsFresh-IsAnswer :
      (now uid gid : ℕ) (c : Cache)
      → IsFresh sys contents since now c
      → IsAnswer (now + 1) uid gid (cached_answer (at_moment sys contents since now) c uid gid)
  unfolding cached_answer
  IsFresh-IsAnswer now uid gid c (m, n, after, between, before, users, groups) =
      (m, n, after, between, omega arith, rw (users, groups) refl)

  module _ {C D E F : Type 0} (keep : C → D) (kept : E → F) where
    -- Something else happens than a step of the thread.
    IsServed-later : (now : ℕ) (p : Place) → IsServed C E now p → IsServed D F (now + 1) p
    IsServed-later now (unlocking uid gid) h = keep h
    IsServed-later now (want_read uid gid) h = keep h
    IsServed-later now (looking uid gid) h = kept h
    IsServed-later now (leaving uid gid answer) h = IsAnswer-later now uid gid answer h
    IsServed-later now (answered uid gid answer) h = IsAnswer-later now uid gid answer h
    IsServed-later now (reading_groups uid gid users) h =
        IsRecent-later sys contents since now (reading_groups uid gid users) h
    IsServed-later now p h = tt

    advance-IsServed :
        (now thread : ℕ) (s : Shared) (p : Place)
        → since ≤ now
        → (s.cache.cache_rebuild_requested ≡ true) ⊎ C
        → ((uid gid : ℕ) (users : List UidCacheEntry)
            → p ≡ reading_groups uid gid users
            → IsRecent sys contents since now (reading_groups uid gid users)
            → D)
        → (C → is_held s.writer ≡ false → E)
        → (E → IsFresh sys contents since now s.cache)
        → IsServed C E now p
        → IsServed D F (now + 1) (advance (at_moment sys contents since now) thread s p).1
    unfolding advance
    advance-IsServed now thread s (entered uid gid) late asked filled free fresh h =
        elim (Bool-cases s.cache.cache_rebuild_requested) [
          | inl e ↦ rw e tt
          | inr e ↦ rw e (keep (unasked s.cache.cache_rebuild_requested e asked))
        ]
    advance-IsServed now thread s (want_write uid gid) late asked filled free fresh h =
        elim (Bool-cases (is_free s)) [ inl e ↦ rw e tt | inr e ↦ rw e tt ]
    advance-IsServed now thread s (testing uid gid) late asked filled free fresh h =
        elim (Bool-cases s.cache.cache_rebuild_requested) [
          | inl e ↦ rw e tt
          | inr e ↦ rw e (keep (unasked s.cache.cache_rebuild_requested e asked))
        ]
    advance-IsServed now thread s (reading_users uid gid) late asked filled free fresh h =
        (now, late, omega arith, refl)
    advance-IsServed now thread s (reading_groups uid gid users) late asked filled free fresh h =
        filled uid gid users refl h
    advance-IsServed now thread s (unlocking uid gid) late asked filled free fresh h = keep h
    advance-IsServed now thread s (want_read uid gid) late asked filled free fresh h =
        elim (Bool-cases (is_held s.writer)) [
          | inl e ↦ rw e (keep h)
          | inr e ↦ rw e (kept (free h e))
        ]
    advance-IsServed now thread s (looking uid gid) late asked filled free fresh h =
        IsFresh-IsAnswer now uid gid s.cache (fresh h)
    advance-IsServed now thread s (leaving uid gid answer) late asked filled free fresh h =
        IsAnswer-later now uid gid answer h
    advance-IsServed now thread s (answered uid gid answer) late asked filled free fresh h =
        IsAnswer-later now uid gid answer h
    advance-IsServed now thread s p late asked filled free fresh h = tt

    -- A thread begins a call, or goes on with the one that it is in.
    begun-IsServed :
        (now uid gid : ℕ) (p : Place)
        → IsServed C E now p
        → IsServed D F (now + 1) (begin_call uid gid p)
    begun-IsServed now uid gid resting h = tt
    begun-IsServed now uid gid (answered u g b) h = tt
    begun-IsServed now uid gid (unlocking u g) h = keep h
    begun-IsServed now uid gid (want_read u g) h = keep h
    begun-IsServed now uid gid (looking u g) h = kept h
    begun-IsServed now uid gid (leaving u g b) h = IsAnswer-later now u g b h
    begun-IsServed now uid gid (reading_groups u g users) h =
        IsRecent-later sys contents since now (reading_groups u g users) h
    begun-IsServed now uid gid p h = tt

  abbrev pub Serves : System → Place → Type 0
  Serves s p = IsServed (IsComing sys contents since s) (IsCurrent sys contents since s) s.now p

  free-IsCurrent :
      (s : System)
      → IsComing sys contents since s
      → is_held s.shared.writer ≡ false
      → IsCurrent sys contents since s
  free-IsCurrent s (recent, inl h) e = (recent, h)
  free-IsCurrent s (recent, inr (j, held, r)) e = cc (ap is_held held, e)

  pub deliver-Serves :
      (e : Event) (s : System) (i : ℕ)
      → IsLocked s
      → since ≤ s.now
      → IsAsked sys contents since s
      → Serves s (s.places i)
      → Serves (deliver sys contents e s) ((deliver sys contents e s).places i)
  unfolding deliver invalidate_user_cache
  deliver-Serves signal s i locked late asked h =
      IsServed-later (deliver-IsComing sys contents since signal s locked late)
        (deliver-IsCurrent sys contents since signal s late) s.now (s.places i) h
  deliver-Serves (call thread uid gid) s i locked late asked h =
      let keep = deliver-IsComing sys contents since (call thread uid gid) s locked late in
      let kept = deliver-IsCurrent sys contents since (call thread uid gid) s late in
      set_place-cases
        (λ k p. Serves s (s.places k) → Serves (deliver sys contents (call thread uid gid) s) p)
        s.places thread _ (begun-IsServed keep kept s.now uid gid (s.places thread))
        (λ k other. IsServed-later keep kept s.now (s.places k)) i h
  deliver-Serves (next_step thread) s i locked late asked h =
      let keep = deliver-IsComing sys contents since (next_step thread) s locked late in
      let kept = deliver-IsCurrent sys contents since (next_step thread) s late in
      set_place-cases
        (λ k p. Serves s (s.places k) → Serves (deliver sys contents (next_step thread) s) p)
        s.places thread _
        (advance-IsServed keep kept s.now thread s.shared (s.places thread) late asked
          (λ uid gid users e r.
            keep (filling-IsComing sys contents since s thread uid gid users locked e r))
          (free-IsCurrent s) (λ current. current.1))
        (λ k other. IsServed-later keep kept s.now (s.places k)) i h
