-- ===== src/Userinfo/Threads/Alone.antt =====
-- A thread that calls `user_belongs_to_group` of src/userinfo.c while no other thread does.
use bindfs.Base.{ℕ, zero, suc, ◌≡◌, refl, ap, ◌∙◌, List, [], ◌∷◌, none, Bool, true, false, ==_self}
use bindfs.Userinfo.Cache.{UidCacheEntry, GidCacheEntry, Cache, Databases, user_belongs_to_group}
use bindfs.Userinfo.Threads.{
  Contents, with_contents, Place, entered, answered, Shared, refilled, advance, Event, call,
  next_step, System, deliver, run,
}
use bindfs.Userinfo.Threads.Answered.{IsIdle, begin_call_idle}

-- Nobody holds the lock.
abbrev pub unlocked : Cache → Shared
unlocked c = record { cache = c; writer = none; readers = 0 }

abbrev pub steps : ℕ → ℕ → List Event
steps thread zero = []
steps thread (suc n) = next_step thread ∷ steps thread n

module _ (sys : Databases) (d : Contents) (thread : ℕ) where
  abbrev pub databases : Databases
  databases = with_contents sys d

  abbrev after_steps : ℕ → Shared × Place → Shared × Place
  after_steps zero (s, p) = (s, p)
  after_steps (suc n) (s, p) = after_steps n (advance databases thread s p)

  steps_lem :
      (n : ℕ) (s : System) (shared : Shared) (p : Place)
      → s.shared ≡ shared
      → s.places thread ≡ p
      → let t = run sys (λ m. d) (steps thread n) s in
        (t.shared ≡ (after_steps n (shared, p)).0)
        × (t.places thread ≡ (after_steps n (shared, p)).1)
  unfolding run deliver
  steps_lem zero s shared p e f = (e, f)
  steps_lem (suc n) s shared p e f =
      steps_lem n (deliver sys (λ m. d) (next_step thread) s) (advance databases thread shared p).0
        (advance databases thread shared p).1 (rw (e, f) refl) (rw (==_self thread, e, f) refl)

  -- Six steps of these are made only where the cache has to be filled.
  call_steps :
      (requested : Bool) (users : List UidCacheEntry) (groups : List GidCacheEntry) (uid gid : ℕ)
      → let c : Cache = record {
        uid_cache = users;
        gid_cache = groups;
        cache_rebuild_requested = requested;
      } in
        after_steps 10 (unlocked c, entered uid gid) ≡ (
          unlocked (user_belongs_to_group databases uid gid c).1,
          answered uid gid (user_belongs_to_group databases uid gid c).0,
        )
  unfolding advance refilled user_belongs_to_group
  call_steps true users groups uid gid = refl
  call_steps false users groups uid gid = refl

  -- A thread that calls `user_belongs_to_group` while no other thread does comes to its answer in at
  -- most ten steps. Its answer and the cache that it leaves are those of the call as one function,
  -- and nobody holds the lock after it. For databases that do not change in that time.
  pub call_alone :
      (s : System) (c : Cache) (uid gid : ℕ)
      → s.shared ≡ unlocked c
      → IsIdle (s.places thread)
      → let t = run sys (λ m. d) (call thread uid gid ∷ steps thread 10) s in
        let (answer, c') = user_belongs_to_group databases uid gid c in
        (t.places thread ≡ answered uid gid answer) × (t.shared ≡ unlocked c')
  unfolding run deliver
  call_alone s c uid gid e idle =
      let (shared, place) =
        steps_lem 10 (deliver sys (λ m. d) (call thread uid gid) s) (unlocked c) (entered uid gid) e
          (rw (==_self thread) (begin_call_idle uid gid (s.places thread) idle)) in
      let whole = call_steps c.cache_rebuild_requested c.uid_cache c.gid_cache uid gid in
      (
        place ∙ ap (λ (x : Shared × Place). x.1) whole,
        shared ∙ ap (λ (x : Shared × Place). x.0) whole,
      )
