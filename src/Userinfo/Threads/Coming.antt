-- ===== src/Userinfo/Threads/Coming.antt =====
-- Whether the cache of src/userinfo.c is newer than some moment, or is about to be.
use bindfs.Base.{
  ℕ, ◌+◌, ◌≤◌, ◌≡◌, ◌⊎◌, refl, sym, ap, ◌∙◌, inl, inr, List, Option, some, true, Bool-cases, arith,
  ◌==◌, ==_self,
}
use mathlib.Core.Path.{subst}
use bindfs.Userinfo.Cache.{UidCacheEntry, Databases, invalidate_user_cache}
use bindfs.Userinfo.Threads.{
  Contents, is_held, is_free, begin_call, set_place, Place, want_write, clearing, reading_users,
  reading_groups, want_read, Shared, refilled, advance, Event, signal, call, next_step, System,
  deliver,
}
use bindfs.Userinfo.Threads.Locks.{IsLocked, advance-keeps, set_place-cases}
use bindfs.Userinfo.Threads.Recent.{
  at_moment, IsFresh, IsRecent, AreRecent, deliver-AreRecent, refilled-IsFresh, deliver-IsCurrent,
}

abbrev pub IsRebuilding : Place → Type 0
IsRebuilding (reading_users uid gid) = Unit
IsRebuilding (reading_groups uid gid users) = Unit
IsRebuilding p = ⊥

module _ (sys : Databases) (contents : ℕ → Contents) (since : ℕ) where
  -- Or the owner of the lock is about to fill it.
  abbrev pub IsFilling : System → Type 0
  IsFilling s = (j : ℕ) × (s.shared.writer ≡ some j) × IsRebuilding (s.places j)

  abbrev pub IsComing : System → Type 0
  IsComing s =
      AreRecent sys contents since s
      × (IsFresh sys contents since s.now s.shared.cache ⊎ IsFilling s)

  abbrev pub IsAsked : System → Type 0
  IsAsked s = (s.shared.cache.cache_rebuild_requested ≡ true) ⊎ IsComing s

  begin_call-IsRebuilding :
      (uid gid : ℕ) (p : Place) → IsRebuilding p → IsRebuilding (begin_call uid gid p)
  begin_call-IsRebuilding uid gid (reading_users u g) h = tt
  begin_call-IsRebuilding uid gid (reading_groups u g us) h = tt
  begin_call-IsRebuilding uid gid p h = absurd h

  called-IsFilling :
      (s : System) (thread uid gid j : ℕ)
      → IsRebuilding (s.places j)
      → IsRebuilding (set_place s.places thread (begin_call uid gid (s.places thread)) j)
  called-IsFilling s thread uid gid j h =
      set_place-cases (λ k p. IsRebuilding (s.places k) → IsRebuilding p) s.places thread _
        (begin_call-IsRebuilding uid gid (s.places thread)) (λ k other r. r) j h

  -- The owner of the lock goes on to the groups, or has filled the cache.
  advance-IsRebuilding :
      (now thread : ℕ) (s : Shared) (p : Place)
      → IsRecent sys contents since now p
      → s.writer ≡ some thread
      → IsRebuilding p
      → let t = advance (at_moment sys contents since now) thread s p in
        IsFresh sys contents since (now + 1) t.0.cache
        ⊎ ((t.0.writer ≡ some thread) × IsRebuilding t.1)
  unfolding advance
  advance-IsRebuilding now thread s (reading_users uid gid) recent held h = inr (held, tt)
  advance-IsRebuilding now thread s (reading_groups uid gid users) recent held h =
      inl (refilled-IsFresh sys contents since now uid gid users s.cache recent)
  advance-IsRebuilding now thread s p recent held h = absurd h

  stepped-IsFilling :
      (s : System) (thread : ℕ)
      → IsLocked s
      → AreRecent sys contents since s
      → IsFilling s
      → let t = deliver sys contents (next_step thread) s in
        IsFresh sys contents since t.now t.shared.cache ⊎ IsFilling t
  unfolding deliver
  stepped-IsFilling s thread locked recent (j, held, r) = elim (Bool-cases (thread == j)) [
    | inl e ↦
        let same : j ≡ thread = ground (arith, e) in
        elim (advance-IsRebuilding s.now thread s.shared (s.places thread) (recent thread)
          (subst (λ k. s.shared.writer ≡ some k) same held)
          (subst (λ k. IsRebuilding (s.places k)) same r)) [
            | inl fresh ↦ inl fresh
            | inr (held', r') ↦ inr (thread, held', rw (==_self thread) r')
          ]
    | inr e ↦ inr (
      j,
      advance-keeps (at_moment sys contents since s.now) thread s.shared (s.places thread) j
          (ground (arith, e)) (locked thread) held,
      rw e r,
    )
  ]

  pub deliver-IsComing :
      (e : Event) (s : System)
      → IsLocked s
      → since ≤ s.now
      → IsComing s
      → IsComing (deliver sys contents e s)
  unfolding deliver invalidate_user_cache
  deliver-IsComing e s locked late (recent, inl h) =
      let (recent', h') = deliver-IsCurrent sys contents since e s late (recent, h) in
      (recent', inl h')
  deliver-IsComing signal s locked late (recent, inr h) =
      (deliver-AreRecent sys contents since signal s late recent, inr h)
  deliver-IsComing (call thread uid gid) s locked late (recent, inr (j, held, r)) = (
    deliver-AreRecent sys contents since (call thread uid gid) s late recent,
    inr (j, held, called-IsFilling s thread uid gid j r),
  )
  deliver-IsComing (next_step thread) s locked late (recent, inr h) = (
    deliver-AreRecent sys contents since (next_step thread) s late recent,
    stepped-IsFilling s thread locked recent h,
  )

  advance-asked :
      (now thread : ℕ) (s : Shared) (p : Place)
      → s.cache.cache_rebuild_requested ≡ true
      → ((advance (at_moment sys contents since now) thread s p).0.cache.cache_rebuild_requested
          ≡ true)
        ⊎ ((uid : ℕ) × (gid : ℕ) × (p ≡ clearing uid gid))
  unfolding advance refilled
  advance-asked now thread s (clearing uid gid) h = inr (uid, gid, refl)
  advance-asked now thread s (want_write uid gid) h = elim (Bool-cases (is_free s)) [
    | inl e ↦ rw e (inl h)
    | inr e ↦ rw e (inl h)
  ]
  advance-asked now thread s (want_read uid gid) h = elim (Bool-cases (is_held s.writer)) [
    | inl e ↦ rw e (inl h)
    | inr e ↦ rw e (inl h)
  ]
  advance-asked now thread s p h = inl h

  some-injective : {a b : ℕ} → Option.some a ≡ some b → a ≡ b
  some-injective h = cc

  -- While one thread clears the flag no other reads the groups.
  cleared-IsRecent :
      (s : System) (thread uid gid k : ℕ)
      → IsLocked s
      → s.places thread ≡ clearing uid gid
      → (p : Place) → s.places k ≡ p
      → IsRecent sys contents since s.now p
  cleared-IsRecent s thread uid gid k locked at_clearing (reading_groups u g users) e =
      let first : s.shared.writer ≡ some thread = locked thread (rw at_clearing tt) in
      let second : s.shared.writer ≡ some k = locked k (rw e tt) in
      let same : thread ≡ k = some-injective (sym first ∙ second) in
      cc (ap (λ j. s.places j) same, at_clearing, e)
  cleared-IsRecent s thread uid gid k locked at_clearing p e = tt

  cleared-IsFilling :
      (s : System) (thread uid gid : ℕ)
      → IsLocked s
      → s.places thread ≡ clearing uid gid
      → IsFilling (deliver sys contents (next_step thread) s)
  unfolding deliver advance
  cleared-IsFilling s thread uid gid locked e =
      (thread, rw e (locked thread (rw e tt)), rw (==_self thread, e) tt)

  -- And while one reads the groups no other does.
  only-IsRecent :
      (s : System) (thread uid gid : ℕ) (users : List UidCacheEntry) (k : ℕ)
      → IsLocked s
      → s.places thread ≡ reading_groups uid gid users
      → IsRecent sys contents since s.now (reading_groups uid gid users)
      → (p : Place) → s.places k ≡ p
      → IsRecent sys contents since s.now p
  only-IsRecent s thread uid gid users k locked at_groups recent (reading_groups u g us) e =
      let first : s.shared.writer ≡ some thread = locked thread (rw at_groups tt) in
      let second : s.shared.writer ≡ some k = locked k (rw e tt) in
      let same : thread ≡ k = some-injective (sym first ∙ second) in
      subst (IsRecent sys contents since s.now) (sym at_groups ∙ ap (λ j. s.places j) same ∙ e)
        recent
  only-IsRecent s thread uid gid users k locked at_groups recent p e = tt

  pub filling-IsComing :
      (s : System) (thread uid gid : ℕ) (users : List UidCacheEntry)
      → IsLocked s
      → s.places thread ≡ reading_groups uid gid users
      → IsRecent sys contents since s.now (reading_groups uid gid users)
      → IsComing s
  filling-IsComing s thread uid gid users locked e recent = (
    λ k. only-IsRecent s thread uid gid users k locked e recent (s.places k) refl,
    inr (thread, locked thread (rw e tt), rw e tt),
  )

  stepped-IsAsked :
      (s : System) (thread : ℕ)
      → IsLocked s
      → since ≤ s.now
      → s.shared.cache.cache_rebuild_requested ≡ true
      → IsAsked (deliver sys contents (next_step thread) s)
  unfolding deliver
  stepped-IsAsked s thread locked late h =
      elim (advance-asked s.now thread s.shared (s.places thread) h) [
        | inl e ↦ inl e
        | inr (uid, gid, e) ↦
            let recent : AreRecent sys contents since s =
              λ k. cleared-IsRecent s thread uid gid k locked e (s.places k) refl in
            inr (
              deliver-AreRecent sys contents since (next_step thread) s late recent,
              inr (cleared-IsFilling s thread uid gid locked e),
            )
      ]

  pub deliver-IsAsked :
      (e : Event) (s : System)
      → IsLocked s
      → since ≤ s.now
      → IsAsked s
      → IsAsked (deliver sys contents e s)
  unfolding deliver invalidate_user_cache
  deliver-IsAsked signal s locked late h = inl refl
  deliver-IsAsked (call thread uid gid) s locked late (inl h) = inl h
  deliver-IsAsked (next_step thread) s locked late (inl h) = stepped-IsAsked s thread locked late h
  deliver-IsAsked e s locked late (inr h) = inr (deliver-IsComing e s locked late h)
