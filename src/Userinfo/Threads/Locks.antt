-- ===== src/Userinfo/Threads/Locks.antt =====
-- Who holds the lock for writing in src/userinfo.c.
use bindfs.Base.{
  ℕ, ◌≡◌, ◌≢◌, refl, inl, inr, List, [], ◌∷◌, some, true, false, Bool-cases, arith, ◌==◌,
}
use mathlib.Core.Path.{subst}
use bindfs.Base.{==_iff}
use bindfs.Userinfo.Cache.{Databases, invalidate_user_cache}
use bindfs.Userinfo.Threads.{
  Contents, with_contents, is_held, is_free, begin_call, set_place, Place, resting, entered,
  want_write, testing, clearing, reading_users, reading_groups, unlocking, want_read, looking,
  leaving, answered, Shared, advance, Event, signal, call, next_step, System, deliver, run,
}

-- A thread between the two calls that take and give back the lock for writing.
abbrev pub InWriting : Place → Type 0
InWriting (testing uid gid) = Unit
InWriting (clearing uid gid) = Unit
InWriting (reading_users uid gid) = Unit
InWriting (reading_groups uid gid users) = Unit
InWriting (unlocking uid gid) = Unit
InWriting p = ⊥

abbrev pub Owns : ℕ → Shared → Place → Type 0
Owns thread s p = InWriting p → s.writer ≡ some thread

-- A thread that gets the lock owns it until it gives it back.
advance-Owns :
    (sys : Databases) (thread : ℕ) (s : Shared) (p : Place)
    → Owns thread s p
    → Owns thread (advance sys thread s p).0 (advance sys thread s p).1
unfolding advance
advance-Owns sys thread s resting owns h = absurd h
advance-Owns sys thread s (entered uid gid) owns h =
    elim (Bool-cases s.cache.cache_rebuild_requested) [
      | inl e ↦ absurd (rw e at h)
      | inr e ↦ absurd (rw e at h)
    ]
advance-Owns sys thread s (want_write uid gid) owns h = elim (Bool-cases (is_free s)) [
  | inl e ↦ rw e refl
  | inr e ↦ absurd (rw e at h)
]
advance-Owns sys thread s (testing uid gid) owns h = owns tt
advance-Owns sys thread s (clearing uid gid) owns h = owns tt
advance-Owns sys thread s (reading_users uid gid) owns h = owns tt
advance-Owns sys thread s (reading_groups uid gid users) owns h = owns tt
advance-Owns sys thread s (unlocking uid gid) owns h = absurd h
advance-Owns sys thread s (want_read uid gid) owns h = elim (Bool-cases (is_held s.writer)) [
  | inl e ↦ absurd (rw e at h)
  | inr e ↦ absurd (rw e at h)
]
advance-Owns sys thread s (looking uid gid) owns h = absurd h
advance-Owns sys thread s (leaving uid gid answer) owns h = absurd h
advance-Owns sys thread s (answered uid gid answer) owns h = absurd h

-- No other thread takes the lock away.
pub advance-keeps :
    (sys : Databases) (thread : ℕ) (s : Shared) (p : Place) (k : ℕ)
    → thread ≢ k
    → Owns thread s p
    → s.writer ≡ some k
    → (advance sys thread s p).0.writer ≡ some k
unfolding advance
advance-keeps sys thread s resting k other owns h = h
advance-keeps sys thread s (entered uid gid) k other owns h = h
advance-keeps sys thread s (want_write uid gid) k other owns h =
    let held : is_free s ≡ false = rw h refl in rw held h
advance-keeps sys thread s (testing uid gid) k other owns h = h
advance-keeps sys thread s (clearing uid gid) k other owns h = h
advance-keeps sys thread s (reading_users uid gid) k other owns h = h
advance-keeps sys thread s (reading_groups uid gid users) k other owns h = h
advance-keeps sys thread s (unlocking uid gid) k other owns h = ground (arith, owns tt)
advance-keeps sys thread s (want_read uid gid) k other owns h =
    let held : is_held s.writer ≡ true = rw h refl in rw held h
advance-keeps sys thread s (looking uid gid) k other owns h = h
advance-keeps sys thread s (leaving uid gid answer) k other owns h = h
advance-keeps sys thread s (answered uid gid answer) k other owns h = h

begin_call-InWriting : (uid gid : ℕ) (p : Place) → InWriting (begin_call uid gid p) → InWriting p
begin_call-InWriting uid gid resting h = h
begin_call-InWriting uid gid (entered u g) h = h
begin_call-InWriting uid gid (want_write u g) h = h
begin_call-InWriting uid gid (testing u g) h = h
begin_call-InWriting uid gid (clearing u g) h = h
begin_call-InWriting uid gid (reading_users u g) h = h
begin_call-InWriting uid gid (reading_groups u g us) h = h
begin_call-InWriting uid gid (unlocking u g) h = h
begin_call-InWriting uid gid (want_read u g) h = h
begin_call-InWriting uid gid (looking u g) h = h
begin_call-InWriting uid gid (leaving u g b) h = h
begin_call-InWriting uid gid (answered u g b) h = h

-- The places of all threads after one has moved.
pub set_place-cases :
    (P : ℕ → Place → Type 0) (places : ℕ → Place) (thread : ℕ) (p : Place)
    → P thread p
    → ((k : ℕ) → thread ≢ k → P k (places k))
    → (k : ℕ) → P k (set_place places thread p k)
set_place-cases P places thread p own others k = elim (Bool-cases (thread == k)) [
  | inl e ↦ rw e (subst (λ j. P j p) ((==_iff thread k).0 e) own)
  | inr e ↦ rw e (others k (ground arith))
]

-- Whoever is between the two calls has the lock.
abbrev pub IsLocked : System → Type 0
IsLocked s = (k : ℕ) → Owns k s.shared (s.places k)

module _ (sys : Databases) (contents : ℕ → Contents) where
  pub deliver-IsLocked : (e : Event) (s : System) → IsLocked s → IsLocked (deliver sys contents e s)
  unfolding deliver invalidate_user_cache
  deliver-IsLocked signal s locked = λ k h. locked k h
  deliver-IsLocked (call thread uid gid) s locked =
      set_place-cases (λ k p. Owns k s.shared p) s.places thread _
        (λ h. locked thread (begin_call-InWriting uid gid (s.places thread) h)) λ k other. locked k
  deliver-IsLocked (next_step thread) s locked =
      let sys' = with_contents sys (contents s.now) in
      set_place-cases (λ k p. Owns k (advance sys' thread s.shared (s.places thread)).0 p) s.places
        thread _ (advance-Owns sys' thread s.shared (s.places thread) (locked thread))
        λ k other h.
          advance-keeps sys' thread s.shared (s.places thread) k other (locked thread) (locked k h)

  pub run-IsLocked : (es : List Event) (s : System) → IsLocked s → IsLocked (run sys contents es s)
  unfolding run
  run-IsLocked [] s locked = locked
  run-IsLocked (e ∷ es) s locked =
      run-IsLocked es (deliver sys contents e s) (deliver-IsLocked e s locked)
