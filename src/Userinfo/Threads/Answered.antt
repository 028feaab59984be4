-- ===== src/Userinfo/Threads/Answered.antt =====
-- Calls of `user_belongs_to_group` of src/userinfo.c that begin after a signal, from start to answer.
use mathlib.Core.Path.{subst}
use bindfs.Base.{
  ==_self, ℕ, ◌+◌, ◌^◌, ◌≤◌, ◌<◌, ◌≡◌, ◌↔◌, refl, sym, ◌∙◌, inl, List, [], ◌∷◌, Bool, true, arith,
}
use bindfs.Userinfo.Cache.{
  Databases, rebuilt, cached_answer, invalidate_user_cache, user_belongs_to_group,
}
use bindfs.Userinfo.Spec.{IsSorting, Belongs}
use bindfs.Userinfo.Sorted.{IsFinding}
use bindfs.Userinfo.Complete.{IsProper, user_belongs_to_group_lem}
use bindfs.Userinfo.Threads.{
  Contents, with_contents, Place, resting, answered, entered, Event, signal, call, next_step,
  begin_call, System, initial, deliver, run,
}
use bindfs.Userinfo.Threads.Rounds.{joined}
use bindfs.Userinfo.Threads.Locks.{IsLocked, deliver-IsLocked, run-IsLocked}
use bindfs.Userinfo.Threads.Coming.{IsAsked, deliver-IsAsked}
use bindfs.Userinfo.Threads.Fresh.{Serves, deliver-Serves}

-- A thread that is in no call.
abbrev pub IsIdle : Place → Type 0
IsIdle resting = Unit
IsIdle (answered uid gid answer) = Unit
IsIdle p = ⊥

pub begin_call_idle : (uid gid : ℕ) (p : Place) → IsIdle p → begin_call uid gid p ≡ entered uid gid
begin_call_idle uid gid resting h = refl
begin_call_idle uid gid (answered u g b) h = refl
begin_call_idle uid gid p h = absurd h

-- The promises of the C library do not depend on what the databases hold.
with_contents-IsSorting :
    (sys : Databases) (d : Contents) → IsSorting sys → IsSorting (with_contents sys d)
with_contents-IsSorting sys d sorting = record {
  qsort_keeps = λ compar xs a h. sorting.qsort_keeps compar xs a h;
  bsearch_finds = λ compar key xs a h. sorting.bsearch_finds compar key xs a h;
  strcmp_equal = sorting.strcmp_equal;
}

with_contents-IsFinding :
    (sys : Databases) (d : Contents) → IsFinding sys → IsFinding (with_contents sys d)
with_contents-IsFinding sys d finding = record {
  qsort_moves = λ compar xs a h. finding.qsort_moves compar xs a h;
  qsort_sorts = λ compar xs order. finding.qsort_sorts compar xs order;
  bsearch_misses = λ compar key xs parts h. finding.bsearch_misses compar key xs parts h;
  strcmp_self = finding.strcmp_self;
  strcmp_total = finding.strcmp_total;
  strcmp_not_above = finding.strcmp_not_above;
  strcmp_below = finding.strcmp_below;
}

module _ (sys : Databases) (contents : ℕ → Contents) where
  now-deliver : (e : Event) (s : System) → (deliver sys contents e s).now ≡ s.now + 1
  unfolding deliver
  now-deliver signal s = refl
  now-deliver (call thread uid gid) s = refl
  now-deliver (next_step thread) s = refl

  -- What a run of events keeps.
  module _ (since : ℕ) where
    run-IsAsked :
        (es : List Event) (s : System)
        → IsLocked s
        → since ≤ s.now
        → IsAsked sys contents since s
        → IsAsked sys contents since (run sys contents es s) × (since ≤ (run sys contents es s).now)
    unfolding run
    run-IsAsked [] s locked late asked = (asked, late)
    run-IsAsked (e ∷ es) s locked late asked =
        run-IsAsked es (deliver sys contents e s) (deliver-IsLocked sys contents e s locked)
          (omega (arith, now-deliver e s))
          (deliver-IsAsked sys contents since e s locked late asked)

    run-Serves :
        (es : List Event) (s : System) (i : ℕ)
        → IsLocked s
        → since ≤ s.now
        → IsAsked sys contents since s
        → Serves sys contents since s (s.places i)
        → Serves sys contents since (run sys contents es s) ((run sys contents es s).places i)
    unfolding run
    run-Serves [] s i locked late asked h = h
    run-Serves (e ∷ es) s i locked late asked h =
        run-Serves es (deliver sys contents e s) i (deliver-IsLocked sys contents e s locked)
          (omega (arith, now-deliver e s))
          (deliver-IsAsked sys contents since e s locked late asked)
          (deliver-Serves sys contents since e s i locked late asked h)

  initial-IsLocked : IsLocked initial
  initial-IsLocked k h = absurd h

  -- A signal arrives after some events, and after some more a thread begins a call.
  abbrev pub signalled : List Event → List Event → System
  signalled before between =
      run sys contents between (deliver sys contents signal (run sys contents before initial))

  begun-Serves :
      (since : ℕ) (s : System) (i uid gid : ℕ)
      → IsIdle (s.places i)
      → Serves sys contents since
          (deliver sys contents (call i uid gid) s)
          ((deliver sys contents (call i uid gid) s).places i)
  unfolding deliver
  begun-Serves since s i uid gid idle = rw (==_self i, begin_call_idle uid gid (s.places i) idle) tt

  signalled-IsAsked :
      (before between : List Event)
      → let since = (run sys contents before initial).now in
        let t = signalled before between in
        IsLocked t × IsAsked sys contents since t × (since ≤ t.now)
  unfolding deliver invalidate_user_cache
  signalled-IsAsked before between =
      let s = run sys contents before initial in
      let locked : IsLocked s = run-IsLocked sys contents before initial initial-IsLocked in
      let locked' : IsLocked (deliver sys contents signal s) =
        deliver-IsLocked sys contents signal s locked in
      let (asked, late) =
        run-IsAsked s.now between (deliver sys contents signal s) locked' (omega arith)
          (inl refl) in
      (run-IsLocked sys contents between (deliver sys contents signal s) locked', asked, late)

  -- A cached answer is that of the call alone.
  cached_answer-user_belongs_to_group :
      (d : Contents) (uid gid : ℕ)
      → cached_answer sys (rebuilt (with_contents sys d)) uid gid
        ≡ (user_belongs_to_group (with_contents sys d) uid gid initial.shared.cache).0
  unfolding cached_answer user_belongs_to_group
  cached_answer-user_belongs_to_group d uid gid = refl

  module _ (before between after : List Event) (thread uid gid : ℕ) where
    -- The number of events when the signal arrives, and how things stand in the end.
    abbrev pub signal_time : ℕ
    signal_time = (run sys contents before initial).now

    abbrev pub finished : System
    finished =
        run sys contents after
          (deliver sys contents (call thread uid gid) (signalled before between))

    finished-Serves :
        IsIdle ((signalled before between).places thread)
        → Serves sys contents signal_time finished (finished.places thread)
    finished-Serves idle =
        let t = signalled before between in
        let (locked, asked, late) = signalled-IsAsked before between in
        let begin = call thread uid gid in
        run-Serves signal_time after (deliver sys contents begin t) thread
          (deliver-IsLocked sys contents begin t locked) (omega (arith, now-deliver begin t))
          (deliver-IsAsked sys contents signal_time begin t locked late asked)
          (begun-Serves signal_time t thread uid gid idle)

    -- A thread that calls `user_belongs_to_group` after a signal is answered from two rounds through
    -- the databases that ended after that signal, the users of the one and the groups of the later
    -- one: yes if and only if these put the user and the group together. Whatever other threads do
    -- before, meanwhile and after, whatever further signals arrive, and however the databases change
    -- from one round to the next. For the answer of any call that the thread has begun since, with
    -- ids below 2 ^ 31, where the users of every round together with the groups of every later one
    -- keep to the conditions for a call alone, and the C library does.
    pub answered-Belongs :
        IsSorting sys
        → IsFinding sys
        → ((m n : ℕ) → m < n → IsProper (with_contents sys (joined (contents m) (contents n))))
        → (uid' gid' : ℕ) (answer : Bool) → IsIdle ((signalled before between).places thread)
        → finished.places thread ≡ answered uid' gid' answer
        → uid' < 2 ^ 31
        → gid' < 2 ^ 31
        → (m : ℕ) × (n : ℕ) × (signal_time ≤ m)
          × (m < n)
          × (n < finished.now)
          × ((answer ≡ true)
              ↔ Belongs (with_contents sys (joined (contents m) (contents n))) uid' gid')
    answered-Belongs sorting finding proper uid' gid' answer idle done small_uid small_gid =
        let served : Serves sys contents signal_time finished (answered uid' gid' answer) =
          subst (Serves sys contents signal_time finished) done (finished-Serves idle) in
        let (m, n, since, between_rounds, before_end, e) = served in
        let d = joined (contents m) (contents n) in
        let alone =
          user_belongs_to_group_lem (with_contents sys d) (with_contents-IsSorting sys d sorting)
            (with_contents-IsFinding sys d finding) (proper m n between_rounds) initial.shared.cache
            uid' gid' refl small_uid small_gid in
        (
          m,
          n,
          since,
          between_rounds,
          before_end,
          subst (λ b. (b ≡ true) ↔ Belongs (with_contents sys d) uid' gid')
              (sym (e ∙ cached_answer-user_belongs_to_group d uid' gid')) alone,
        )
