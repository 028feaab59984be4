-- ===== src/Tests/Threads.antt =====
-- Two threads that ask the user cache of src/userinfo.c at the same time.
use bindfs.Base.{
  ℕ, ◌≡◌, ◌≤◌, ◌<◌, ◌↔◌, refl, inl, inr, [], ◌∷◌, ◌++◌, List, true, false, Bool-cases, ltb,
  if◌then◌else◌, arith,
}
use bindfs.Base.Text.{codes, bytes_eq}
use bindfs.Userinfo.Cache.{at_end, user_belongs_to_group}
use bindfs.Userinfo.Spec.{Belongs}
use bindfs.Userinfo.Complete.{IsProper}
use bindfs.Userinfo.Threads.{
  Contents, with_contents, answered, Event, call, next_step, initial, run,
}
use bindfs.Userinfo.Threads.Rounds.{joined}
use bindfs.Userinfo.Threads.Answered.{answered-Belongs, finished}
use bindfs.Userinfo.Threads.Alone.{steps, unlocked, call_alone}
use bindfs.Tests.Groups.{files, files-IsSorting, files-IsFinding, files-IsProper, never_filled}

abbrev with_joe : Contents
with_joe = record {
  users = files.users;
  users_end = files.users_end;
  groups = files.groups;
  groups_end = files.groups_end;
}

abbrev without_joe : Contents
without_joe = record with_joe {
  groups = record { gr_gid = 50; gr_mem = codes "bob" ∷ [] } ∷ [];
  groups_end = at_end;
}

-- The user leaves the group after ten events.
abbrev leaving_group : ℕ → Contents
leaving_group m = if ltb m 10 then with_joe else without_joe

without_joe-IsProper : IsProper (with_contents files without_joe)
without_joe-IsProper = record {
  users_read = λ e. cc;
  groups_read = λ e. cc;
  small_uids = files-IsProper.small_uids;
  small_gids = (omega arith, tt);
  one_user = files-IsProper.one_user;
  one_name = files-IsProper.one_name;
  one_group = λ a b m n e. ground (arith, m, n);
}

leaving_group-IsProper :
    (m n : ℕ) → m < n → IsProper (with_contents files (joined (leaving_group m) (leaving_group n)))
leaving_group-IsProper m n later = elim (Bool-cases (ltb m 10)) [
  | inl e ↦ elim (Bool-cases (ltb n 10)) [
    | inl k ↦ rw (e, k) files-IsProper
    | inr k ↦ rw (e, k) without_joe-IsProper
  ]
  | inr e ↦ elim (Bool-cases (ltb n 10)) [
    | inl k ↦ rw (e, k) files-IsProper
    | inr k ↦ rw (e, k) without_joe-IsProper
  ]
]

-- The first thread fills the cache while the user is still in the group.
abbrev early : List Event
early = call 0 1001 50 ∷ steps 0 9

-- The first thread fills the cache again, while the second waits for it.
abbrev late : List Event
late = next_step 1 ∷ next_step 0 ∷ steps 1 2 ++ steps 0 6 ++ steps 1 9

answered_no :
    (finished files leaving_group early
        (next_step 0 ∷ call 0 1000 100 ∷ steps 0 3)
        late
        1
        1001
        50).places
      1
    ≡ answered 1001 50 false
unfolding run bytes_eq
answered_no = refl

answered-Belongs_example :
    (m : ℕ) × (n : ℕ) × (10 ≤ m)
    × (m < n)
    × (n
        < (finished files leaving_group early
            (next_step 0 ∷ call 0 1000 100 ∷ steps 0 3)
            late
            1
            1001
            50).now)
    × ((false ≡ true)
        ↔ Belongs (with_contents files (joined (leaving_group m) (leaving_group n))) 1001 50)
unfolding run bytes_eq
answered-Belongs_example =
    answered-Belongs files leaving_group early (next_step 0 ∷ call 0 1000 100 ∷ steps 0 3) late 1
      1001 50 files-IsSorting files-IsFinding leaving_group-IsProper 1001 50 false tt answered_no
      (omega arith) (omega arith)

call_alone_example :
    ((run files (λ m. without_joe) (call 3 1001 50 ∷ steps 3 10) initial).places 3
      ≡ answered 1001 50
          (user_belongs_to_group (with_contents files without_joe) 1001 50 never_filled).0)
    × ((run files (λ m. without_joe) (call 3 1001 50 ∷ steps 3 10) initial).shared
        ≡ unlocked (user_belongs_to_group (with_contents files without_joe) 1001 50 never_filled).1)
call_alone_example = call_alone files without_joe 3 initial never_filled 1001 50 refl tt
