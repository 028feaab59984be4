-- ===== src/Options/Mirror/Laws.antt =====
-- What `parse_mirrored_users` of src/bindfs.c gives for every text.
use bindfs.Base.{ℕ, zero, suc, ◌+◌, ◌<◌, ◌≡◌, List, [], ◌∷◌, ◌++◌, none, some, Bool, true}
use bindfs.Base.{
  Bool-cases, Option-cases, inl, inr, ◌||◌, if◌then◌else◌, length, arith, length-append,
}
use bindfs.Base.Text.{Bytes, codes}
use bindfs.Misc.Texts.{strdup_until}
use bindfs.Userinfo.Names.{NameDb, user_uid, group_gid}
use bindfs.Options.Mirror.{starts_group, behind_first, next_name}
use bindfs.Options.Mirror.{
  read_name, mirror_loop, parse_mirrored_users, write_member, write_user, count_users,
  count_members,
}
use bindfs.Options.Mirror.Names.{
  split_names, collect, users_in, groups_in, ends_in_lone_at, is_lone_at, overrun,
}
use bindfs.Options.Mirror.Counts.{
  starts_group-strdup_until, split_names_lem, groups_in-split_names, count_members_lem,
  count_users_lem,
}

pub next_name-shorter : (p p' : Bytes) → next_name p ≡ some p' → length p' < length p
unfolding next_name
next_name-shorter [] p' h = cc
next_name-shorter (c ∷ cs) p' h = ground (arith, next_name-shorter cs p')

-- The last name is a lone @.
abbrev ends_lone : Bytes → Bool
ends_lone p = ends_in_lone_at p || is_lone_at p

next_name-ends_lone :
    (p p' : Bytes) → next_name p ≡ some p' → ends_lone p ≡ true → ends_lone p' ≡ true
unfolding next_name ends_in_lone_at
next_name-ends_lone [] p' h l = cc
next_name-ends_lone (c ∷ []) p' h l = ground arith
next_name-ends_lone (c ∷ d ∷ cs) p' h l = ground (arith, next_name-ends_lone (d ∷ cs) p')

ends_lone-none : (p : Bytes) → next_name p ≡ none → ends_lone p ≡ true → is_lone_at p ≡ true
unfolding next_name ends_in_lone_at
ends_lone-none [] h l = cc
ends_lone-none (c ∷ []) h l = ground arith
ends_lone-none (c ∷ d ∷ cs) h l = ground (arith, ends_lone-none (d ∷ cs))

is_lone_at-starts_group : (p : Bytes) → is_lone_at p ≡ true → starts_group p ≡ true
is_lone_at-starts_group [] h = cc
is_lone_at-starts_group (c ∷ []) h = h
is_lone_at-starts_group (c ∷ d ∷ cs) h = cc

ends_lone-groups_in : (p : Bytes) → ends_lone p ≡ true → 0 < groups_in (split_names p)
ends_lone-groups_in p h =
    ground (arith, count_members_lem p, groups_in-split_names p, is_lone_at-starts_group p)

module _ (db : NameDb) (num_users num_members : ℕ) where
  loop_lem :
      (fuel : ℕ) (p : Bytes) (users members : List ℕ)
      → length p < fuel
      → length users + users_in (split_names p) ≡ num_users
      → length members + groups_in (split_names p) ≡ num_members
      → mirror_loop db num_users num_members fuel p users members
        ≡ collect db (split_names p) users members
  unfolding mirror_loop collect users_in groups_in read_name write_member write_user
  loop_lem zero p users members f u m = absurd (omega (arith, f))
  loop_lem (suc fuel) p users members f u m =
      let name = strdup_until p (codes ",:") in
      elim (Bool-cases (starts_group name)) [
        | inl g ↦ elim (Option-cases (group_gid db (behind_first name))) [
          | inl e ↦ ground (arith, split_names_lem p)
          | inr (gid, e) ↦ elim (Option-cases (next_name p)) [
            | inl n ↦ ground (arith, split_names_lem p, length-append members (gid ∷ []))
            | inr (p', n) ↦ ground (
              arith,
              split_names_lem p,
              length-append members (gid ∷ []),
              next_name-shorter p p' n,
              loop_lem fuel p' users (members ++ (gid ∷ [])),
            )
          ]
        ]
        | inr g ↦ elim (Option-cases (user_uid db name)) [
          | inl e ↦ ground (arith, split_names_lem p)
          | inr (uid, e) ↦ elim (Option-cases (next_name p)) [
            | inl n ↦ ground (arith, split_names_lem p, length-append users (uid ∷ []))
            | inr (p', n) ↦ ground (
              arith,
              split_names_lem p,
              length-append users (uid ∷ []),
              next_name-shorter p p' n,
              loop_lem fuel p' (users ++ (uid ∷ [])) members,
            )
          ]
        ]
      ]

  -- With one group too few and one user too many, the last name does not fit.
  overrun_lem :
      (fuel : ℕ) (p : Bytes) (users members : List ℕ)
      → length p < fuel
      → ends_lone p ≡ true
      → suc (length users + users_in (split_names p)) ≡ num_users
      → length members + groups_in (split_names p) ≡ suc num_members
      → mirror_loop db num_users num_members fuel p users members
        ≡ overrun (collect db (split_names p) users members)
  unfolding mirror_loop collect users_in groups_in read_name write_member write_user
  overrun_lem zero p users members f l u m = absurd (omega (arith, f))
  overrun_lem (suc fuel) p users members f l u m =
      let name = strdup_until p (codes ",:") in
      elim (Bool-cases (starts_group name)) [
        | inl g ↦ elim (Option-cases (group_gid db (behind_first name))) [
          | inl e ↦ ground (arith, split_names_lem p)
          | inr (gid, e) ↦ elim (Option-cases (next_name p)) [
            | inl n ↦ ground (arith, split_names_lem p)
            | inr (p', n) ↦ ground (
              arith,
              split_names_lem p,
              length-append members (gid ∷ []),
              next_name-shorter p p' n,
              next_name-ends_lone p p' n l,
              ends_lone-groups_in p',
              overrun_lem fuel p' users (members ++ (gid ∷ [])),
            )
          ]
        ]
        | inr g ↦ elim (Option-cases (user_uid db name)) [
          | inl e ↦ ground (arith, split_names_lem p)
          | inr (uid, e) ↦ elim (Option-cases (next_name p)) [
            | inl n ↦ ground (
              arith,
              is_lone_at-starts_group p (ends_lone-none p n l),
              starts_group-strdup_until p,
            )
            | inr (p', n) ↦ ground (
              arith,
              split_names_lem p,
              length-append users (uid ∷ []),
              next_name-shorter p p' n,
              next_name-ends_lone p p' n l,
              overrun_lem fuel p' (users ++ (uid ∷ [])) members,
            )
          ]
        ]
      ]

-- `parse_mirrored_users` reads the names between the commas and colons in order, users and groups
-- (behind an @) apart, and returns 0 at the first that is unknown; it fills both arrays exactly and
-- passes its assertions. Only for a text that ends in a delimiter and a lone @, whose names are all
-- known, it writes behind the array of the groups.
pub parse_mirrored_users_lem :
    (db : NameDb) (mirror : Bytes)
    → parse_mirrored_users db mirror ≡ (
        if ends_in_lone_at mirror
        then overrun (collect db (split_names mirror) [] [])
        else collect db (split_names mirror) [] [])
unfolding parse_mirrored_users
parse_mirrored_users_lem db mirror =
    let at_users = count_users_lem mirror in
    let at_members = count_members_lem mirror in
    let users = count_users mirror in
    let members = count_members mirror in
    let fuel = length mirror + 1 in
    elim (Bool-cases (ends_in_lone_at mirror)) [
      | inl e ↦ ground (arith, overrun_lem db users members fuel mirror [] [])
      | inr e ↦ ground (arith, loop_lem db users members fuel mirror [] [])
    ]
