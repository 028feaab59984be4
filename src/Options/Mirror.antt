-- ===== src/Options/Mirror.antt =====
-- `parse_mirrored_users` of src/bindfs.c: the value of --mirror and --mirror-only.
pub mod Names
pub mod Counts
pub mod Laws
use bindfs.Base.{ℕ, zero, suc, ◌+◌, ◌-◌, List, [], ◌∷◌, ◌++◌, Option, none, some, Bool, true, false}
use bindfs.Base.{◌&&◌, ◌||◌, ◌==◌, ltb, if◌then◌else◌, length}
use bindfs.Base.Text.{Bytes, codes}
use bindfs.Misc.Texts.{count_chars, count_substrs, strdup_until}
use bindfs.Userinfo.Names.{NameDb, user_uid, group_gid}

-- How the function ends: with the two arrays; with the return of 0; with a write behind the end of
-- an array; at an assertion.
pub data Mirrored : Type 0 where
  mirrored : List ℕ → List ℕ → Mirrored
  invalid : Mirrored
  out_of_bounds : Mirrored
  aborted : Mirrored

abbrev pub ends_name : ℕ → Bool
ends_name c = (c == b',') || (c == b':')

abbrev pub starts_group : Bytes → Bool
starts_group [] = false
starts_group (c ∷ cs) = c == b'@'

-- The text behind the name's first character.
abbrev pub behind_first : Bytes → Bytes
behind_first [] = []
behind_first (c ∷ cs) = cs

-- Where the loop goes on: behind the next delimiter, or nowhere.
unfoldable pub next_name : Bytes → Option Bytes
next_name [] = none
next_name (c ∷ cs) = let rest = next_name cs in if ends_name c then some cs else rest

unfoldable pub count_members : Bytes → ℕ
unfolding count_substrs
count_members mirror =
    (if starts_group mirror then 1 else 0)
    + count_substrs mirror (codes ",@")
    + count_substrs mirror (codes ":@")

unfoldable pub count_users : Bytes → ℕ
unfolding count_chars count_members
count_users mirror = count_chars mirror b',' + count_chars mirror b':' + 1 - count_members mirror

-- One round reads the name at `p` into the next cell of its array. The arrays are the cells written.
pub data Round : Type 0 where
  wrote : List ℕ → List ℕ → Round
  stopped : Mirrored → Round

module _ (db : NameDb) (num_users num_members : ℕ) where
  write_member : Option ℕ → List ℕ → List ℕ → Round
  write_member none users members = stopped invalid
  write_member (some gid) users members =
      if ltb (length members) num_members
      then wrote users (members ++ (gid ∷ []))
      else stopped out_of_bounds

  write_user : Option ℕ → List ℕ → List ℕ → Round
  write_user none users members = stopped invalid
  write_user (some uid) users members =
      if ltb (length users) num_users
      then wrote (users ++ (uid ∷ [])) members
      else stopped out_of_bounds

  unfoldable read_name : Bytes → List ℕ → List ℕ → Round
  unfolding write_member write_user
  read_name name users members =
      if starts_group name
      then write_member (group_gid db (behind_first name)) users members
      else write_user (user_uid db name) users members

  abbrev unfilled : List ℕ → List ℕ → Bool
  unfilled users members = ltb (length users) num_users || ltb (length members) num_members

  -- The loop, on fuel: each round but the last takes a delimiter.
  unfoldable pub mirror_loop : ℕ → Bytes → List ℕ → List ℕ → Mirrored
  unfolding read_name
  mirror_loop zero p users members = aborted
  mirror_loop (suc fuel) p users members = elim (unfilled users members) [
    | false ↦ mirrored users members
    | true ↦ elim (read_name (strdup_until p (codes ",:")) users members) [
      | stopped r ↦ r
      | wrote users' members' ↦ elim (next_name p) [
        | some p' ↦ mirror_loop fuel p' users' members'
        | none ↦
            if (length users' == num_users) && (length members' == num_members)
            then mirrored users' members'
            else aborted
      ]
    ]
  ]

unfoldable pub parse_mirrored_users : NameDb → Bytes → Mirrored
unfolding mirror_loop count_users
parse_mirrored_users db mirror =
    mirror_loop db (count_users mirror) (count_members mirror) (length mirror + 1) mirror [] []
