-- ===== src/Options/Mirror/Names.antt =====
-- An independent reading of the value of --mirror (`parse_mirrored_users` of src/bindfs.c): the
-- list of the names that it holds, and what each of them says.
use bindfs.Base.{ℕ, ◌+◌, List, [], ◌∷◌, ◌++◌, Option, none, some, Bool, true, false}
use bindfs.Base.{◌==◌, ◌||◌, ◌&&◌, if◌then◌else◌}
use bindfs.Base.Text.{Bytes}
use bindfs.Userinfo.Names.{NameDb, user_uid, group_gid}
use bindfs.Options.Mirror.{Mirrored, mirrored, invalid, out_of_bounds, aborted}
use bindfs.Options.Mirror.{ends_name, starts_group, behind_first}

-- The names between the delimiters; a text without one is one name, also the empty text.
abbrev pub onto_first : ℕ → List Bytes → List Bytes
onto_first c [] = (c ∷ []) ∷ []
onto_first c (name ∷ names) = (c ∷ name) ∷ names

unfoldable pub split_names : Bytes → List Bytes
split_names [] = [] ∷ []
split_names (c ∷ cs) =
    let rest = split_names cs in if ends_name c then [] ∷ rest else onto_first c rest

-- The ids that the names stand for, users and groups apart, or the first failure.
abbrev pub note : (List ℕ → List ℕ → Mirrored) → Bool → Option ℕ → List ℕ → List ℕ → Mirrored
note go group none users members = invalid
note go true (some gid) users members = go users (members ++ (gid ∷ []))
note go false (some uid) users members = go (users ++ (uid ∷ [])) members

unfoldable pub collect : NameDb → List Bytes → List ℕ → List ℕ → Mirrored
collect db [] users members = mirrored users members
collect db (name ∷ names) users members =
    let group = starts_group name in
    note (λ us ms. collect db names us ms) group
      (if group then group_gid db (behind_first name) else user_uid db name) users members

-- How many of the names are users, and how many are groups.
unfoldable pub users_in : List Bytes → ℕ
users_in [] = 0
users_in (name ∷ names) = (if starts_group name then 0 else 1) + users_in names

unfoldable pub groups_in : List Bytes → ℕ
groups_in [] = 0
groups_in (name ∷ names) = (if starts_group name then 1 else 0) + groups_in names

-- Whether the text ends in a delimiter and a lone @.
abbrev pub is_lone_at : Bytes → Bool
is_lone_at [] = false
is_lone_at (c ∷ []) = c == b'@'
is_lone_at (c ∷ d ∷ cs) = false

unfoldable pub ends_in_lone_at : Bytes → Bool
ends_in_lone_at [] = false
ends_in_lone_at (c ∷ cs) = (ends_name c && is_lone_at cs) || ends_in_lone_at cs

-- The last write of such a text is behind the array of the groups.
abbrev pub overrun : Mirrored → Mirrored
overrun (mirrored users members) = out_of_bounds
overrun invalid = invalid
overrun out_of_bounds = out_of_bounds
overrun aborted = aborted
