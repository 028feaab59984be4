-- ===== src/Options/Maps.antt =====
-- The options that fill the id tables: `parse_user_map` (--map) and `parse_map_file` (--map-passwd,
-- --map-group and their reverse forms) of src/bindfs.c.
pub mod Entries
pub mod Paired
pub mod Columns
pub mod Lines
use bindfs.Base.{ℕ, zero, suc, List, [], ◌∷◌, Option, none, some, Bool, true, false}
use bindfs.Base.{◌==◌, if◌then◌else◌, length, drop}
use bindfs.Base.Maybe.{◌>>=◌}
use bindfs.Base.Text.{Bytes, codes, starts_with}
use bindfs.Misc.Texts.{strdup_until}
use bindfs.Usermap.{UserMap}
use bindfs.Usermap.Inverse.{add_both}
use bindfs.Userinfo.Names.{NameDb, user_uid, group_gid}
use bindfs.Options.Mirror.{starts_group, behind_first, next_name}

-- The two tables that the parsers are given, `map` and `reverse_map`.
pub record Maps : Type 0 where
  pub map : UserMap
  pub reverse_map : UserMap

-- `usermap_add_uid` or `usermap_add_gid` on both; `none` is the jump to the error exit.
unfoldable pub add_uids : ℕ → ℕ → Maps → Option Maps
unfolding add_both
add_uids from to m = do
  (t, r) ← add_both m.map.users m.reverse_map.users from to
  some (record {
    map = record m.map { users = t };
    reverse_map = record m.reverse_map { users = r };
  })

unfoldable pub add_gids : ℕ → ℕ → Maps → Option Maps
unfolding add_both
add_gids from to m = do
  (t, r) ← add_both m.map.groups m.reverse_map.groups from to
  some (record {
    map = record m.map { groups = t };
    reverse_map = record m.reverse_map { groups = r };
  })

-- `strstr(s, sub)`, as the texts before and behind the first match.
abbrev pub onto_front : ℕ → Option (Bytes × Bytes) → Option (Bytes × Bytes)
onto_front c none = none
onto_front c (some (front, back)) = some (c ∷ front, back)

unfoldable pub strstr : Bytes → Bytes → Option (Bytes × Bytes)
unfolding starts_with
strstr [] sub = none
strstr (c ∷ cs) sub =
    let later = strstr cs sub in
    if starts_with (c ∷ cs) sub then some ([], drop (length sub) (c ∷ cs)) else onto_front c later

-- One entry of --map.
unfoldable pub add_group_entry : NameDb → Bytes → Maps → Option Maps
unfolding strstr add_gids
add_group_entry db entry m = do
  (front, q) ← strstr entry (codes "/@")
  gid_from ← group_gid db (behind_first front)
  gid_to ← group_gid db q
  add_gids gid_from gid_to m

unfoldable pub add_user_entry : NameDb → Bytes → Maps → Option Maps
unfolding strstr add_uids
add_user_entry db entry m = do
  (front, q) ← strstr entry (codes "/")
  uid_from ← user_uid db front
  uid_to ← user_uid db q
  add_uids uid_from uid_to m

unfoldable pub add_entry : NameDb → Bytes → Maps → Option Maps
unfolding add_group_entry add_user_entry
add_entry db entry m =
    if starts_group entry then add_group_entry db entry m else add_user_entry db entry m

-- The loop, on fuel: each round but the last takes a delimiter. Without fuel it gives no answer.
pub data Ran : Type 0 where
  finished : Option Maps → Ran
  out_of_fuel : Ran

unfoldable pub user_map_loop : NameDb → ℕ → Bytes → Maps → Ran
unfolding add_entry
user_map_loop db fuel [] m = finished (some m)
user_map_loop db zero (c ∷ cs) m = out_of_fuel
user_map_loop db (suc fuel) (c ∷ cs) m =
    elim (add_entry db (strdup_until (c ∷ cs) (codes ",:")) m) [
      | none ↦ finished none
      | some m' ↦ elim (next_name (c ∷ cs)) [
        | none ↦ finished (some m')
        | some p ↦ user_map_loop db fuel p m'
      ]
    ]

unfoldable pub parse_user_map : NameDb → Bytes → Maps → Ran
unfolding user_map_loop
parse_user_map db spec m = user_map_loop db (length spec) spec m

-- `strtok`: the token behind leading delimiters, and what stands behind its delimiter.
unfoldable pub token : ℕ → Bytes → Bytes × Bytes
token delim [] = ([], [])
token delim (c ∷ cs) =
    let (name, rest) = token delim cs in if c == delim then ([], cs) else (c ∷ name, rest)

unfoldable pub strtok : ℕ → Bytes → Option (Bytes × Bytes)
unfolding token
strtok delim [] = none
strtok delim (c ∷ cs) =
    let later = strtok delim cs in if c == delim then later else some (token delim (c ∷ cs))

-- The newline at the end of a line.
unfoldable pub without_newline : Bytes → Bytes
without_newline [] = []
without_newline (c ∷ []) = if c == b'\n' then [] else c ∷ []
without_newline (c ∷ d ∷ cs) = c ∷ without_newline (d ∷ cs)

-- A line is an error, is passed over with a warning, or names two ids.
pub data Line : Type 0 where
  unexpected_end : Line
  ignored : Line
  names_ids : ℕ → ℕ → Line

abbrev pub from_column : ℕ → Option ℕ → Line
from_column uid_to none = ignored
from_column uid_to (some uid_from) = names_ids uid_from uid_to

-- The columns behind the first one: the second is skipped, the third is the id.
abbrev pub third_column : (Bytes → Option ℕ) → ℕ → Option (Bytes × Bytes) → Line
third_column value_to_id uid_to none = unexpected_end
third_column value_to_id uid_to (some (column, rest)) = from_column uid_to (value_to_id column)

abbrev pub later_columns : (Bytes → Option ℕ) → Bytes → Option ℕ → Line
later_columns value_to_id rest none = ignored
later_columns value_to_id rest (some uid_to) =
    third_column value_to_id uid_to (do (skipped, rest') ← strtok b':' rest; strtok b':' rest')

unfoldable pub read_line : (Bytes → Option ℕ) → Bytes → Line
unfolding strtok without_newline
read_line value_to_id line = elim (strtok b':' (without_newline line)) [
  | none ↦ unexpected_end
  | some (column, rest) ↦ later_columns value_to_id rest (value_to_id column)
]

abbrev pub apply_line : (ℕ → ℕ → Maps → Option Maps) → Line → Maps → Option Maps
apply_line usermap_add unexpected_end m = none
apply_line usermap_add ignored m = some m
apply_line usermap_add (names_ids from to) m = usermap_add from to m

unfoldable pub map_file_loop :
    (Bytes → Option ℕ) → (ℕ → ℕ → Maps → Option Maps) → List Bytes → Maps → Option Maps
unfolding read_line
map_file_loop value_to_id usermap_add [] m = some m
map_file_loop value_to_id usermap_add (line ∷ lines) m = do
  m' ← apply_line usermap_add (read_line value_to_id line) m
  map_file_loop value_to_id usermap_add lines m'

abbrev pub map_lines : NameDb → Bool → List Bytes → Maps → Option Maps
map_lines db true lines m =
    map_file_loop (λ name. group_gid db name) (λ from to m'. add_gids from to m') lines m
map_lines db false lines m =
    map_file_loop (λ name. user_uid db name) (λ from to m'. add_uids from to m') lines m

-- `fopen` and `getline` give the lines of the file with their newlines, or fail.
unfoldable pub parse_map_file :
    NameDb → (Bytes → Option (List Bytes)) → Maps → Bytes → Bool → Option Maps
unfolding map_file_loop
parse_map_file db open_lines m file as_gid =
    open_lines file >>= λ lines. map_lines db as_gid lines m
