-- ===== src/Options/Maps/Paired.antt =====
-- The parsers of --map, --map-passwd and --map-group of src/bindfs.c fill the tables in pairs.
use bindfs.Base.{
  ℕ, ◌≡◌, List, [], ◌∷◌, Option, some, Bool, true, false, Bool-cases, inl, inr, arith,
}
use bindfs.Base.Maybe.{>>=-eq-some}
use bindfs.Base.Text.{Bytes, codes}
use bindfs.Userinfo.Names.{NameDb, user_uid, group_gid}
use bindfs.Usermap.Cells.{IsPaired, IsPaired-sym, add_both-IsPaired}
use bindfs.Usermap.Inverse.{add_both}
use bindfs.Options.Mirror.{starts_group, behind_first}
use bindfs.Options.Maps.{
  Maps, Line, apply_line, add_uids, add_gids, strstr, add_group_entry, add_user_entry, add_entry,
  read_line, map_file_loop, map_lines, parse_map_file, finished, parse_user_map, unexpected_end,
  ignored, names_ids,
}
use bindfs.Options.Maps.Entries.{add_entries, entries_of, parse_user_map_lem}

pub record ArePaired (m : Maps) : Type 0 where
  pub users : IsPaired m.map.users m.reverse_map.users
  pub groups : IsPaired m.map.groups m.reverse_map.groups

add_uids-ArePaired :
    (from to : ℕ) (m m' : Maps) → ArePaired m → add_uids from to m ≡ some m' → ArePaired m'
unfolding add_uids
add_uids-ArePaired from to m m' p h =
    let ((t, r), e, k) = >>=-eq-some (add_both m.map.users m.reverse_map.users from to) _ h in
    ground (arith, add_both-IsPaired m.map.users m.reverse_map.users from to p.users e)

add_gids-ArePaired :
    (from to : ℕ) (m m' : Maps) → ArePaired m → add_gids from to m ≡ some m' → ArePaired m'
unfolding add_gids
add_gids-ArePaired from to m m' p h =
    let ((t, r), e, k) = >>=-eq-some (add_both m.map.groups m.reverse_map.groups from to) _ h in
    ground (arith, add_both-IsPaired m.map.groups m.reverse_map.groups from to p.groups e)

add_group_entry-ArePaired :
    (db : NameDb) (entry : Bytes) (m m' : Maps)
    → ArePaired m
    → add_group_entry db entry m ≡ some m'
    → ArePaired m'
unfolding add_group_entry
add_group_entry-ArePaired db entry m m' p h =
    let ((front, q), e, h1) = >>=-eq-some (strstr entry (codes "/@")) _ h in
    let (from, e1, h2) = >>=-eq-some (group_gid db (behind_first front)) _ h1 in
    let (to, e2, h3) = >>=-eq-some (group_gid db q) _ h2 in add_gids-ArePaired from to m m' p h3

add_user_entry-ArePaired :
    (db : NameDb) (entry : Bytes) (m m' : Maps)
    → ArePaired m
    → add_user_entry db entry m ≡ some m'
    → ArePaired m'
unfolding add_user_entry
add_user_entry-ArePaired db entry m m' p h =
    let ((front, q), e, h1) = >>=-eq-some (strstr entry (codes "/")) _ h in
    let (from, e1, h2) = >>=-eq-some (user_uid db front) _ h1 in
    let (to, e2, h3) = >>=-eq-some (user_uid db q) _ h2 in add_uids-ArePaired from to m m' p h3

add_entry-ArePaired :
    (db : NameDb) (entry : Bytes) (m m' : Maps)
    → ArePaired m
    → add_entry db entry m ≡ some m'
    → ArePaired m'
unfolding add_entry
add_entry-ArePaired db entry m m' p h = elim (Bool-cases (starts_group entry)) [
  | inl e ↦ add_group_entry-ArePaired db entry m m' p (rw e at h)
  | inr e ↦ add_user_entry-ArePaired db entry m m' p (rw e at h)
]

add_entries-ArePaired :
    (db : NameDb) (entries : List Bytes) (m m' : Maps)
    → ArePaired m
    → add_entries db entries m ≡ some m'
    → ArePaired m'
unfolding add_entries
add_entries-ArePaired db [] m m' p h = ground arith
add_entries-ArePaired db (entry ∷ entries) m m' p h =
    let (m1, e, h1) = >>=-eq-some (add_entry db entry m) _ h in
    add_entries-ArePaired db entries m1 m' (add_entry-ArePaired db entry m m1 p e) h1

pub parse_user_map-ArePaired :
    (db : NameDb) (spec : Bytes) (m m' : Maps)
    → ArePaired m
    → parse_user_map db spec m ≡ finished (some m')
    → ArePaired m'
parse_user_map-ArePaired db spec m m' p h =
    add_entries-ArePaired db (entries_of spec) m m' p (ground (arith, parse_user_map_lem db spec m))

-- A way to add two ids that keeps the tables paired.
module _ (usermap_add : ℕ → ℕ → Maps → Option Maps)
    (keeps : (from to : ℕ) (n n' : Maps)
      → ArePaired n
      → usermap_add from to n ≡ some n'
      → ArePaired n') where
  apply_line-ArePaired :
      (line : Line) (m m' : Maps)
      → ArePaired m
      → apply_line usermap_add line m ≡ some m'
      → ArePaired m'
  apply_line-ArePaired unexpected_end m m' p h = cc
  apply_line-ArePaired ignored m m' p h = ground arith
  apply_line-ArePaired (names_ids from to) m m' p h = keeps from to m m' p h

  map_file_loop-ArePaired :
      (value_to_id : Bytes → Option ℕ) (lines : List Bytes) (m m' : Maps)
      → ArePaired m
      → map_file_loop value_to_id usermap_add lines m ≡ some m'
      → ArePaired m'
  unfolding map_file_loop
  map_file_loop-ArePaired value_to_id [] m m' p h = ground arith
  map_file_loop-ArePaired value_to_id (line ∷ lines) m m' p h =
      let (m1, e, h1) = >>=-eq-some (apply_line usermap_add (read_line value_to_id line) m) _ h in
      map_file_loop-ArePaired value_to_id lines m1 m'
        (apply_line-ArePaired (read_line value_to_id line) m m1 p e) h1

map_lines-ArePaired :
    (db : NameDb) (as_gid : Bool) (lines : List Bytes) (m m' : Maps)
    → ArePaired m
    → map_lines db as_gid lines m ≡ some m'
    → ArePaired m'
map_lines-ArePaired db true lines m m' p h =
    map_file_loop-ArePaired _ add_gids-ArePaired _ lines m m' p h
map_lines-ArePaired db false lines m m' p h =
    map_file_loop-ArePaired _ add_uids-ArePaired _ lines m m' p h

pub parse_map_file-ArePaired :
    (db : NameDb) (open_lines : Bytes → Option (List Bytes)) (m m' : Maps) (file : Bytes)
    (as_gid : Bool)
    → ArePaired m
    → parse_map_file db open_lines m file as_gid ≡ some m'
    → ArePaired m'
unfolding parse_map_file
parse_map_file-ArePaired db open_lines m m' file as_gid p h =
    let (lines, e, h1) = >>=-eq-some (open_lines file) _ h in
    map_lines-ArePaired db as_gid lines m m' p h1

-- The reverse options are given the tables the other way around.
pub ArePaired-sym :
    (m : Maps) → ArePaired m → ArePaired (record { map = m.reverse_map; reverse_map = m.map })
ArePaired-sym m p = record { users = IsPaired-sym p.users; groups = IsPaired-sym p.groups }
