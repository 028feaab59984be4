-- ===== src/Options/Maps/Lines.antt =====
-- What `parse_map_file` of src/bindfs.c reads from a file like /etc/passwd or /etc/group.
use bindfs.Base.{
  ℕ, ◌≡◌, refl, ap, ◌∙◌, inl, inr, List, [], ◌∷◌, Option, none, some, Bool, true, false, Bool-cases,
  ◌==◌, sym, if◌then◌else◌, length, take, drop,
}
use bindfs.Base.Maybe.{◌>>=◌, >>=_ext}
use bindfs.Base.Text.{Bytes, codes, starts_with}
use bindfs.Misc.OptionLists.{tokens}
use bindfs.Userinfo.Names.{NameDb, user_uid, group_gid}
use bindfs.Options.Maps.{
  Maps, add_gids, add_uids, without_newline, from_column, read_line, apply_line, map_file_loop,
  parse_map_file,
}
use bindfs.Options.Maps.Columns.{named_line, line_of, read_line_lem}

-- The text of a line, without the newline that it may end in.
abbrev ends_line : Bytes → Bool
ends_line [] = false
ends_line (c ∷ cs) = starts_with (drop (length cs) (c ∷ cs)) (codes "\n")

abbrev pub line_text : Bytes → Bytes
line_text [] = []
line_text (c ∷ cs) = if ends_line (c ∷ cs) then take (length cs) (c ∷ cs) else c ∷ cs

line_text_lem : (c d : ℕ) (cs : Bytes) → line_text (c ∷ d ∷ cs) ≡ c ∷ line_text (d ∷ cs)
line_text_lem c d cs = elim (Bool-cases (ends_line (d ∷ cs))) [
  | inl e ↦ rw e refl
  | inr e ↦ rw e refl
]

without_newline_lem : (line : Bytes) → without_newline line ≡ line_text line
unfolding without_newline starts_with
without_newline_lem [] = refl
without_newline_lem (c ∷ []) = elim (Bool-cases (c == b'\n')) [
  | inl e ↦ rw e refl
  | inr e ↦ rw e refl
]
without_newline_lem (c ∷ d ∷ cs) =
    ap (λ xs. c ∷ xs) (without_newline_lem (d ∷ cs)) ∙ sym (line_text_lem c d cs)

-- The id in the third column is mapped to `to`. The file is an error where there is no such column,
-- and an id that is not known is passed over.
abbrev add_from : (ℕ → ℕ → Maps → Option Maps) → ℕ → Maps → Option ℕ → Option Maps
add_from usermap_add to m none = some m
add_from usermap_add to m (some from) = usermap_add from to m

abbrev add_third :
    (Bytes → Option ℕ) → (ℕ → ℕ → Maps → Option Maps) → List Bytes → Maps → Option ℕ → Option Maps
add_third value_to_id usermap_add columns m none = some m
add_third value_to_id usermap_add [] m (some to) = none
add_third value_to_id usermap_add (skipped ∷ []) m (some to) = none
add_third value_to_id usermap_add (skipped ∷ id ∷ columns) m (some to) =
    add_from usermap_add to m (value_to_id id)

-- What the columns of a line that are not empty do to the tables: the first is a name.
abbrev pub add_columns :
    (Bytes → Option ℕ) → (ℕ → ℕ → Maps → Option Maps) → List Bytes → Maps → Option Maps
add_columns value_to_id usermap_add [] m = none
add_columns value_to_id usermap_add (name ∷ columns) m =
    add_third value_to_id usermap_add columns m (value_to_id name)

add_from_lem :
    (usermap_add : ℕ → ℕ → Maps → Option Maps) (to : ℕ) (m : Maps) (o : Option ℕ)
    → apply_line usermap_add (from_column to o) m ≡ add_from usermap_add to m o
add_from_lem usermap_add to m none = refl
add_from_lem usermap_add to m (some from) = refl

add_third_lem :
    (value_to_id : Bytes → Option ℕ) (usermap_add : ℕ → ℕ → Maps → Option Maps)
    (columns : List Bytes) (m : Maps) (o : Option ℕ)
    → apply_line usermap_add (named_line value_to_id columns o) m
      ≡ add_third value_to_id usermap_add columns m o
add_third_lem value_to_id usermap_add columns m none = refl
add_third_lem value_to_id usermap_add [] m (some to) = refl
add_third_lem value_to_id usermap_add (skipped ∷ []) m (some to) = refl
add_third_lem value_to_id usermap_add (skipped ∷ id ∷ columns) m (some to) =
    add_from_lem usermap_add to m (value_to_id id)

add_columns_lem :
    (value_to_id : Bytes → Option ℕ) (usermap_add : ℕ → ℕ → Maps → Option Maps)
    (columns : List Bytes) (m : Maps)
    → apply_line usermap_add (line_of value_to_id columns) m
      ≡ add_columns value_to_id usermap_add columns m
add_columns_lem value_to_id usermap_add [] m = refl
add_columns_lem value_to_id usermap_add (name ∷ columns) m =
    add_third_lem value_to_id usermap_add columns m (value_to_id name)

-- The lines are applied one after the other, up to the first that is an error.
unfoldable pub apply_lines :
    (Bytes → Option ℕ) → (ℕ → ℕ → Maps → Option Maps) → List Bytes → Maps → Option Maps
apply_lines value_to_id usermap_add [] m = some m
apply_lines value_to_id usermap_add (line ∷ lines) m =
    add_columns value_to_id usermap_add (tokens b':' (line_text line)) m >>= λ m'.
    apply_lines value_to_id usermap_add lines m'

map_file_loop_lem :
    (value_to_id : Bytes → Option ℕ) (usermap_add : ℕ → ℕ → Maps → Option Maps) (lines : List Bytes)
    (m : Maps)
    → map_file_loop value_to_id usermap_add lines m ≡ apply_lines value_to_id usermap_add lines m
unfolding map_file_loop apply_lines
map_file_loop_lem value_to_id usermap_add [] m = refl
map_file_loop_lem value_to_id usermap_add (line ∷ lines) m =
    let read : apply_line usermap_add (read_line value_to_id line) m
        ≡ add_columns value_to_id usermap_add (tokens b':' (line_text line)) m =
      ap (λ l. apply_line usermap_add l m) (read_line_lem value_to_id line)
      ∙ add_columns_lem value_to_id usermap_add (tokens b':' (without_newline line)) m
      ∙ ap (λ l. add_columns value_to_id usermap_add (tokens b':' l) m)
          (without_newline_lem line) in
    rw read (
      >>=_ext (add_columns value_to_id usermap_add (tokens b':' (line_text line)) m) _ _
        λ m'. map_file_loop_lem value_to_id usermap_add lines m')

abbrev pub ids_of : NameDb → Bool → Bytes → Option ℕ
ids_of db true name = group_gid db name
ids_of db false name = user_uid db name

abbrev pub adding : Bool → ℕ → ℕ → Maps → Option Maps
adding true from to m = add_gids from to m
adding false from to m = add_uids from to m

-- `parse_map_file` reads a line by its columns that are not empty, without the newline. A line without
-- any is an error. The first column is a name, and a line whose name is not known is passed over,
-- whatever follows. The id of the name is what the id in the third column is mapped to: a line with a
-- known name but no third column is an error, and one whose third column is no known id is passed
-- over. The lines are applied in order, and the first error ends it. A file that cannot be opened is
-- an error.
pub parse_map_file_lem :
    (db : NameDb) (open_lines : Bytes → Option (List Bytes)) (m : Maps) (file : Bytes)
    (as_gid : Bool)
    → parse_map_file db open_lines m file as_gid
      ≡ (open_lines file >>= λ lines. apply_lines (ids_of db as_gid) (adding as_gid) lines m)
unfolding parse_map_file
parse_map_file_lem db open_lines m file true = >>=_ext (open_lines file) _ _ λ lines.
    map_file_loop_lem (λ name. group_gid db name) (λ from to m'. add_gids from to m') lines m
parse_map_file_lem db open_lines m file false = >>=_ext (open_lines file) _ _ λ lines.
    map_file_loop_lem (λ name. user_uid db name) (λ from to m'. add_uids from to m') lines m
