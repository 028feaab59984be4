-- ===== src/Options/Maps/Entries.antt =====
-- What `parse_user_map` of src/bindfs.c reads from the value of --map, by a reading that splits the
-- text first.
use bindfs.Base.{ℕ, zero, suc, ◌≤◌, ◌≡◌, refl, List, [], ◌∷◌, Option, none, some}
use bindfs.Base.{Option-cases, inl, inr, length, arith}
use bindfs.Base.Maybe.{◌>>=◌}
use bindfs.Base.Text.{Bytes, codes}
use bindfs.Misc.Texts.{strdup_until, contains_char}
use bindfs.Userinfo.Names.{NameDb}
use bindfs.Options.Mirror.{next_name}
use bindfs.Options.Mirror.Names.{split_names}
use bindfs.Options.Mirror.Counts.{split_names_lem}
use bindfs.Options.Mirror.Laws.{next_name-shorter}
use bindfs.Options.Maps.{Maps, add_entry, finished, user_map_loop, parse_user_map}

-- The entries between the delimiters; an empty one at the end does not count.
abbrev pub unless_empty : Bytes → List Bytes
unless_empty [] = []
unless_empty (c ∷ cs) = (c ∷ cs) ∷ []

abbrev pub without_last_empty : List Bytes → List Bytes
without_last_empty [] = []
without_last_empty (entry ∷ []) = unless_empty entry
without_last_empty (entry ∷ next ∷ entries) = entry ∷ without_last_empty (next ∷ entries)

abbrev pub entries_of : Bytes → List Bytes
entries_of spec = without_last_empty (split_names spec)

unfoldable pub add_entries : NameDb → List Bytes → Maps → Option Maps
add_entries db [] m = some m
add_entries db (entry ∷ entries) m = add_entry db entry m >>= λ m'. add_entries db entries m'

abbrev entries_behind : Option Bytes → List Bytes
entries_behind none = []
entries_behind (some p) = entries_of p

first_entry :
    (c : ℕ) (cs : Bytes)
    → next_name (c ∷ cs) ≡ none
    → unless_empty (strdup_until (c ∷ cs) (codes ",:")) ≡ strdup_until (c ∷ cs) (codes ",:") ∷ []
unfolding next_name strdup_until contains_char
first_entry c cs h = ground arith

entries_of_lem :
    (c : ℕ) (cs : Bytes)
    → entries_of (c ∷ cs) ≡ strdup_until (c ∷ cs) (codes ",:") ∷ entries_behind (next_name (c ∷ cs))
entries_of_lem c cs = elim (Option-cases (next_name (c ∷ cs))) [
  | inl n ↦ ground (arith, split_names_lem (c ∷ cs), first_entry c cs n)
  | inr (p, n) ↦ ground (arith, split_names_lem (c ∷ cs), split_names_lem p)
]

entries_of_nil : entries_of [] ≡ []
unfolding split_names
entries_of_nil = refl

user_map_loop_lem :
    (db : NameDb) (fuel : ℕ) (p : Bytes) (m : Maps)
    → length p ≤ fuel
    → user_map_loop db fuel p m ≡ finished (add_entries db (entries_of p) m)
unfolding user_map_loop add_entries
user_map_loop_lem db fuel [] m f = rw entries_of_nil refl
user_map_loop_lem db zero (c ∷ cs) m f = absurd (omega (arith, f))
user_map_loop_lem db (suc fuel) (c ∷ cs) m f =
    elim (Option-cases (add_entry db (strdup_until (c ∷ cs) (codes ",:")) m)) [
      | inl e ↦ ground (arith, entries_of_lem c cs)
      | inr (m', e) ↦ elim (Option-cases (next_name (c ∷ cs))) [
        | inl n ↦ ground (arith, entries_of_lem c cs)
        | inr (p, n) ↦ ground (
          arith,
          entries_of_lem c cs,
          next_name-shorter (c ∷ cs) p n,
          user_map_loop_lem db fuel p m',
        )
      ]
    ]

-- `parse_user_map` adds the entries between the commas and colons in order, up to the first that
-- fails; an empty entry counts but at the very end, and the loop ends for every text.
pub parse_user_map_lem :
    (db : NameDb) (spec : Bytes) (m : Maps)
    → parse_user_map db spec m ≡ finished (add_entries db (entries_of spec) m)
unfolding parse_user_map
parse_user_map_lem db spec m = user_map_loop_lem db (length spec) spec m (omega arith)
