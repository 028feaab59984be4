-- ===== src/Options/Mirror/Counts.antt =====
-- The two counts that `parse_mirrored_users` of src/bindfs.c makes before it reads the names.
use bindfs.Base.{ℕ, ◌+◌, ◌≡◌, refl, List, [], ◌∷◌, Option, none, some}
use bindfs.Base.{◌==◌, ◌&&◌, if◌then◌else◌, arith}
use bindfs.Base.Text.{Bytes, codes, starts_with}
use bindfs.Misc.Texts.{count_chars, count_substrs, strdup_until, contains_char}
use bindfs.Options.Mirror.{ends_name, starts_group, next_name, count_members, count_users}
use bindfs.Options.Mirror.Names.{split_names, users_in, groups_in, ends_in_lone_at}

-- The names behind the first one.
abbrev pub names_behind : Option Bytes → List Bytes
names_behind none = []
names_behind (some p) = split_names p

-- The first name is the text up to a delimiter, the others stand behind that one.
pub split_names_lem :
    (p : Bytes) → split_names p ≡ strdup_until p (codes ",:") ∷ names_behind (next_name p)
unfolding split_names next_name strdup_until contains_char
split_names_lem [] = refl
split_names_lem (c ∷ cs) = ground (arith, split_names_lem cs)

pub starts_group-strdup_until :
    (p : Bytes) → starts_group (strdup_until p (codes ",:")) ≡ starts_group p
unfolding strdup_until contains_char
starts_group-strdup_until [] = refl
starts_group-strdup_until (c ∷ cs) = ground arith

-- How many names behind the first one are groups.
unfoldable pub later_groups : Bytes → ℕ
later_groups [] = 0
later_groups (c ∷ cs) = (if ends_name c && starts_group cs then 1 else 0) + later_groups cs

pub groups_in-split_names :
    (p : Bytes) → groups_in (split_names p) ≡ (if starts_group p then 1 else 0) + later_groups p
unfolding split_names groups_in later_groups
groups_in-split_names [] = refl
groups_in-split_names (c ∷ cs) =
    ground (arith, groups_in-split_names cs, split_names_lem cs, starts_group-strdup_until cs)

names_in :
    (p : Bytes)
    → users_in (split_names p) + groups_in (split_names p)
      ≡ count_chars p b',' + count_chars p b':' + 1
unfolding split_names groups_in users_in count_chars
names_in [] = refl
names_in (c ∷ cs) = ground (arith, names_in cs, split_names_lem cs)

count_substrs-cons :
    (x c d e : ℕ) (cs : Bytes)
    → count_substrs (c ∷ d ∷ e ∷ cs) (x ∷ b'@' ∷ [])
      ≡ (if (c == x) && (d == b'@') then 1 else 0) + count_substrs (d ∷ e ∷ cs) (x ∷ b'@' ∷ [])
unfolding count_substrs starts_with
count_substrs-cons x c d e cs = ground arith

ends_in_lone_at-cons :
    (c d e : ℕ) (cs : Bytes) → ends_in_lone_at (c ∷ d ∷ e ∷ cs) ≡ ends_in_lone_at (d ∷ e ∷ cs)
unfolding ends_in_lone_at
ends_in_lone_at-cons c d e cs = ground arith

later_groups-cons :
    (c d : ℕ) (cs : Bytes)
    → later_groups (c ∷ d ∷ cs)
      ≡ (if ends_name c && (d == b'@') then 1 else 0) + later_groups (d ∷ cs)
unfolding later_groups
later_groups-cons c d cs = refl

-- `count_substrs` misses a group at the end that has no name.
abbrev Missed : Bytes → Type 0
Missed p =
    count_substrs p (codes ",@")
      + count_substrs p (codes ":@")
      + (if ends_in_lone_at p then 1 else 0)
    ≡ later_groups p

Missed-cons : (c d e : ℕ) (cs : Bytes) → Missed (d ∷ e ∷ cs) → Missed (c ∷ d ∷ e ∷ cs)
Missed-cons c d e cs h = ground (
  arith,
  count_substrs-cons b',' c d e cs,
  count_substrs-cons b':' c d e cs,
  ends_in_lone_at-cons c d e cs,
  later_groups-cons c d (e ∷ cs),
)

count_substrs_lem : (p : Bytes) → Missed p
unfolding count_substrs starts_with ends_in_lone_at later_groups
count_substrs_lem [] = refl
count_substrs_lem (c ∷ []) = ground arith
count_substrs_lem (c ∷ d ∷ []) = ground arith
count_substrs_lem (c ∷ d ∷ e ∷ cs) = Missed-cons c d e cs (count_substrs_lem (d ∷ e ∷ cs))

pub count_members_lem :
    (p : Bytes) → count_members p + (if ends_in_lone_at p then 1 else 0) ≡ groups_in (split_names p)
unfolding count_members
count_members_lem p = omega (arith, count_substrs_lem p, groups_in-split_names p)

pub count_users_lem :
    (p : Bytes) → count_users p ≡ users_in (split_names p) + (if ends_in_lone_at p then 1 else 0)
unfolding count_users
count_users_lem p = omega (arith, count_members_lem p, names_in p)
