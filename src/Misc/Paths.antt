-- ===== src/Misc/Paths.antt =====
-- The functions of src/misc.c on paths: `my_basename`, `my_dirname` and `path_starts_with`.
pub mod Prefixes
use bindfs.Base.{ℕ, suc, ◌-◌, [], ◌∷◌, Option, none, some, Bool, false}
use bindfs.Base.{◌==◌, if◌then◌else◌, length, take, drop}
use bindfs.Base.Text.{Bytes, codes, bytes_eq, starts_with}

abbrev pub shift : Option ℕ → Option ℕ
shift none = none
shift (some i) = some (suc i)

-- `strchr(s, ch)`, as a position.
unfoldable pub index_of : ℕ → Bytes → Option ℕ
index_of ch [] = none
index_of ch (c ∷ cs) = let later = shift (index_of ch cs) in if c == ch then some 0 else later

-- `strrchr(s, ch)` and the downward search of `find_last_char_between`, as a position.
unfoldable pub last_index_of : ℕ → Bytes → Option ℕ
last_index_of ch [] = none
last_index_of ch (c ∷ cs) = elim (last_index_of ch cs) [
  | some i ↦ some (suc i)
  | none ↦ if c == ch then some 0 else none
]

unfoldable pub my_basename : Bytes → Bytes
unfolding last_index_of
my_basename path = elim (last_index_of b'/' path) [ none ↦ path | some i ↦ drop (suc i) path ]

-- The loop stops at the last slash behind the first character; a slash in front is the root.
unfoldable pub my_dirname : Bytes → Bytes
unfolding last_index_of bytes_eq
my_dirname path =
    if bytes_eq path (codes ".")
    then codes ".."
    else if bytes_eq path (codes "/")
    then codes "/"
    else elim (last_index_of b'/' path) [
      | none ↦ codes "."
      | some i ↦ if i == 0 then codes "/" else take i path
    ]

-- `while (len > 0 && s[len - 1] == '/') --len;`
unfoldable pub without_slashes : Bytes → Bytes
without_slashes [] = []
without_slashes (c ∷ cs) = elim (without_slashes cs) [
  | [] ↦ if c == b'/' then [] else c ∷ []
  | d ∷ ds ↦ c ∷ d ∷ ds
]

-- Where the last component begins.
unfoldable pub part_offset : Bytes → ℕ
unfolding last_index_of
part_offset prefix = elim (last_index_of b'/' prefix) [ none ↦ 0 | some i ↦ suc i ]

-- The length of the component of `path` that begins at `offset`.
unfoldable pub part_length : Bytes → ℕ → ℕ
unfolding index_of without_slashes
part_length path offset = elim (index_of b'/' (drop offset path)) [
  | none ↦ length (without_slashes path) - offset
  | some i ↦ i
]

unfoldable pub path_starts_with : Bytes → Bytes → ℕ → Bool
unfolding without_slashes starts_with part_offset part_length
path_starts_with path prefix prefix_len =
    let p = without_slashes (take prefix_len prefix) in
    if starts_with path p
    then length p - part_offset p == part_length path (part_offset p)
    else false
