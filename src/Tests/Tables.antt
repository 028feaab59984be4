-- ===== src/Tests/Tables.antt =====
-- The id tables and the offsets on concrete ids.
use bindfs.Base.{◌≡◌, refl, [], ◌∷◌, ℕ, ◌||◌, ◌==◌, ◌&&◌, not, if◌then◌else◌, some, arith}
use bindfs.Base.Int.{pos}
use bindfs.Fs.Ids.{shift_id}
use bindfs.Usermap.Arrays.{
  Table, status_ok, duplicate_key, no_id, empty_table, table_add, table_get, put_cell, scan,
  reserve,
}
use bindfs.Usermap.Laws.{IsValid, table_add_lem}
use bindfs.Usermap.Inverse.{IsInverse, add_both, empty_table-IsInverse, add_both-IsInverse}

-- One entry, from 1000 to 0.
abbrev pub one : Table
one = record { from = 1000 ∷ []; to = 0 ∷ []; capacity = 8; size = 1 }

abbrev pub one_reverse : Table
one_reverse = record { from = 0 ∷ []; to = 1000 ∷ []; capacity = 8; size = 1 }

one_added : add_both empty_table empty_table 1000 0 ≡ some (one, one_reverse)
unfolding add_both table_add table_get put_cell scan reserve empty_table
one_added = refl

pub one-IsInverse : IsInverse one one_reverse
one-IsInverse =
    add_both-IsInverse empty_table empty_table 1000 0 (omega arith) (omega arith)
      empty_table-IsInverse one_added

one-IsValid : IsValid one
one-IsValid = one-IsInverse.valid

one_get : table_get one 1000 no_id ≡ 0
unfolding table_get scan
one_get = refl

table_add_lem_example :
    ((table_add one 1000 5).0
      ≡ (if 1000 == 5 || (table_get one 1000 no_id == no_id) then status_ok else duplicate_key))
    × ((u d : ℕ)
        → table_get (table_add one 1000 5).1 u d ≡ (
            if not (1000 == 5) && (table_get one 1000 no_id == no_id) && (1000 == u)
            then 5
            else table_get one u d))
table_add_lem_example = table_add_lem one 1000 5 one-IsValid

add_both-IsInverse_example : IsInverse one one_reverse
add_both-IsInverse_example =
    add_both-IsInverse empty_table empty_table 1000 0 (omega arith) (omega arith)
      empty_table-IsInverse one_added

shifted : shift_id (pos 1000) 5 ≡ some 1005
unfolding shift_id
shifted = refl
