-- ===== src/Usermap/Arrays.antt =====
-- One table of src/usermap.c: two parallel arrays, of which `size` cells are in use and `capacity`
-- are allocated. `realloc` gives the new cells no value, so an array is the list of the cells that
-- have been written. Memory is taken to suffice, and sizes not to reach 2 ^ 31.
use bindfs.Base.{ℕ, zero, suc, ◌+◌, ◌*◌, ◌^◌, ◌-◌, List, [], ◌∷◌, not}
use bindfs.Base.{◌==◌, if◌then◌else◌}

pub data Status : Type 0 where
  status_ok duplicate_key : Status

pub record Table : Type 0 where
  pub from : List ℕ
  pub to : List ℕ
  pub capacity : ℕ
  pub size : ℕ

-- `(uid_t)-1`
abbrev pub no_id : ℕ
no_id = 2 ^ 32 - 1

unfoldable pub empty_table : Table
empty_table = record { from = []; to = []; capacity = 0; size = 0 }

-- `a[i] = v`
unfoldable pub put_cell : List ℕ → ℕ → ℕ → List ℕ
put_cell [] zero v = v ∷ []
put_cell [] (suc i) v = []
put_cell (x ∷ xs) zero v = v ∷ xs
put_cell (x ∷ xs) (suc i) v = x ∷ put_cell xs i v

-- The loop over the first `n` cells.
unfoldable pub scan : ℕ → List ℕ → List ℕ → ℕ → ℕ → ℕ
scan (suc n) (f ∷ fs) (t ∷ ts) u deflt =
    let rest = scan n fs ts u deflt in if f == u then t else rest
scan _ _ _ u deflt = deflt

unfoldable pub table_get : Table → ℕ → ℕ → ℕ
table_get t u deflt = scan t.size t.from t.to u deflt

-- The growth of both arrays when the table is full.
unfoldable pub reserve : Table → Table
reserve t =
    if t.size == t.capacity
    then record t { capacity = if t.capacity == 0 then 8 else t.capacity * 2 }
    else t

unfoldable pub table_add : Table → ℕ → ℕ → Status × Table
unfolding reserve
table_add t from to =
    if from == to
    then (status_ok, t)
    else let grown = reserve t in
      if not (table_get grown from no_id == no_id) then (duplicate_key, grown) else (
        status_ok,
        record grown {
          from = put_cell grown.from grown.size from;
          to = put_cell grown.to grown.size to;
          size = grown.size + 1;
        },
      )
