-- ===== src/Usermap/Laws.antt =====
-- src/usermap.c: a table keeps its cells within its capacity, and an addition is seen by every later
-- lookup.
use bindfs.Base.{ℕ, zero, suc, ◌+◌, ◌≤◌, ◌≡◌, refl, ◌≢◌, List, [], ◌∷◌, ◌++◌, arith}
use bindfs.Base.{not, ◌&&◌, ◌||◌, ◌==◌, if◌then◌else◌, length, length-append, All, All-append}
use bindfs.Usermap.Arrays.{status_ok, duplicate_key, Table, no_id, put_cell, scan}
use bindfs.Usermap.Arrays.{empty_table, table_get, reserve, table_add}

-- Every table that additions build: the arrays hold `size` cells within the capacity, and no key is
-- sent to `(uid_t)-1`, the value by which the code marks a missing key.
pub record IsValid (t : Table) : Type 0 where
  pub room : t.size ≤ t.capacity
  pub froms : length t.from ≡ t.size
  pub tos : length t.to ≡ t.size
  pub marks : All (λ v. v ≢ no_id) t.to

pub empty_table-IsValid : IsValid empty_table
unfolding empty_table
empty_table-IsValid = record { room = omega arith; froms = refl; tos = refl; marks = tt }

pub put_cell-length : (xs : List ℕ) (v : ℕ) → put_cell xs (length xs) v ≡ xs ++ (v ∷ [])
unfolding put_cell
put_cell-length [] v = refl
put_cell-length (x ∷ xs) v = ground (arith, put_cell-length xs v)

-- A missing key is one whose lookup gives the default, whatever that is.
scan_missing :
    (n : ℕ) (fs ts : List ℕ) (u d : ℕ)
    → All (λ v. v ≢ no_id) ts
    → scan n fs ts u no_id ≡ no_id
    → scan n fs ts u d ≡ d
unfolding scan
scan_missing (suc n) (f ∷ fs) (t ∷ ts) u d (h, hs) e = ground (arith, scan_missing n fs ts u d hs)
scan_missing zero fs ts u d h e = refl
scan_missing (suc n) [] ts u d h e = refl
scan_missing (suc n) (f ∷ fs) [] u d h e = refl

scan-append :
    (fs ts : List ℕ) (f t u d : ℕ)
    → length ts ≡ length fs
    → scan (suc (length fs)) (fs ++ (f ∷ [])) (ts ++ (t ∷ [])) u d
      ≡ scan (length fs) fs ts u (if f == u then t else d)
unfolding scan
scan-append [] [] f t u d h = refl
scan-append [] (y ∷ ts) f t u d h = absurd (omega arith)
scan-append (x ∷ fs) [] f t u d h = absurd (omega arith)
scan-append (x ∷ fs) (y ∷ ts) f t u d h = ground (arith, scan-append fs ts f t u d (omega arith))

scan-put_cell :
    (n : ℕ) (fs ts : List ℕ) (f t u d : ℕ)
    → length fs ≡ n
    → length ts ≡ n
    → All (λ v. v ≢ no_id) ts
    → scan n fs ts f no_id ≡ no_id
    → scan (n + 1) (put_cell fs n f) (put_cell ts n t) u d
      ≡ (if f == u then t else scan n fs ts u d)
scan-put_cell n fs ts f t u d hf ht marks absent = ground (
  arith,
  put_cell-length fs f,
  put_cell-length ts t,
  scan-append fs ts f t u d (omega arith),
  scan_missing n fs ts f t marks absent,
)

-- The table has room for one more entry.
reserve-room : (t : Table) → IsValid t → suc t.size ≤ (reserve t).capacity
unfolding reserve
reserve-room t v = ground arith

-- Only the capacity changes.
pub reserve-from : (t : Table) → (reserve t).from ≡ t.from
unfolding reserve
reserve-from t = ground arith

pub reserve-to : (t : Table) → (reserve t).to ≡ t.to
unfolding reserve
reserve-to t = ground arith

pub reserve-size : (t : Table) → (reserve t).size ≡ t.size
unfolding reserve
reserve-size t = ground arith

-- The entry at the end that `table_add` writes, into a table that has room for it.
abbrev extend : Table → ℕ → ℕ → Table
extend t from to = record t {
  from = put_cell t.from t.size from;
  to = put_cell t.to t.size to;
  size = t.size + 1;
}

reserve-IsValid : (t : Table) → IsValid t → IsValid (reserve t)
reserve-IsValid t v = record {
  room = omega (arith, reserve-room t v, reserve-size t);
  froms = rw (reserve-from, reserve-size) v.froms;
  tos = rw (reserve-to, reserve-size) v.tos;
  marks = rw reserve-to v.marks;
}

extend-IsValid :
    (t : Table) (from to : ℕ)
    → IsValid t
    → suc t.size ≤ t.capacity
    → to ≢ no_id
    → IsValid (extend t from to)
extend-IsValid t from to v room ne = record {
  room = omega arith;
  froms = rw (← v.froms, put_cell-length) (omega (arith, length-append t.from (from ∷ [])));
  tos = rw (← v.tos, put_cell-length) (omega (arith, length-append t.to (to ∷ [])));
  marks = rw (← v.tos, put_cell-length) (All-append _ t.to (to ∷ []) v.marks (ne, tt));
}

table_get-reserve : (t : Table) (u d : ℕ) → table_get (reserve t) u d ≡ table_get t u d
unfolding table_get
table_get-reserve t u d = rw (reserve-from, reserve-to, reserve-size)

table_get-extend :
    (t : Table) (from to u d : ℕ)
    → IsValid t
    → table_get t from no_id ≡ no_id
    → table_get (extend t from to) u d ≡ (if from == u then to else table_get t u d)
unfolding table_get
table_get-extend t from to u d v absent =
    scan-put_cell t.size t.from t.to from to u d v.froms v.tos v.marks absent

-- `usermap_add_uid` and `usermap_add_gid` keep a table valid, whatever status they return; the write
-- goes to a cell that the growth has made room for.
pub table_add-IsValid :
    (t : Table) (from to : ℕ) → IsValid t → to ≢ no_id → IsValid (table_add t from to).1
unfolding table_add
table_add-IsValid t from to v ne = ground (
  arith,
  reserve-IsValid t v,
  reserve-room t v,
  reserve-size t,
  extend-IsValid (reserve t) from to (reserve-IsValid t v)
      (omega (arith, reserve-room t v, reserve-size t)) ne,
)

-- What an addition returns and what every later lookup gives, on each of its branches.
pub table_add_lem :
    (t : Table) (from to : ℕ)
    → IsValid t
    → ((table_add t from to).0
        ≡ (if from == to || (table_get t from no_id == no_id) then status_ok else duplicate_key))
      × ((u d : ℕ)
          → table_get (table_add t from to).1 u d ≡ (
              if not (from == to) && (table_get t from no_id == no_id) && (from == u)
              then to
              else table_get t u d))
unfolding table_add
table_add_lem t from to v = (
  ground (arith, table_get-reserve t from no_id),
  λ u d. ground (
    arith,
    table_get-reserve t from no_id,
    table_get-reserve t u d,
    table_get-extend (reserve t) from to u d (reserve-IsValid t v),
  ),
)

-- A key that the table does not hold gives the default.
pub table_get_missing :
    (t : Table) (u d : ℕ) → IsValid t → table_get t u no_id ≡ no_id → table_get t u d ≡ d
unfolding table_get
table_get_missing t u d v h = scan_missing t.size t.from t.to u d v.marks h
