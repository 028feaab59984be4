-- ===== src/Usermap/Inverse.antt =====
-- The two tables that src/bindfs.c fills together, one to show ids and one to translate them back.
use bindfs.Base.{ℕ, zero, suc, ◌≡◌, refl, sym, ◌∙◌, ◌≢◌, Option, none, some, List, [], ◌∷◌, arith}
use bindfs.Usermap.Arrays.{status_ok, duplicate_key, Table, no_id, empty_table, scan}
use bindfs.Usermap.Arrays.{table_get, table_add}
use bindfs.Usermap.Laws.{IsValid, empty_table-IsValid, table_add-IsValid, table_add_lem}

-- `usermap_add(map, from, to)` and then `usermap_add(reverse_map, to, from)`, as `parse_user_map` and
-- `parse_map_file` make the calls; `none` is the jump to their error exit.
unfoldable pub add_both : Table → Table → ℕ → ℕ → Option (Table × Table)
add_both map reverse_map from to =
    let (status, map') = table_add map from to in
    elim status [
      | duplicate_key ↦ none
      | status_ok ↦
          let (status', reverse') = table_add reverse_map to from in
          elim status' [ duplicate_key ↦ none | status_ok ↦ some (map', reverse') ]
    ]

-- Each table undoes the other, on the ids that it holds.
pub record IsInverse (map reverse_map : Table) : Type 0 where
  pub valid : IsValid map
  pub valid_reverse : IsValid reverse_map
  pub there :
      (a b : ℕ)
      → a ≢ no_id
      → b ≢ no_id
      → table_get map a no_id ≡ b
      → table_get reverse_map b no_id ≡ a
  pub back :
      (a b : ℕ)
      → a ≢ no_id
      → b ≢ no_id
      → table_get reverse_map b no_id ≡ a
      → table_get map a no_id ≡ b

pub IsInverse-sym :
    {map reverse_map : Table} → IsInverse map reverse_map → IsInverse reverse_map map
IsInverse-sym v = record {
  valid = v.valid_reverse;
  valid_reverse = v.valid;
  there = λ a b p q e. v.back b a q p e;
  back = λ a b p q e. v.there b a q p e;
}

table_get-empty : (u d : ℕ) → table_get empty_table u d ≡ d
unfolding table_get empty_table scan
table_get-empty u d = refl

pub empty_table-IsInverse : IsInverse empty_table empty_table
empty_table-IsInverse = record {
  valid = empty_table-IsValid;
  valid_reverse = empty_table-IsValid;
  there = λ a b p q h. ground (arith, table_get-empty a no_id);
  back = λ a b p q h. ground (arith, table_get-empty b no_id);
}

-- What a pair of additions that succeeds leaves in the two tables.
pub added :
    (map reverse_map : Table) (from to : ℕ) {map' reverse' : Table}
    → add_both map reverse_map from to ≡ some (map', reverse')
    → (map' ≡ (table_add map from to).1)
      × (reverse' ≡ (table_add reverse_map to from).1)
      × ((table_add map from to).0 ≡ status_ok)
      × ((table_add reverse_map to from).0 ≡ status_ok)
unfolding add_both
added map reverse_map from to h = ground arith

-- A pair of additions that succeeds keeps the two tables inverse to one another, if neither id is
-- `(uid_t)-1`.
pub add_both-IsInverse :
    (map reverse_map : Table) (from to : ℕ) {map' reverse' : Table}
    → from ≢ no_id
    → to ≢ no_id
    → IsInverse map reverse_map
    → add_both map reverse_map from to ≡ some (map', reverse')
    → IsInverse map' reverse'
add_both-IsInverse map reverse_map from to {map'} {reverse'} pf pt v h =
    let done = added map reverse_map from to h in
    let seen = table_add_lem map from to v.valid in
    let seen' = table_add_lem reverse_map to from v.valid_reverse in
    record {
      valid = ground (arith, done, table_add-IsValid map from to v.valid pt);
      valid_reverse =
          ground (arith, done, table_add-IsValid reverse_map to from v.valid_reverse pf);
      there = λ a b p q e.
          ground (arith, done, seen.0, seen.1 a no_id, seen'.0, seen'.1 b no_id, v.there a b p q);
      back = λ a b p q e.
          ground (arith, done, seen.0, seen.1 a no_id, seen'.0, seen'.1 b no_id, v.back a b p q);
    }

scan_found :
    (n : ℕ) (fs ts : List ℕ) (u d : ℕ)
    → scan n fs ts u no_id ≢ no_id
    → scan n fs ts u d ≡ scan n fs ts u no_id
unfolding scan
scan_found (suc n) (f ∷ fs) (t ∷ ts) u d h = ground (arith, scan_found n fs ts u d)
scan_found zero fs ts u d h = absurd (h refl)
scan_found (suc n) [] ts u d h = absurd (h refl)
scan_found (suc n) (f ∷ fs) [] u d h = absurd (h refl)

table_get_found :
    (t : Table) (u d : ℕ) → table_get t u no_id ≢ no_id → table_get t u d ≡ table_get t u no_id
unfolding table_get
table_get_found t u d h = scan_found t.size t.from t.to u d h

-- An id that the table translates comes back through the other table, whatever the defaults.
pub table_get-table_get :
    {map reverse_map : Table} (u d d' : ℕ)
    → IsInverse map reverse_map
    → u ≢ no_id
    → table_get map u no_id ≢ no_id
    → table_get reverse_map (table_get map u d) d' ≡ u
table_get-table_get {map} {reverse_map} u d d' v p q =
    let back = v.there u (table_get map u no_id) p q refl in
    ground (
      arith,
      table_get_found map u d q,
      table_get_found reverse_map (table_get map u no_id) d' (λ e. p (sym back ∙ e)),
    )
