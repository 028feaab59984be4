-- ===== src/Usermap/Cells.antt =====
-- The cells of the tables of src/usermap.c that src/bindfs.c fills in pairs, from any ids.
use bindfs.Base.{
  ℕ, suc, List, ◌≡◌, refl, sym, ◌≢◌, [], ◌∷◌, ◌++◌, some, ◌⊎◌, inl, inr, ℕ_discrete, arith,
}
use bindfs.Base.{length, length-append, All}
use bindfs.Usermap.Arrays.{status_ok, Table, no_id, table_add, put_cell, empty_table}
use bindfs.Usermap.Laws.{put_cell-length, reserve-from, reserve-to, reserve-size}
use bindfs.Usermap.Inverse.{
  IsInverse, IsInverse-sym, add_both, added, add_both-IsInverse, empty_table-IsInverse,
}

-- Both arrays have `size` cells.
pub record IsEven (t : Table) : Type 0 where
  pub froms : length t.from ≡ t.size
  pub tos : length t.to ≡ t.size

-- No cell holds `(uid_t)-1`.
pub record IsUnmarked (t : Table) : Type 0 where
  pub from_ids : All (λ v. v ≢ no_id) t.from
  pub to_ids : All (λ v. v ≢ no_id) t.to

put_cell-end : (xs : List ℕ) (n v : ℕ) → length xs ≡ n → put_cell xs n v ≡ xs ++ (v ∷ [])
put_cell-end xs n v h = rw (← h) (put_cell-length xs v)

table_add_same : (t : Table) (from to : ℕ) → from ≡ to → (table_add t from to).1 ≡ t
unfolding table_add
table_add_same t from to h = ground arith

-- An addition that succeeds and is not of an id to itself writes behind the cells.
module _ (t : Table) (from to : ℕ) (even : IsEven t) (differ : from ≢ to) where
  table_add-from :
      (table_add t from to).0 ≡ status_ok → (table_add t from to).1.from ≡ t.from ++ (from ∷ [])
  unfolding table_add
  table_add-from h =
      ground (arith, put_cell-end t.from t.size from even.froms, reserve-from t, reserve-size t)

  table_add-to :
      (table_add t from to).0 ≡ status_ok → (table_add t from to).1.to ≡ t.to ++ (to ∷ [])
  unfolding table_add
  table_add-to h =
      ground (arith, put_cell-end t.to t.size to even.tos, reserve-to t, reserve-size t)

  table_add-size : (table_add t from to).0 ≡ status_ok → (table_add t from to).1.size ≡ suc t.size
  unfolding table_add
  table_add-size h = ground (arith, reserve-size t)

table_add-IsEven :
    (t : Table) (from to : ℕ)
    → IsEven t
    → (table_add t from to).0 ≡ status_ok
    → IsEven (table_add t from to).1
table_add-IsEven t from to even h = elim (ℕ_discrete from to) [
  | yes same ↦ rw (table_add_same t from to same) even
  | no differ ↦ record {
    froms =
        rw (table_add-from t from to even differ h, table_add-size t from to even differ h)
          (omega (arith, length-append t.from (from ∷ []), even.froms));
    tos =
        rw (table_add-to t from to even differ h, table_add-size t from to even differ h)
          (omega (arith, length-append t.to (to ∷ []), even.tos));
  }
]

All-front :
    (Good : ℕ → Type 0) (front back : List ℕ)
    → All Good (front ++ back)
    → All Good front × All Good back
All-front Good [] back h = (tt, h)
All-front Good (a ∷ front) back (first, rest) =
    let (h, h') = All-front Good front back rest in ((first, h), h')

-- What was in the table before is in it still, and so is the pair that was added.
table_add-IsUnmarked :
    (t : Table) (from to : ℕ)
    → IsEven t
    → (table_add t from to).0 ≡ status_ok
    → IsUnmarked (table_add t from to).1
    → IsUnmarked t × ((from ≡ to) ⊎ ((from ≢ no_id) × (to ≢ no_id)))
table_add-IsUnmarked t from to even h u = elim (ℕ_discrete from to) [
  | yes same ↦ (rw (← table_add_same t from to same) u, inl same)
  | no differ ↦
      let (froms, f) =
        All-front _ t.from (from ∷ []) (rw (← table_add-from t from to even differ h) u.from_ids) in
      let (tos, e) =
        All-front _ t.to (to ∷ []) (rw (← table_add-to t from to even differ h) u.to_ids) in
      (record { from_ids = froms; to_ids = tos }, inr (f.0, e.0))
]

-- The two tables are filled in pairs.
pub record IsPaired (map reverse_map : Table) : Type 0 where
  pub even : IsEven map
  pub even_reverse : IsEven reverse_map
  pub inverse : IsUnmarked map → IsUnmarked reverse_map → IsInverse map reverse_map

pub empty_table-IsPaired : IsPaired empty_table empty_table
unfolding empty_table
empty_table-IsPaired = record {
  even = record { froms = refl; tos = refl };
  even_reverse = record { froms = refl; tos = refl };
  inverse = λ u u'. empty_table-IsInverse;
}

pub IsPaired-sym : {map reverse_map : Table} → IsPaired map reverse_map → IsPaired reverse_map map
IsPaired-sym p = record {
  even = p.even_reverse;
  even_reverse = p.even;
  inverse = λ u u'. IsInverse-sym (p.inverse u' u);
}

add_both_kept :
    (map reverse_map : Table) (from to : ℕ) {map' reverse' : Table}
    → (from ≡ to) ⊎ ((from ≢ no_id) × (to ≢ no_id))
    → IsInverse map reverse_map
    → add_both map reverse_map from to ≡ some (map', reverse')
    → IsInverse map' reverse'
add_both_kept map reverse_map from to (inl same) v h =
    let (e, e', k, k') = added map reverse_map from to h in
    rw (e, e', table_add_same map from to same, table_add_same reverse_map to from (sym same)) v
add_both_kept map reverse_map from to (inr (f, t)) v h =
    add_both-IsInverse map reverse_map from to f t v h

pub add_both-IsPaired :
    (map reverse_map : Table) (from to : ℕ) {map' reverse' : Table}
    → IsPaired map reverse_map
    → add_both map reverse_map from to ≡ some (map', reverse')
    → IsPaired map' reverse'
add_both-IsPaired map reverse_map from to {map'} {reverse'} p h =
    let (e, e', k, k') = added map reverse_map from to h in
    record {
      even = rw e (table_add-IsEven map from to p.even k);
      even_reverse = rw e' (table_add-IsEven reverse_map to from p.even_reverse k');
      inverse = λ u u'.
          let (u0, ids) = table_add-IsUnmarked map from to p.even k (rw (← e) u) in
          let (u1, ids') =
            table_add-IsUnmarked reverse_map to from p.even_reverse k' (rw (← e') u') in
          add_both_kept map reverse_map from to ids (p.inverse u0 u1) h;
    }
