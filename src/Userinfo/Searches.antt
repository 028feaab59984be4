-- ===== src/Userinfo/Searches.antt =====
-- The binary searches of src/userinfo.c in the arrays that it has sorted.
use bindfs.Base.{
  ℕ, ◌^◌, ◌<◌, ◌≡◌, refl, sym, inl, inr, List, [], ◌∷◌, some, Bool, true, false, Option-cases, not,
  ◌||◌, All, Mem, All-Mem, Mem-All, arith,
}
use bindfs.Base.Int.{pos, sub_ℕ}
use bindfs.Base.Text.{Bytes}
use bindfs.Userinfo.Cache.{
  UidCacheEntry, Databases, to_int, uid_cache_name_sortcmp, uid_cache_name_searchcmp,
  rebuild_uid_cache, sorted_by_name,
}
use bindfs.Userinfo.Spec.{IsSorting}
use bindfs.Userinfo.Answers.{to_int-zero}
use bindfs.Userinfo.Sorted.{
  not_above, below, IsOrder, IsSorted, IsPartitioned, IsFinding, id_sortcmp, id_searchcmp,
  id_sortcmp-IsOrder, IsSorted-IsPartitioned,
}

to_int_self : (a : ℕ) → to_int (sub_ℕ a a) ≡ pos 0
unfolding to_int
to_int_self a = ground arith

implied : (a b : Bool) → (a ≡ true → b ≡ true) → (not a || b) ≡ true
implied true b k = k refl
implied false b k = refl

module _ (sys : Databases) (sorting : IsSorting sys) (finding : IsFinding sys) where
  -- A search by id finds an entry with the id, if there is one.
  pub search_id :
      {A : Type 0} (id : A → ℕ) (xs : List A) (key : ℕ) (a : A)
      → key < 2 ^ 31
      → All (λ b. id b < 2 ^ 31) xs
      → Mem a xs
      → id a ≡ key
      → (b : A) × (sys.bsearch (id_searchcmp id) key (sys.qsort (id_sortcmp id) xs) ≡ some b)
        × Mem b xs
        × (id b ≡ key)
  search_id id xs key a small smalls m e =
      let ys = sys.qsort (id_sortcmp id) xs in
      let smalls' : All (λ b. id b < 2 ^ 31) ys =
        Mem-All _ ys λ b n. All-Mem _ xs b smalls (sorting.qsort_keeps (id_sortcmp id) xs b n) in
      let sorted = finding.qsort_sorts (id_sortcmp id) xs (id_sortcmp-IsOrder id xs smalls) in
      let parts = IsSorted-IsPartitioned id key ys small smalls' sorted in
      elim (Option-cases (sys.bsearch (id_searchcmp id) key ys)) [
        | inl n ↦ absurd (
            All-Mem _ ys a (finding.bsearch_misses (id_searchcmp id) key ys parts n)
              (finding.qsort_moves (id_sortcmp id) xs a m) (rw e (to_int_self key)))
        | inr (b, n) ↦
            let (mb, z) = sorting.bsearch_finds (id_searchcmp id) key ys b n in
            (
              b,
              n,
              sorting.qsort_keeps (id_sortcmp id) xs b mb,
              sym (
                  to_int-zero key (id b) (omega (arith, small))
                    (omega (arith, All-Mem _ ys b smalls' mb)) z),
            )
      ]

  name_cmp-IsOrder : (xs : List UidCacheEntry) → IsOrder (λ a b. uid_cache_name_sortcmp sys a b) xs
  name_cmp-IsOrder xs = record {
    total = λ a b m n. finding.strcmp_total a.username b.username;
    transitive = λ a b c m n o h k. finding.strcmp_not_above a.username b.username c.username h k;
  }

  name_cmp-IsPartitioned :
      (key : Bytes) (xs : List UidCacheEntry)
      → IsSorted (λ a b. uid_cache_name_sortcmp sys a b) xs
      → IsPartitioned (λ e. uid_cache_name_searchcmp sys key e) xs
  name_cmp-IsPartitioned key [] sorted = tt
  name_cmp-IsPartitioned key (a ∷ xs) (least, sorted) = (
    Mem-All _ xs λ b m.
        implied (not_above (sys.strcmp key a.username)) _
          λ h. finding.strcmp_not_above key a.username b.username h (All-Mem _ xs b least m),
    Mem-All _ xs λ b m.
        implied (below (sys.strcmp key a.username)) _
          λ h. finding.strcmp_below key a.username b.username h (All-Mem _ xs b least m),
    name_cmp-IsPartitioned key xs sorted,
  )

  -- A search by name finds an entry with the name, if there is one.
  pub search_name :
      (e : UidCacheEntry)
      → Mem e (sorted_by_name sys)
      → (b : UidCacheEntry) × (sys.bsearch
            (λ k a. uid_cache_name_searchcmp sys k a)
            e.username
            (sorted_by_name sys)
          ≡ some b)
        × Mem b (sorted_by_name sys)
        × (b.username ≡ e.username)
  unfolding sorted_by_name
  search_name e m =
      let ys = sorted_by_name sys in
      let sorted =
        finding.qsort_sorts (λ a b. uid_cache_name_sortcmp sys a b) (rebuild_uid_cache sys)
          (name_cmp-IsOrder (rebuild_uid_cache sys)) in
      let parts = name_cmp-IsPartitioned e.username ys sorted in
      let compar = λ (k : Bytes) (a : UidCacheEntry). uid_cache_name_searchcmp sys k a in
      elim (Option-cases (sys.bsearch compar e.username ys)) [
        | inl n ↦ absurd (
            All-Mem _ ys e (finding.bsearch_misses compar e.username ys parts n) m
              (finding.strcmp_self e.username))
        | inr (b, n) ↦
            let (mb, z) = sorting.bsearch_finds compar e.username ys b n in
            (b, n, mb, sym (sorting.strcmp_equal e.username b.username z))
      ]
